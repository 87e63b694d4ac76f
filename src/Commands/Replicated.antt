-- ===== src/Commands/Replicated.antt =====
-- From the workers of a master to the database of a slave: backlogFeed, the merge, the append-only file,
-- onSendIncrToSlave and CommandAof::exec.
use naruto.Prelude.{
  ℕ, ◌+◌, ◌^◌, ◌<◌, ◌≡◌, refl, sym, subst, take, drop, ap, ap₂, ◌∙◌, Bool, true, false, ◌&&◌,
  Option, none, some, List, [], ◌∷◌, ◌++◌, append-nil, length, length-append, All, All-append,
  IsBytes, leb, le→leb, if◌then◌else◌, concat, arith,
}
use naruto.Prelude.Maps.{String, equal, equal_refl}
use naruto.Prelude.Int.{ℤ}
use naruto.Codec.{le_value}
use naruto.Loader.{Entry, load_file}
use naruto.Loader.Drain.{IsEntry, pack_of, packs_of}
use naruto.Loader.Whole.{pack_of-IsBytes, load_file-file_of}
use naruto.Hset.{CommandHset}
use naruto.Sink.{RotateFileStream}
use naruto.Sink.Checkpoint.{joined, since}
use naruto.Backlog.{Backlog}
use naruto.Backlog.Feed.{Call, raw, message, copied, pack_of_call}
use naruto.Backlog.Rounds.{IsFresh}
use naruto.Backlog.Whole.{packs_of_calls}
use naruto.Backlog.Runs.{IsSchedule, IsGrown, run_rounds, run_rounds-IsGrown}
use naruto.AofName.{parse_file_name}
use naruto.AofName.Names.{aof_name, parse_file_name-aof_name}
use naruto.Psync.{SlaveLink}
use naruto.SlaveFeed.{on_send_incr_to_slave}
use naruto.Commands.{Applied}
use naruto.Commands.Replay.{IsText}
use naruto.Commands.CatchUp.{CatchesUp, on_send_incr_to_slave-CatchesUp}

-- The files of the stream, by their names.
abbrev file_at : RotateFileStream → String → Option ℤ → Option (List ℕ)
file_at s name (some (ℤ.pos i)) =
    if leb i s.idx && equal name (aof_name i) then some (s.files i) else none
file_at s name (some (ℤ.negsuc i)) = none
file_at s name none = none

abbrev pub named_files : RotateFileStream → String → Option (List ℕ)
named_files s name = file_at s name (parse_file_name name)

named_files-aof_name :
    (s : RotateFileStream) (i : ℕ)
    → i < 2 ^ 31
    → named_files s (aof_name i) ≡ (if leb i s.idx then some (s.files i) else none)
named_files-aof_name s i h =
    rw (parse_file_name-aof_name i h, equal_refl (aof_name i)) (drop_test _ (leb i s.idx))
  where
    drop_test :
        (o : Option (List ℕ)) (b : Bool) → (if b && true then o else none) ≡ (if b then o else none)
    drop_test o true = refl
    drop_test o false = refl

-- The entry of a call: a pack that is copied is cut after its head.
abbrev pub entry_of_call : Call → Entry
entry_of_call (raw t msg type) = record { flag = 0; type = type; body = msg }
entry_of_call (message t msg type) = record { flag = 0; type = type; body = msg }
entry_of_call (copied t b) = record {
  flag = 0;
  type = le_value (take 2 (drop 6 b.buf));
  body = drop 8 b.buf;
}

-- A command whose message has no zero byte: as bytes, from a message, or as the pack of a message.
abbrev pub IsCommand : Call → Type 0
IsCommand c =
    IsText (entry_of_call c).body
    × IsEntry (entry_of_call c)
    × (pack_of_call c ≡ pack_of (entry_of_call c))

-- The commands of the calls, as the loader gives them.
abbrev pub entries_of : List Call → List Entry
entries_of [] = []
entries_of (c ∷ cs) = entry_of_call c ∷ entries_of cs

-- The bytes are the packs of entries that the loader and a C string take.
record Carried (bytes : List ℕ) (es : List Entry) : Type 0 where
  packs : bytes ≡ packs_of es
  in_range : IsBytes bytes
  entries : All IsEntry es
  text : All (λ (e : Entry). IsText e.body) es

commands-Carried : (cs : List Call) → All IsCommand cs → Carried (packs_of_calls cs) (entries_of cs)
commands-Carried [] h = record { packs = refl; in_range = tt; entries = tt; text = tt }
commands-Carried (c ∷ cs) ((x, v, p), h) =
    let k = commands-Carried cs h in
    record {
      packs = ap₂ ◌++◌ p k.packs;
      in_range =
          All-append _ (pack_of_call c) (packs_of_calls cs)
            (subst IsBytes (sym p) (pack_of-IsBytes (entry_of_call c) v)) k.in_range;
      entries = (v, k.entries);
      text = (x, k.text);
    }

-- The file that is written, when the rounds stay in it.
grown_file :
    (css : List (List Call)) (s s' : Backlog)
    → IsGrown css (record { name = s.aof_file.idx; offset = 0 }) s s'
    → s'.aof_file.idx ≡ s.aof_file.idx
    → s'.aof_file.files s.aof_file.idx
      ≡ s.aof_file.files s.aof_file.idx ++ packs_of_calls (concat css)
grown_file css s s' g e =
    sym (in_one s'.aof_file e)
    ∙ g.file
    ∙ ap (λ xs. xs ++ packs_of_calls (concat css)) (in_one s.aof_file refl)
  where
    in_one :
        (t : RotateFileStream)
        → t.idx ≡ s.aof_file.idx
        → since (record { name = s.aof_file.idx; offset = 0 }) t ≡ t.files s.aof_file.idx
    in_one t q =
        ap (λ n. t.files s.aof_file.idx ++ joined t.files (s.aof_file.idx + 1) n) {y = 0}
          (omega arith)
        ∙ append-nil (t.files s.aof_file.idx)

module _ (decode : List ℕ → CommandHset) (worker created now : ℕ) where
  replicated :
      (css : List (List Call)) (m m' : Backlog) (link : SlaveLink) (t : Applied)
      → Carried (packs_of_calls (concat css)) (entries_of (concat css))
      → IsBytes (m.aof_file.files m.aof_file.idx)
      → m.aof_file.idx + 1 < 2 ^ 31
      → link.repl_aof_file_name ≡ aof_name m.aof_file.idx
      → link.repl_aof_off ≡ length (m.aof_file.files m.aof_file.idx)
      → 0 < length (packs_of_calls (concat css))
      → length (packs_of_calls (concat css)) < 4096
      → link.repl_aof_off + length (packs_of_calls (concat css)) < 2 ^ 32
      → m'.aof_file.idx ≡ m.aof_file.idx
      → m'.aof_file.files m.aof_file.idx
        ≡ m.aof_file.files m.aof_file.idx ++ packs_of_calls (concat css)
      → CatchesUp decode worker created now
          (entries_of (concat css))
          t
          (on_send_incr_to_slave (named_files m'.aof_file) link)
  replicated css m m' link t c v l name off some_bytes few fits idx grown =
      on_send_incr_to_slave-CatchesUp decode worker created now (named_files m'.aof_file)
        m.aof_file.idx (before ++ packs_of_calls (concat css)) link (entries_of (concat css)) t l
        name here (All-append _ before _ v c.in_range) (omega (arith, len, off))
        (omega (arith, len, off)) (omega (arith, len, off)) loaded c.text
    where
      before : List ℕ
      before = m.aof_file.files m.aof_file.idx

      len :
          length (before ++ packs_of_calls (concat css))
          ≡ length before + length (packs_of_calls (concat css))
      len = length-append before (packs_of_calls (concat css))

      here :
          named_files m'.aof_file (aof_name m.aof_file.idx)
          ≡ some (before ++ packs_of_calls (concat css))
      here =
          named_files-aof_name m'.aof_file m.aof_file.idx (omega arith)
          ∙ rw (le→leb m.aof_file.idx m'.aof_file.idx (omega arith)) (ap some grown)

      loaded :
          load_file (before ++ packs_of_calls (concat css)) link.repl_aof_off
          ≡ some (entries_of (concat css))
      loaded =
          ap₂ (λ (xs : List ℕ) (o : ℕ). load_file (before ++ xs) o) c.packs off
          ∙ load_file-file_of before [] (entries_of (concat css)) tt c.entries
              (omega (arith, ap length c.packs)) (omega (arith, ap length c.packs))

  -- A master between two merges, and a link that stands at the end of its file. Let the workers issue commands,
  -- as bytes, messages or packs, each with a message without a zero byte and a type of 16 bits, in any number of
  -- rounds, which come to 1 to 4095 bytes of packs and leave the file below the size at which it is rotated. Every
  -- round ends, and then one message of the link brings a slave to what executing exactly these commands in the
  -- order of issue makes of it, and the slave stands where the link does. The file is shorter than 2 ^ 32 and
  -- holds bytes, and its number is an int.
  pub run_rounds-CatchesUp :
      (css : List (List Call)) (m : Backlog) (link : SlaveLink) (t : Applied)
      → IsFresh m
      → IsSchedule (length m.repl_0) m.repl_command_incr css
      → All IsCommand (concat css)
      → IsBytes (m.aof_file.files m.aof_file.idx)
      → m.aof_file.idx + 1 < 2 ^ 31
      → link.repl_aof_file_name ≡ aof_name m.aof_file.idx
      → link.repl_aof_off ≡ m.aof_file.offset
      → 0 < length (packs_of_calls (concat css))
      → length (packs_of_calls (concat css)) < 4096
      → m.aof_file.offset + length (packs_of_calls (concat css)) < 2 ^ 32
      → m.aof_file.offset + length (packs_of_calls (concat css)) < m.aof_file.rotate_size
      → (m' : Backlog) × (run_rounds css m ≡ some m')
        × CatchesUp decode worker created now
            (entries_of (concat css))
            t
            (on_send_incr_to_slave (named_files m'.aof_file) link)
  run_rounds-CatchesUp css m link t f h c v l name off some_bytes few fits room =
      let (m', e, g) =
        run_rounds-IsGrown css (record { name = m.aof_file.idx; offset = 0 }) m f
          (record { reached = omega arith; inside = omega arith }) h in
      (
        m',
        e,
        replicated css m m' link t (commands-Carried (concat css) c) v l name
            (off ∙ sym f.file_open.at_end) some_bytes few (omega (arith, off)) (g.same_file room)
            (grown_file css m m' g (g.same_file room)),
      )
