-- ===== src/Backlog/Whole.antt =====
-- A round of replication as the server runs it: calls of backlogFeed, then the merge into the file.
use naruto.Prelude.{
  ℕ, ◌+◌, ◌-◌, ◌^◌, ◌<◌, ◌≡◌, refl, sym, subst, ap, ◌∙◌, some, List, [], ◌∷◌, ◌++◌, length, get_or,
  ◌==◌, All, arith, Bool-cases, inl, inr,
}
use naruto.Bytes.{Bytes, new}
use naruto.Bytes.Ends.{at_end}
use naruto.Sink.{FileState, cur_roll_file}
use naruto.Sink.Checkpoint.{IsOpen, IsPosition, Stays, since}
use naruto.Backlog.{Backlog, workers_at, merge_backlog, backlog_flush}
use naruto.Backlog.Merge.{Fed, packs, encode, mine}
use naruto.Backlog.Order.{feed_all}
use naruto.Backlog.Start.{Buffers}
use naruto.Backlog.Feed.{Call, worker, pack_of_call, IsCall, issue_all, fed_from, current, Kept}
use naruto.Backlog.Issue.{
  issue_all-Kept, issue_all_incr, issue_all-current, fed_from-Ascending, fed_from-IsFed,
  fed_from_worker, share_le,
}
use naruto.Backlog.Rounds.{
  IsFresh, Flushed, Swapped, Beside, swap, merge_backlog-feed_all, backlog_flush-Flushed,
  swap-Swapped, feed_all-Beside, feed_all-back_log, feed_all_offset, feed_all_file,
  feed_all_flushed, feed_all_incr,
}

-- The packs of the calls, one behind the other.
abbrev pub packs_of_calls : List Call → List ℕ
packs_of_calls [] = []
packs_of_calls (c ∷ cs) = pack_of_call c ++ packs_of_calls cs

packs-fed_from : (n : ℕ) (cs : List Call) → packs (fed_from n cs) ≡ packs_of_calls cs
packs-fed_from n [] = refl
packs-fed_from n (c ∷ cs) = ap (◌++◌ (pack_of_call c)) (packs-fed_from (n + 1) cs)

-- Calls that the worker threads may make in one round: each is for a worker that there is, the buffers stay
-- below 2 GiB and the counter does not wrap around.
pub record IsRound (cs : List Call) (s : Backlog) : Type 0 where
  pub calls : All IsCall cs
  pub workers : All (λ (c : Call). worker c < length (current s)) cs
  pub fits : length (encode (fed_from s.repl_command_incr cs)) < 2 ^ 31
  pub numbers : s.repl_command_incr + length cs < 2 ^ 64

-- What a round comes to.
pub record IsMerged (cs : List Call) (s s' : Backlog) : Type 0 where
  pub fresh : IsFresh s'
  pub other_side : s'.repl_pos ≡ 1 - s.repl_pos
  pub file : since (cur_roll_file s.aof_file) s'.aof_file ≡ packs_of_calls cs
  pub offset : s'.master_repl_offset ≡ s.master_repl_offset + length (packs_of_calls cs)
  pub flushed :
      s'.master_flush_repl_offset ≡ s.master_flush_repl_offset + length (packs_of_calls cs)
  pub behind :
      (c : FileState)
      → IsPosition c s.aof_file
      → (since c s'.aof_file ≡ since c s.aof_file ++ packs_of_calls cs) × IsPosition c s'.aof_file
  pub incr : s'.repl_command_incr ≡ s.repl_command_incr + length cs
  pub width : length s'.repl_0 ≡ length s.repl_0
  pub stays : Stays (packs_of_calls cs) s.aof_file s'.aof_file

current_width : (s s' : Backlog) → Kept s s' → length (current s') ≡ length (current s)
unfolding workers_at
current_width s s' k =
    rw k.pos
      (elim (Bool-cases (s.repl_pos == 0)) [ inl e ↦ rw e k.width_0 | inr e ↦ rw e k.width_1 ])

Beside-current : (s s' : Backlog) → Beside s s' → current s' ≡ current s
unfolding workers_at
Beside-current s s' b = rw (b.pos, b.set_0, b.set_1) refl

issue_all-Buffers :
    (cs : List Call) (s : Backlog)
    → IsFresh s
    → IsRound cs s
    → Buffers (current (issue_all cs s)) (fed_from s.repl_command_incr cs)
issue_all-Buffers cs s f r = record {
  fed = fed_from-IsFed s.repl_command_incr cs r.calls r.numbers;
  ascending = fed_from-Ascending s.repl_command_incr cs;
  worker =
      subst (λ w. All (λ (l : Fed). l.tid < w) (fed_from s.repl_command_incr cs))
        (sym (current_width s (issue_all cs s) (issue_all-Kept cs s)))
        (fed_from_worker s.repl_command_incr (length (current s)) cs r.workers);
  held = λ t k. ap Bytes.buf (buffer t);
  fits = λ t k. omega (
    arith,
    ap length (ap Bytes.buf (buffer t)),
    share_le t (fed_from s.repl_command_incr cs),
    r.fits,
  );
}
  where
    buffer :
        (t : ℕ)
        → get_or (current (issue_all cs s)) t new
          ≡ at_end (encode (mine t (fed_from s.repl_command_incr cs))) 0
    buffer t =
        issue_all-current cs s t [] r.calls r.workers (f.empty t) (omega (arith, r.fits)) r.numbers

merged_lem :
    (cs : List Call) (s m : Backlog)
    → IsFresh s
    → Kept s m
    → m.repl_command_incr ≡ s.repl_command_incr + length cs
    → (let ls = fed_from s.repl_command_incr cs in
        IsMerged cs s (backlog_flush (feed_all ls (swap m))))
merged_lem cs s m f k n = record {
  fresh = record {
    side = omega (arith, pos, f.side);
    width =
        ap length (fl.beside.set_0 ∙ be.set_0)
        ∙ sw.width
        ∙ sym (ap length (fl.beside.set_1 ∙ be.set_1));
    empty = λ t. subst (λ bs. get_or bs t new ≡ new) (sym same_set) (sw.empty t);
    logged = fl.log;
    file_open = fl.file_open;
  };
  other_side = pos;
  file =
      ap (λ file. since (cur_roll_file file) (backlog_flush (feed_all ls (swap m))).aof_file)
        (sym the_file)
      ∙ fl.file
      ∙ logged;
  offset =
      fl.offset
      ∙ feed_all_offset ls (swap m)
      ∙ omega (arith, sw.offset, k.offset, ap length (packs-fed_from s.repl_command_incr cs));
  flushed =
      omega
        (arith, fl.flushed, feed_all_flushed ls (swap m), sw.flushed, k.flushed, ap length logged);
  behind = λ c p.
      let (e, q) = fl.behind c (subst (IsPosition c) (sym the_file) p) in
      (
        e
            ∙ ap (λ file. since c file ++ (feed_all ls (swap m)).back_log) the_file
            ∙ ap (λ xs. since c s.aof_file ++ xs) logged,
        q,
      );
  incr = fl.incr ∙ feed_all_incr ls (swap m) ∙ sw.incr ∙ n;
  width = ap length (fl.beside.set_0 ∙ be.set_0) ∙ sw.kept_width ∙ k.width_0;
  stays =
      subst (λ file. Stays (packs_of_calls cs) file after.aof_file) the_file
        (subst (λ w. Stays w (feed_all ls (swap m)).aof_file after.aof_file) logged fl.stays);
}
  where
    ls : List Fed
    ls = fed_from s.repl_command_incr cs

    after : Backlog
    after = backlog_flush (feed_all ls (swap m))

    sw : Swapped m
    sw = swap-Swapped m (omega (arith, k.pos, f.side)) (k.width_0 ∙ f.width ∙ sym k.width_1)

    be : Beside (swap m) (feed_all ls (swap m))
    be = feed_all-Beside ls (swap m)

    the_file : (feed_all ls (swap m)).aof_file ≡ s.aof_file
    the_file = feed_all_file ls (swap m) ∙ sw.file ∙ k.file

    fl : Flushed (feed_all ls (swap m)) (backlog_flush (feed_all ls (swap m)))
    fl = backlog_flush-Flushed (feed_all ls (swap m)) (subst IsOpen (sym the_file) f.file_open)

    logged : (feed_all ls (swap m)).back_log ≡ packs_of_calls cs
    logged =
        feed_all-back_log ls (swap m)
        ∙ ap (λ l. l ++ packs ls) (sw.log ∙ k.log ∙ f.logged)
        ∙ packs-fed_from s.repl_command_incr cs

    pos : (backlog_flush (feed_all ls (swap m))).repl_pos ≡ 1 - s.repl_pos
    pos = fl.beside.pos ∙ be.pos ∙ ap (λ n. 1 - n) k.pos

    same_set : current (backlog_flush (feed_all ls (swap m))) ≡ current (swap m)
    same_set = Beside-current _ _ fl.beside ∙ Beside-current _ _ be

-- From a state between two merges, let the workers issue any commands in any order, each into its own
-- buffer, and then merge: the merge ends, the append-only file has grown by exactly the packs of those
-- commands in the order in which they were issued, both offsets have grown by as much, the log and the
-- other set of buffers are empty, and the two sets have changed roles.
pub merge_backlog-issue_all :
    (cs : List Call) (s : Backlog)
    → IsFresh s
    → IsRound cs s
    → (s' : Backlog) × (merge_backlog (issue_all cs s) ≡ some s') × IsMerged cs s s'
merge_backlog-issue_all cs s f r = (
  _,
  merge_backlog-feed_all (issue_all cs s) (fed_from s.repl_command_incr cs)
      (omega (arith, (issue_all-Kept cs s).pos, f.side)) (issue_all-Buffers cs s f r),
  merged_lem cs s (issue_all cs s) f (issue_all-Kept cs s) (issue_all_incr cs s r.numbers),
)
