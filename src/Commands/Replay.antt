-- ===== src/Commands/Replay.antt =====
-- What a slave executes, and what a server executes at its start.
use naruto.Prelude.{
  ℕ, ◌^◌, ◌<◌, ◌≡◌, ◌≢◌, refl, ap, inl, inr, Option, none, some, List, [], ◌∷◌, ◌++◌, map, concat,
  All, sort_by, Bool-cases, Option-cases, ◌==◌, arith,
}
use naruto.Prelude.Maps.{String}
use naruto.Loader.{Entry, load_file}
use naruto.Hset.{CommandHset, Database}
use naruto.Backlog.{feed_raw}
use naruto.Backlog.Feed.{Call, raw, issue_all}
use naruto.ReplState.{ReplConf}
use naruto.AofName.Names.{aof_name}
use naruto.AofName.Directory.{numbered, from_number, list_aof-numbered}
use naruto.SlaveFeed.{c_string}
use naruto.SlaveFeed.Sent.{message_of}
use naruto.Commands.{Applied, exec_type, exec_all, exec_aof, replay, load_logs, load_aof}

-- No zero byte, which would end a C string.
abbrev pub IsText : List ℕ → Type 0
IsText = All (λ c. c ≢ 0)

c_string-IsText : (s : List ℕ) → IsText s → c_string s ≡ s
unfolding c_string
c_string-IsText [] h = refl
c_string-IsText (c ∷ s) h = elim (Bool-cases (c == 0)) [
  | inl t ↦ absurd (ground (arith, h.0))
  | inr f ↦ rw f (ap (λ cs. c ∷ cs) (c_string-IsText s h.1))
]

-- The calls of backlogFeed for the entries.
abbrev pub calls : ℕ → List Entry → List Call
calls worker = map (λ (e : Entry). raw worker e.body e.type)

module _ (decode : List ℕ → CommandHset) (worker created now : ℕ) where
  -- The entries are executed, and fed to the log of the slave.
  abbrev pub replayed : List Entry → Applied → Option Applied
  replayed es s = elim (replay decode created now es s.database) [
    | none ↦ none
    | some d ↦ some (record s { database = d; backlog = issue_all (calls worker es) s.backlog })
  ]

  exec_all-replayed :
      (es : List Entry) (s : Applied)
      → All (λ (e : Entry). IsText e.body) es
      → exec_all decode worker created now
          (map (λ (e : Entry). e.type) es)
          (map (λ (e : Entry). c_string e.body) es)
          s
        ≡ replayed es s
  unfolding exec_all replay
  exec_all-replayed [] s h = refl
  exec_all-replayed (e ∷ es) s h =
      rw (c_string-IsText e.body h.0)
        (elim (Option-cases (exec_type decode created now e.type e.body s.database)) [
          | inl q ↦ rw (exec_all, replayed, replay, q) refl
          | inr (d, q) ↦
              rw (exec_all, replayed, replay, q)
                (exec_all-replayed es
                  (record s { database = d; backlog = feed_raw worker e.body e.type s.backlog })
                  h.1)
        ])

  -- A message with entries that have no zero byte in them does to a slave what a replay of the entries does
  -- to its database, feeds each to the slave's log, and gives the link the position of the message; it ends
  -- the process exactly when the replay does.
  pub exec_aof-message_of :
      (es : List Entry) (after : String × ℕ) (s : Applied)
      → All (λ (e : Entry). IsText e.body) es
      → exec_aof decode worker created now (message_of es after) s
        ≡ elim (replay decode created now es s.database) [
          | none ↦ none
          | some d ↦ some (record {
            database = d;
            backlog = issue_all (calls worker es) s.backlog;
            link = record s.link { repl_aof_file_name = after.0; repl_aof_off = after.1 };
          })
        ]
  unfolding exec_aof
  exec_aof-message_of es after s h = elim (Option-cases (replay decode created now es s.database)) [
    | inl q ↦ rw (exec_aof, exec_all-replayed es s h, q) refl
    | inr (d, q) ↦ rw (exec_aof, exec_all-replayed es s h, q) refl
  ]

-- Each file is there, and the loader finds its entries from where it starts.
abbrev pub IsLog : (String → Option (List ℕ)) → List String → ℕ → List (List Entry) → Type 0
IsLog files [] off [] = Unit
IsLog files [] off (es ∷ ess) = ⊥
IsLog files (name ∷ names) off [] = ⊥
IsLog files (name ∷ names) off (es ∷ ess) =
    ((contents : List ℕ) × (files name ≡ some contents) × (load_file contents off ≡ some es))
    × IsLog files names 0 ess

module _ (decode : List ℕ → CommandHset) (created now : ℕ) where
  replay-append :
      (es es' : List Entry) (d : Database)
      → replay decode created now (es ++ es') d ≡ elim (replay decode created now es d) [
        | none ↦ none
        | some d' ↦ replay decode created now es' d'
      ]
  unfolding replay
  replay-append [] es' d = refl
  replay-append (e ∷ es) es' d =
      elim (Option-cases (exec_type decode created now e.type e.body d)) [
        | inl q ↦ rw (replay, q) refl
        | inr (d', q) ↦ rw (replay, q) (replay-append es es' d')
      ]

  load_logs-replay :
      (files : String → Option (List ℕ)) (names : List String) (off : ℕ) (ess : List (List Entry))
      (d : Database)
      → IsLog files names off ess
      → load_logs decode created now files names off d ≡ replay decode created now (concat ess) d
  unfolding load_logs replay
  load_logs-replay files [] off [] d h = refl
  load_logs-replay files [] off (es ∷ ess) d h = elim h [ ]
  load_logs-replay files (name ∷ names) off [] d h = elim h [ ]
  load_logs-replay files (name ∷ names) off (es ∷ ess) d ((contents, f, l), h) =
      elim (Option-cases (replay decode created now es d)) [
        | inl q ↦ rw (load_logs, f, l, replay-append es (concat ess) d, q) refl
        | inr (d', q) ↦
            rw (load_logs, f, l, replay-append es (concat ess) d, q)
              (load_logs-replay files names 0 ess d' h)
      ]

  -- A server that starts on a directory of numbered files, with a dump that goes with a position in the file
  -- a, replays the entries that the loader finds from this position on, and in the files from a on, in the
  -- order of their numbers. The files are there, and the numbers are ints.
  pub load_aof-replay :
      (a : ℕ) (ns : List ℕ) (files : String → Option (List ℕ)) (conf : ReplConf)
      (ess : List (List Entry)) (d : Database)
      → a < 2 ^ 31
      → All (λ n. n < 2 ^ 31) ns
      → conf.db_dump_aof_name ≡ aof_name a
      → IsLog files (map aof_name (sort_by (λ n. n) (from_number a ns))) conf.db_dump_aof_off ess
      → load_aof decode created now (numbered ns) files conf d
        ≡ replay decode created now (concat ess) d
  unfolding load_aof
  load_aof-replay a ns files conf ess d l v e h =
      rw (load_aof, e, list_aof-numbered a ns l v)
        (load_logs-replay files _ conf.db_dump_aof_off ess d h)
