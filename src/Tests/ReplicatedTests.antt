-- ===== src/Tests/ReplicatedTests.antt =====
-- A master and a slave: a run on concrete inputs.
use naruto.Prelude.{ℕ, ◌≡◌, ◌≢◌, ◌<◌, ◌^◌, refl, some, List, [], ◌∷◌, ◌==◌, if◌then◌else◌, arith}
use naruto.Bytes.{Bytes}
use naruto.Sink.{RotateFileStream}
use naruto.Backlog.{Backlog}
use naruto.Backlog.Feed.{Call, IsCall, raw, message, copied}
use naruto.Backlog.Rounds.{IsFresh}
use naruto.Backlog.Runs.{IsSchedule, run_rounds}
use naruto.AofName.Names.{aof_name}
use naruto.Psync.{SlaveLink}
use naruto.SlaveFeed.{on_send_incr_to_slave}
use naruto.Commands.CatchUp.{CatchesUp}
use naruto.Commands.Replicated.{IsCommand, named_files, entries_of, run_rounds-CatchesUp}
use naruto.Tests.BacklogTests.{idle, idle-IsFresh}
use naruto.Tests.ConnectionTests.{read_hset, applied}
use naruto.Tests.SlaveFeedTests.{link}

-- The file 1 with two bytes in it, and room.
abbrev file_1 : RotateFileStream
file_1 = record {
  files = λ i. if i == 1 then 7 ∷ 7 ∷ [] else [];
  idx = 1;
  offset = 2;
  rotate_size = 4096;
}

abbrev master : Backlog
master = record idle { aof_file = file_1 }

master-IsFresh : IsFresh master
unfolding naruto.Backlog.workers_at
master-IsFresh = record {
  side = idle-IsFresh.side;
  width = idle-IsFresh.width;
  empty = idle-IsFresh.empty;
  logged = refl;
  file_open = record { at_end = refl; fresh = λ i h. ground arith };
}

-- The pack of an HSET in the buffer of a link, behind its reader.
abbrev hset_pack : Bytes
hset_pack = record { buf = 9 ∷ 0 ∷ 0 ∷ 0 ∷ 0 ∷ 0 ∷ 208 ∷ 7 ∷ 109 ∷ []; rpos = 8; wpos = 9 }

hset_pack-IsCall : IsCall (copied 1 hset_pack)
unfolding naruto.Codec.le_bytes
hset_pack-IsCall = (omega arith, (0 ∷ 0 ∷ 208 ∷ 7 ∷ 109 ∷ [], refl, omega arith))

hset_pack-IsCommand : IsCommand (copied 1 hset_pack)
unfolding naruto.Codec.le_bytes naruto.Codec.le_value
hset_pack-IsCommand = (((λ e. cc), tt), (refl, omega arith, omega arith, omega arith), refl)

-- Two rounds: an HSET of worker 1, then two commands of worker 0 and worker 1.
abbrev rounds : List (List Call)
rounds = (raw 1 (107 ∷ []) 2000 ∷ []) ∷ (message 0 (108 ∷ []) 2000 ∷ copied 1 hset_pack ∷ []) ∷ []

rounds-IsSchedule : IsSchedule 2 5 rounds
unfolding naruto.Codec.le_bytes
rounds-IsSchedule = (
  omega arith,
  omega arith,
  omega arith,
  omega arith,
  ((omega arith, (hset_pack-IsCall, tt)), omega arith, omega arith, omega arith, tt),
)

-- A command of one byte.
one_byte : (x type : ℕ) → x ≢ 0 → x < 256 → type < 2 ^ 16 → IsCommand (raw 0 (x ∷ []) type)
one_byte x type n b t = ((n, tt), (refl, t, (b, tt), omega arith), refl)

abbrev at_end_of_1 : SlaveLink
at_end_of_1 = record link { repl_aof_file_name = aof_name 1; repl_aof_off = 2 }

run_rounds-CatchesUp_example :
    (m' : Backlog) × (run_rounds rounds master ≡ some m')
    × CatchesUp read_hset 1 2 3
        (entries_of (raw 1 (107 ∷ []) 2000 ∷ message 0 (108 ∷ []) 2000 ∷ copied 1 hset_pack ∷ []))
        applied
        (on_send_incr_to_slave (named_files m'.aof_file) at_end_of_1)
unfolding naruto.Codec.le_bytes
run_rounds-CatchesUp_example =
    run_rounds-CatchesUp read_hset 1 2 3 rounds master at_end_of_1 applied master-IsFresh
      rounds-IsSchedule
      (
        one_byte 107 2000 (λ e. cc) (omega arith) (omega arith),
        (one_byte 108 2000 (λ e. cc) (omega arith) (omega arith), (hset_pack-IsCommand, tt)),
      )
      (omega arith) (omega arith) refl refl (omega arith) (omega arith) (omega arith) (omega arith)
