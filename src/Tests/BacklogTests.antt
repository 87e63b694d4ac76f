-- ===== src/Tests/BacklogTests.antt =====
-- The merge of the workers' buffers and the file behind it: runs on concrete inputs.
use naruto.Prelude.{ℕ, zero, suc, ◌≡◌, refl, some, List, [], ◌∷◌, get_or, arith}
use naruto.Prelude.Int.{ℤ}
use naruto.Bytes.{new}
use naruto.Sink.{RotateFileStream, cur_roll_file}
use naruto.Sink.Checkpoint.{IsPosition, IsOpen, since, write_all, since-cur_roll_file}
use naruto.Backlog.{Backlog, IndexLog, Cursor, merge_backlog, merge_loop, backlog_feed}
use naruto.Backlog.Feed.{Call, raw, message}
use naruto.Backlog.Rounds.{IsFresh}
use naruto.Backlog.Runs.{IsSchedule, IsGrown, run_rounds, run_rounds-IsGrown}

-- A stream on the file 1, cut at four bytes.
abbrev pub stream : RotateFileStream
stream = record { files = λ i. []; idx = 1; offset = 0; rotate_size = 4 }

stream-IsOpen : IsOpen stream
stream-IsOpen = record { at_end = refl; fresh = λ i h. refl }

since-cur_roll_file_example :
    since
      (cur_roll_file stream)
      (write_all ((1 ∷ 2 ∷ 3 ∷ 4 ∷ 5 ∷ []) ∷ (6 ∷ []) ∷ (7 ∷ 8 ∷ []) ∷ []) stream)
    ≡ 1 ∷ 2 ∷ 3 ∷ 4 ∷ 5 ∷ 6 ∷ 7 ∷ 8 ∷ []
since-cur_roll_file_example =
    since-cur_roll_file ((1 ∷ 2 ∷ 3 ∷ 4 ∷ 5 ∷ []) ∷ (6 ∷ []) ∷ (7 ∷ 8 ∷ []) ∷ []) stream
      stream-IsOpen

-- Two workers, nothing issued yet.
abbrev pub idle : Backlog
idle = record {
  repl_pos = 0;
  repl_0 = new ∷ new ∷ [];
  repl_1 = new ∷ new ∷ [];
  repl_merge_size = 2;
  repl_command_incr = 5;
  back_log = [];
  aof_file = stream;
  changes = 0;
  dirty = ℤ.pos 0;
  master_repl_offset = 0;
  master_flush_repl_offset = 0;
}

pub idle-IsFresh : IsFresh idle
unfolding naruto.Backlog.workers_at
idle-IsFresh = record {
  side = omega arith;
  width = refl;
  empty = two_empty;
  logged = refl;
  file_open = stream-IsOpen;
}
  where
    two_empty : (t : ℕ) → get_or (new ∷ new ∷ []) t new ≡ new
    two_empty zero = refl
    two_empty (suc zero) = refl
    two_empty (suc (suc t)) = refl

-- Worker 1, then worker 0, then worker 1 again.
abbrev calls : List Call
calls = raw 1 (1 ∷ 2 ∷ []) 2000 ∷ message 0 (3 ∷ []) 2001 ∷ raw 1 [] 2000 ∷ []

-- Three rounds: these calls, none, and one more.
abbrev rounds : List (List Call)
rounds = calls ∷ [] ∷ (message 1 (4 ∷ []) 2000 ∷ []) ∷ []

rounds-IsSchedule : IsSchedule 2 5 rounds
unfolding naruto.Codec.le_bytes
rounds-IsSchedule = omega arith

stream-IsPosition : IsPosition (cur_roll_file stream) stream
unfolding cur_roll_file
stream-IsPosition = record { reached = omega arith; inside = omega arith }

run_rounds-IsGrown_example :
    (s' : Backlog) × (run_rounds rounds idle ≡ some s')
    × IsGrown rounds (cur_roll_file stream) idle s'
run_rounds-IsGrown_example =
    run_rounds-IsGrown rounds (cur_roll_file stream) idle idle-IsFresh stream-IsPosition
      rounds-IsSchedule
