-- ===== src/Bgsave.antt =====
-- replication/replication.cpp: the saving of the database by a child process, and the position in the
-- append-only file that goes with the saved database.
pub mod Position
use naruto.Prelude.{ℕ, zero, suc, ◌-◌, Bool, true, false, Option, none, some}
use naruto.Prelude.Int.{ℤ, ◌-ℤ◌}
use naruto.Prelude.Maps.{String}
use naruto.ReplState.{ReplConf}

-- The part of Replication that a save is kept in. A pid of -1 is none, and times are in milliseconds.
pub record Saver : Type 0 where
  pub conf : ReplConf
  pub dirty : ℤ
  pub dirty_before_bgsave : ℤ
  pub child_pid : Option ℕ
  pub aof_filename_before : String
  pub aof_off_before : ℕ
  pub last_try : ℕ
  pub time_start : ℕ
  pub fork_spends : ℕ
  pub time_last : ℕ
  pub last_status : ℕ

-- What the parent does once the child is there.
unfoldable pub bgsave_started : ℕ → ℕ → String → ℕ → Saver → Saver
bgsave_started pid now aof_name aof_off s = record s {
  child_pid = some pid;
  time_start = now;
  dirty_before_bgsave = s.dirty;
  aof_filename_before = aof_name;
  aof_off_before = aof_off;
  fork_spends = now - s.last_try;
}

-- bgsave(): the database has `size` keys, the fork gives the pid of the child or fails, and the stream of
-- the append-only file stands at `aof_name` and `aof_off`.
unfoldable pub bgsave : ℕ → Option ℕ → ℕ → ℕ → String → ℕ → Saver → Saver
bgsave zero fork tried now aof_name aof_off s = s
bgsave (suc size) fork tried now aof_name aof_off s = elim s.child_pid [
  | some running ↦ s
  | none ↦ elim fork [
    | none ↦ record s { last_try = tried }
    | some pid ↦ bgsave_started pid now aof_name aof_off (record s { last_try = tried })
  ]
]

-- onBgsaveFinish: the child is gone, and the file that it wrote has been renamed or not.
unfoldable pub on_bgsave_finish : Bool → ℕ → Saver → Saver
on_bgsave_finish renamed now s = elim s.child_pid [
  | none ↦ s
  | some pid ↦ elim renamed [
    | false ↦ record s { child_pid = none }
    | true ↦ record s {
      child_pid = none;
      dirty = s.dirty -ℤ s.dirty_before_bgsave;
      conf = record s.conf {
        db_dump_aof_name = s.aof_filename_before;
        db_dump_aof_off = s.aof_off_before;
      };
      last_status = 0;
      time_last = now - s.time_start;
    }
  ]
]
