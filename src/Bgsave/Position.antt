-- ===== src/Bgsave/Position.antt =====
-- The position that is kept with a saved database.
use naruto.Prelude.{ℕ, suc, ◌≡◌, true, none, some, arith}
use naruto.Prelude.Int.{ℤ, ◌-ℤ◌}
use naruto.Prelude.Maps.{String}
use naruto.ReplState.{ReplConf}
use naruto.Bgsave.{Saver, bgsave, bgsave_started, on_bgsave_finish}

-- What the rest of the process does to the saver while a child runs: the counter of changes moves, and
-- the rest of the kept record.
abbrev pub during : ℤ → ReplConf → Saver → Saver
during dirty conf s = record s { dirty = dirty; conf = conf }

pub record IsSaved (before after : ℤ) (aof_name : String) (aof_off : ℕ) (t : Saver) : Type 0 where
  pub idle : t.child_pid ≡ none
  pub name : t.conf.db_dump_aof_name ≡ aof_name
  pub off : t.conf.db_dump_aof_off ≡ aof_off
  pub left : t.dirty ≡ after -ℤ before

-- A save that is started while none is running and that ends well, whatever the counter and the record
-- have become in between: no save is running, the record has the position of the log at the start, and the
-- counter is less by what it was at the start.
pub bgsave-IsSaved :
    (size pid tried now ended : ℕ) (name : String) (off : ℕ) (dirty : ℤ) (conf : ReplConf)
    (s : Saver)
    → s.child_pid ≡ none
    → IsSaved s.dirty dirty name off (
        on_bgsave_finish true ended
          (during dirty conf (bgsave (suc size) (some pid) tried now name off s)))
unfolding bgsave bgsave_started on_bgsave_finish
bgsave-IsSaved size pid tried now ended name off dirty conf s e = ground arith
