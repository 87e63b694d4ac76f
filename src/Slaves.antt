-- ===== src/Slaves.antt =====
-- replication/replication.cpp: the slaves of a master, and what the second half of onReplCron does with
-- them. Times are in milliseconds.
pub mod Dropped
use naruto.Prelude.{
  ℕ, ◌+◌, ◌-◌, ◌%◌, Bool, true, false, ◌||◌, ◌&&◌, not, Option, none, some, List, [], ◌∷◌, ◌++◌,
  ltb, ◌==◌, if◌then◌else◌,
}
use naruto.Prelude.Int.{ℤ}
use naruto.ReplState.{ReplState, connected}
use naruto.Connection.{Connect, init, broken}
use naruto.Replica.{Replica, MasterLink}
use naruto.Psync.{is_empty}

-- A link of slaves_, with the number of PINGs that it has been sent.
pub record Slave : Type 0 where
  pub connect : Connect
  pub repl_state : ReplState
  pub lastinteraction : ℕ
  pub pings : ℕ

pub record Slaves : Type 0 where
  pub slaves : List Slave
  pub cronloops : ℕ

-- Connect(fd), for a socket that has been accepted.
abbrev pub accepted : Connect
accepted = record { status = init; err = ℤ.pos 0 }

unfoldable pub add_slave : Slave → Slaves → Slaves
add_slave slave s = record s { slaves = s.slaves ++ slave ∷ [] }

abbrev pub is_connected : ReplState → Bool
is_connected connected = true
is_connected _ = false

-- The test of remove_if.
unfoldable pub is_dropped : ℕ → ℕ → Slave → Bool
is_dropped timeout unixtime slave =
    broken slave.connect
    || (is_connected slave.repl_state && ltb timeout (unixtime - slave.lastinteraction))

unfoldable pub drop_slaves : ℕ → ℕ → List Slave → List Slave
drop_slaves timeout unixtime [] = []
drop_slaves timeout unixtime (slave ∷ slaves) =
    let rest = drop_slaves timeout unixtime slaves in
    if is_dropped timeout unixtime slave then rest else slave ∷ rest

unfoldable pub ping_slaves : List Slave → List Slave
ping_slaves [] = []
ping_slaves (slave ∷ slaves) =
    (if is_connected slave.repl_state then (record slave { pings = slave.pings + 1 }) else slave)
    ∷ ping_slaves slaves

-- The second half of onReplCron but for the merge, with the count of its first line. A period of 0 is a
-- division by zero: `none`.
unfoldable pub on_master_cron : ℕ → ℕ → ℕ → Slaves → Option Slaves
on_master_cron timeout unixtime period s =
    let loops : ℕ = s.cronloops + 1 in
    let kept : List Slave = drop_slaves timeout unixtime s.slaves in
    if period == 0
    then none
    else (some (record {
      slaves = if loops % period == 0 then ping_slaves kept else kept;
      cronloops = loops;
    }))

-- replConfFlush, on the record that is then written to its file.
unfoldable pub repl_conf_flush : Replica → Replica
repl_conf_flush s = elim s.master [
  | none ↦ record s { conf = record s.conf { is_master = true } }
  | some m ↦
      if not (is_empty m.repl_run_id) && not (is_empty m.repl_aof_file_name)
      then (record s {
        conf = record s.conf {
          master_ip = s.master_host;
          master_port = s.master_port;
          master_run_id = m.repl_run_id;
          master_aof_name = m.repl_aof_file_name;
          master_aof_off = m.repl_aof_off;
          is_master = false;
        };
      })
      else (record s { conf = record s.conf { is_master = true } })
]
