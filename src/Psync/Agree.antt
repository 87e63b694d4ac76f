-- ===== src/Psync/Agree.antt =====
-- What a master decides on a request, and what the slave makes of the answer.
use naruto.Prelude.{ℕ, ◌≤◌, ◌≡◌, Bool, true, false, Option, none, some, arith}
use naruto.Prelude.Maps.{String}
use naruto.ReplState.{connected, wait_bgsave, transfor}
use naruto.Bgsave.{Saver}
use naruto.Psync.{
  CommandPsync, SlaveLink, partial, BgsaveInput, choose_sync, partsync_from, fullsync_from,
  sync_slave, exec_psync,
}
use naruto.Replica.{Replica, MasterLink, take_reply, take_position}

-- The link that the master has to the slave, and the one of the slave to its master.
abbrev pub IsSamePosition : SlaveLink → Option MasterLink → Type 0
IsSamePosition client none = ⊥
IsSamePosition client (some m) =
    (m.repl_aof_file_name ≡ client.repl_aof_file_name) × (m.repl_aof_off ≡ client.repl_aof_off)

-- Whether the two ends agree on what comes next: the file from a position on, a database of a size with
-- the position behind it, or another request.
abbrev pub IsAgreed : SlaveLink → Bool × Replica → Type 0
IsAgreed client (done, t) = elim client.repl_state [
  | connected ↦ (done ≡ true) × (t.repl_state ≡ connected) × IsSamePosition client t.master
  | transfor ↦
      (done ≡ true)
      × (t.repl_state ≡ transfor)
      × (t.transfer_size ≡ client.repl_dbsize)
      × (t.transfer_read ≡ client.repl_dboff)
      × IsSamePosition client t.master
  | wait_bgsave ↦ done ≡ false
  | _ ↦ ⊥
]

-- Whatever the master decides on a request, both ends agree after the slave has taken the reply: they are
-- connected at one position; or both are in the transfer of a database of one size, at its start, with one
-- position; or the master waits for a save and the slave's attempt has failed.
pub exec_psync-IsAgreed :
    (size_of : String → Option ℕ) (dbname : String) (input : BgsaveInput) (psync : CommandPsync)
    (saver : Saver) (client : SlaveLink) (now : ℕ) (opened : Bool) (m : MasterLink) (s : Replica)
    → let (reply, saver', client') = exec_psync size_of dbname input psync saver client in
      IsAgreed client' (take_reply now opened reply m s)
unfolding exec_psync sync_slave partsync_from fullsync_from take_reply take_position
exec_psync-IsAgreed size_of dbname input psync saver client now opened m s = ground arith

-- A partial synchronisation is decided only for a file that the master has, and a position in it or at its
-- end.
pub choose_sync-partial :
    (size_of : String → Option ℕ) (dbname : String) (psync : CommandPsync)
    → choose_sync size_of dbname psync ≡ partial
    → (size : ℕ) × (size_of psync.repl_aof_file_name ≡ some size) × (psync.repl_aof_off ≤ size)
unfolding choose_sync
choose_sync-partial size_of dbname psync e = ground arith
