-- ===== src/Replica/Retry.antt =====
-- A slave that is not connected tries again.
use naruto.Prelude.{◌≡◌, ◌≢◌, Bool, true, false, Option, none, some, arith}
use naruto.ReplState.{
  connected, connecting, receive_pong, connect, transfor, ReplState, wait_bgsave,
}
use naruto.Psync.{is_empty}
use naruto.Replica.{Replica, on_sync, abort_sync_transfer, undo_connect_master, connect_master}
use naruto.Replica.Cron.{
  CronInput, on_repl_cron, is_late, check_connecting, check_transfer, check_master, try_connect,
  heartbeat,
}

-- An attempt to synchronise, begun or not.
abbrev pub is_trying : ReplState → Bool
is_trying ReplState.none = false
is_trying connect = true
is_trying connecting = true
is_trying receive_pong = true
is_trying wait_bgsave = false
is_trying transfor = true
is_trying connected = false

abbrev pub IsRetried : Option Replica → Type 0
IsRetried none = ⊥
IsRetried (some t) =
    (t.repl_state ≡ connecting) × (t.ev_io_r ≡ on_sync) × (t.ev_io_w ≡ on_sync) × (t.master ≢ none)

-- Once more than the timeout has passed since the transfer was last heard of, one tick of the timer brings
-- a slave that has a host and is trying to synchronise back to a new attempt, if the connection is made: it has a link,
-- waits for the socket, and both watchers are active.
pub on_repl_cron-IsRetried :
    (i : CronInput) (s : Replica)
    → i.made ≡ true
    → is_empty s.master_host ≡ false
    → is_trying s.repl_state ≡ true
    → is_late i.timeout s.transfer_lastio i.now ≡ true
    → IsRetried (on_repl_cron i s)
unfolding on_repl_cron check_connecting check_transfer check_master try_connect heartbeat
    undo_connect_master abort_sync_transfer connect_master
on_repl_cron-IsRetried i s m e t l = ground arith
