-- ===== src/Replica/Cron.antt =====
-- replication/replication.cpp, onReplCron: what the timer does for a slave.
pub mod Safety
use naruto.Prelude.{
  ℕ, ◌*◌, ◌-◌, Bool, true, false, ◌&&◌, not, Option, none, some, List, [], ◌∷◌, ◌++◌, ltb,
  if◌then◌else◌,
}
use naruto.ReplState.{
  ReplState, connect, connecting, receive_pong, wait_bgsave, transfor, connected,
}
use naruto.Psync.{is_empty}
use naruto.Replica.{
  Replica, MasterLink, ping, on_master, close_link, undo_connect_master, abort_sync_transfer,
  cache_master, connect_master,
}

-- The two clocks, repl_timeout_sec_ in milliseconds, and whether a connection that is tried is made.
pub record CronInput : Type 0 where
  pub now : ℕ
  pub unixtime : ℕ
  pub timeout : ℕ
  pub made : Bool

-- last_transfer.count() > repl_timeout_ms
abbrev pub is_late : ℕ → ℕ → ℕ → Bool
is_late timeout since now = ltb timeout (now - since)

-- The timeouts of connecting, of the transfer and of the master.
-- `late` is the test on last_transfer, which is made once.
unfoldable pub check_connecting : Bool → Replica → Option Replica
check_connecting late s = elim s.repl_state [
  | connecting ↦ if late then undo_connect_master s else some s
  | receive_pong ↦ if late then undo_connect_master s else some s
  | _ ↦ some s
]

unfoldable pub check_transfer : Bool → Replica → Option Replica
check_transfer late s = elim s.repl_state [
  | transfor ↦ if late then abort_sync_transfer s else some s
  | _ ↦ some s
]

unfoldable pub check_master : CronInput → Replica → Option Replica
check_master i s = elim s.repl_state [
  | connected ↦ elim s.master [
    | none ↦ none
    | some m ↦
        if is_late i.timeout m.lastinteraction i.unixtime
        then some (cache_master i.unixtime (record s { master = some (close_link m) }))
        else some s
  ]
  | _ ↦ some s
]

unfoldable pub try_connect : CronInput → Replica → Option Replica
try_connect i s = elim s.repl_state [ connect ↦ connect_master i.made i.now s | _ ↦ some s ]

unfoldable pub heartbeat : Replica → Replica
heartbeat s = elim s.repl_state [
  | connected ↦ elim s.master [
    | none ↦ s
    | some m ↦ if m.broken then s else record s { sent = s.sent ++ ping ∷ [] }
  ]
  | _ ↦ s
]

abbrev pub and_then : Option Replica → (Replica → Option Replica) → Option Replica
and_then none f = none
and_then (some s) f = f s

-- The first half of onReplCron. A slave without the host of a master does nothing.
unfoldable pub on_repl_cron : CronInput → Replica → Option Replica
on_repl_cron i s =
    let late = is_late i.timeout s.transfer_lastio i.now in
    if is_empty s.master_host
    then some s
    else (and_then (check_connecting late s) (λ s1. and_then (check_transfer late s1) (λ s2.
        and_then (check_master i s2)
          (λ s3. and_then (try_connect i s3) (λ s4. some (heartbeat s4))))))
