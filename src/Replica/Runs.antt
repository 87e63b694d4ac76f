-- ===== src/Replica/Runs.antt =====
-- The handlers of a slave, as the event loop calls them one after another.
use naruto.Prelude.{
  ℕ, ◌≡◌, ◌≢◌, refl, ◌⊎◌, Bool, true, false, Option, none, some, List, [], ◌∷◌, IsBytes, arith,
}
use naruto.Prelude.Int.{ℤ}
use naruto.Prelude.Maps.{String}
use naruto.ReplState.{new_conf, connected, transfor, ReplState}
use naruto.Restore.{Features}
use naruto.Buckets.{new_buckets}
use naruto.Replica.{
  Replica, stopped, on_sync, on_bulk, SyncInput, slaveof, on_sync_with_master, abort_sync_transfer,
}
use naruto.Replica.Safety.{IsSound, needs_master, IsSmallReply}
use naruto.Replica.Transfer.{on_read_sync_bulk_payload}
use naruto.Replica.Transfer.Safety.{IsRead, IsLoadable}
use naruto.Replica.Cron.{CronInput, on_repl_cron}

-- A process that has just started.
abbrev pub new_replica : Replica
new_replica = record {
  conf = new_conf;
  master_host = [];
  master_port = 0;
  is_master = true;
  repl_state = ReplState.none;
  master = none;
  ev_io_r = stopped;
  ev_io_w = stopped;
  transfer_size = ℤ.negsuc 0;
  transfer_read = 0;
  transfer_f = none;
  transfer_lastio = 0;
  down_since = 0;
  db_file = [];
  database = record { buckets = new_buckets 1024; store = [] };
  sent = [];
}

-- The command SLAVEOF, the timer, and the two handlers of the watchers of the link to the master.
pub data Event : Type 0 where
  to_slave : String → ℕ → Event
  tick : CronInput → Event
  synced : SyncInput → Event
  bulk_read : List ℕ → Bool → ℕ → Event

-- The process has gone on, to a state that P holds of.
abbrev pub After : (Replica → Type 0) → Option Replica → Type 0
After P none = ⊥
After P (some t) = P t

-- What is allowed: a tick that makes its connection to the master; a handler of a watcher only while the watcher is active,
-- with what can be read, where PING is written and PONG read without an exception, and where the loader
-- takes the database; SLAVEOF at any time but during an attempt to synchronise.
abbrev pub Allowed : Event → Replica → Type 0
Allowed (to_slave ip port) s = needs_master s.repl_state ≡ false ⊎ (s.repl_state ≡ connected)
Allowed (tick i) s = i.made ≡ true
Allowed (synced i) s =
    ((s.ev_io_r ≡ on_sync) ⊎ (s.ev_io_w ≡ on_sync))
    × IsSmallReply i.reply
    × (i.pinged ≡ true)
    × (i.pong ≢ none)
Allowed (bulk_read bytes renamed now) s =
    (s.ev_io_r ≡ on_bulk) × IsBytes bytes × IsRead s bytes × IsLoadable bytes now s

module _ (decode : List ℕ → Features) where
  abbrev pub handle : Event → Replica → Option Replica
  handle (to_slave ip port) s = some (slaveof ip port s)
  handle (tick i) s = on_repl_cron i s
  handle (synced i) s = on_sync_with_master i s
  handle (bulk_read bytes renamed now) s = on_read_sync_bulk_payload decode bytes renamed now s

  -- The events of a list, in their order.
  abbrev pub run : List Event → Replica → Option Replica
  run [] s = some s
  run (e ∷ es) s = elim (handle e s) [ none ↦ none | some t ↦ run es t ]

  -- The states that allowed events lead to.
  pub data Reach (s : Replica) : Replica → Type 0 where
    start : Reach s s
    next : (t u : Replica) (e : Event) → Reach s t → Allowed e t → handle e t ≡ some u → Reach s u

  -- SLAVEOF during the transfer of a database, and then the end of the connection: the assertion of
  -- _abort_sync_transfer fails.
  pub slaveof-abort :
      (ip : String) (port now : ℕ) (renamed : Bool) (s : Replica)
      → s.repl_state ≡ transfor
      → s.ev_io_r ≡ on_bulk
      → (t : Replica) × (handle (to_slave ip port) s ≡ some t)
        × (t.ev_io_r ≡ on_bulk)
        × (handle (bulk_read [] renamed now) t ≡ none)
  unfolding slaveof on_read_sync_bulk_payload abort_sync_transfer
  slaveof-abort ip port now renamed s t r = (slaveof ip port s, refl, r, refl)

pub new_replica-IsSound : IsSound new_replica
new_replica-IsSound = ground arith
