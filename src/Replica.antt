-- ===== src/Replica.antt =====
-- replication/replication.cpp: a slave and its master, as a state machine on replState. The handlers of
-- the event loop are the steps. `none` is the end of the process: an assertion that fails, a null pointer
-- or a write behind an array.
pub mod Transfer
pub mod Cron
pub mod Safety
pub mod Runs
pub mod Retry
pub mod Handshake
use naruto.Prelude.{
  ℕ, zero, suc, ◌+◌, ◌*◌, ◌-◌, ◌^◌, Bool, true, false, ◌||◌, ◌&&◌, not, Option, none, some, List,
  [], ◌∷◌, ◌++◌, length, ltb, leb, if◌then◌else◌,
}
use naruto.Prelude.Int.{ℤ, ◌-ℤ◌, ltb_ℤ}
use naruto.Prelude.Maps.{String}
use naruto.ReplState.{
  ReplState, ReplConf, connect, connecting, receive_pong, wait_bgsave, transfor, connected,
}
use naruto.Psync.{
  CommandPsync, CommandPsyncReply, SyncType, nf, fullsync, partsync, trysync, unknown_id, is_empty,
}
use naruto.Restore.{Features, load_database, flush_database}
use naruto.Hset.{Database}

-- replicaLink, as a slave has it for its master. `broken` is that of its Connect.
pub record MasterLink : Type 0 where
  pub repl_run_id : String
  pub repl_aof_file_name : String
  pub repl_aof_off : ℕ
  pub broken : Bool
  pub master_flag : Bool
  pub repl_rio : Bool
  pub lastinteraction : ℕ

-- What a watcher calls: nothing once it is stopped, onSyncWithMaster, or onReadSyncBulkPayload.
pub data Watch : Type 0 where
  stopped : Watch
  on_sync : Watch
  on_bulk : Watch

-- What is sent to the master.
pub data Message : Type 0 where
  ping : Message
  psync : CommandPsync → Message

-- The part of Replication that a slave uses. The temporary file is its contents, and so is the dump.
pub record Replica : Type 0 where
  pub conf : ReplConf
  pub master_host : String
  pub master_port : ℕ
  pub is_master : Bool
  pub repl_state : ReplState
  pub master : Option MasterLink
  pub ev_io_r : Watch
  pub ev_io_w : Watch
  pub transfer_size : ℤ
  pub transfer_read : ℕ
  pub transfer_f : Option (List ℕ)
  pub transfer_lastio : ℕ
  pub down_since : ℕ
  pub db_file : List ℕ
  pub database : Database
  pub sent : List Message

-- CommandSlaveof::exec, the calls on Replication.
unfoldable pub slaveof : String → ℕ → Replica → Replica
slaveof ip port s = record s {
  repl_state = connect;
  master_port = port;
  master_host = ip;
  is_master = false;
}

-- A change of the link to the master; without a master it goes through a null pointer.
unfoldable pub on_master : (MasterLink → MasterLink) → Replica → Option Replica
on_master f s = elim s.master [ none ↦ none | some m ↦ some (record s { master = some (f m) }) ]

-- master_->close(): the socket and the read events end.
abbrev pub close_link : MasterLink → MasterLink
close_link m = record m { broken = true; repl_rio = false }

unfoldable pub undo_connect_master : Replica → Option Replica
undo_connect_master s = elim s.repl_state [
  | connecting ↦ some (record s { ev_io_r = stopped; ev_io_w = stopped; repl_state = connect })
  | receive_pong ↦ some (record s { ev_io_r = stopped; ev_io_w = stopped; repl_state = connect })
  | _ ↦ none
]

unfoldable pub abort_sync_transfer : Replica → Option Replica
abort_sync_transfer s = elim s.repl_state [
  | transfor ↦ some (record s { ev_io_r = stopped; transfer_f = none; repl_state = connect })
  | _ ↦ none
]

-- _connect_master, where the connection has been made or not. Without one the descriptor is -1, for which libev's
-- start ends the process.
unfoldable pub connect_master : Bool → ℕ → Replica → Option Replica
connect_master false now s = none
connect_master true now s = some (record s {
  master = some (record {
    repl_run_id = [];
    repl_aof_file_name = [];
    repl_aof_off = 0;
    broken = false;
    master_flag = true;
    repl_rio = false;
    lastinteraction = 0;
  });
  ev_io_r = on_sync;
  ev_io_w = on_sync;
  transfer_lastio = now;
  repl_state = connecting;
})

unfoldable pub cache_master : ℕ → Replica → Replica
cache_master now s = elim s.master [
  | none ↦ s
  | some m ↦ record s {
    conf = record s.conf {
      master_run_id = m.repl_run_id;
      master_aof_name = m.repl_aof_file_name;
      master_aof_off = m.repl_aof_off;
    };
    repl_state = connect;
    down_since = now;
  }
]

unfoldable pub discard_cache_master : Replica → Replica
discard_cache_master s = record s {
  conf = record s.conf { master_run_id = []; master_aof_name = []; master_aof_off = 0 };
}

-- The request of _slave_try_partial_resynchronization.
unfoldable pub psync_request : ReplConf → CommandPsync
psync_request conf =
    if not (is_empty conf.master_run_id) && not (is_empty conf.master_aof_name)
    then (record {
      run_id = conf.master_run_id;
      repl_aof_file_name = conf.master_aof_name;
      repl_aof_off = conf.master_aof_off;
    })
    else (record { run_id = unknown_id; repl_aof_file_name = []; repl_aof_off = 2 ^ 64 - 1 })

-- What the slave takes over from a reply that it can use.
unfoldable pub take_position : ℕ → CommandPsyncReply → MasterLink → MasterLink
take_position now reply m = record m {
  repl_run_id = reply.run_id;
  repl_aof_file_name = reply.repl_aof_file_name;
  repl_aof_off = reply.repl_aof_off;
  master_flag = true;
  lastinteraction = now;
}

unfoldable pub keep_position : CommandPsyncReply → ReplConf → ReplConf
keep_position reply conf = record conf {
  master_run_id = reply.run_id;
  master_aof_name = reply.repl_aof_file_name;
  master_aof_off = reply.repl_aof_off;
}

-- The reply to the request: the result is 0 or -1. The temporary file has been opened or not.
unfoldable pub take_reply : ℕ → Bool → CommandPsyncReply → MasterLink → Replica → Bool × Replica
take_reply now opened reply m s = elim reply.psync_type [
  | nf ↦ (false, s)
  | fullsync ↦ (
    true,
    record s {
      master = some (take_position now reply m);
      conf = keep_position reply s.conf;
      transfer_size = reply.repl_database_size;
      transfer_read = 0;
      repl_state = transfor;
      ev_io_r = on_bulk;
      transfer_f = if opened then some [] else none;
    },
  )
  | partsync ↦ (
    true,
    record s {
      master = some (record (take_position now reply m) { repl_rio = true });
      conf = keep_position reply s.conf;
      repl_state = connected;
    },
  )
  | trysync ↦ (false, s)
]

-- _slave_try_partial_resynchronization; `reply` is none where the exchange throws.
unfoldable pub try_psync : ℕ → Bool → Option CommandPsyncReply → Replica → Option (Bool × Replica)
try_psync now opened reply s = elim s.master [
  | none ↦ none
  | some m ↦
      (let asked : Replica = record s { sent = s.sent ++ psync (psync_request s.conf) ∷ [] } in
        elim reply [
          | none ↦ some (false, asked)
          | some r ↦ elim r.errcode [
            | zero ↦ some (take_reply now opened r m asked)
            | suc e ↦ some (false, asked)
          ]
        ])
]

-- The label `error` of onSyncWithMaster.
unfoldable pub sync_error : Replica → Option Replica
sync_error s = on_master close_link (record s { repl_state = connect })

unfoldable pub resynchronise : ℕ → Bool → Option CommandPsyncReply → Replica → Option Replica
resynchronise now opened reply s = elim (try_psync now opened reply s) [
  | none ↦ none
  | some (done, s') ↦ if done then some s' else sync_error s'
]

-- What onSyncWithMaster meets: an error of the socket, whether the write of PING succeeds, whether the pack read for PONG is
-- one, and the reply to PSYNC. A write of PING or a read of PONG that throws is not caught and ends the process; a `pong` of
-- none is such a read.
pub record SyncInput : Type 0 where
  pub sockerr : Bool
  pub pinged : Bool
  pub pong : Option Bool
  pub reply : Option CommandPsyncReply
  pub opened : Bool
  pub now : ℕ

unfoldable pub on_sync_with_master : SyncInput → Replica → Option Replica
on_sync_with_master i s = elim s.repl_state [
  | ReplState.none ↦ on_master close_link s
  | connecting ↦
      if i.sockerr
      then sync_error (record s { ev_io_w = stopped; ev_io_r = stopped })
      else (if i.pinged
          then on_master (λ m. m)
              (record s {
                repl_state = receive_pong;
                ev_io_w = stopped;
                sent = s.sent ++ ping ∷ [];
              })
          else none)
  | receive_pong ↦
      if i.sockerr
      then sync_error (record s { ev_io_w = stopped; ev_io_r = stopped })
      else (elim i.pong [
        | none ↦ none
        | some true ↦ resynchronise i.now i.opened i.reply (record s { ev_io_r = stopped })
        | some false ↦ sync_error (record s { ev_io_r = stopped })
      ])
  | _ ↦
      if i.sockerr
      then sync_error (record s { ev_io_w = stopped; ev_io_r = stopped })
      else resynchronise i.now i.opened i.reply s
]
