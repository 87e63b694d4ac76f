-- ===== src/Tests/ReplicaTests.antt =====
-- The two sides of a synchronisation: runs on concrete inputs.
use naruto.Prelude.{
  ℕ, ◌≡◌, ◌≢◌, refl, sym, ◌∙◌, true, false, Option, none, some, List, [], ◌∷◌, ◌++◌, arith,
}
use naruto.Prelude.Int.{ℤ}
use naruto.Prelude.Maps.{String, equal}
use naruto.ReplState.{ReplState, new_conf, transfor}
use naruto.Codec.{le_bytes}
use naruto.Loader.{Entry, load_file}
use naruto.Loader.Whole.{load_file-file_of}
use naruto.Restore.{Features}
use naruto.Bgsave.{Saver, bgsave, on_bgsave_finish}
use naruto.Bgsave.Position.{during, IsSaved, bgsave-IsSaved}
use naruto.Psync.{
  CommandPsync, CommandPsyncReply, SlaveLink, BgsaveInput, fullsync, partsync, exec_psync,
  first_aof,
}
use naruto.Psync.Agree.{IsAgreed, exec_psync-IsAgreed}
use naruto.Replica.{Replica, MasterLink, SyncInput, on_bulk, take_reply}
use naruto.Replica.Cron.{CronInput, on_repl_cron}
use naruto.Replica.Runs.{After, to_slave, bulk_read, handle, run, new_replica, slaveof-abort}
use naruto.Replica.Retry.{IsRetried, on_repl_cron-IsRetried}
use naruto.Replica.Handshake.{
  handshake, IsAttached, IsReceiving, IsSkipping, handshake-IsAttached, handshake-IsReceiving,
  handshake-lost,
}
use naruto.Replica.Transfer.Whole.{IsLoaded, receive, receive-IsLoaded}

-- A parser that takes the bytes for the name of an object without fields.
abbrev read_features : List ℕ → Features
read_features body = record { id = body; feature = [] }

abbrev clock : CronInput
clock = record { now = 90000; unixtime = 90000; timeout = 60000; made = true }

-- SLAVEOF to the host "h", and then a tick.
abbrev joined : Replica
joined = record new_replica {
  repl_state = ReplState.connect;
  master_port = 7000;
  master_host = 104 ∷ [];
  is_master = false;
}

abbrev pub master_link : MasterLink
master_link = record {
  repl_run_id = [];
  repl_aof_file_name = [];
  repl_aof_off = 0;
  broken = false;
  master_flag = true;
  repl_rio = false;
  lastinteraction = 0;
}

-- A transfer of 9 bytes that has begun.
abbrev receiving : Replica
receiving = record joined {
  repl_state = transfor;
  master = some master_link;
  ev_io_r = on_bulk;
  transfer_size = ℤ.pos 9;
  transfer_f = some [];
}

abbrev first_chunk : List ℕ
first_chunk = 9 ∷ 0 ∷ 0 ∷ 0 ∷ []

abbrev second_chunk : List ℕ
second_chunk = 0 ∷ 0 ∷ 1 ∷ 0 ∷ 107 ∷ []

-- The two chunks are one pack.
loads : load_file (first_chunk ++ (second_chunk ++ [])) 0 ≢ none
unfolding le_bytes
loads e = absurd (differ (sym e ∙ loaded))
  where
    one : Entry
    one = record { flag = 0; type = 1; body = 107 ∷ [] }

    loaded : load_file (first_chunk ++ (second_chunk ++ [])) 0 ≡ some (one ∷ [])
    loaded = load_file-file_of [] [] (one ∷ []) tt (omega arith) (omega arith) (omega arith)

    differ : none ≡ some (one ∷ []) → ⊥
    differ h = cc

receive-IsLoaded_example :
    IsLoaded read_features
      (first_chunk ++ (second_chunk ++ []))
      new_replica.database
      (receive read_features (first_chunk ∷ second_chunk ∷ []) 1 receiving)
receive-IsLoaded_example =
    receive-IsLoaded read_features first_chunk (second_chunk ∷ []) new_replica.database 1 receiving
      (omega arith) (record { file = refl; read = refl; size = refl; old = refl; linked = λ e. cc })
      loads

slaveof-abort_example :
    (t : Replica) × (handle read_features (to_slave (104 ∷ []) 7001) receiving ≡ some t)
    × (t.ev_io_r ≡ on_bulk)
    × (handle read_features (bulk_read [] true 1) t ≡ none)
slaveof-abort_example = slaveof-abort read_features (104 ∷ []) 7001 1 true receiving refl refl

on_repl_cron-IsRetried_example : IsRetried (on_repl_cron clock receiving)
on_repl_cron-IsRetried_example = on_repl_cron-IsRetried clock receiving refl refl refl refl

abbrev some_input : SyncInput
some_input = record {
  sockerr = false;
  pinged = true;
  pong = some true;
  reply = none;
  opened = true;
  now = 1;
}

abbrev part_reply : CommandPsyncReply
part_reply = record {
  errcode = 0;
  psync_type = partsync;
  run_id = 65 ∷ [];
  repl_database_size = ℤ.pos 0;
  repl_aof_file_name = first_aof;
  repl_aof_off = 5;
}

abbrev full_reply : CommandPsyncReply
full_reply = record part_reply { psync_type = fullsync; repl_database_size = ℤ.pos 9 }

handshake-IsAttached_example :
    After
      (IsAttached new_replica part_reply)
      (run read_features (handshake (104 ∷ []) 7000 clock some_input part_reply) new_replica)
handshake-IsAttached_example =
    handshake-IsAttached read_features clock some_input 104 [] 7000 new_replica part_reply refl refl

handshake-IsReceiving_example :
    After
      (IsReceiving new_replica full_reply)
      (run read_features (handshake (104 ∷ []) 7000 clock some_input full_reply) new_replica)
handshake-IsReceiving_example =
    handshake-IsReceiving read_features clock some_input 104 [] 7000 new_replica full_reply refl
      refl

-- A master with a first file of 8 bytes.
abbrev file_sizes : String → Option ℕ
file_sizes name = some 8

handshake-lost_example : After (IsSkipping new_replica file_sizes []) (
    run read_features
      (handshake (104 ∷ []) 7000 clock some_input full_reply ++ bulk_read [] true 2 ∷ [])
      new_replica)
unfolding equal
handshake-lost_example =
    handshake-lost read_features clock some_input 104 [] 7000 new_replica full_reply true 2 8
      file_sizes [] refl refl refl refl refl refl (omega arith)

abbrev saver : Saver
saver = record {
  conf = new_conf;
  dirty = ℤ.pos 3;
  dirty_before_bgsave = ℤ.pos 0;
  child_pid = none;
  aof_filename_before = [];
  aof_off_before = 0;
  last_try = 0;
  time_start = 0;
  fork_spends = 0;
  time_last = 0;
  last_status = 0;
}

bgsave-IsSaved_example : IsSaved (ℤ.pos 3) (ℤ.pos 7) first_aof 20 (
    on_bgsave_finish true 9 (during (ℤ.pos 7) new_conf (bgsave 1 (some 44) 1 2 first_aof 20 saver)))
bgsave-IsSaved_example = bgsave-IsSaved 0 44 1 2 9 first_aof 20 (ℤ.pos 7) new_conf saver refl

abbrev slave_link : SlaveLink
slave_link = record {
  repl_state = ReplState.none;
  repl_aof_file_name = [];
  repl_aof_off = 0;
  repl_dbsize = ℤ.pos 0;
  repl_dboff = 0;
  repl_db_f = false;
  incr_timer = false;
  bulk_io = false;
  slave_flag = false;
}

abbrev bgsave_input : BgsaveInput
bgsave_input = record {
  db_size = 1;
  fork = some 44;
  tried = 1;
  now = 2;
  aof_name = first_aof;
  aof_off = 20;
}

abbrev request : CommandPsync
request = record { run_id = 65 ∷ []; repl_aof_file_name = first_aof; repl_aof_off = 5 }

exec_psync-IsAgreed_example :
    let (reply, saver', client') = exec_psync file_sizes [] bgsave_input request saver slave_link in
    IsAgreed client' (take_reply 3 true reply master_link receiving)
exec_psync-IsAgreed_example =
    exec_psync-IsAgreed file_sizes [] bgsave_input request saver slave_link 3 true master_link
      receiving
