-- ===== src/Psync.antt =====
-- command/command_psync.cpp: how a master decides between a full and a partial synchronisation, and the
-- request and the reply of protocol/replication.proto. The files of the directory are their sizes.
pub mod Agree
use naruto.Prelude.{
  ℕ, zero, suc, ◌-◌, ◌^◌, Bool, true, false, ◌||◌, Option, none, some, List, [], ◌∷◌, ltb,
  if◌then◌else◌,
}
use naruto.Prelude.Int.{ℤ}
use naruto.Prelude.Maps.{String, equal}
use naruto.ReplState.{ReplState, ReplConf, connected, wait_bgsave, transfor}
use naruto.Bgsave.{Saver, bgsave}

pub record CommandPsync : Type 0 where
  pub run_id : String
  pub repl_aof_file_name : String
  pub repl_aof_off : ℕ

-- synctype
pub data SyncType : Type 0 where
  nf : SyncType
  fullsync : SyncType
  partsync : SyncType
  trysync : SyncType

pub record CommandPsyncReply : Type 0 where
  pub errcode : ℕ
  pub psync_type : SyncType
  pub run_id : String
  pub repl_database_size : ℤ
  pub repl_aof_file_name : String
  pub repl_aof_off : ℕ

-- replicaLink, as a master has it for a slave. The pointers and watchers are whether they are there.
pub record SlaveLink : Type 0 where
  pub repl_state : ReplState
  pub repl_aof_file_name : String
  pub repl_aof_off : ℕ
  pub repl_dbsize : ℤ
  pub repl_dboff : ℕ
  pub repl_db_f : Bool
  pub incr_timer : Bool
  pub bulk_io : Bool
  pub slave_flag : Bool

-- "?"
abbrev pub unknown_id : String
unknown_id = 63 ∷ []

-- "naruto.aof.0"
abbrev pub first_aof : String
first_aof = 110 ∷ 97 ∷ 114 ∷ 117 ∷ 116 ∷ 111 ∷ 46 ∷ 97 ∷ 111 ∷ 102 ∷ 46 ∷ 48 ∷ []

abbrev pub is_empty : String → Bool
is_empty [] = true
is_empty (c ∷ s) = false

-- The three values of `sync`.
pub data Sync : Type 0 where
  from_first : Sync
  full : Sync
  partial : Sync

-- File::size: none is -1.
abbrev pub size_or_error : Option ℕ → ℤ
size_or_error none = ℤ.negsuc 0
size_or_error (some n) = ℤ.pos n

unfoldable pub choose_sync : (String → Option ℕ) → String → CommandPsync → Sync
choose_sync size_of dbname psync =
    if equal psync.run_id unknown_id || is_empty psync.repl_aof_file_name
    then (elim (size_of dbname) [ none ↦ from_first | some size ↦ full ])
    else (elim (size_of psync.repl_aof_file_name) [
      | none ↦ full
      | some size ↦ if ltb size psync.repl_aof_off then full else partial
    ])

-- What the master answers, and what it makes of its link: the three cases of the switch.
unfoldable pub partsync_from :
    String → ℕ → CommandPsyncReply → SlaveLink → CommandPsyncReply × SlaveLink
partsync_from name off reply client = (
  record reply { psync_type = partsync; repl_aof_file_name = name; repl_aof_off = off },
  record client {
    repl_state = connected;
    repl_aof_file_name = name;
    repl_aof_off = off;
    incr_timer = true;
  },
)

unfoldable pub fullsync_from :
    ℤ → ReplConf → CommandPsyncReply → SlaveLink → CommandPsyncReply × SlaveLink
fullsync_from size conf reply client = (
  record reply {
    psync_type = fullsync;
    repl_database_size = size;
    repl_aof_file_name = conf.db_dump_aof_name;
    repl_aof_off = conf.db_dump_aof_off;
  },
  record client {
    repl_state = transfor;
    repl_dbsize = size;
    repl_dboff = 0;
    repl_db_f = true;
    repl_aof_file_name = conf.db_dump_aof_name;
    repl_aof_off = conf.db_dump_aof_off;
    bulk_io = true;
  },
)

-- What a call of bgsave() from here meets: the keys of the database, the fork, the two readings of the
-- clock and the position of the append-only file.
pub record BgsaveInput : Type 0 where
  pub db_size : ℕ
  pub fork : Option ℕ
  pub tried : ℕ
  pub now : ℕ
  pub aof_name : String
  pub aof_off : ℕ

abbrev pub run_bgsave : BgsaveInput → Saver → Saver
run_bgsave i = bgsave i.db_size i.fork i.tried i.now i.aof_name i.aof_off

unfoldable pub sync_slave :
    (String → Option ℕ)
    → String
    → BgsaveInput
    → Sync
    → CommandPsync
    → CommandPsyncReply
    → Saver
    → SlaveLink
    → CommandPsyncReply × Saver × SlaveLink
sync_slave size_of dbname input from_first psync reply s client =
    let (reply', client') = partsync_from first_aof 0 reply client in (reply', s, client')
sync_slave size_of dbname input full psync reply s client =
    if is_empty s.conf.db_dump_aof_name
    then (
      record reply { psync_type = trysync },
      run_bgsave input s,
      record client { repl_state = wait_bgsave },
    )
    else (let (reply', client') =
          fullsync_from (size_or_error (size_of dbname)) s.conf reply client in
        (reply', s, client'))
sync_slave size_of dbname input partial psync reply s client =
    let (reply', client') =
      partsync_from psync.repl_aof_file_name psync.repl_aof_off reply client in
    (reply', s, client')

-- CommandPsync::exec: the reply that is written to the link.
unfoldable pub exec_psync :
    (String → Option ℕ)
    → String
    → BgsaveInput
    → CommandPsync
    → Saver
    → SlaveLink
    → CommandPsyncReply × Saver × SlaveLink
exec_psync size_of dbname input psync s client =
    let reply : CommandPsyncReply = record {
      errcode = 0;
      psync_type = nf;
      run_id = s.conf.run_id;
      repl_database_size = ℤ.pos 0;
      repl_aof_file_name = [];
      repl_aof_off = 0;
    } in
    let (reply', s', client') =
      sync_slave size_of dbname input (choose_sync size_of dbname psync) psync reply s client in
    (reply', s', record client' { slave_flag = true })
