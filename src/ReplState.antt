-- ===== src/ReplState.antt =====
-- replication/replica_state.h: the state of a replication and what is kept of it in a file.
use naruto.Prelude.{ℕ, Bool, false, []}
use naruto.Prelude.Maps.{String}

-- replState
pub data ReplState : Type 0 where
  none : ReplState
  connect : ReplState
  connecting : ReplState
  receive_pong : ReplState
  wait_bgsave : ReplState
  transfor : ReplState
  connected : ReplState

-- replConf. An int64_t is its 64 bits.
pub record ReplConf : Type 0 where
  pub is_master : Bool
  pub run_id : String
  pub db_dump_aof_name : String
  pub db_dump_aof_off : ℕ
  pub master_ip : String
  pub master_port : ℕ
  pub master_run_id : String
  pub master_aof_name : String
  pub master_aof_off : ℕ

abbrev pub new_conf : ReplConf
new_conf = record {
  is_master = false;
  run_id = [];
  db_dump_aof_name = [];
  db_dump_aof_off = 0;
  master_ip = [];
  master_port = 0;
  master_run_id = [];
  master_aof_name = [];
  master_aof_off = 0;
}
