-- ===== src/Tests/ConnectionTests.antt =====
-- Commands from a master, pieces of packs and the pool: runs on concrete inputs.
use naruto.Prelude.{
  ℕ, ◌≡◌, refl, true, Option, none, some, List, [], ◌∷◌, sort_by, insert_by, arith, if◌then◌else◌,
}
use naruto.Prelude.Int.{ℤ}
use naruto.Prelude.Maps.{String, equal}
use naruto.Loader.{Entry}
use naruto.Buckets.{new_buckets}
use naruto.Hset.{CommandHset, Database, bytes_v}
use naruto.ReplState.{ReplState, new_conf}
use naruto.Backlog.Feed.{issue_all}
use naruto.AofName.{to_string, decimal}
use naruto.AofName.Names.{aof_name}
use naruto.AofName.Directory.{numbered, from_number}
use naruto.SlaveFeed.Sent.{message_of}
use naruto.Commands.{Applied, exec_aof, replay, load_aof}
use naruto.Commands.Replay.{calls, exec_aof-message_of, load_aof-replay}
use naruto.Connection.{Connect, connected}
use naruto.Pool.{ConnectionPool, FetchInput}
use naruto.Pool.Bounds.{IsCounted, Users, fetching, releasing, run, run-IsCounted}
use naruto.Tests.ReplicaTests.{master_link}
use naruto.Tests.BacklogTests.{idle}
use naruto.Tests.SlaveFeedTests.{link, file_3, two_files}
use naruto.SlaveFeed.{on_send_incr_to_slave}
use naruto.Commands.CatchUp.{CatchesUp, on_send_incr_to_slave-CatchesUp}
use naruto.Slaves.{Slaves, accepted, on_master_cron}
use naruto.Slaves.Dropped.{on_master_cron-accepted}
use naruto.Codec.{le_bytes}
use naruto.Loader.Drain.{packs_of}
use naruto.Loader.Whole.{load_file-file_of}

abbrev conn : Connect
conn = record { status = connected; err = ℤ.pos 0 }

abbrev connection_pool : ConnectionPool
connection_pool = record {
  max_conns = 1;
  wait_timeout = 0;
  connection_lifetime = 5000;
  pool = [];
  used_connections = 0;
}

abbrev users : Users
users = record { held = []; lost = 0 }

abbrev fetch_input : FetchInput
fetch_input = record { now = 1; later = 2; made = true }

run-IsCounted_example : IsCounted (
    run
      (fetching fetch_input ∷ fetching fetch_input ∷ releasing ∷ fetching fetch_input ∷ [])
      (connection_pool, users))
run-IsCounted_example =
    run-IsCounted
      (fetching fetch_input ∷ fetching fetch_input ∷ releasing ∷ fetching fetch_input ∷ [])
      (connection_pool, users) (record { counted = refl; bounded = omega arith })

-- A parser that takes the bytes for a key, and sets its field "f" to "v".
abbrev pub read_hset : List ℕ → CommandHset
read_hset body = record { key = body; field = 102 ∷ []; ttl = ℤ.pos 0; value = bytes_v (118 ∷ []) }

abbrev entry : Entry
entry = record { flag = 0; type = 2000; body = 107 ∷ [] }

abbrev empty_database : Database
empty_database = record { buckets = new_buckets 4; store = [] }

abbrev pub applied : Applied
applied = record { database = empty_database; backlog = idle; link = master_link }

exec_aof-message_of_example :
    exec_aof read_hset 1 2 3 (message_of (entry ∷ []) (aof_name 3, 11)) applied
    ≡ elim (replay read_hset 2 3 (entry ∷ []) empty_database) [
      | none ↦ none
      | some d ↦ some (record {
        database = d;
        backlog = issue_all (calls 1 (entry ∷ [])) idle;
        link = record master_link { repl_aof_file_name = aof_name 3; repl_aof_off = 11 };
      })
    ]
exec_aof-message_of_example =
    exec_aof-message_of read_hset 1 2 3 (entry ∷ []) (aof_name 3, 11) applied (((λ e. cc), tt), tt)

abbrev one_file : String → Option (List ℕ)
one_file name = if equal name (aof_name 0) then some (packs_of (entry ∷ [])) else none

load_aof-replay_example :
    load_aof read_hset 2 3
      (numbered (0 ∷ []))
      one_file
      (record new_conf { db_dump_aof_name = aof_name 0 })
      empty_database
    ≡ replay read_hset 2 3 (entry ∷ []) empty_database
unfolding sort_by insert_by from_number equal to_string decimal le_bytes
load_aof-replay_example =
    load_aof-replay read_hset 2 3 0 (0 ∷ []) one_file
      (record new_conf { db_dump_aof_name = aof_name 0 }) ((entry ∷ []) ∷ []) empty_database
      (omega arith) (omega arith) refl
      (
        (
          packs_of (entry ∷ []),
          refl,
          load_file-file_of [] [] (entry ∷ []) tt (omega arith) (omega arith) (omega arith),
        ),
        tt,
      )

-- The pack in the file 3.
abbrev object_entry : Entry
object_entry = record { flag = 0; type = 1; body = 107 ∷ [] }

on_send_incr_to_slave-CatchesUp_example :
    CatchesUp read_hset 1 2 3 (object_entry ∷ []) applied (on_send_incr_to_slave two_files link)
unfolding equal to_string decimal le_bytes
on_send_incr_to_slave-CatchesUp_example =
    on_send_incr_to_slave-CatchesUp read_hset 1 2 3 two_files 3 file_3 link (object_entry ∷ [])
      applied (omega arith) refl refl (omega arith) (omega arith) (omega arith) (omega arith)
      (load_file-file_of (7 ∷ 7 ∷ []) [] (object_entry ∷ []) tt (omega arith) (omega arith)
        (omega arith))
      (((λ e. cc), tt), tt)

abbrev slaves : Slaves
slaves = record {
  slaves =
      record {
        connect = accepted;
        repl_state = ReplState.connected;
        lastinteraction = 9;
        pings = 0;
      }
      ∷ [];
  cronloops = 4;
}

on_master_cron-accepted_example :
    on_master_cron 60000 10 10 slaves ≡ some (record { slaves = []; cronloops = 5 })
on_master_cron-accepted_example = on_master_cron-accepted 60000 10 10 slaves (refl, tt) (λ e. cc)
