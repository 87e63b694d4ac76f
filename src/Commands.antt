-- ===== src/Commands.antt =====
-- command/commands.cpp: the table of the commands, and command/command_aof.cpp: the execution of what a
-- master sends. protobuf's parsing of an HSET is the parameter `decode`.
pub mod Replay
pub mod CatchUp
pub mod Replicated
use naruto.Prelude.{
  ℕ, Bool, true, false, ◌||◌, ◌&&◌, Option, none, some, List, [], ◌∷◌, leb, ◌==◌, if◌then◌else◌,
}
use naruto.Prelude.Int.{ℤ}
use naruto.Hset.{CommandHset, Database, exec_msg}
use naruto.Backlog.{Backlog, feed_raw}
use naruto.Replica.{MasterLink}
use naruto.SlaveFeed.{CommandAof}
use naruto.Prelude.Maps.{String}
use naruto.Loader.{Entry, load_file}
use naruto.AofName.{DirEntry, list_aof}
use naruto.ReplState.{ReplConf}

-- The objects of the table.
pub data Command : Type 0 where
  nf : Command
  hset : Command
  hget : Command
  aof : Command
  psync : Command
  slaveof : Command
  ping : Command
  pong : Command

-- The numbers of cmdtype::Type.
abbrev pub is_type : ℕ → Bool
is_type type = leb type 7 || (leb 1001 type && leb type 1021) || (leb 2000 type && leb type 2002)

-- _cmds.find(type), and _cmd_nf where there is none.
unfoldable pub find_command : ℕ → Command
find_command type =
    if type == 2000
    then hset
    else (if type == 2001
        then hget
        else (if type == 2
            then aof
            else (if type == 6
                then psync
                else (if type == 7
                    then slaveof
                    else (if type == 3 then ping else (if type == 4 then pong else nf))))))

-- fetch. Its log line looks the number up in the enumeration; for a number that is not there it goes
-- through a null pointer: `none`.
unfoldable pub fetch : ℕ → Option Command
fetch type = if is_type type then some (find_command type) else none

-- What CommandAof::exec changes.
pub record Applied : Type 0 where
  pub database : Database
  pub backlog : Backlog
  pub link : MasterLink

module _ (decode : List ℕ → CommandHset) where
  -- execMsg of a command. Only that of HSET does anything.
  unfoldable pub exec_command : Command → ℕ → ℕ → List ℕ → Database → Option Database
  exec_command hset created now msg d = elim (exec_msg (decode msg) created now d) [
    | none ↦ none
    | some (reply, d') ↦ some d'
  ]
  exec_command nf created now msg d = some d
  exec_command hget created now msg d = some d
  exec_command aof created now msg d = some d
  exec_command psync created now msg d = some d
  exec_command slaveof created now msg d = some d
  exec_command ping created now msg d = some d
  exec_command pong created now msg d = some d

  unfoldable pub exec_type : ℕ → ℕ → ℕ → List ℕ → Database → Option Database
  exec_type created now type msg d = elim (fetch type) [
    | none ↦ none
    | some command ↦ exec_command command created now msg d
  ]

  -- The loop over the commands of a message. A command without a type is out of the range of `types`.
  unfoldable pub exec_all : ℕ → ℕ → ℕ → List ℕ → List (List ℕ) → Applied → Option Applied
  exec_all worker created now types [] s = some s
  exec_all worker created now [] (msg ∷ commands) s = none
  exec_all worker created now (type ∷ types) (msg ∷ commands) s =
      elim (exec_type created now type msg s.database) [
        | none ↦ none
        | some d ↦
            exec_all worker created now types commands
              (record s { database = d; backlog = feed_raw worker msg type s.backlog })
      ]

  -- CommandAof::exec
  unfoldable pub exec_aof : ℕ → ℕ → ℕ → CommandAof → Applied → Option Applied
  exec_aof worker created now msg s = elim (exec_all worker created now msg.types msg.commands s) [
    | none ↦ none
    | some t ↦ some (record t {
      link = record t.link { repl_aof_file_name = msg.aof_name; repl_aof_off = msg.aof_off };
    })
  ]

  -- The callback that the start of a server gives to loadFile, on the entries of a file.
  unfoldable pub replay : ℕ → ℕ → List Entry → Database → Option Database
  replay created now [] d = some d
  replay created now (e ∷ es) d = elim (exec_type created now e.type e.body d) [
    | none ↦ none
    | some d' ↦ replay created now es d'
  ]

  -- The loop over the names; a file that does not open is passed over.
  unfoldable pub load_logs :
      ℕ → ℕ → (String → Option (List ℕ)) → List String → ℕ → Database → Option Database
  load_logs created now files [] off d = some d
  load_logs created now files (name ∷ names) off d = elim (files name) [
    | none ↦ load_logs created now files names 0 d
    | some contents ↦ elim (load_file contents off) [
      | none ↦ none
      | some es ↦ elim (replay created now es d) [
        | none ↦ none
        | some d' ↦ load_logs created now files names 0 d'
      ]
    ]
  ]

  -- The append-only files at the start of a server.
  unfoldable pub load_aof :
      ℕ → ℕ → List DirEntry → (String → Option (List ℕ)) → ReplConf → Database → Option Database
  load_aof created now dir files conf d = elim (list_aof dir conf.db_dump_aof_name) [
    | none ↦ none
    | some names ↦ load_logs created now files names conf.db_dump_aof_off d
  ]
