-- ===== src/SlaveFeed.antt =====
-- replication/replica_link.cpp: how a master sends the saved database and then its append-only files to a
-- slave, and command/command_aof.cpp: what the slave does with them.
pub mod Bulk
pub mod Closed
pub mod Increment
pub mod Sent
use naruto.Prelude.{
  ℕ, zero, suc, ◌+◌, ◌-◌, ◌*◌, ◌^◌, Bool, true, false, not, ◌&&◌, ◌||◌, Option, none, some, List,
  [], ◌∷◌, ◌++◌, map, length, take, drop, ltb, leb, ◌==◌, if◌then◌else◌,
}
use mathlib.Core.Option
use naruto.Prelude.Int.{ℤ}
use naruto.Prelude.Maps.{String}
use naruto.Bytes.{Bytes, new, size, put_bytes}
use naruto.Loader.{Entry, drain, chunk_size}
use naruto.AofName.{has_next_aof}
use naruto.ReplState.{ReplState, connected}
use naruto.Psync.{SlaveLink, is_empty}
use naruto.Backlog.{Backlog, feed_raw}

abbrev pub transfer_len : ℕ
transfer_len = 1024 * 16

-- What a call of `write` on the socket does: all or a part of the bytes, EAGAIN, or another error.
pub data Written : Type 0 where
  wrote : ℕ → Written
  again : Written
  failed : Written

-- A master's link with the stream of the saved database. `db_fail` is that the stream has failed: a read
-- that comes to the end of the file leaves failbit set, with which no later seekg or read does anything.
pub record Feeder : Type 0 where
  pub link : SlaveLink
  pub db_fail : Bool
  pub closed : Bool
  pub added : Bool

-- replicaLink::close()
abbrev pub close_feeder : Feeder → Feeder
close_feeder f = record f {
  link = record f.link { incr_timer = false };
  db_fail = true;
  closed = true;
}

-- The bytes that a call reads.
unfoldable pub bulk_read : List ℕ → Feeder → List ℕ
bulk_read file f = if f.db_fail then [] else take transfer_len (drop f.link.repl_dboff file)

abbrev pub is_dbsize : ℕ → ℤ → Bool
is_dbsize n (ℤ.pos m) = n == m
is_dbsize n (ℤ.negsuc m) = false

-- repl_dboff += nwritten, and the end of the file.
unfoldable pub advance : ℕ → Feeder → Feeder
advance off f =
    if is_dbsize off f.link.repl_dbsize
    then (record f {
      link = record f.link {
        repl_dboff = off;
        bulk_io = false;
        repl_db_f = false;
        repl_state = connected;
        incr_timer = true;
      };
      added = true;
    })
    else (record f { link = record f.link { repl_dboff = off } })

-- onSendBulkToSlave on the contents of the file: the bytes that the socket has taken, and the link.
unfoldable pub on_send_bulk_to_slave : List ℕ → Written → Feeder → List ℕ × Feeder
on_send_bulk_to_slave file w f =
    let buf : List ℕ = bulk_read file f in
    let f' : Feeder = record f { db_fail = f.db_fail || ltb (length buf) transfer_len } in
    if not f.link.repl_db_f
    then ([], f)
    else (if length buf == 0 then ([], close_feeder f') else (elim w [
      | again ↦ ([], f')
      | failed ↦ ([], close_feeder f')
      | wrote n ↦ (take n buf, advance (f.link.repl_dboff + n) f')
    ]))

-- command_aof of protocol/client.proto.
pub record CommandAof : Type 0 where
  pub types : List ℕ
  pub commands : List (List ℕ)
  pub aof_name : String
  pub aof_off : ℕ

-- Add(msg) takes a C string: up to the first zero byte.
unfoldable pub c_string : List ℕ → List ℕ
c_string [] = []
c_string (c ∷ s) = if c == 0 then [] else c ∷ c_string s

-- What the loop over the file leaves: the packs, the buffer, the number of bytes read and eof.
pub record Sending : Type 0 where
  pub entries : List Entry
  pub buffer : Bytes
  pub readed : ℕ
  pub eof : Bool

-- The end of a round: the loop is left at the end of the file, and once enough has been read.
unfoldable pub after_read :
    Option (List Entry × Bytes) → ℕ → Bool → Bool → (Bytes → Option Sending) → Option Sending
after_read none readed eof stop next = none
after_read (some (es, b)) readed eof true next =
    some (record { entries = es; buffer = b; readed = readed; eof = eof })
after_read (some (es, b)) readed eof false next =
    Option.map (λ (r : Sending). record r { entries = es ++ r.entries }) (next b)

-- The loop. Its inner loop is that of loadFile, and four whole reads are the most that it makes.
unfoldable pub send_loop : ℕ → List ℕ → ℕ → Bytes → Option Sending
send_loop zero file readed buffer = none
send_loop (suc fuel) file readed buffer =
    let chunk : List ℕ = take chunk_size file in
    let filled : Bytes = put_bytes chunk buffer in
    let readed' : ℕ = readed + length chunk in
    let eof : Bool = ltb (length chunk) chunk_size in
    after_read (drain (suc (length filled.buf)) filled) readed' eof
      (eof || leb transfer_len readed') (λ b. send_loop fuel (drop chunk_size file) readed' b)

-- The first peek sets eof at the end of the file, and the loop is not entered.
unfoldable pub read_packs : List ℕ → ℕ → Option Sending
read_packs contents off =
    if leb (length contents) off
    then some (record { entries = []; buffer = new; readed = 0; eof = true })
    else send_loop 5 (drop off contents) 0 new

abbrev pub size_in : (String → Option (List ℕ)) → String → Option ℕ
size_in files name = Option.map length (files name)

-- if (hasNextAof(..)) ... : the new name and the offset 0, or the old name and the given offset.
abbrev pub move_on : Option String → ℕ → SlaveLink → SlaveLink
move_on none off link = record link { repl_aof_off = off }
move_on (some next) off link = record link { repl_aof_file_name = next; repl_aof_off = 0 }

-- `multi`, if it is sent.
unfoldable pub multi_of : Sending → SlaveLink → Option CommandAof
multi_of r link =
    if size r.buffer == 0
    then none
    else (some (record {
      types = map (λ (e : Entry). e.type) r.entries;
      commands = map (λ (e : Entry). c_string e.body) r.entries;
      aof_name = link.repl_aof_file_name;
      aof_off = link.repl_aof_off;
    }))

-- What follows the loop. hasNextAof is asked only at the end of the file.
unfoldable pub after_loop :
    (String → Option (List ℕ)) → Sending → SlaveLink → Option (Option CommandAof × SlaveLink)
after_loop files r link =
    Option.map
      (λ (next : Option String).
        let link' : SlaveLink = move_on next (link.repl_aof_off + r.readed) link in
        (multi_of r link', link'))
      (if r.eof then has_next_aof (size_in files) link.repl_aof_file_name else some none)

-- onSendIncrToSlave on the files of the directory. The offset is taken as a natural number.
unfoldable pub on_send_incr_to_slave :
    (String → Option (List ℕ)) → SlaveLink → Option (Option CommandAof × SlaveLink)
on_send_incr_to_slave files link =
    if is_empty link.repl_aof_file_name
    then some (none, link)
    else (elim (files link.repl_aof_file_name) [
      | none ↦ some (none, link)
      | some [] ↦
          Option.map (λ (next : Option String). (none, move_on next link.repl_aof_off link))
            (has_next_aof (size_in files) link.repl_aof_file_name)
      | some (c ∷ cs) ↦ elim (read_packs (c ∷ cs) link.repl_aof_off) [
        | none ↦ none
        | some r ↦ after_loop files r link
      ]
    ])
