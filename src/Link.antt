-- ===== src/Link.antt =====
-- link/client_link.h and link/client_link.cpp: a link with its two buffers, and the commands of a client that are
-- executed over it. What protobuf makes of the messages is a parameter.
pub mod Stream
pub mod Queue
pub mod Serve
use naruto.Prelude.{
  ℕ, zero, suc, ◌+◌, ◌-◌, ◌^◌, Bool, true, false, Option, none, some, List, [], ◌∷◌, take, drop,
  length, ◌==◌, if◌then◌else◌,
}
use naruto.Prelude.Int.{ℤ}
use naruto.Prelude.Maps.{String}
use naruto.Bytes.{Bytes, u32, new, size, clear, get_int, get_short, pack_head_len}
use naruto.Pack.{serialize_message, deserialize, body_of}
use naruto.Connection.{
  Connect, Status, init, Recv, Reading, finished, waiting, read_pack, Send, Sending, send_loop,
}
use naruto.Connection
use naruto.Objects.{Feature}
use naruto.Hset.{CommandHset, CommandReply, Database, exec_msg, hget_fields}
use naruto.Backlog.{Backlog, feed_pack}
use naruto.Commands.{Command, nf, hset, hget, aof, psync, slaveof, ping, pong, fetch}

-- clientLink; `reading` and `writing` say whether the watchers c_rio and c_wio are active.
pub record ClientLink : Type 0 where
  pub worker_id : ℕ
  pub connect : Connect
  pub rbuf : Bytes
  pub wbuf : Bytes
  pub reading : Bool
  pub writing : Bool
  pub lastinteraction : ℕ

-- clientLink(wid, sd). Its worker starts the watcher.
unfoldable pub new_link : ℕ → ℕ → ClientLink
new_link wid now = record {
  worker_id = wid;
  connect = record { status = init; err = ℤ.pos 0 };
  rbuf = new;
  wbuf = new;
  reading = false;
  writing = false;
  lastinteraction = now;
}

unfoldable pub close : ClientLink → ClientLink
close l = record l { reading = false; connect = Connection.close l.connect }

-- sendMsg(msg, type)
unfoldable pub send_msg : List ℕ → ℕ → ClientLink → ClientLink
send_msg msg type l = record l { writing = true; wbuf = serialize_message msg type l.wbuf }

-- What follows a call of send in onWrite; `none` while a call of ::send blocks.
unfoldable pub after_send : ClientLink → Sending → Option ClientLink
after_send l r = elim r.result [
  | none ↦ none
  | some (ℤ.pos zero) ↦
      some (record l { connect = r.connect; wbuf = clear l.wbuf; writing = false })
  | some k ↦ some (record (close (record l { connect = r.connect })) { writing = false })
]

-- What onWrite hands to the socket, and the link after it.
unfoldable pub on_write : List Send → ClientLink → List ℕ × Option ClientLink
on_write ss l =
    if size l.wbuf == 0
    then ([], some l)
    else (let r : Sending = send_loop ss (take (size l.wbuf) l.wbuf.buf) l.connect in
        (r.out, after_send l r))

-- onRead up to the execution of the command: the link has been closed, a call of ::recv blocks, the type of the pack is
-- not one of the enumeration and the log line goes through a null pointer, or there is a command.
pub data Read : Type 0 where
  dropped : ClientLink → Read
  blocked : Read
  unknown : Read
  command : Command → ClientLink → Read

unfoldable pub read_head : ClientLink → Read
read_head l =
    let (pack_size, b) = get_int l.rbuf in
    let (fg, b') = get_short b in
    let (type, b'') = get_short b' in
    elim (fetch type) [ none ↦ unknown | some c ↦ command c (record l { rbuf = b'' }) ]

-- What follows the call of recv, which throws where it has not read a pack.
unfoldable pub after_recv : ℕ → ClientLink → Reading → Read
after_recv now l (waiting next pack c) = blocked
after_recv now l (finished (ℤ.pos zero) pack c) =
    read_head (record l { rbuf = pack; connect = c; lastinteraction = now })
after_recv now l (finished (ℤ.pos (suc k)) pack c) =
    dropped (close (record l { rbuf = pack; connect = c; lastinteraction = now }))
after_recv now l (finished (ℤ.negsuc k) pack c) =
    dropped (close (record l { rbuf = pack; connect = c; lastinteraction = now }))

unfoldable pub on_read : List Recv → ℕ → ClientLink → Read
on_read rs now l = after_recv now l (read_pack rs (clear l.rbuf) l.connect)

-- command_hget, and what is answered over a link: command_reply of an HSET, command_hget_reply, the reply of CommandNF
-- and command_pong.
pub record CommandHget : Type 0 where
  pub key : String
  pub fields : List String

pub data Answer : Type 0 where
  reply : CommandReply → Answer
  hget_reply : List Feature → Answer
  not_found : Answer
  pong_from : Answer

-- The parsing and the printing of the messages.
pub record Messages : Type 0 where
  pub decode_hset : List ℕ → CommandHset
  pub decode_hget : List ℕ → CommandHget
  pub encode_hget : CommandHget → List ℕ
  pub encode_answer : Answer → List ℕ

-- What the commands of a client work on.
pub record Server : Type 0 where
  pub database : Database
  pub backlog : Backlog

-- A command has been executed, one of the replication has been handed on, a null pointer has been used or an array has been
-- read behind its end, or there was no command.
pub data Outcome : Type 0 where
  served : ClientLink → Server → Outcome
  handed : Command → ClientLink → Outcome
  fault : Outcome
  idle : Read → Outcome

module _ (m : Messages) where
  -- CommandHset::exec, which reads a head where the reader stands.
  unfoldable pub exec_hset : ℕ → ℕ → ClientLink → Server → Outcome
  exec_hset created now l s =
      let (len, b) = get_int l.rbuf in
      let (flag, b') = get_short b in
      let (type, b'') = get_short b' in
      elim (body_of b''.buf (u32 (len + 2 ^ 32 - pack_head_len))) [
        | none ↦ fault
        | some msg ↦ elim (exec_msg (m.decode_hset msg) created now s.database) [
          | none ↦ fault
          | some (r, d) ↦
              served (send_msg (m.encode_answer (reply r)) 2000 (record l { rbuf = b'' })) (record {
                database = d;
                backlog = if r.errcode == 0 then feed_pack l.worker_id b'' s.backlog else s.backlog;
              })
        ]
      ]

  -- CommandHget::exec
  unfoldable pub exec_hget : ClientLink → Server → Outcome
  exec_hget l s =
      let (type, body) = deserialize l.rbuf in
      elim body [
        | none ↦ fault
        | some msg ↦
            (let q : CommandHget = m.decode_hget msg in
              elim (hget_fields q.key q.fields s.database) [
                | none ↦ fault
                | some fs ↦ served (send_msg (m.encode_answer (hget_reply fs)) type l) s
              ])
      ]

  -- The commands of a client: exec of CommandNF, CommandPing and CommandPong too.
  unfoldable pub exec : Command → ℕ → ℕ → ClientLink → Server → Outcome
  exec hset created now l s = exec_hset created now l s
  exec hget created now l s = exec_hget l s
  exec nf created now l s = served (send_msg (m.encode_answer not_found) 0 l) s
  exec ping created now l s =
      served (send_msg (m.encode_answer pong_from) 4 (record l { lastinteraction = now })) s
  exec pong created now l s = served (record l { lastinteraction = now }) s
  exec aof created now l s = handed aof l
  exec psync created now l s = handed psync l
  exec slaveof created now l s = handed slaveof l

  unfoldable pub execute : ℕ → ℕ → Server → Read → Outcome
  execute created now s (command c l) = exec c created now l s
  execute created now s (dropped l) = idle (dropped l)
  execute created now s blocked = idle blocked
  execute created now s unknown = idle unknown

  -- onRead as a whole.
  unfoldable pub serve : List Recv → ℕ → ℕ → ClientLink → Server → Outcome
  serve rs created now l s = execute created now s (on_read rs now l)

-- write(msg, type) and read(msg) of a client, which waits for its answer.
unfoldable pub write : List Send → List ℕ → ℕ → Connect → Sending
write ss msg type c =
    let pack : Bytes = serialize_message msg type new in send_loop ss (take (size pack) pack.buf) c
