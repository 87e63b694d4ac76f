-- ===== src/Replica/Handshake.antt =====
-- The events from SLAVEOF to the reply of the master.
use naruto.Prelude.{
  ℕ, ◌≤◌, ◌≡◌, refl, Bool, true, false, Option, none, some, List, [], ◌∷◌, ◌++◌, append_assoc,
  arith,
}
use naruto.Prelude.Maps.{String, equal}
use naruto.ReplState.{connect, connected, transfor}
use naruto.Psync.{choose_sync, partial, is_empty, unknown_id, CommandPsyncReply, partsync, fullsync}
use naruto.Restore.{Features}
use naruto.Replica.Transfer.{on_read_sync_bulk_payload}
use naruto.Replica.{
  abort_sync_transfer, Replica, MasterLink, ping, psync, psync_request, SyncInput, slaveof,
  connect_master, on_sync_with_master, on_master, try_psync, take_reply, take_position,
  keep_position, resynchronise, on_bulk,
}
use naruto.Replica.Cron.{
  CronInput, on_repl_cron, check_connecting, check_transfer, check_master, try_connect, heartbeat,
}
use naruto.Replica.Runs.{Event, bulk_read, to_slave, tick, synced, run, After}

-- The connection is made.
abbrev pub connecting_tick : CronInput → CronInput
connecting_tick c = record c { made = true }

-- The socket can be written to, and then PONG and the reply can be read.
abbrev pub writable : SyncInput → SyncInput
writable i = record i { sockerr = false; pinged = true }

abbrev pub answered : CommandPsyncReply → SyncInput → SyncInput
answered reply i = record i { sockerr = false; pong = some true; reply = some reply }

abbrev pub handshake : String → ℕ → CronInput → SyncInput → CommandPsyncReply → List Event
handshake ip port c i reply =
    to_slave ip port
    ∷ tick (connecting_tick c)
    ∷ synced (writable i)
    ∷ synced (answered reply i)
    ∷ []

abbrev pub IsPosition : CommandPsyncReply → Option MasterLink → Type 0
IsPosition reply none = ⊥
IsPosition reply (some m) =
    (m.repl_run_id ≡ reply.run_id)
    × (m.repl_aof_file_name ≡ reply.repl_aof_file_name)
    × (m.repl_aof_off ≡ reply.repl_aof_off)

-- What the slave has sent, and the position that it has taken over.
pub record IsAnswered (reply : CommandPsyncReply) (s t : Replica) : Type 0 where
  pub messages : t.sent ≡ s.sent ++ ping ∷ psync (psync_request s.conf) ∷ []
  pub kept : t.conf ≡ keep_position reply s.conf
  pub position : IsPosition reply t.master

abbrev pub IsAttached : Replica → CommandPsyncReply → Replica → Type 0
IsAttached s reply t = (t.repl_state ≡ connected) × IsAnswered reply s t

abbrev pub IsReceiving : Replica → CommandPsyncReply → Replica → Type 0
IsReceiving s reply t =
    (t.repl_state ≡ transfor)
    × (t.ev_io_r ≡ on_bulk)
    × (t.transfer_size ≡ reply.repl_database_size)
    × (t.transfer_read ≡ 0)
    × IsAnswered reply s t

-- The slave has the database that it had, and a request that the master takes for a partial one.
abbrev pub IsSkipping : Replica → (String → Option ℕ) → String → Replica → Type 0
IsSkipping s size_of dbname t =
    (t.repl_state ≡ connect)
    × (t.database ≡ s.database)
    × (choose_sync size_of dbname (psync_request t.conf) ≡ partial)

module _ (decode : List ℕ → Features) (c : CronInput) (i : SyncInput) (first : ℕ) (rest : String)
    (port : ℕ) (s : Replica) where
  -- SLAVEOF with a host that is not empty, a tick of the timer, the socket that can be written, and PONG with
  -- a reply of PARTSYNC and the code 0: from any state the slave ends connected, with the position of the
  -- reply on its link and in its configuration, and has sent a PING and the request for the position that
  -- it had kept.
  pub handshake-IsAttached :
      (reply : CommandPsyncReply)
      → reply.errcode ≡ 0
      → reply.psync_type ≡ partsync
      → After (IsAttached s reply) (run decode (handshake (first ∷ rest) port c i reply) s)
  unfolding slaveof connect_master on_sync_with_master on_master try_psync take_reply take_position
      keep_position resynchronise on_repl_cron check_connecting check_transfer check_master
      try_connect heartbeat psync_request
  handshake-IsAttached reply e p =
      rw (e, p)
        (
          refl,
          record {
            messages = append_assoc s.sent (ping ∷ []) _;
            kept = refl;
            position = (refl, refl, refl);
          },
        )

  -- With a reply of FULLSYNC and the code 0 the same events end in the transfer of a database of the size of
  -- the reply, of which nothing has been read, and with the position of the reply.
  pub handshake-IsReceiving :
      (reply : CommandPsyncReply)
      → reply.errcode ≡ 0
      → reply.psync_type ≡ fullsync
      → After (IsReceiving s reply) (run decode (handshake (first ∷ rest) port c i reply) s)
  unfolding slaveof connect_master on_sync_with_master on_master try_psync take_reply take_position
      keep_position resynchronise on_repl_cron check_connecting check_transfer check_master
      try_connect heartbeat psync_request
  handshake-IsReceiving reply e p =
      rw (e, p)
        (
          refl,
          refl,
          refl,
          refl,
          record {
            messages = append_assoc s.sent (ping ∷ []) _;
            kept = refl;
            position = (refl, refl, refl);
          },
        )

  -- The bug: the slave keeps the position of a FULLSYNC reply before it has the database. When the connection
  -- ends in the transfer, the next request is for that position, and a master that has the file to there
  -- decides for a partial synchronisation, so that the slave goes without the database.
  pub handshake-lost :
      (reply : CommandPsyncReply) (renamed : Bool) (now size : ℕ) (size_of : String → Option ℕ)
      (dbname : String)
      → reply.errcode ≡ 0
      → reply.psync_type ≡ fullsync
      → is_empty reply.run_id ≡ false
      → equal reply.run_id unknown_id ≡ false
      → is_empty reply.repl_aof_file_name ≡ false
      → size_of reply.repl_aof_file_name ≡ some size
      → reply.repl_aof_off ≤ size
      → After
          (IsSkipping s size_of dbname)
          (run decode (handshake (first ∷ rest) port c i reply ++ bulk_read [] renamed now ∷ []) s)
  unfolding slaveof connect_master on_sync_with_master on_master try_psync take_reply take_position
      keep_position resynchronise on_repl_cron check_connecting check_transfer check_master
      try_connect heartbeat psync_request on_read_sync_bulk_payload abort_sync_transfer choose_sync
  handshake-lost reply renamed now size size_of dbname e p r u a f l =
      rw (e, p) (refl, refl, ground (arith, f, l, r, a, u))
