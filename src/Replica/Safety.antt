-- ===== src/Replica/Safety.antt =====
-- No handler of a slave ends the process.
use naruto.Prelude.{
  Option-cases, ℕ, ◌^◌, ◌≤◌, ◌<◌, ◌≡◌, ◌≢◌, refl, sym, ◌∙◌, ◌⊎◌, inl, inr, Bool, true, false,
  Option, none, some, List, [], ◌∷◌, ◌++◌, length, IsBytes, Bool-cases, arith,
}
use naruto.Prelude.Int.{pos_part}
use naruto.ReplState.{
  ReplState, connect, connecting, receive_pong, wait_bgsave, transfor, connected,
}
use naruto.Psync.{CommandPsyncReply}
use naruto.Replica.{
  Replica, stopped, on_sync, on_bulk, ping, SyncInput, slaveof, on_master, undo_connect_master,
  abort_sync_transfer, cache_master, try_psync, take_reply, sync_error, resynchronise,
  on_sync_with_master,
}

-- The states in which there is a master.
abbrev pub needs_master : ReplState → Bool
needs_master ReplState.none = false
needs_master connect = false
needs_master connecting = true
needs_master receive_pong = true
needs_master wait_bgsave = false
needs_master transfor = true
needs_master connected = true

-- A watcher is active only in the states that its handler is for, and the temporary file holds what has
-- been read.
pub record IsSound (s : Replica) : Type 0 where
  pub reading : s.ev_io_r ≡ on_sync → (s.repl_state ≡ connecting) ⊎ (s.repl_state ≡ receive_pong)
  pub writing : s.ev_io_w ≡ on_sync → s.repl_state ≡ connecting
  pub bulk : s.ev_io_r ≡ on_bulk → s.repl_state ≡ transfor
  pub linked : needs_master s.repl_state ≡ true → s.master ≢ none
  pub written : (f : List ℕ) → s.transfer_f ≡ some f → IsBytes f × (length f ≤ s.transfer_read)
  pub small : pos_part s.transfer_size < 2 ^ 32

-- The process goes on, in a sound state.
abbrev pub Continues : Option Replica → Type 0
Continues none = ⊥
Continues (some s) = IsSound s

pub undo_connect_master-Continues :
    (s : Replica)
    → IsSound s
    → (s.repl_state ≡ connecting) ⊎ (s.repl_state ≡ receive_pong)
    → Continues (undo_connect_master s)
unfolding undo_connect_master
undo_connect_master-Continues s h e = ground arith

pub abort_sync_transfer-Continues :
    (s : Replica) → IsSound s → s.repl_state ≡ transfor → Continues (abort_sync_transfer s)
unfolding abort_sync_transfer
abort_sync_transfer-Continues s h e = ground arith

pub slaveof-IsSound :
    (ip : List ℕ) (port : ℕ) (s : Replica)
    → IsSound s
    → needs_master s.repl_state ≡ false ⊎ (s.repl_state ≡ connected)
    → IsSound (slaveof ip port s)
unfolding slaveof
slaveof-IsSound ip port s h e = ground arith

pub cache_master-IsSound :
    (now : ℕ) (s : Replica) → IsSound s → s.repl_state ≡ connected → IsSound (cache_master now s)
unfolding cache_master
cache_master-IsSound now s h e = ground arith

-- A reply of which the size of the dump is one that the loader takes.
abbrev pub IsSmallReply : Option CommandPsyncReply → Type 0
IsSmallReply none = Unit
IsSmallReply (some r) = pos_part r.repl_database_size < 2 ^ 32

sync_error-Continues :
    (s : Replica)
    → s.master ≢ none
    → s.ev_io_r ≡ stopped
    → s.ev_io_w ≢ on_sync
    → ((f : List ℕ) → s.transfer_f ≡ some f → IsBytes f × (length f ≤ s.transfer_read))
    → pos_part s.transfer_size < 2 ^ 32
    → Continues (sync_error s)
unfolding sync_error on_master
sync_error-Continues s m r w f z = ground arith

resynchronise-Continues :
    (now : ℕ) (opened : Bool) (reply : Option CommandPsyncReply) (s : Replica)
    → IsSmallReply reply
    → s.master ≢ none
    → s.ev_io_r ≡ stopped
    → s.ev_io_w ≢ on_sync
    → ((f : List ℕ) → s.transfer_f ≡ some f → IsBytes f × (length f ≤ s.transfer_read))
    → pos_part s.transfer_size < 2 ^ 32
    → Continues (resynchronise now opened reply s)
unfolding resynchronise try_psync take_reply sync_error on_master
resynchronise-Continues now opened reply s p m r w f z = ground arith

-- The handler of the handshake, called by a watcher that is active.
pub on_sync_with_master-Continues :
    (i : SyncInput) (s : Replica)
    → IsSound s
    → (s.ev_io_r ≡ on_sync) ⊎ (s.ev_io_w ≡ on_sync)
    → IsSmallReply i.reply
    → i.pinged ≡ true
    → i.pong ≢ none
    → Continues (on_sync_with_master i s)
unfolding on_sync_with_master on_master
on_sync_with_master-Continues i s h e p written read = cases (active e)
  where
    active :
        (s.ev_io_r ≡ on_sync) ⊎ (s.ev_io_w ≡ on_sync)
        → (s.repl_state ≡ connecting) ⊎ (s.repl_state ≡ receive_pong)
    active (inl r) = h.reading r
    active (inr w) = inl (h.writing w)

    is_off : stopped ≢ on_sync
    is_off g = cc

    failed :
        needs_master s.repl_state ≡ true
        → Continues (sync_error (record s { ev_io_w = stopped; ev_io_r = stopped }))
    failed n =
        sync_error-Continues (record s { ev_io_w = stopped; ev_io_r = stopped }) (h.linked n) refl
          is_off h.written h.small

    pinged :
        s.repl_state ≡ connecting
        → Continues (
            on_master
              (λ m. m)
              (record s {
                repl_state = receive_pong;
                ev_io_w = stopped;
                sent = s.sent ++ ping ∷ [];
              }))
    pinged c = ground (arith, h.linked (rw c refl))

    cases :
        (s.repl_state ≡ connecting) ⊎ (s.repl_state ≡ receive_pong)
        → Continues (on_sync_with_master i s)
    cases (inl c) =
        rw (on_sync_with_master, c)
          (elim (Bool-cases i.sockerr) [
            | inl t ↦ rw t (failed (rw c refl))
            | inr f ↦ rw (f, written) (pinged c)
          ])
    cases (inr c) =
        let n : needs_master s.repl_state ≡ true = rw c refl in
        let w : s.ev_io_w ≢ on_sync = λ g. differ (sym (h.writing g) ∙ c) in
        rw (on_sync_with_master, c)
          (elim (Bool-cases i.sockerr) [
            | inl t ↦ rw t (failed n)
            | inr f ↦ rw f (elim (Option-cases i.pong) [
              | inl q ↦ absurd (read q)
              | inr (true, q) ↦ rw q (
                  resynchronise-Continues i.now i.opened i.reply (record s { ev_io_r = stopped }) p
                    (h.linked n) refl w h.written h.small)
              | inr (false, q) ↦ rw q (
                  sync_error-Continues (record s { ev_io_r = stopped }) (h.linked n) refl w
                    h.written h.small)
            ])
          ])
      where
        differ : connecting ≢ receive_pong
        differ g = cc
