-- ===== src/Tests/SetupTests.antt =====
-- The set-up of connections and their workers: runs on concrete inputs.
use naruto.Prelude.{
  ℕ, zero, suc, ◌≡◌, ◌≤◌, ◌+◌, ◌⊎◌, refl, true, false, some, List, [], ◌∷◌, get_or, replicate,
  arith,
}
use naruto.Prelude.Int.{ℤ}
use naruto.Connection.{connected, broken, rt_err}
use naruto.Connection.Setup.{
  Socket, SocketCalls, accepted, address_not_avail, in_progress, poll_timeout, pending, connect,
  new_socket, close_socket, reconnect, reconnected, threw,
}
use naruto.Connection.Setup.Result.{IsSettled, connect-IsSettled, reconnect-IsKept}
use naruto.Connection.Setup.Leak.{connect-IsLost}
use naruto.Workers.{Event, accept, accept_rc, accept_failed, async, run, idle_worker}
use naruto.Workers.Owned.{AllMine, run-AllMine}
use naruto.Workers.Shared.{load, started, load-run}

-- The address is not there twice, and then ::connect succeeds; the other eight answers are not asked for.
abbrev succeeding : SocketCalls
succeeding = record {
  socket = some 9;
  connects = address_not_avail ∷ address_not_avail ∷ replicate 8 accepted;
  poll = poll_timeout;
  done = pending;
  has_so_error = false;
  get_flags = true;
  set_flags = true;
  set_read_timeout = true;
  set_write_timeout = true;
}

abbrev failing : SocketCalls
failing = record succeeding { connects = address_not_avail ∷ replicate 9 in_progress }

connect-IsSettled_example :
    (r : Socket × ℤ) × (connect succeeding (new_socket (3 ∷ [])) ≡ some r)
    × IsSettled (some 9) (3 ∷ []) r
connect-IsSettled_example = connect-IsSettled succeeding (3 ∷ []) (omega arith)

-- A connection over descriptor 3 that has been closed by the other side.
abbrev old : Socket
old = record {
  connect = record { status = connected; err = ℤ.negsuc 1 };
  fd = some 3;
  has_addr = true;
  opened = 3 ∷ [];
}

reconnect-IsKept_example :
    ((s' : Socket) × (fd : ℕ) × (reconnect succeeding old ≡ reconnected s')
      × (broken s'.connect ≡ false)
      × (s'.fd ≡ some fd)
      × (s'.opened ≡ fd ∷ 3 ∷ []))
    ⊎ ((left : List ℕ) × (reconnect succeeding old
          ≡ threw (ℤ.negsuc 1) (record old { opened = left })))
reconnect-IsKept_example = reconnect-IsKept succeeding old (omega arith) refl

connect-IsLost_example :
    (s : Socket) × (connect failing (new_socket (3 ∷ [])) ≡ some (s, rt_err))
    × (s.opened ≡ 9 ∷ 3 ∷ [])
    × ((close_socket s).opened ≡ 9 ∷ 3 ∷ [])
connect-IsLost_example = connect-IsLost failing 9 (3 ∷ []) refl (omega arith) (omega arith)

-- Four clients come to three workers, with another server between them.
abbrev events : List Event
events =
    accept 1 ∷ accept 2 ∷ async 0 ∷ accept_rc 3 ∷ accept_failed ∷ accept 4 ∷ accept 5 ∷ async 1 ∷ []

nobody : (i : ℕ) → AllMine i (get_or (replicate 3 idle_worker) i idle_worker)
nobody zero = (tt, tt)
nobody (suc zero) = (tt, tt)
nobody (suc (suc zero)) = (tt, tt)
nobody (suc (suc (suc i))) = (tt, tt)

run-AllMine_example : AllMine 1 (get_or (run events (started 3)).workers 1 idle_worker)
run-AllMine_example = run-AllMine events (started 3) nobody 1

load-run_example :
    load (run (accept 1 ∷ accept 2 ∷ async 0 ∷ accept 4 ∷ accept 5 ∷ []) (started 3)) 0
    ≤ load (run (accept 1 ∷ accept 2 ∷ async 0 ∷ accept 4 ∷ accept 5 ∷ []) (started 3)) 2 + 1
load-run_example =
    load-run (accept 1 ∷ accept 2 ∷ async 0 ∷ accept 4 ∷ accept 5 ∷ []) 3 0 2 (omega arith)
      (omega arith) (omega arith) (omega arith)
