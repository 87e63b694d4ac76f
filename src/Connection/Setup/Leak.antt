-- ===== src/Connection/Setup/Leak.antt =====
-- The descriptor of an attempt that fails.
use naruto.Prelude.{
  ℕ, ◌+◌, ◌≤◌, ◌<◌, ◌≡◌, refl, inl, inr, Option, none, some, List, [], ◌∷◌, length, All, leb, arith,
  Bool-cases,
}
use naruto.Prelude.Int.{ℤ}
use naruto.Connection.{rt_err, error_io}
use naruto.Connection.Setup.{
  Poll, Done, fail, error_other, Socket, SocketCalls, ConnectCall, accepted, host_unreachable,
  in_progress, address_not_avail, other_error, poll_failed, poll_timeout, ready, complete, pending,
  refused, wait_ready, check_socket_error, retry, open_socket, connect, new_socket, close_socket,
  connect_retries,
}

-- A descriptor that is open and that the connection does not know of.
pub record IsLost (fd : ℕ) (opened : List ℕ) (s : Socket) : Type 0 where
  pub unknown : s.fd ≡ none
  pub left_open : s.opened ≡ fd ∷ opened

close_socket-IsLost :
    (fd : ℕ) (opened : List ℕ) (s : Socket) → IsLost fd opened s → IsLost fd opened (close_socket s)
unfolding close_socket
close_socket-IsLost fd opened s l = record {
  unknown = refl;
  left_open = rw (l.unknown) l.left_open;
}

check_socket_error-IsLost :
    (calls : SocketCalls) (fd : ℕ) (opened : List ℕ) (s : Socket)
    → IsLost fd opened s
    → IsLost fd opened (check_socket_error calls s)
unfolding check_socket_error
check_socket_error-IsLost calls fd opened s l = elim (Bool-cases calls.has_so_error) [
  | inl e ↦ rw e (record { unknown = l.unknown; left_open = l.left_open })
  | inr e ↦ rw e l
]

wait_ready-IsLost :
    (calls : SocketCalls) (fd : ℕ) (opened : List ℕ) (s : Socket)
    → IsLost fd opened s
    → IsLost fd opened (wait_ready calls s)
unfolding wait_ready
wait_ready-IsLost calls fd opened s l = by_poll calls.poll calls.done
  where
    closed_again : IsLost fd opened (close_socket (fail error_io s))
    closed_again =
        close_socket-IsLost fd opened (fail error_io s)
          (record { unknown = l.unknown; left_open = l.left_open })

    by_poll :
        (p : Poll) (d : Done)
        → IsLost fd opened (elim p [
          | poll_failed ↦ close_socket (fail error_io s)
          | poll_timeout ↦ close_socket (fail error_io s)
          | ready ↦ elim d [
            | complete ↦ s
            | pending ↦ check_socket_error calls s
            | refused ↦ check_socket_error calls s
          ]
        ])
    by_poll poll_failed d = closed_again
    by_poll poll_timeout d = closed_again
    by_poll ready complete = l
    by_poll ready pending = check_socket_error-IsLost calls fd opened s l
    by_poll ready refused = check_socket_error-IsLost calls fd opened s l

-- A call of ::connect that does not succeed.
abbrev pub IsFailure : ConnectCall → Type 0
IsFailure accepted = ⊥
IsFailure host_unreachable = Unit
IsFailure in_progress = Unit
IsFailure address_not_avail = Unit
IsFailure other_error = Unit

retry-IsLost :
    (calls : SocketCalls) (fd times : ℕ) (opened : List ℕ) (cs : List ConnectCall) (s : Socket)
    → IsLost fd opened s
    → All IsFailure cs
    → connect_retries ≤ length cs + times
    → times < connect_retries
    → (s' : Socket) × (retry calls fd times cs s ≡ some (s', rt_err)) × IsLost fd opened s'
unfolding retry
retry-IsLost calls fd times opened [] s l a h b = absurd (omega arith)
retry-IsLost calls fd times opened (accepted ∷ cs) s l a h b = absurd a.0
retry-IsLost calls fd times opened (host_unreachable ∷ cs) s l a h b =
    (_, refl, close_socket-IsLost fd opened s l)
retry-IsLost calls fd times opened (in_progress ∷ cs) s l a h b =
    let w = wait_ready-IsLost calls fd opened s l in
    (_, refl, record { unknown = w.unknown; left_open = w.left_open })
retry-IsLost calls fd times opened (other_error ∷ cs) s l a h b =
    (_, refl, record { unknown = l.unknown; left_open = l.left_open })
retry-IsLost calls fd times opened (address_not_avail ∷ cs) s l a h b =
    elim (Bool-cases (leb connect_retries (times + 1))) [
      | inl t ↦ rw t (_, refl, record { unknown = l.unknown; left_open = l.left_open })
      | inr f ↦ rw f (
          retry-IsLost calls fd (times + 1) opened cs (close_socket s)
            (close_socket-IsLost fd opened s l) a.1 (omega arith) (ground arith))
    ]

from_socket :
    (calls : SocketCalls) (fd : ℕ) (opened : List ℕ) (o : Option ℕ)
    → o ≡ some fd
    → All IsFailure calls.connects
    → connect_retries ≤ length calls.connects
    → (s : Socket) × (elim o as (λ (k : Option ℕ). Option (Socket × ℤ)) [
      | none ↦ some (fail error_other (new_socket opened), rt_err)
      | some fd' ↦
          retry calls fd' 0 calls.connects (record (new_socket opened) { opened = fd' ∷ opened })
    ]
        ≡ some (s, rt_err))
      × IsLost fd opened s
unfolding new_socket
from_socket calls fd opened o e a h = rw e (
    retry-IsLost calls fd 0 opened calls.connects
      (record (new_socket opened) { opened = fd ∷ opened })
      (record { unknown = refl; left_open = refl }) a (omega arith) (omega arith))

-- The bug: where every call of ::connect fails, the descriptor of socket() is left open, and neither the connection nor its
-- close() knows of it: close() is called while it is not yet the connection's own.
pub connect-IsLost :
    (calls : SocketCalls) (fd : ℕ) (opened : List ℕ)
    → calls.socket ≡ some fd
    → All IsFailure calls.connects
    → connect_retries ≤ length calls.connects
    → (s : Socket) × (connect calls (new_socket opened) ≡ some (s, rt_err))
      × (s.opened ≡ fd ∷ opened)
      × ((close_socket s).opened ≡ fd ∷ opened)
unfolding connect new_socket open_socket
connect-IsLost calls fd opened e a h =
    let (s, c, l) = from_socket calls fd opened calls.socket e a h in
    (s, c, l.left_open, (close_socket-IsLost fd opened s l).left_open)
