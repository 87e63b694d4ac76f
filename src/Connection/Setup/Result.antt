-- ===== src/Connection/Setup/Result.antt =====
-- What connect() and reconnect() come to.
use naruto.Prelude.{
  ℕ, ◌+◌, ◌≤◌, ◌<◌, ◌≡◌, refl, sym, subst, ◌⊎◌, inl, inr, Bool, true, false, ◌&&◌, ◌||◌, Option,
  none, some, List, [], ◌∷◌, length, leb, arith, Bool-cases,
}
use naruto.Prelude.Int.{ℤ}
use naruto.Connection.{rt_err, set_error, has_err, broken}
use naruto.Connection.Setup.{
  Socket, SocketCalls, ConnectCall, accepted, host_unreachable, in_progress, address_not_avail,
  other_error, fail, error_other, set_blocking, set_connect_timeout, connected_to, retry,
  open_socket, connect, new_socket, close_socket, connect_retries, Reconnected, reconnected, threw,
  after_connect, reconnect,
}

-- CONNECT_RT_OK, over the descriptor that socket() gave, with a connection that is not broken; or CONNECT_RT_ERR with a
-- broken one.
abbrev pub IsSettled : Option ℕ → List ℕ → Socket × ℤ → Type 0
IsSettled socket opened (s, k) =
    ((fd : ℕ) × (socket ≡ some fd)
      × (k ≡ ℤ.pos 0)
      × (broken s.connect ≡ false)
      × (s.fd ≡ some fd)
      × (s.opened ≡ fd ∷ opened))
    ⊎ ((k ≡ rt_err) × (broken s.connect ≡ true))

connected_to-IsSettled :
    (calls : SocketCalls) (fd : ℕ) (opened : List ℕ) (s : Socket)
    → s.opened ≡ fd ∷ opened
    → has_err s.connect.err ≡ false
    → IsSettled (some fd) opened (connected_to calls fd s)
unfolding connected_to set_blocking set_connect_timeout broken set_error close_socket
connected_to-IsSettled calls fd opened s e n =
    elim (Bool-cases (calls.get_flags && calls.set_flags)) [
      | inr f ↦ rw f (inr (refl, refl))
      | inl t ↦ rw t (elim (Bool-cases (calls.set_read_timeout && calls.set_write_timeout)) [
        | inl u ↦ rw u (inl (fd, refl, refl, rw n refl, refl, e))
        | inr u ↦ rw u (inr (refl, refl))
      ])
    ]

retry-IsSettled :
    (calls : SocketCalls) (fd times : ℕ) (opened : List ℕ) (cs : List ConnectCall) (s : Socket)
    → s.opened ≡ fd ∷ opened
    → s.fd ≡ none
    → has_err s.connect.err ≡ false
    → connect_retries ≤ length cs + times
    → times < connect_retries
    → (r : Socket × ℤ) × (retry calls fd times cs s ≡ some r) × IsSettled (some fd) opened r
unfolding retry close_socket broken set_error
retry-IsSettled calls fd times opened [] s e d n h b = absurd (omega arith)
retry-IsSettled calls fd times opened (accepted ∷ cs) s e d n h b =
    (_, refl, connected_to-IsSettled calls fd opened s e n)
retry-IsSettled calls fd times opened (host_unreachable ∷ cs) s e d n h b =
    (_, refl, inr (refl, rw n refl))
retry-IsSettled calls fd times opened (in_progress ∷ cs) s e d n h b = (_, refl, inr (refl, refl))
retry-IsSettled calls fd times opened (other_error ∷ cs) s e d n h b = (_, refl, inr (refl, refl))
retry-IsSettled calls fd times opened (address_not_avail ∷ cs) s e d n h b =
    elim (Bool-cases (leb connect_retries (times + 1))) [
      | inl t ↦ rw t (_, refl, inr (refl, refl))
      | inr f ↦ rw f (
          retry-IsSettled calls fd (times + 1) opened cs (close_socket s) (rw d e) refl n
            (omega arith) (ground arith))
    ]

from_socket :
    (calls : SocketCalls) (opened : List ℕ) (o : Option ℕ)
    → connect_retries ≤ length calls.connects
    → (r : Socket × ℤ) × (elim o [
      | none ↦ some (fail error_other (new_socket opened), rt_err)
      | some fd ↦
          retry calls fd 0 calls.connects (record (new_socket opened) { opened = fd ∷ opened })
    ]
        ≡ some r)
      × IsSettled o opened r
unfolding new_socket broken set_error
from_socket calls opened none h = (_, refl, inr (refl, refl))
from_socket calls opened (some fd) h =
    retry-IsSettled calls fd 0 opened calls.connects
      (record (new_socket opened) { opened = fd ∷ opened }) refl refl refl (omega arith)
      (omega arith)

-- connect() of a new connection, where ::connect answers each of ten calls, ends in one of two ways: with CONNECT_RT_OK, the
-- descriptor that socket() gave and a connection that is not broken, or with CONNECT_RT_ERR and a broken one.
pub connect-IsSettled :
    (calls : SocketCalls) (opened : List ℕ)
    → connect_retries ≤ length calls.connects
    → (r : Socket × ℤ) × (connect calls (new_socket opened) ≡ some r)
      × IsSettled calls.socket opened r
unfolding connect new_socket open_socket
connect-IsSettled calls opened h = from_socket calls opened calls.socket h

abbrev IsKept : List ℕ → Socket → Reconnected → Type 0
IsKept opened s r =
    ((s' : Socket) × (fd : ℕ) × (r ≡ reconnected s')
      × (broken s'.connect ≡ false)
      × (s'.fd ≡ some fd)
      × (s'.opened ≡ fd ∷ opened))
    ⊎ ((left : List ℕ) × (r ≡ threw s.connect.err (record s { opened = left })))

or-right : (x y : Bool) → (x || y) ≡ false → y ≡ false
or-right x y h = ground arith

after_connect-IsKept :
    (socket : Option ℕ) (s conn : Socket) (k : ℤ)
    → s.has_addr ≡ true
    → IsSettled socket s.opened (conn, k)
    → IsKept s.opened s (after_connect s (conn, k))
unfolding after_connect broken
after_connect-IsKept socket s conn k a (inl (fd, _, z, b, f, o)) =
    rw z (rw (b, a) (inl (_, fd, refl, or-right _ _ b, f, o)))
after_connect-IsKept socket s conn k a (inr (z, b)) = rw z (inr (conn.opened, refl))

reconnect-connect :
    (calls : SocketCalls) (s : Socket) (r : Socket × ℤ)
    → connect calls (new_socket s.opened) ≡ some r
    → reconnect calls s ≡ after_connect s r
unfolding reconnect
reconnect-connect calls s r e = rw (e, reconnect) refl

-- reconnect() of a connection with an address: it gives a connection that is not broken over a new descriptor, and the old
-- descriptor is not closed, or it throws the error of the old connection, which is as it was but for what has been left open.
pub reconnect-IsKept :
    (calls : SocketCalls) (s : Socket)
    → connect_retries ≤ length calls.connects
    → s.has_addr ≡ true
    → ((s' : Socket) × (fd : ℕ) × (reconnect calls s ≡ reconnected s')
        × (broken s'.connect ≡ false)
        × (s'.fd ≡ some fd)
        × (s'.opened ≡ fd ∷ s.opened))
      ⊎ ((left : List ℕ) × (reconnect calls s ≡ threw s.connect.err (record s { opened = left })))
reconnect-IsKept calls s h a =
    let (r, e, k) = connect-IsSettled calls s.opened h in
    subst (IsKept s.opened s) (sym (reconnect-connect calls s r e))
      (after_connect-IsKept calls.socket s r.0 r.1 a k)
