-- ===== src/Connection/Framing.antt =====
-- What read_ and send make of the pieces that the socket gives and takes.
use naruto.Prelude.{
  ℕ, ◌≤◌, ◌≡◌, ◌≢◌, refl, ap, some-inj, ◌∙◌, inl, inr, Bool, true, false, some, List, [], ◌∷◌, ◌++◌,
  length, append_assoc, append-nil, take, drop, take-append-drop, ◌==◌, Bool-cases, if◌then◌else◌,
}
use naruto.Prelude.Int.{ℤ}
use naruto.Connection.{
  Connect, Send, none_sent, interrupted, error, sent, Sending, send_loop, set_error, has_err,
  rt_err, rt_close, error_io,
}

-- ::send takes no more than it is given.
abbrev pub IsTaken : List Send → List ℕ → Connect → Type 0
IsTaken [] left c = Unit
IsTaken (none_sent ∷ ss) left c = Unit
IsTaken (interrupted ∷ ss) left c = IsTaken ss left c
IsTaken (error ∷ ss) left c = Unit
IsTaken (sent n ∷ ss) left c = (n ≤ length left) × IsTaken ss (drop n left) c

-- Nothing of the buffer is missing but a rest, and no rest if the result is CONNECT_RT_OK.
abbrev pub IsSent : List ℕ → Sending → Type 0
IsSent left r = (rest : List ℕ) × (r.out ++ rest ≡ left) × (r.result ≡ some (ℤ.pos 0) → rest ≡ [])

stopped :
    (left : List ℕ) (k : ℤ) (c : Connect)
    → k ≢ ℤ.pos 0
    → IsSent left (record { out = []; result = some k; connect = c })
stopped left k c n = (left, refl, λ e. absurd (n (some-inj e)))

-- For any results of ::send that are no more than it is given: what has gone out is a beginning of the
-- buffer, and it is the whole of it if the result is CONNECT_RT_OK.
pub send_loop-IsSent :
    (ss : List Send) (left : List ℕ) (c : Connect)
    → IsTaken ss left c
    → IsSent left (send_loop ss left c)
unfolding send_loop
send_loop-IsSent [] left c h = (left, refl, λ e. cc)
send_loop-IsSent (s ∷ ss) left c h = by_err (has_err c.err) (λ left k. send_loop-IsSent ss left c k)
  where
    part : ℕ → Sending
    part n = record (send_loop ss (drop n left) c) {
      out = take n left ++ (send_loop ss (drop n left) c).out;
    }

    answer : Send → Sending
    answer none_sent = record { out = []; result = some rt_close; connect = set_error rt_close c }
    answer interrupted = send_loop ss left c
    answer error = record { out = []; result = some rt_err; connect = set_error error_io c }
    answer (sent n) =
        if n == length left
        then (record { out = left; result = some (ℤ.pos 0); connect = c })
        else part n

    Later : Type 0
    Later = (left : List ℕ) → IsTaken ss left c → IsSent left (send_loop ss left c)

    parted : Later → (n : ℕ) → IsTaken ss (drop n left) c → IsSent left (part n)
    parted later n k =
        let (rest, e, w) = later (drop n left) k in
        (
          rest,
          append_assoc (take n left) _ rest
              ∙ ap (λ xs. take n left ++ xs) e
              ∙ take-append-drop n left,
          w,
        )

    by_call : Later → (s : Send) → IsTaken (s ∷ ss) left c → IsSent left (answer s)
    by_call later none_sent k = stopped left rt_close (set_error rt_close c) (λ e. cc)
    by_call later interrupted k = later left k
    by_call later error k = stopped left rt_err (set_error error_io c) (λ e. cc)
    by_call later (sent n) k = elim (Bool-cases (n == length left)) [
      | inl t ↦ rw t ([], append-nil left, λ e. refl)
      | inr f ↦ rw f (parted later n k.1)
    ]

    by_err :
        (b : Bool)
        → Later
        → IsSent left
            (if b then (record { out = []; result = some rt_err; connect = c }) else answer s)
    by_err true later = stopped left rt_err c (λ e. cc)
    by_err false later = by_call later s h
