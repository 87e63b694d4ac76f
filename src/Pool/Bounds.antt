-- ===== src/Pool/Bounds.antt =====
-- How many connections a pool has.
use naruto.Prelude.{
  ℕ, ◌+◌, ◌-◌, ◌≤◌, ◌≡◌, ◌≢◌, ap, refl, inl, inr, false, List, [], ◌∷◌, ◌++◌, length, length-append,
  leb, arith, Bool-cases,
}
use naruto.Pool.{
  Pooled, ConnectionPool, FetchInput, Fetched, returned, thrown, blocked, refresh, fetch_from,
  fetch, release, new_connect,
}

-- The connections that are out, and how many of them are lost after a failed reconnect.
pub record Users : Type 0 where
  pub held : List Pooled
  pub lost : ℕ

-- A call of a user: fetch, or the release of the connection that it has held for longest.
pub data Call : Type 0 where
  fetching : FetchInput → Call
  releasing : Call

abbrev pub take_up : Fetched → ℕ → Users → Users
take_up (returned conn) taken u = record u { held = u.held ++ conn ∷ [] }
take_up thrown taken u = record u { lost = u.lost + taken }
take_up blocked taken u = u

-- A fetch that throws has lost the connection that it took off the pool.
abbrev pub step : Call → ConnectionPool × Users → ConnectionPool × Users
step (fetching i) (p, u) =
    let (f, p') = fetch i p in (p', take_up f (length p.pool - length p'.pool) u)
step releasing (p, u) = elim u.held [
  | [] ↦ (p, u)
  | conn ∷ rest ↦ (release conn p, record u { held = rest })
]

abbrev pub run : List Call → ConnectionPool × Users → ConnectionPool × Users
run [] s = s
run (c ∷ cs) s = run cs (step c s)

-- Every connection counted is in the pool, with a user, or lost, and the count is at most max_conns.
pub record IsCounted (s : ConnectionPool × Users) : Type 0 where
  pub counted : length s.0.pool + length s.1.held + s.1.lost ≡ s.0.used_connections
  pub bounded : s.0.used_connections ≤ s.0.max_conns

take_up-IsCounted :
    (f : Fetched) (p : ConnectionPool) (rest : List Pooled) (taken : ℕ) (u : Users)
    → length rest + 1 + length u.held + u.lost ≡ p.used_connections
    → p.used_connections ≤ p.max_conns
    → taken ≡ 1
    → f ≢ blocked
    → IsCounted (record p { pool = rest }, take_up f taken u)
take_up-IsCounted (returned conn) p rest taken u h b t n = record {
  counted = omega (arith, length-append u.held (conn ∷ []));
  bounded = b;
}
take_up-IsCounted thrown p rest taken u h b t n = record { counted = omega arith; bounded = b }
take_up-IsCounted blocked p rest taken u h b t n = absurd (n refl)

refresh_ends : (i : FetchInput) (p : ConnectionPool) (conn : Pooled) → refresh i p conn ≢ blocked
unfolding refresh
refresh_ends i p conn = ground arith

fetch_from-IsCounted :
    (i : FetchInput) (xs : List Pooled) (p : ConnectionPool) (u : Users)
    → p.pool ≡ xs
    → IsCounted (p, u)
    → let (f, p') = fetch_from i xs p in
      IsCounted (p', take_up f (length p.pool - length p'.pool) u)
unfolding fetch_from
fetch_from-IsCounted i (conn ∷ rest) p u e h =
    take_up-IsCounted (refresh i p conn) p rest (length p.pool - length rest) u
      (omega (arith, h.counted, ap length e)) h.bounded (omega (arith, ap length e))
      (refresh_ends i p conn)
fetch_from-IsCounted i [] p u e h = elim (Bool-cases (leb p.max_conns p.used_connections)) [
  | inl t ↦ rw t h
  | inr f ↦ rw f (elim (Bool-cases i.made) [
    | inl t ↦ rw t (record {
      counted = omega (
        arith,
        h.counted,
        length-append u.held (record { connect = new_connect; last_active = i.later } ∷ []),
      );
      bounded = below _ _ f;
    })
    | inr g ↦ rw g (record { counted = omega (arith, h.counted); bounded = h.bounded })
  ])
]
  where
    below : (a b : ℕ) → leb a b ≡ false → b + 1 ≤ a
    below a b f = ground arith

step-IsCounted : (c : Call) (s : ConnectionPool × Users) → IsCounted s → IsCounted (step c s)
unfolding fetch release
step-IsCounted (fetching i) (p, u) h = fetch_from-IsCounted i p.pool p u refl h
step-IsCounted releasing (p, u) h = released u.held refl
  where
    released :
        (held : List Pooled)
        → u.held ≡ held
        → IsCounted
            (elim held [ [] ↦ (p, u) | conn ∷ rest ↦ (release conn p, record u { held = rest }) ])
    released [] e = h
    released (conn ∷ rest) e = record {
      counted = omega (arith, h.counted, ap length e, length-append p.pool (conn ∷ []));
      bounded = h.bounded;
    }

-- Any calls of the users keep the count: every connection that was made is in the pool, with a user, or
-- lost in a failed reconnect, and there are never more than max_conns.
pub run-IsCounted :
    (cs : List Call) (s : ConnectionPool × Users) → IsCounted s → IsCounted (run cs s)
run-IsCounted [] s h = h
run-IsCounted (c ∷ cs) s h = run-IsCounted cs (step c s) (step-IsCounted c s h)
