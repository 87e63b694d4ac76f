-- ===== src/Backlog/Fuel.antt =====
-- A worker's buffer has at least a byte for each of its commands, so the bytes of all the buffers are rounds enough.
use naruto.Prelude.{
  ℕ, zero, suc, ◌+◌, ◌≤◌, ◌<◌, ◌≡◌, refl, ap, Bool-cases, inl, inr, List, [], ◌∷◌, length, ◌==◌,
  All, arith,
}
use naruto.Bytes.{Bytes}
use naruto.Backlog.{total_size}
use naruto.Backlog.Merge.{Fed, encode, mine, bucket, mine_own}
use naruto.Backlog.Issue.{length-encode}
use naruto.Backlog.Start.{Buffers}

-- f 0 + ... + f (n - 1)
abbrev sum : ℕ → (ℕ → ℕ) → ℕ
sum zero f = 0
sum (suc n) f = f 0 + sum n (λ t. f (suc t))

sum_le : (n : ℕ) (f g : ℕ → ℕ) → ((t : ℕ) → t < n → f t ≤ g t) → sum n f ≤ sum n g
sum_le zero f g h = omega arith
sum_le (suc n) f g h = omega (
  arith,
  h 0 (omega arith),
  sum_le n (λ t. f (suc t)) (λ t. g (suc t)) (λ t k. h (suc t) (omega arith)),
)

sum_lt :
    (n k : ℕ) (f g : ℕ → ℕ) → k < n → ((t : ℕ) → t < n → f t ≤ g t) → f k < g k → sum n f < sum n g
sum_lt zero k f g h le lt = absurd (omega arith)
sum_lt (suc n) zero f g h le lt =
    omega (arith, sum_le n (λ t. f (suc t)) (λ t. g (suc t)) (λ t m. le (suc t) (omega arith)))
sum_lt (suc n) (suc k) f g h le lt = omega (
  arith,
  le 0 (omega arith),
  sum_lt n k (λ t. f (suc t)) (λ t. g (suc t)) (omega arith) (λ t m. le (suc t) (omega arith)) lt,
)

total_size_lem : (bs : List Bytes) → total_size bs ≡ sum (length bs) (λ t. length (bucket bs t))
total_size_lem [] = refl
total_size_lem (b ∷ bs) = ap (λ n. length b.buf + n) (total_size_lem bs)

count_le :
    (n : ℕ) (ls : List Fed)
    → All (λ (l : Fed). l.tid < n) ls
    → length ls ≤ sum n (λ t. length (encode (mine t ls)))
count_le n [] h = omega arith
count_le n (l ∷ ls) h = omega (
  arith,
  count_le n ls h.1,
  sum_lt n l.tid (λ t. length (encode (mine t ls))) (λ t. length (encode (mine t (l ∷ ls)))) h.0
      others own,
)
  where
    own : length (encode (mine l.tid ls)) < length (encode (mine l.tid (l ∷ ls)))
    own = rw (mine_own l l.tid ls refl) (omega (arith, length-encode l (mine l.tid ls)))

    others : (t : ℕ) → t < n → length (encode (mine t ls)) ≤ length (encode (mine t (l ∷ ls)))
    others t k = elim (Bool-cases (l.tid == t)) [
      | inl e ↦ rw e (omega (arith, length-encode l (mine t ls)))
      | inr e ↦ rw e (omega arith)
    ]

pub fuel_enough :
    (bs : List Bytes) (ls : List Fed) → Buffers bs ls → length ls < suc (total_size bs)
fuel_enough bs ls h = omega (
  arith,
  total_size_lem bs,
  count_le (length bs) ls h.worker,
  sum_le (length bs) (λ t. length (encode (mine t ls))) (λ t. length (bucket bs t))
      (λ t k. omega (arith, ap length (h.held t k))),
)
