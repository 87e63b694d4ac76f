-- ===== src/AofName/Names.antt =====
-- The names "naruto.aof.<idx>" and the numbers in them.
use naruto.Prelude.{
  ℕ, subst, zero, suc, ◌+◌, ◌-◌, ◌*◌, ◌/◌, ◌%◌, ◌^◌, ◌<◌, ◌≤◌, ◌≡◌, ◌≢◌, refl, sym, ap, ◌∙◌, inl,
  inr, true, false, none, some, [], ◌∷◌, ◌++◌, ltb, arith, Bool-cases, All, All-append, ltb→lt,
}
use native.Mathlib.Numerals.{unary_clauses}
use naruto.Prelude.Int.{ℤ, ◌+ℤ◌}
use naruto.Prelude.Maps.{String}
use naruto.AofName.{
  is_digit, skip_spaces, read_digits, unsigned_value, positive, stoi, after_last_dot,
  parse_file_name, decimal, to_string, with_prefix, next_aof,
}

-- The name of the file of a number.
abbrev pub aof_name : ℕ → String
aof_name n = with_prefix (to_string (ℤ.pos n))

abbrev IsDigit : ℕ → Type 0
IsDigit c = (48 ≤ c) × (c ≤ 57)

is_digit-IsDigit : (c : ℕ) → IsDigit c → is_digit c ≡ true
is_digit-IsDigit c h = ground arith

-- A digit of a number in decimal.
last-IsDigit : (n : ℕ) → IsDigit (48 + n % 10)
last-IsDigit n = omega arith

decimal_one : (fuel n : ℕ) → ltb n 10 ≡ true → decimal (suc fuel) n ≡ (48 + n) ∷ []
unfolding decimal
decimal_one fuel n t = rw (decimal, t) refl

decimal_more :
    (fuel n : ℕ)
    → ltb n 10 ≡ false
    → decimal (suc fuel) n ≡ decimal fuel (n / 10) ++ (48 + n % 10) ∷ []
unfolding decimal
decimal_more fuel n f = rw (decimal, f) refl

decimal-IsDigit : (fuel n : ℕ) → All IsDigit (decimal fuel n)
unfolding decimal
decimal-IsDigit zero n = tt
decimal-IsDigit (suc fuel) n = elim (Bool-cases (ltb n 10)) [
  | inl t ↦
      subst (All IsDigit) (sym (decimal_one fuel n t))
        ((omega arith, omega (arith, ltb→lt n 10 t)), tt)
  | inr f ↦
      subst (All IsDigit) (sym (decimal_more fuel n f)) (
        All-append _ (decimal fuel (n / 10)) _ (decimal-IsDigit fuel (n / 10)) (last-IsDigit n, tt))
]

read_digits-append :
    (n : ℕ) (xs : String) (d : ℕ)
    → All IsDigit xs
    → IsDigit d
    → read_digits n (xs ++ d ∷ []) ≡ read_digits n xs * 10 + (d - 48)
unfolding read_digits
read_digits-append n [] d v w = rw (is_digit-IsDigit d w) refl
read_digits-append n (x ∷ xs) d v w =
    rw (is_digit-IsDigit x v.0) (read_digits-append (n * 10 + (x - 48)) xs d v.1 w)

read_digits-decimal : (fuel n : ℕ) → n < 10 ^ fuel → read_digits 0 (decimal fuel n) ≡ n
unfolding decimal read_digits
read_digits-decimal zero n h = below_one n h
  where
    below_one : (n : ℕ) → n < 1 → 0 ≡ n
    below_one n l = omega arith
read_digits-decimal (suc fuel) n h = elim (Bool-cases (ltb n 10)) [
  | inl t ↦ ap (read_digits 0) (decimal_one fuel n t) ∙ one n (ltb→lt n 10 t)
  | inr f ↦
      ap (read_digits 0) (decimal_more fuel n f)
      ∙ read_digits-append 0 (decimal fuel (n / 10)) (48 + n % 10) (decimal-IsDigit fuel (n / 10))
          (last-IsDigit n)
      ∙ ap (λ (m : ℕ). m * 10 + (48 + n % 10 - 48))
          (read_digits-decimal fuel (n / 10) (shorter n (10 ^ fuel) (simp unary_clauses at h)))
      ∙ digits n
]
  where
    one : (n : ℕ) → n < 10 → read_digits 0 ((48 + n) ∷ []) ≡ n
    one n l = rw (read_digits, is_digit-IsDigit (48 + n) (omega arith, omega arith)) (omega arith)

    shorter : (n p : ℕ) → n < p * 10 → n / 10 < p
    shorter n p l = omega arith

    digits : (n : ℕ) → n / 10 * 10 + (48 + n % 10 - 48) ≡ n
    digits n = omega arith

no_point : (xs : String) → All IsDigit xs → after_last_dot xs ≡ none
unfolding after_last_dot
no_point [] v = refl
no_point (x ∷ xs) v = rw (no_point xs v.1) (ground (arith, v.0))

after_last_dot-with_prefix :
    (xs : String) → All IsDigit xs → after_last_dot (with_prefix xs) ≡ some xs
unfolding after_last_dot
after_last_dot-with_prefix xs v = rw (no_point xs v) refl

starts_with_digit : (xs : String) → All IsDigit xs → xs ≢ [] → stoi xs ≡ positive (read_digits 0 xs)
unfolding stoi skip_spaces unsigned_value read_digits
starts_with_digit [] v n = absurd (n refl)
starts_with_digit (x ∷ xs) v n = rw (is_digit-IsDigit x v.0) (ground (arith, v.0))

decimal_ne : (fuel n : ℕ) → decimal (suc fuel) n ≢ []
decimal_ne fuel n = elim (Bool-cases (ltb n 10)) [
  | inl t ↦ rw (decimal_one fuel n t) (λ e. cc)
  | inr f ↦ rw (decimal_more fuel n f) (nonempty (decimal fuel (n / 10)) _)
]
  where
    nonempty : (xs : String) (x : ℕ) → xs ++ x ∷ [] ≢ []
    nonempty [] x e = cc
    nonempty (y ∷ ys) x e = cc

-- The number in the name of the file n is n, for each n that an int holds.
pub parse_file_name-aof_name : (n : ℕ) → n < 2 ^ 31 → parse_file_name (aof_name n) ≡ some (ℤ.pos n)
unfolding parse_file_name to_string
parse_file_name-aof_name n h =
    rw (parse_file_name, after_last_dot-with_prefix (decimal 10 n) (decimal-IsDigit 10 n))
      (starts_with_digit (decimal 10 n) (decimal-IsDigit 10 n) (decimal_ne 9 n)
        ∙ ap positive (read_digits-decimal 10 n (omega arith))
        ∙ ground arith)

-- The file after the file n is the file n + 1.
pub next_aof-aof_name : (n : ℕ) → n + 1 < 2 ^ 31 → next_aof (aof_name n) ≡ some (aof_name (n + 1))
unfolding next_aof ◌+ℤ◌
next_aof-aof_name n h =
    rw (next_aof, parse_file_name-aof_name n (omega arith))
      (ap (λ (i : ℤ). some (with_prefix (to_string i))) (plus_one n))
  where
    plus_one : (n : ℕ) → ℤ.pos n +ℤ ℤ.pos 1 ≡ ℤ.pos (n + 1)
    plus_one n = ground arith
