-- ===== src/Prelude/Maps.antt =====
-- std::unordered_map with strings as keys, as a list of pairs.
use naruto.Prelude.{
  ℕ, ◌≡◌, ◌≢◌, refl, sym, ap, ap₂, ◌∙◌, inl, inr, Bool, true, false, ◌&&◌, Option, some, none, List,
  [], ◌∷◌, ◌==◌, ==_iff, if◌then◌else◌, Bool-cases,
}

-- A string as its bytes.
abbrev pub String : Type 0
String = List ℕ

unfoldable pub equal : String → String → Bool
equal [] [] = true
equal [] (y ∷ ys) = false
equal (x ∷ xs) [] = false
equal (x ∷ xs) (y ∷ ys) = (x == y) && equal xs ys

pub equal_refl : (xs : String) → equal xs xs ≡ true
unfolding equal
equal_refl [] = refl
equal_refl (x ∷ xs) = rw ((==_iff x x).1 refl, equal_refl xs) refl

pub equal_sound : (xs ys : String) → equal xs ys ≡ true → xs ≡ ys
unfolding equal
equal_sound [] [] h = refl
equal_sound [] (y ∷ ys) h = cc
equal_sound (x ∷ xs) [] h = cc
equal_sound (x ∷ xs) (y ∷ ys) h = elim (Bool-cases (x == y)) [
  | inl e ↦ ap₂ ◌∷◌ ((==_iff x y).0 e) (equal_sound xs ys (sym (ap (λ b. b && equal xs ys) e) ∙ h))
  | inr e ↦ absurd (true-ne-false (sym h ∙ ap (λ b. b && equal xs ys) e))
]
  where
    true-ne-false : true ≡ false → ⊥
    true-ne-false g = cc

pub equal_differ : (xs ys : String) → xs ≢ ys → equal xs ys ≡ false
equal_differ xs ys n = elim (Bool-cases (equal xs ys)) [
  | inl e ↦ absurd (n (equal_sound xs ys e))
  | inr e ↦ e
]

module _ {ℓ} {A : Type ℓ} where
  unfoldable pub lookup : String → List (String × A) → Option A
  lookup k [] = none
  lookup k ((key, v) ∷ m) = if equal k key then some v else lookup k m

  -- emplace and insert keep the value of a key that is there.
  unfoldable pub emplace : String → A → List (String × A) → List (String × A)
  emplace k v m = elim (lookup k m) [ none ↦ (k, v) ∷ m | some old ↦ m ]

  -- A write through the iterator that find gives.
  unfoldable pub replace : String → A → List (String × A) → List (String × A)
  replace k v [] = []
  replace k v ((key, old) ∷ m) = if equal k key then (key, v) ∷ m else (key, old) ∷ replace k v m

  -- m[k] = v
  unfoldable pub assign : String → A → List (String × A) → List (String × A)
  assign k v m = elim (lookup k m) [ none ↦ (k, v) ∷ m | some old ↦ replace k v m ]

  unfoldable pub erase : String → List (String × A) → List (String × A)
  erase k [] = []
  erase k ((key, old) ∷ m) = if equal k key then erase k m else (key, old) ∷ erase k m

  abbrev pub or_else : Option A → A → A
  or_else none v = v
  or_else (some old) v = old

  pub lookup-emplace_self :
      (k : String) (v : A) (m : List (String × A))
      → lookup k (emplace k v m) ≡ some (or_else (lookup k m) v)
  unfolding emplace lookup
  lookup-emplace_self k v m = cases (lookup k m) refl
    where
      cases :
          (o : Option A)
          → lookup k m ≡ o
          → lookup k (elim o [ none ↦ (k, v) ∷ m | some old ↦ m ]) ≡ some (or_else o v)
      cases none e = rw (equal_refl k) refl
      cases (some old) e = e

  pub lookup-emplace_other :
      (k j : String) (v : A) (m : List (String × A)) → j ≢ k → lookup j (emplace k v m) ≡ lookup j m
  unfolding emplace lookup
  lookup-emplace_other k j v m n = cases (lookup k m)
    where
      cases : (o : Option A) → lookup j (elim o [ none ↦ (k, v) ∷ m | some old ↦ m ]) ≡ lookup j m
      cases none = rw (equal_differ j k n) refl
      cases (some old) = refl

  pub lookup-replace_self :
      (k : String) (v old : A) (m : List (String × A))
      → lookup k m ≡ some old
      → lookup k (replace k v m) ≡ some v
  unfolding lookup replace
  lookup-replace_self k v old [] e = absurd (none-ne-some e)
    where
      none-ne-some : none ≡ some old → ⊥
      none-ne-some g = cc
  lookup-replace_self k v old ((key, w) ∷ m) e = elim (Bool-cases (equal k key)) [
    | inl t ↦ rw t (rw t refl)
    | inr f ↦ rw f (
        rw f
          (lookup-replace_self k v old m (sym (ap (λ b. if b then some w else lookup k m) f) ∙ e)))
  ]

  pub lookup-replace_other :
      (k j : String) (v : A) (m : List (String × A)) → j ≢ k → lookup j (replace k v m) ≡ lookup j m
  unfolding lookup replace
  lookup-replace_other k j v [] n = refl
  lookup-replace_other k j v ((key, w) ∷ m) n = elim (Bool-cases (equal k key)) [
    | inl t ↦ rw t (rw (equal_differ j key (λ e. n (e ∙ sym (equal_sound k key t)))) refl)
    | inr f ↦ rw f (ap (λ o. if equal j key then some w else o) (lookup-replace_other k j v m n))
  ]

  pub lookup-erase_self : (k : String) (m : List (String × A)) → lookup k (erase k m) ≡ none
  unfolding lookup erase
  lookup-erase_self k [] = refl
  lookup-erase_self k ((key, w) ∷ m) = elim (Bool-cases (equal k key)) [
    | inl t ↦ rw t (lookup-erase_self k m)
    | inr f ↦ rw f (rw f (lookup-erase_self k m))
  ]

  pub lookup-erase_other :
      (k j : String) (m : List (String × A)) → j ≢ k → lookup j (erase k m) ≡ lookup j m
  unfolding lookup erase
  lookup-erase_other k j [] n = refl
  lookup-erase_other k j ((key, w) ∷ m) n = elim (Bool-cases (equal k key)) [
    | inl t ↦ rw t (
        rw (equal_differ j key (λ e. n (e ∙ sym (equal_sound k key t))))
          (lookup-erase_other k j m n))
    | inr f ↦ rw f (ap (λ o. if equal j key then some w else o) (lookup-erase_other k j m n))
  ]
