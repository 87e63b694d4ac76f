-- ===== src/Prelude/Sorting.antt =====
-- std::sort by a number: the result is the elements in ascending order of their key. (Equal keys keep
-- their order here; std::sort leaves that open.)
use Prim.Native.Nat.{ℕ, ◌≤◌}
use mathlib.Core.Path.{sym}
use mathlib.Core.Logic.{◌⊎◌, inl, inr, ◌≢◌}
use mathlib.Core.List.{List, [], ◌∷◌}
use native.Mathlib.Omega.{arith}
use naruto.Prelude.Tests.{ltb, if◌then◌else◌, Bool-cases, ltb→lt, ltb-false→le}
use naruto.Prelude.Predicates.{All, Any}

module _ {ℓ} {A : Type ℓ} (key : A → ℕ) where
  unfoldable pub insert_by : A → List A → List A
  insert_by x [] = x ∷ []
  insert_by x (y ∷ ys) = if ltb (key y) (key x) then y ∷ insert_by x ys else x ∷ y ∷ ys

  unfoldable pub sort_by : List A → List A
  sort_by [] = []
  sort_by (x ∷ xs) = insert_by x (sort_by xs)

  -- What holds of every element still does.
  All-insert_by {κ} :
      (P : A → Type κ) (x : A) (ys : List A) → P x → All P ys → All P (insert_by x ys)
  unfolding insert_by
  All-insert_by P x [] p h = (p, tt)
  All-insert_by P x (y ∷ ys) p h = elim (Bool-cases (ltb (key y) (key x))) [
    | inl t ↦ rw t (h.0, All-insert_by P x ys p h.1)
    | inr f ↦ rw f (p, h)
  ]

  pub All-sort_by {κ} : (P : A → Type κ) (xs : List A) → All P xs → All P (sort_by xs)
  unfolding sort_by
  All-sort_by P [] h = tt
  All-sort_by P (x ∷ xs) h = All-insert_by P x (sort_by xs) h.0 (All-sort_by P xs h.1)

  Any-insert_by : (P : A → Type 0) (x : A) (ys : List A) → P x ⊎ Any P ys → Any P (insert_by x ys)
  unfolding insert_by
  Any-insert_by P x [] h = h
  Any-insert_by P x (y ∷ ys) h = elim (Bool-cases (ltb (key y) (key x))) [
    | inl t ↦ rw t (past P x y ys h (Any-insert_by P x ys))
    | inr f ↦ rw f h
  ]
    where
      past :
          (P : A → Type 0) (x y : A) (ys : List A)
          → P x ⊎ Any P (y ∷ ys)
          → (P x ⊎ Any P ys → Any P (insert_by x ys))
          → Any P (y ∷ insert_by x ys)
      past P x y ys (inl p) k = inr (k (inl p))
      past P x y ys (inr (inl q)) k = inl q
      past P x y ys (inr (inr r)) k = inr (k (inr r))

  pub Any-sort_by : (P : A → Type 0) (xs : List A) → Any P xs → Any P (sort_by xs)
  unfolding sort_by
  Any-sort_by P [] h = elim h [ ]
  Any-sort_by P (x ∷ xs) (inl p) = Any-insert_by P x (sort_by xs) (inl p)
  Any-sort_by P (x ∷ xs) (inr r) = Any-insert_by P x (sort_by xs) (inr (Any-sort_by P xs r))

  -- Ascending by the key.
  abbrev pub IsSorted : List A → Type 0
  IsSorted [] = Unit
  IsSorted (x ∷ xs) = All (λ y. key x ≤ key y) xs × IsSorted xs

  All-le_trans : (a b : ℕ) (ys : List A) → a ≤ b → All (λ y. b ≤ key y) ys → All (λ y. a ≤ key y) ys
  All-le_trans a b [] h k = tt
  All-le_trans a b (y ∷ ys) h k = (omega arith, All-le_trans a b ys h k.1)

  insert_by-IsSorted : (x : A) (ys : List A) → IsSorted ys → IsSorted (insert_by x ys)
  unfolding insert_by
  insert_by-IsSorted x [] h = (tt, tt)
  insert_by-IsSorted x (y ∷ ys) h = elim (Bool-cases (ltb (key y) (key x))) [
    | inl t ↦ rw t (
        let le : key y ≤ key x = omega (arith, ltb→lt _ _ t) in
        (All-insert_by (λ z. key y ≤ key z) x ys le h.0, insert_by-IsSorted x ys h.1))
    | inr f ↦ rw f (
        let le : key x ≤ key y = ltb-false→le _ _ f in
        ((le, All-le_trans (key x) (key y) ys le h.0), h))
  ]

  pub sort_by-IsSorted : (xs : List A) → IsSorted (sort_by xs)
  unfolding sort_by
  sort_by-IsSorted [] = tt
  sort_by-IsSorted (x ∷ xs) = insert_by-IsSorted x (sort_by xs) (sort_by-IsSorted xs)

  -- No two elements agree under `label`.
  module _ (label : A → ℕ) where
    abbrev pub Distinct : List A → Type 0
    Distinct [] = Unit
    Distinct (x ∷ xs) = All (λ y. label y ≢ label x) xs × Distinct xs

    insert_by-Distinct :
        (x : A) (ys : List A)
        → All (λ y. label y ≢ label x) ys
        → Distinct ys
        → Distinct (insert_by x ys)
    unfolding insert_by
    insert_by-Distinct x [] h d = (tt, tt)
    insert_by-Distinct x (y ∷ ys) h d = elim (Bool-cases (ltb (key y) (key x))) [
      | inl t ↦ rw t (
        All-insert_by (λ z. label z ≢ label y) x ys (λ e. h.0 (sym e)) d.0,
        insert_by-Distinct x ys h.1 d.1,
      )
      | inr f ↦ rw f (h, d)
    ]

    pub sort_by-Distinct : (xs : List A) → Distinct xs → Distinct (sort_by xs)
    unfolding sort_by
    sort_by-Distinct [] d = tt
    sort_by-Distinct (x ∷ xs) d =
        insert_by-Distinct x (sort_by xs) (All-sort_by (λ y. label y ≢ label x) xs d.0)
          (sort_by-Distinct xs d.1)
