-- ===== src/Prelude/Predicates.antt =====
-- Predicates over the elements of a list.
use Prim.Native.Nat.{ℕ, zero, suc, ◌<◌}
use mathlib.Core.Logic.{◌⊎◌, inl, inr}
use mathlib.Core.List.{List, [], ◌∷◌, ◌++◌}
use naruto.Prelude.Lists.{take, drop, replicate}

-- `P` holds of every element.
abbrev pub All {ℓ κ} : {A : Type ℓ} → (A → Type κ) → List A → Type κ
All P [] = Unit
All P (x ∷ xs) = P x × All P xs

pub All-append {ℓ κ} :
    {A : Type ℓ} (P : A → Type κ) (xs ys : List A) → All P xs → All P ys → All P (xs ++ ys)
All-append P [] ys h k = k
All-append P (x ∷ xs) ys h k = (h.0, All-append P xs ys h.1 k)

-- A string of bytes.
abbrev pub IsBytes : List ℕ → Type 0
IsBytes = All (λ b. b < 256)

pub All-take {ℓ κ} :
    {A : Type ℓ} (P : A → Type κ) (n : ℕ) (xs : List A) → All P xs → All P (take n xs)
All-take P zero xs h = tt
All-take P (suc n) [] h = tt
All-take P (suc n) (x ∷ xs) h = (h.0, All-take P n xs h.1)

pub All-drop {ℓ κ} :
    {A : Type ℓ} (P : A → Type κ) (n : ℕ) (xs : List A) → All P xs → All P (drop n xs)
All-drop P zero xs h = h
All-drop P (suc n) [] h = tt
All-drop P (suc n) (x ∷ xs) h = All-drop P n xs h.1

pub All-replicate {ℓ κ} :
    {A : Type ℓ} (P : A → Type κ) (n : ℕ) (a : A) → P a → All P (replicate n a)
All-replicate P zero a h = tt
All-replicate P (suc n) a h = (h, All-replicate P n a h)

pub All-and {ℓ κ μ} :
    {A : Type ℓ} (P : A → Type κ) (Q : A → Type μ) (xs : List A)
    → All P xs
    → All Q xs
    → All (λ x. P x × Q x) xs
All-and P Q [] h k = tt
All-and P Q (x ∷ xs) h k = ((h.0, k.0), All-and P Q xs h.1 k.1)

pub All-map {ℓ κ μ} :
    {A : Type ℓ} (P : A → Type κ) (Q : A → Type μ) (xs : List A)
    → ((x : A) → P x → Q x)
    → All P xs
    → All Q xs
All-map P Q [] f h = tt
All-map P Q (x ∷ xs) f h = (f x h.0, All-map P Q xs f h.1)

-- Some element has the property.
abbrev pub Any {ℓ} : {A : Type ℓ} → (A → Type 0) → List A → Type 0
Any P [] = ⊥
Any P (x ∷ xs) = P x ⊎ Any P xs

pub Any-All {ℓ} :
    {A : Type ℓ} (P Q : A → Type 0) {C : Type 0} (xs : List A)
    → ((x : A) → P x → Q x → C)
    → Any P xs
    → All Q xs
    → C
Any-All P Q [] f a q = elim a [ ]
Any-All P Q (x ∷ xs) f (inl p) q = f x p q.0
Any-All P Q (x ∷ xs) f (inr a) q = Any-All P Q xs f a q.1

pub Any-append {ℓ} :
    {A : Type ℓ} (P : A → Type 0) (xs ys : List A) → Any P xs ⊎ Any P ys → Any P (xs ++ ys)
Any-append P [] ys (inl a) = elim a [ ]
Any-append P [] ys (inr a) = a
Any-append P (x ∷ xs) ys (inl (inl p)) = inl p
Any-append P (x ∷ xs) ys (inl (inr a)) = inr (Any-append P xs ys (inl a))
Any-append P (x ∷ xs) ys (inr a) = inr (Any-append P xs ys (inr a))
