-- ===== src/Hset/Fields.antt =====
-- HSET changes the field it names and no other, and HGET reads it back.
use naruto.Prelude.{
  ℕ, zero, suc, ◌<◌, ◌≡◌, ◌≢◌, refl, subst, Option, some, none, List, [], ◌∷◌, ◌++◌, length,
  get_elem?, set, arith,
}
use naruto.Prelude.Maps.{String}
use naruto.Buckets.{get, hash, slots_size}
use naruto.Buckets.Lookup.{Apart}
use naruto.Hset.{Element, Database}

-- The element under a field.
abbrev pub element_at : String → String → Database → Option Element
element_at key field d = elim (get key field d.buckets) [
  | none ↦ none
  | some data_at ↦ get_elem? d.store data_at
]

-- Every field has an element of its own in the store, with an object behind it.
pub record IsOwned (d : Database) : Type 0 where
  pub slots : length d.buckets ≡ slots_size
  pub stored : (k f : String) (a : ℕ) → get k f d.buckets ≡ some a → a < length d.store
  pub alone :
      (k f k' f' : String) (a : ℕ)
      → get k f d.buckets ≡ some a
      → Apart k f k' f'
      → get k' f' d.buckets ≢ some a
  pub filled : (a : ℕ) (e : Element) → get_elem? d.store a ≡ some e → e.ptr ≢ none

pub get_elem?-some :
    (xs : List Element) (i : ℕ) → i < length xs → (e : Element) × (get_elem? xs i ≡ some e)
get_elem?-some [] i h = absurd (omega arith)
get_elem?-some (x ∷ xs) zero h = (x, refl)
get_elem?-some (x ∷ xs) (suc i) h = get_elem?-some xs i (omega arith)

pub get_elem?-append_old :
    (xs ys : List Element) (i : ℕ) → i < length xs → get_elem? (xs ++ ys) i ≡ get_elem? xs i
get_elem?-append_old [] ys i h = absurd (omega arith)
get_elem?-append_old (x ∷ xs) ys zero h = refl
get_elem?-append_old (x ∷ xs) ys (suc i) h = get_elem?-append_old xs ys i (omega arith)

pub get_elem?-append_new :
    (xs : List Element) (y : Element) → get_elem? (xs ++ y ∷ []) (length xs) ≡ some y
get_elem?-append_new [] y = refl
get_elem?-append_new (x ∷ xs) y = get_elem?-append_new xs y

-- What is filled stays so under a write and an addition.
pub set_filled :
    (xs : List Element) (i : ℕ) (v : Element)
    → v.ptr ≢ none
    → ((a : ℕ) (e : Element) → get_elem? xs a ≡ some e → e.ptr ≢ none)
    → (a : ℕ) (e : Element) → get_elem? (set xs i v) a ≡ some e
    → e.ptr ≢ none
set_filled [] i v n h a e g = h a e g
set_filled (x ∷ xs) zero v n h zero e g = subst (λ (w : Element). w.ptr ≢ none) (some-inj g) n
  where
    some-inj : some v ≡ some e → v ≡ e
    some-inj q = cc
set_filled (x ∷ xs) zero v n h (suc a) e g = h (suc a) e g
set_filled (x ∷ xs) (suc i) v n h zero e g = h 0 e g
set_filled (x ∷ xs) (suc i) v n h (suc a) e g = set_filled xs i v n (λ b. h (suc b)) a e g

pub append_filled :
    (xs : List Element) (v : Element)
    → v.ptr ≢ none
    → ((a : ℕ) (e : Element) → get_elem? xs a ≡ some e → e.ptr ≢ none)
    → (a : ℕ) (e : Element) → get_elem? (xs ++ v ∷ []) a ≡ some e
    → e.ptr ≢ none
append_filled [] v n h zero e g = subst (λ (w : Element). w.ptr ≢ none) (some-inj g) n
  where
    some-inj : some v ≡ some e → v ≡ e
    some-inj q = cc
append_filled [] v n h (suc a) e g = cc
append_filled (x ∷ xs) v n h zero e g = h 0 e g
append_filled (x ∷ xs) v n h (suc a) e g = append_filled xs v n (λ b. h (suc b)) a e g

pub hash_lt : (k : String) → hash k < slots_size
unfolding hash
hash_lt k = omega arith
