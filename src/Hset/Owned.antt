-- ===== src/Hset/Owned.antt =====
-- A write through an element's pointer, and a new element, leave the other fields alone.
use naruto.Prelude.{
  ℕ, zero, suc, ◌≡◌, ◌≢◌, refl, sym, ap, ◌∙◌, ◌⊎◌, inl, inr, true, false, Bool-cases, Option, some,
  none, [], ◌∷◌, ◌++◌, length, length-append, length-set, get_elem?, get_elem?-set_self,
  get_elem?-set_ne, set, get_or, length-replicate, arith,
}
use naruto.Prelude.Maps.{String, equal, equal_sound, equal_refl, lookup, or_else}
use naruto.Buckets.{Bucket, new_buckets, bucket_get, get, put, hash, slots_size}
use naruto.Buckets.Lookup.{Apart, get-put}
use naruto.Hset.{Element, Database}
use naruto.Hset.Fields.{
  element_at, IsOwned, get_elem?-append_old, get_elem?-append_new, set_filled, append_filled,
  hash_lt,
}

same_or_Apart : (key field k f : String) → ((k ≡ key) × (f ≡ field)) ⊎ Apart key field k f
same_or_Apart key field k f = elim (Bool-cases (equal k key)) [
  | inl a ↦ elim (Bool-cases (equal f field)) [
    | inl b ↦ inl (equal_sound k key a, equal_sound f field b)
    | inr b ↦ inr (inr (differ f field b))
  ]
  | inr a ↦ inr (inl (differ k key a))
]
  where
    true-ne-false : true ≡ false → ⊥
    true-ne-false g = cc

    differ : (x y : String) → equal x y ≡ false → x ≢ y
    differ x y n e = true-ne-false (sym (equal_refl x) ∙ ap (equal x) e ∙ n)

-- A write through the pointer of a field.
module _ (d : Database) (own : IsOwned d) (key field : String) (a : ℕ)
    (at : get key field d.buckets ≡ some a) (w : Element) where
  abbrev pub written : Database
  written = record d { store = set d.store a w }

  pub written-IsOwned : w.ptr ≢ none → IsOwned written
  written-IsOwned n = record {
    slots = own.slots;
    stored = λ k f b g. omega (arith, own.stored k f b g, length-set d.store a w);
    alone = own.alone;
    filled = set_filled d.store a w n own.filled;
  }

  pub written_self : element_at key field written ≡ some w
  written_self =
      ap (λ o. elim o [ none ↦ none | some data_at ↦ get_elem? (set d.store a w) data_at ]) at
      ∙ get_elem?-set_self d.store a w (own.stored key field a at)

  pub written_other :
      (k f : String) → Apart key field k f → element_at k f written ≡ element_at k f d
  written_other k f n = cases (get k f d.buckets) refl
    where
      cases :
          (o : Option ℕ)
          → get k f d.buckets ≡ o
          → elim o [ none ↦ none | some data_at ↦ get_elem? (set d.store a w) data_at ]
            ≡ elim o [ none ↦ none | some data_at ↦ get_elem? d.store data_at ]
      cases none e = refl
      cases (some b) e =
          get_elem?-set_ne d.store w
            (λ (g : a ≡ b). own.alone key field k f a at n (e ∙ ap some (sym g)))

-- A new element for a field that has none.
module _ (d : Database) (own : IsOwned d) (key field : String) (at : get key field d.buckets ≡ none)
    (w : Element) where
  abbrev pub allocated : Database
  allocated = record {
    buckets = put key field (length d.store) d.buckets;
    store = d.store ++ w ∷ [];
  }

  found : get key field allocated.buckets ≡ some (length d.store)
  found =
      (get-put key field (length d.store) d.buckets (omega (arith, hash_lt key, own.slots))).0
      ∙ ap (λ o. some (or_else o (length d.store))) at

  others : (k f : String) → Apart key field k f → get k f allocated.buckets ≡ get k f d.buckets
  others = (get-put key field (length d.store) d.buckets (omega (arith, hash_lt key, own.slots))).1

  pub allocated_at : get key field allocated.buckets ≡ some (length d.store)
  allocated_at = found

  pub allocated_self : get_elem? allocated.store (length d.store) ≡ some w
  allocated_self = get_elem?-append_new d.store w

  pub allocated_other :
      (k f : String) → Apart key field k f → element_at k f allocated ≡ element_at k f d
  allocated_other k f n =
      ap (λ o. elim o [ none ↦ none | some data_at ↦ get_elem? (d.store ++ w ∷ []) data_at ])
        (others k f n)
      ∙ cases (get k f d.buckets) refl
    where
      cases :
          (o : Option ℕ)
          → get k f d.buckets ≡ o
          → elim o [ none ↦ none | some data_at ↦ get_elem? (d.store ++ w ∷ []) data_at ]
            ≡ elim o [ none ↦ none | some data_at ↦ get_elem? d.store data_at ]
      cases none e = refl
      cases (some b) e = get_elem?-append_old d.store (w ∷ []) b (own.stored k f b e)

  some-inj : {a b : ℕ} → some a ≡ some b → a ≡ b
  some-inj g = cc

  -- The address of a field is the new one or one that the store had.
  address :
      (k f : String) (b : ℕ)
      → get k f allocated.buckets ≡ some b
      → ((k ≡ key) × (f ≡ field) × (b ≡ length d.store))
        ⊎ (Apart key field k f × (get k f d.buckets ≡ some b))
  address k f b g = elim (same_or_Apart key field k f) [
    | inl (e, e') ↦ inl (
      e,
      e',
      some-inj (
          sym g
          ∙ ap (λ x. get x f allocated.buckets) e
          ∙ ap (λ x. get key x allocated.buckets) e'
          ∙ found),
    )
    | inr n ↦ inr (n, sym (others k f n) ∙ g)
  ]

  alone_lem :
      (k f k' f' : String) (b : ℕ)
      → get k f allocated.buckets ≡ some b
      → Apart k f k' f'
      → get k' f' allocated.buckets ≢ some b
  alone_lem k f k' f' b g n g' = elim (address k f b g) [
    | inl (e, e', new) ↦ elim (address k' f' b g') [
      | inl (h, h', new') ↦ clash n (h ∙ sym e) (h' ∙ sym e')
      | inr (m, old) ↦ absurd (omega (arith, own.stored k' f' b old, new))
    ]
    | inr (m, old) ↦ elim (address k' f' b g') [
      | inl (h, h', new') ↦ absurd (omega (arith, own.stored k f b old, new'))
      | inr (m', old') ↦ own.alone k f k' f' b old n old'
    ]
  ]
    where
      clash : Apart k f k' f' → k' ≡ k → f' ≡ f → ⊥
      clash (inl x) e e' = x e
      clash (inr x) e e' = x e'

  pub allocated-IsOwned : w.ptr ≢ none → IsOwned allocated
  unfolding put
  allocated-IsOwned n = record {
    slots = length-set d.buckets (hash key) _ ∙ own.slots;
    stored = λ k f b g. elim (address k f b g) [
      | inl (e, e', new) ↦ omega (arith, new, length-append d.store (w ∷ []))
      | inr (m, old) ↦ omega (arith, own.stored k f b old, length-append d.store (w ∷ []))
    ];
    alone = alone_lem;
    filled = append_filled d.store w n own.filled;
  }

slot_of_new : (n i : ℕ) → get_or (new_buckets n) i [] ≡ []
slot_of_new zero i = refl
slot_of_new (suc n) zero = refl
slot_of_new (suc n) (suc i) = slot_of_new n i

-- The database that the server starts with.
pub get-new_buckets : (n : ℕ) (k f : String) → get k f (new_buckets n) ≡ none
unfolding get bucket_get lookup
get-new_buckets n k f = ap (bucket_get k f) (slot_of_new n (hash k))

pub new_database-IsOwned : IsOwned (record { buckets = new_buckets slots_size; store = [] })
new_database-IsOwned = record {
  slots = length-replicate {A = Bucket} slots_size [];
  stored = λ k f a g. absurd (none-ne-some (sym (get-new_buckets slots_size k f) ∙ g));
  alone = λ k f k' f' a g n g'. none-ne-some (sym (get-new_buckets slots_size k f) ∙ g);
  filled = λ a e g n. no_element g;
}
  where
    none-ne-some : {a : ℕ} → none ≡ some a → ⊥
    none-ne-some g = cc

    no_element : {e : Element} → none ≡ some e → ⊥
    no_element g = cc
