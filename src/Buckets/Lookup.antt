-- ===== src/Buckets/Lookup.antt =====
-- What get finds after put and del, over the slots and the keys that share one.
use naruto.Prelude.{
  ℕ, ◌<◌, ◌≡◌, ◌≢◌, refl, sym, subst, ap, ◌∙◌, ◌⊎◌, inl, inr, true, false, Bool-cases, Option, some,
  none, [], length, get_or, set, get_or-set_self, get_or-set_ne, ◌==◌, ==_iff, arith,
}
use naruto.Prelude.Maps.{
  String, equal, equal_refl, equal_sound, lookup, emplace, replace, erase, or_else,
  lookup-emplace_self, lookup-emplace_other, lookup-replace_self, lookup-replace_other,
  lookup-erase_self, lookup-erase_other,
}
use naruto.Buckets.{
  Columns, Bucket, Buckets, bucket_get, bucket_put, bucket_del, hash, get, put, del,
}

-- Another key, or another field.
abbrev pub Apart : String → String → String → String → Type 0
Apart key field k f = (k ≢ key) ⊎ (f ≢ field)

-- The values of two keys' fields are the same in two slots where both keys have the same columns.
bucket_get_agree :
    (k f : String) (a b : Bucket) → lookup k a ≡ lookup k b → bucket_get k f a ≡ bucket_get k f b
unfolding bucket_get
bucket_get_agree k f a b e = ap (λ o. elim o [ none ↦ none | some columns ↦ lookup f columns ]) e

module _ (key field : String) (v : ℕ) (objs : Bucket) where
  bucket_put_self :
      bucket_get key field (bucket_put key field v objs)
      ≡ some (or_else (bucket_get key field objs) v)
  unfolding bucket_get bucket_put lookup
  bucket_put_self = cases (lookup key objs) refl
    where
      columns_of : Option Columns → Option ℕ
      columns_of o = elim o [ none ↦ none | some columns ↦ lookup field columns ]

      cases :
          (o : Option Columns)
          → lookup key objs ≡ o
          → columns_of (
              lookup key (elim o [
                | none ↦ emplace key (emplace field v []) objs
                | some columns ↦ replace key (emplace field v columns) objs
              ]))
            ≡ some (or_else (columns_of o) v)
      cases none e =
          ap columns_of (
            lookup-emplace_self key (emplace field v []) objs
            ∙ ap (λ o. some (or_else o (emplace field v []))) e)
          ∙ lookup-emplace_self field v []
      cases (some columns) e =
          ap columns_of (lookup-replace_self key (emplace field v columns) columns objs e)
          ∙ lookup-emplace_self field v columns

  bucket_put_other_key :
      (k : String) → k ≢ key → lookup k (bucket_put key field v objs) ≡ lookup k objs
  unfolding bucket_put
  bucket_put_other_key k n = cases (lookup key objs)
    where
      cases :
          (o : Option Columns)
          → lookup k (elim o [
            | none ↦ emplace key (emplace field v []) objs
            | some columns ↦ replace key (emplace field v columns) objs
          ])
            ≡ lookup k objs
      cases none = lookup-emplace_other key k (emplace field v []) objs n
      cases (some columns) = lookup-replace_other key k (emplace field v columns) objs n

  bucket_put_other_field :
      (f : String)
      → f ≢ field
      → bucket_get key f (bucket_put key field v objs) ≡ bucket_get key f objs
  unfolding bucket_get bucket_put lookup
  bucket_put_other_field f n = cases (lookup key objs) refl
    where
      columns_of : Option Columns → Option ℕ
      columns_of o = elim o [ none ↦ none | some columns ↦ lookup f columns ]

      cases :
          (o : Option Columns)
          → lookup key objs ≡ o
          → columns_of (
              lookup key (elim o [
                | none ↦ emplace key (emplace field v []) objs
                | some columns ↦ replace key (emplace field v columns) objs
              ]))
            ≡ columns_of o
      cases none e =
          ap columns_of (
            lookup-emplace_self key (emplace field v []) objs
            ∙ ap (λ o. some (or_else o (emplace field v []))) e)
          ∙ lookup-emplace_other field f v [] n
      cases (some columns) e =
          ap columns_of (lookup-replace_self key (emplace field v columns) columns objs e)
          ∙ lookup-emplace_other field f v columns n

  bucket_put_other :
      (k f : String)
      → Apart key field k f
      → bucket_get k f (bucket_put key field v objs) ≡ bucket_get k f objs
  bucket_put_other k f (inl n) =
      bucket_get_agree k f (bucket_put key field v objs) objs (bucket_put_other_key k n)
  bucket_put_other k f (inr n) = elim (Bool-cases (equal k key)) [
    | inl t ↦
        subst (λ j. bucket_get j f (bucket_put key field v objs) ≡ bucket_get j f objs)
          (sym (equal_sound k key t)) (bucket_put_other_field f n)
    | inr e ↦
        bucket_get_agree k f (bucket_put key field v objs) objs (
          bucket_put_other_key k (λ g. differ (sym e ∙ ap (λ j. equal k j) (sym g) ∙ equal_refl k)))
  ]
    where
      differ : false ≡ true → ⊥
      differ g = cc

  bucket_del_self : bucket_get key field (bucket_del key field objs) ≡ none
  unfolding bucket_get bucket_del
  bucket_del_self = cases (lookup key objs) refl
    where
      columns_of : Option Columns → Option ℕ
      columns_of o = elim o [ none ↦ none | some columns ↦ lookup field columns ]

      cases :
          (o : Option Columns)
          → lookup key objs ≡ o
          → columns_of (
              lookup key
                (elim o [ none ↦ objs | some columns ↦ replace key (erase field columns) objs ]))
            ≡ none
      cases none e = ap columns_of e
      cases (some columns) e =
          ap columns_of (lookup-replace_self key (erase field columns) columns objs e)
          ∙ lookup-erase_self field columns

  bucket_del_other_key :
      (k : String) → k ≢ key → lookup k (bucket_del key field objs) ≡ lookup k objs
  unfolding bucket_del
  bucket_del_other_key k n = cases (lookup key objs)
    where
      cases :
          (o : Option Columns)
          → lookup k
              (elim o [ none ↦ objs | some columns ↦ replace key (erase field columns) objs ])
            ≡ lookup k objs
      cases none = refl
      cases (some columns) = lookup-replace_other key k (erase field columns) objs n

  bucket_del_other_field :
      (f : String)
      → f ≢ field
      → bucket_get key f (bucket_del key field objs) ≡ bucket_get key f objs
  unfolding bucket_get bucket_del lookup
  bucket_del_other_field f n = cases (lookup key objs) refl
    where
      columns_of : Option Columns → Option ℕ
      columns_of o = elim o [ none ↦ none | some columns ↦ lookup f columns ]

      cases :
          (o : Option Columns)
          → lookup key objs ≡ o
          → columns_of (
              lookup key
                (elim o [ none ↦ objs | some columns ↦ replace key (erase field columns) objs ]))
            ≡ columns_of o
      cases none e = ap columns_of e
      cases (some columns) e =
          ap columns_of (lookup-replace_self key (erase field columns) columns objs e)
          ∙ lookup-erase_other field f columns n

  bucket_del_other :
      (k f : String)
      → Apart key field k f
      → bucket_get k f (bucket_del key field objs) ≡ bucket_get k f objs
  bucket_del_other k f (inl n) =
      bucket_get_agree k f (bucket_del key field objs) objs (bucket_del_other_key k n)
  bucket_del_other k f (inr n) = elim (Bool-cases (equal k key)) [
    | inl t ↦
        subst (λ j. bucket_get j f (bucket_del key field objs) ≡ bucket_get j f objs)
          (sym (equal_sound k key t)) (bucket_del_other_field f n)
    | inr e ↦
        bucket_get_agree k f (bucket_del key field objs) objs (
          bucket_del_other_key k (λ g. differ (sym e ∙ ap (λ j. equal k j) (sym g) ∙ equal_refl k)))
  ]
    where
      differ : false ≡ true → ⊥
      differ g = cc

  -- The slots of other keys are left alone.
  slot_other :
      (d : Buckets) (k f : String) (b : Bucket)
      → hash key < length d
      → ((hash k ≡ hash key) → bucket_get k f b ≡ bucket_get k f (get_or d (hash key) []))
      → get k f (set d (hash key) b) ≡ get k f d
  unfolding get
  slot_other d k f b h same = elim (Bool-cases (hash k == hash key)) [
    | inl t ↦
        let e : hash k ≡ hash key = (==_iff (hash k) (hash key)).0 t in
        ap (λ i. bucket_get k f (get_or (set d (hash key) b) i [])) e
        ∙ ap (bucket_get k f) (get_or-set_self d (hash key) b [] h)
        ∙ same e
        ∙ ap (λ i. bucket_get k f (get_or d i [])) (sym e)
    | inr n ↦ ap (bucket_get k f) (get_or-set_ne d (hash key) (hash k) b [] (λ e. differ n (sym e)))
  ]
    where
      differ : hash k == hash key ≡ false → hash k ≢ hash key
      differ n = ground arith

-- put makes the field hold the value unless it holds one already, which stays; every other field of
-- every key, in the same slot or in another, is left alone.
pub get-put :
    (key field : String) (v : ℕ) (d : Buckets)
    → hash key < length d
    → (get key field (put key field v d) ≡ some (or_else (get key field d) v))
      × ((k f : String) → Apart key field k f → get k f (put key field v d) ≡ get k f d)
unfolding get put
get-put key field v d h = (
  ap (bucket_get key field) (get_or-set_self d (hash key) _ [] h)
      ∙ bucket_put_self key field v (get_or d (hash key) []),
  λ k f n.
      slot_other key field v (get_or d (hash key) []) d k f
        (bucket_put key field v (get_or d (hash key) [])) h
        (λ e. bucket_put_other key field v (get_or d (hash key) []) k f n),
)

-- del makes the field hold nothing, and leaves every other field of every key alone.
pub get-del :
    (key field : String) (d : Buckets)
    → hash key < length d
    → (get key field (del key field d) ≡ none)
      × ((k f : String) → Apart key field k f → get k f (del key field d) ≡ get k f d)
unfolding get del
get-del key field d h = (
  ap (bucket_get key field) (get_or-set_self d (hash key) _ [] h)
      ∙ bucket_del_self key field 0 (get_or d (hash key) []),
  λ k f n.
      slot_other key field 0 (get_or d (hash key) []) d k f
        (bucket_del key field (get_or d (hash key) [])) h
        (λ e. bucket_del_other key field 0 (get_or d (hash key) []) k f n),
)
