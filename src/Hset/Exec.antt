-- ===== src/Hset/Exec.antt =====
-- What HSET does to the database.
use naruto.Prelude.{
  ℕ, ◌≡◌, ◌≢◌, refl, sym, subst, ap, ◌∙◌, Option, some, none, [], ◌∷◌, ◌++◌, length, get_elem?, set,
}
use naruto.Prelude.Maps.{String, or_else}
use naruto.Buckets.{get, put}
use naruto.Buckets.Lookup.{Apart}
use naruto.Objects.{Object}
use naruto.Hset.{
  Element, Database, unset, CommandHset, CommandReply, new_object, new_element, get_data, set_value,
  set_data, exec_msg,
}
use naruto.Hset.Fields.{element_at, IsOwned, get_elem?-some, get_elem?-append_new}
use naruto.Hset.Owned.{
  written-IsOwned, written_self, written_other, allocated_at, allocated_self, allocated_other,
  allocated-IsOwned,
}

-- The element that HSET works on: the field's, or else a new one.
abbrev pub target : CommandHset → ℕ → Database → Element
target hset now d = or_else (element_at hset.key hset.field d) (new_element hset now)

-- HSET answers `reply`, the field's element is then `w`, and the other fields are as they were.
pub record IsAnswered (hset : CommandHset) (reply : CommandReply) (w : Element) (d d' : Database)
    : Type 0 where
  pub owned : IsOwned d'
  pub self : element_at hset.key hset.field d' ≡ some w
  pub others : (k f : String) → Apart hset.key hset.field k f → element_at k f d' ≡ element_at k f d

some-ne-none : {o : Object} → some o ≢ none
some-ne-none h = cc

-- Once the field has an element, with an object behind it.
set_data_lem :
    (hset : CommandHset) (now a : ℕ) (d : Database) (e : Element) (o : Object)
    → IsOwned d
    → get hset.key hset.field d.buckets ≡ some a
    → get_elem? d.store a ≡ some e
    → e.ptr ≡ some o
    → (d' : Database) × (set_data hset.value now a d ≡ some ((set_value hset.value o).0, d'))
      × IsAnswered hset
          (set_value hset.value o).0
          (record e { ptr = some (set_value hset.value o).1; lru = now })
          d
          d'
unfolding set_data
set_data_lem hset now a d e o own at el p =
    let w : Element = record e { ptr = some (set_value hset.value o).1; lru = now } in
    (
      record d { store = set d.store a w },
      rw (set_data, el, p) refl,
      record {
        owned = written-IsOwned d own hset.key hset.field a at w some-ne-none;
        self = written_self d own hset.key hset.field a at w;
        others = written_other d own hset.key hset.field a at w;
      },
    )

get_data_found :
    (hset : CommandHset) (now a : ℕ) (d : Database)
    → get hset.key hset.field d.buckets ≡ some a
    → get_data hset now d ≡ (a, d)
unfolding get_data
get_data_found hset now a d e = rw (get_data, e) refl

get_data_new :
    (hset : CommandHset) (now : ℕ) (d : Database)
    → get hset.key hset.field d.buckets ≡ none
    → get_data hset now d ≡ (
      length d.store,
      record {
        buckets = put hset.key hset.field (length d.store) d.buckets;
        store = d.store ++ new_element hset now ∷ [];
      },
    )
unfolding get_data
get_data_new hset now d e = rw (get_data, e) refl

exec_msg_at :
    (hset : CommandHset) (created now a : ℕ) (d d1 : Database)
    → get_data hset created d ≡ (a, d1)
    → exec_msg hset created now d ≡ set_data hset.value now a d1
unfolding exec_msg
exec_msg_at hset created now a d d1 e = rw e refl

-- Where the field's element, or the new one, has an object behind it, HSET answers: it sets the object's
-- value if the command brings a value of the object's type and reports the type otherwise, stamps the
-- element with the time, and leaves every other field of the database as it was. A new element is
-- created with the command's time to live, and each field keeps an element of its own.
pub exec_msg-written :
    (hset : CommandHset) (created now : ℕ) (d : Database) (o : Object)
    → IsOwned d
    → (target hset created d).ptr ≡ some o
    → (d' : Database) × (exec_msg hset created now d ≡ some ((set_value hset.value o).0, d'))
      × IsAnswered hset
          (set_value hset.value o).0
          (record (target hset created d) { ptr = some (set_value hset.value o).1; lru = now })
          d
          d'
exec_msg-written hset created now d o own p = cases (get hset.key hset.field d.buckets) refl
  where
    Goal : Element → Type 0
    Goal e =
        (d' : Database) × (exec_msg hset created now d ≡ some ((set_value hset.value o).0, d'))
        × IsAnswered hset (set_value hset.value o).0
            (record e { ptr = some (set_value hset.value o).1; lru = now }) d d'

    at : Option ℕ → Option Element
    at x = elim x [ none ↦ none | some data_at ↦ get_elem? d.store data_at ]

    cases : (x : Option ℕ) → get hset.key hset.field d.buckets ≡ x → Goal (target hset created d)
    cases none e =
        let new : Element = new_element hset created in
        let is_new : target hset created d ≡ new = ap (λ x. or_else (at x) new) e in
        let (d', r, s) =
          set_data_lem hset now (length d.store) _ new o
            (allocated-IsOwned d own hset.key hset.field e new
              (λ g. some-ne-none (sym p ∙ ap Element.ptr is_new ∙ g)))
            (allocated_at d own hset.key hset.field e new)
            (allocated_self d own hset.key hset.field e new) (sym (ap Element.ptr is_new) ∙ p) in
        subst Goal (sym is_new) (
          d',
          exec_msg_at hset created now _ d _ (get_data_new hset created d e) ∙ r,
          record {
            owned = s.owned;
            self = s.self;
            others =
                λ k f n. s.others k f n ∙ allocated_other d own hset.key hset.field e new k f n;
          },
        )
    cases (some a) e =
        let (old, el) = get_elem?-some d.store a (own.stored hset.key hset.field a e) in
        let is_old : target hset created d ≡ old =
          ap (λ x. or_else x (new_element hset created)) (ap at e ∙ el) in
        let (d', r, s) =
          set_data_lem hset now a d old o own e el (sym (ap Element.ptr is_old) ∙ p) in
        subst Goal (sym is_old)
          (d', exec_msg_at hset created now a d d (get_data_found hset created a d e) ∙ r, s)

-- An HSET without a value, on a field that the database does not have, dereferences a null pointer.
pub exec_msg_unset :
    (hset : CommandHset) (created now : ℕ) (d : Database)
    → hset.value ≡ unset
    → get hset.key hset.field d.buckets ≡ none
    → exec_msg hset created now d ≡ none
unfolding set_data new_element new_object
exec_msg_unset hset created now d v e =
    exec_msg_at hset created now _ d _ (get_data_new hset created d e)
    ∙ (rw (set_data, get_elem?-append_new d.store (new_element hset created)) (rw v refl))
