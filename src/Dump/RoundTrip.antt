-- ===== src/Dump/RoundTrip.antt =====
-- What is left of an element after a dump and its loading.
use naruto.Prelude.{
  ℕ, ◌*◌, ◌/◌, ◌≡◌, ◌≢◌, refl, sym, ap, ◌∙◌, none, some, List, [], ◌∷◌, ◌++◌, append_assoc,
  append-nil,
}
use naruto.Prelude.Maps.{String}
use naruto.Objects.{
  Feature, kind_not_set, bytes_list, float_list, int64_list, Object, string, number, float_number,
  list_of_ints, list_of_floats, list_of_strings, map_object, serialize, each, add_int, add_float,
  add_bytes, string_serialize, number_serialize, float_serialize, ints_serialize, floats_serialize,
  strings_serialize, map_serialize,
}
use naruto.Hset.{Element}
use naruto.Dump.{
  ticks_per_ms, stamped, dump_feature, parse_object, parse_feature, string_deserialize,
  number_deserialize, float_deserialize, ints_deserialize, floats_deserialize, strings_deserialize,
}

-- The objects that are not lost: strings, numbers, and lists with an element.
abbrev pub IsDumpable : Object → Type 0
IsDumpable (string v) = Unit
IsDumpable (number v) = Unit
IsDumpable (float_number v) = Unit
IsDumpable (list_of_ints vs) = vs ≢ []
IsDumpable (list_of_floats vs) = vs ≢ []
IsDumpable (list_of_strings vs) = vs ≢ []
IsDumpable (map_object m) = ⊥

each-add_int : (vs us : List ℕ) → each add_int vs (int64_list us) ≡ int64_list (us ++ vs)
unfolding add_int
each-add_int [] us = ap int64_list (sym (append-nil us))
each-add_int (v ∷ vs) us =
    each-add_int vs (us ++ v ∷ []) ∙ ap int64_list (append_assoc us (v ∷ []) vs)

each-add_float : (vs us : List ℕ) → each add_float vs (float_list us) ≡ float_list (us ++ vs)
unfolding add_float
each-add_float [] us = ap float_list (sym (append-nil us))
each-add_float (v ∷ vs) us =
    each-add_float vs (us ++ v ∷ []) ∙ ap float_list (append_assoc us (v ∷ []) vs)

each-add_bytes : (vs us : List String) → each add_bytes vs (bytes_list us) ≡ bytes_list (us ++ vs)
unfolding add_bytes
each-add_bytes [] us = ap bytes_list (sym (append-nil us))
each-add_bytes (v ∷ vs) us =
    each-add_bytes vs (us ++ v ∷ []) ∙ ap bytes_list (append_assoc us (v ∷ []) vs)

-- An object is loaded from the feature it is serialised to.
parse_object-serialize :
    (o : Object) (f : Feature)
    → IsDumpable o
    → f.kind ≡ kind_not_set
    → parse_object (serialize o f) ≡ some o
unfolding parse_object serialize add_int add_float add_bytes string_serialize number_serialize
    float_serialize ints_serialize floats_serialize strings_serialize string_deserialize
    number_deserialize float_deserialize ints_deserialize floats_deserialize strings_deserialize
parse_object-serialize (string v) f d k = refl
parse_object-serialize (number v) f d k = refl
parse_object-serialize (float_number v) f d k = refl
parse_object-serialize (list_of_ints []) f d k = absurd (d refl)
parse_object-serialize (list_of_ints (v ∷ vs)) f d k =
    rw (k, each-add_int vs (v ∷ [])) (rw (each-add_int vs (v ∷ [])) refl)
parse_object-serialize (list_of_floats []) f d k = absurd (d refl)
parse_object-serialize (list_of_floats (v ∷ vs)) f d k =
    rw (k, each-add_float vs (v ∷ [])) (rw (each-add_float vs (v ∷ [])) refl)
parse_object-serialize (list_of_strings []) f d k = absurd (d refl)
parse_object-serialize (list_of_strings (v ∷ vs)) f d k =
    rw (k, each-add_bytes vs (v ∷ [])) (rw (each-add_bytes vs (v ∷ [])) refl)
parse_object-serialize (map_object m) f d k = absurd d

serialize-times :
    (o : Object) (f : Feature)
    → ((serialize o f).encoding ≡ f.encoding)
      × ((serialize o f).create ≡ f.create)
      × ((serialize o f).lru ≡ f.lru)
      × ((serialize o f).expire ≡ f.expire)
unfolding serialize string_serialize number_serialize float_serialize ints_serialize
    floats_serialize strings_serialize map_serialize
serialize-times (string v) f = (refl, refl, refl, refl)
serialize-times (number v) f = (refl, refl, refl, refl)
serialize-times (float_number v) f = (refl, refl, refl, refl)
serialize-times (list_of_ints vs) f = (refl, refl, refl, refl)
serialize-times (list_of_floats vs) f = (refl, refl, refl, refl)
serialize-times (list_of_strings vs) f = (refl, refl, refl, refl)
serialize-times (map_object m) f = (refl, refl, refl, refl)

-- A time, cut to whole milliseconds.
abbrev pub to_ms : ℕ → ℕ
to_ms t = t / ticks_per_ms * ticks_per_ms

-- An element whose object is a string, a number or a list that is not empty comes back from a dump with
-- its object, its encoding and its times to the millisecond, but for the time of its expiry: that is
-- the time of the last access.
pub parse_feature-dump_feature :
    (e : Element) (o : Object)
    → e.ptr ≡ some o
    → IsDumpable o
    → (f : Feature) × (dump_feature e ≡ some f)
      × (parse_feature f
          ≡ some (record e {
            create = to_ms e.create;
            lru = to_ms e.lru;
            expire = to_ms e.lru;
            ptr = some o;
          }))
unfolding dump_feature parse_feature
parse_feature-dump_feature e o p d =
    let t = serialize-times o (stamped e) in
    (
      serialize o (stamped e),
      rw (dump_feature, p) refl,
      rw (parse_feature, parse_object-serialize o (stamped e) d refl, t.0, t.1, t.2, t.3) refl,
    )

-- The objects that are lost: lists and maps without an element.
abbrev pub IsVoid : Object → Type 0
IsVoid (string v) = ⊥
IsVoid (number v) = ⊥
IsVoid (float_number v) = ⊥
IsVoid (list_of_ints vs) = vs ≡ []
IsVoid (list_of_floats vs) = vs ≡ []
IsVoid (list_of_strings vs) = vs ≡ []
IsVoid (map_object m) = m ≡ []

parse_object_void :
    (o : Object) (f : Feature)
    → IsVoid o
    → f.kind ≡ kind_not_set
    → parse_object (serialize o f) ≡ none
unfolding parse_object serialize ints_serialize floats_serialize strings_serialize map_serialize
parse_object_void (string v) f d k = absurd d
parse_object_void (number v) f d k = absurd d
parse_object_void (float_number v) f d k = absurd d
parse_object_void (list_of_ints vs) f d k = rw (d, k) refl
parse_object_void (list_of_floats vs) f d k = rw (d, k) refl
parse_object_void (list_of_strings vs) f d k = rw (d, k) refl
parse_object_void (map_object m) f d k = rw (d, k) refl

-- An element with an empty list or an empty map is left out when its dump is loaded.
pub dump_feature_lost :
    (e : Element) (o : Object)
    → e.ptr ≡ some o
    → IsVoid o
    → (f : Feature) × (dump_feature e ≡ some f) × (parse_feature f ≡ none)
unfolding dump_feature parse_feature
dump_feature_lost e o p d = (
  serialize o (stamped e),
  rw (dump_feature, p) refl,
  rw (parse_feature, parse_object_void o (stamped e) d refl) refl,
)
