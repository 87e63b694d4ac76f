-- ===== src/Hset/ReadBack.antt =====
-- What HGET reads after HSET.
use naruto.Prelude.{ℕ, ◌≡◌, refl, ap, ◌∙◌, Option, some, none, get_elem?}
use mathlib.Core.Option
use naruto.Prelude.Maps.{String}
use naruto.Buckets.{get}
use naruto.Objects.{
  Object, Feature, new_feature, serialize, string_serialize, number_serialize, float_serialize,
  bytes_type, float_type, int_type, bytes_value, float_value, int64_value,
}
use naruto.Hset.{
  Element, Database, Value, unset, float_v, int64_v, bytes_v, CommandHset, CommandReply, exec_msg,
  hget_field,
}
use naruto.Hset.Answer.{
  Sets, sets_bytes, sets_float, sets_int64, reports, value_type, object_type, wanted, exec_msg_lem,
}
use naruto.Hset.Fields.{element_at, IsOwned}

-- The feature that a value is read back as: its type and the value, and nothing else.
abbrev pub feature_of : Value → Feature
feature_of unset = new_feature
feature_of (bytes_v v) = record new_feature { type = bytes_type; kind = bytes_value v }
feature_of (float_v v) = record new_feature { type = float_type; kind = float_value v }
feature_of (int64_v v) = record new_feature { type = int_type; kind = int64_value v }

-- A value of the object's type is set.
value_read :
    (v : Value) (o : Object) (reply : CommandReply) (o' : Object)
    → Sets v o reply o'
    → value_type v ≡ object_type o
    → (reply.errcode ≡ 0) × (serialize o' new_feature ≡ feature_of v)
unfolding serialize string_serialize number_serialize float_serialize
value_read _ _ _ _ (sets_bytes v old) e = (refl, refl)
value_read _ _ _ _ (sets_float v old) e = (refl, refl)
value_read _ _ _ _ (sets_int64 v old) e = (refl, refl)
value_read _ _ _ _ (reports v o n) e = absurd (n e)

hget_field_at :
    (key field : String) (d : Database) (e : Element) (o : Object)
    → element_at key field d ≡ some e
    → e.ptr ≡ some o
    → hget_field key field d ≡ some (serialize o new_feature)
unfolding hget_field
hget_field_at key field d e o at p = cases (get key field d.buckets) at
  where
    cases :
        (x : Option ℕ)
        → elim x [ none ↦ none | some data_at ↦ get_elem? d.store data_at ] ≡ some e
        → elim x [
          | none ↦ some new_feature
          | some data_at ↦ elim (get_elem? d.store data_at) [
            | none ↦ none
            | some element ↦
                Option.map (λ (object : Object). serialize object new_feature) element.ptr
          ]
        ]
          ≡ some (serialize o new_feature)
    cases none g = absurd (none-ne-some g)
      where
        none-ne-some : none ≡ some e → ⊥
        none-ne-some q = cc
    cases (some a) g = rw g (rw p refl)

-- An HSET with a value of the type of the field's object, or of a field that has no element yet, answers with the code 0, and
-- the next HGET of the field reads a feature with the value of the command and its type.
pub hget_field-exec_msg :
    (hset : CommandHset) (created now : ℕ) (d : Database) (o : Object)
    → IsOwned d
    → (wanted hset created d).ptr ≡ some o
    → value_type hset.value ≡ object_type o
    → (reply : CommandReply) × (d' : Database) × (exec_msg hset created now d ≡ some (reply, d'))
      × (reply.errcode ≡ 0)
      × (hget_field hset.key hset.field d' ≡ some (feature_of hset.value))
hget_field-exec_msg hset created now d o own p same =
    let (reply, o', d', r, t, s) = exec_msg_lem hset created now d o own p in
    let (code, read) = value_read hset.value o reply o' t same in
    (reply, d', r, code, hget_field_at hset.key hset.field d' _ o' s.self refl ∙ ap some read)
