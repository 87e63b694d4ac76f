-- ===== src/Hset/Answer.antt =====
-- What HSET answers and what it makes of the element, told without the code's own tests.
use naruto.Prelude.{
  ℕ, zero, suc, ◌+◌, ◌*◌, ◌^◌, ◌≡◌, ◌≢◌, refl, subst, ap, ap₂, ◌∙◌, Option, none, some, [],
  if◌then◌else◌, ltb, arith,
}
use naruto.Prelude.Int.{pos_part}
use naruto.Prelude.Maps.{String, or_else}
use naruto.Objects.{
  Object, string, number, float_number, list_of_ints, list_of_floats, list_of_strings, map_object,
  FeatureType, unknow, int_type, int_list_type, float_type, float_list_type, bytes_type,
  bytes_list_type, map_type, type_of,
}
use naruto.Hset.{
  Element, Database, Value, unset, float_v, int64_v, bytes_v, CommandHset, CommandReply, new_object,
  new_element, set_value, exec_msg,
}
use naruto.Hset.Exec.{target, IsAnswered, exec_msg-written}
use naruto.Hset.Fields.{element_at, IsOwned}

-- The types of values and objects.
abbrev pub value_type : Value → FeatureType
value_type unset = unknow
value_type (bytes_v v) = bytes_type
value_type (float_v v) = float_type
value_type (int64_v v) = int_type

abbrev pub object_type : Object → FeatureType
object_type (string v) = bytes_type
object_type (number v) = int_type
object_type (float_number v) = float_type
object_type (list_of_ints vs) = int_list_type
object_type (list_of_floats vs) = float_list_type
object_type (list_of_strings vs) = bytes_list_type
object_type (map_object m) = map_type

-- An object of the value's type takes the value; any other stays, and its type is reported with the code 1.
pub data Sets : Value → Object → CommandReply → Object → Type 0 where
  sets_bytes :
      (v old : String)
      → Sets (bytes_v v) (string old) (record { errcode = 0; errmsg = none }) (string v)
  sets_float :
      (v old : ℕ)
      → Sets (float_v v) (float_number old) (record { errcode = 0; errmsg = none }) (float_number v)
  sets_int64 :
      (v old : ℕ) → Sets (int64_v v) (number old) (record { errcode = 0; errmsg = none }) (number v)
  reports :
      (v : Value) (o : Object)
      → value_type v ≢ object_type o
      → Sets v o (record { errcode = 1; errmsg = some (object_type o) }) o

-- The element of a field that has none: it is made now, expires after the command's time to live if that is positive, and
-- has an empty object of the value's type.
abbrev pub blank : Value → Option Object
blank unset = none
blank (bytes_v v) = some (string [])
blank (float_v v) = some (float_number 0)
blank (int64_v v) = some (number 0)

abbrev pub fresh_element : CommandHset → ℕ → Element
fresh_element hset now = record {
  encoding = 0;
  create = now;
  lru = 0;
  expire = if ltb 0 (pos_part hset.ttl) then now + pos_part hset.ttl * 1000000000 else 0;
  ptr = blank hset.value;
}

-- The element of the command's field.
abbrev pub wanted : CommandHset → ℕ → Database → Element
wanted hset now d = or_else (element_at hset.key hset.field d) (fresh_element hset now)

set_value-Sets : (v : Value) (o : Object) → Sets v o (set_value v o).0 (set_value v o).1
unfolding set_value type_of
set_value-Sets unset (string w) = reports unset (string w) (λ h. cc)
set_value-Sets unset (number w) = reports unset (number w) (λ h. cc)
set_value-Sets unset (float_number w) = reports unset (float_number w) (λ h. cc)
set_value-Sets unset (list_of_ints w) = reports unset (list_of_ints w) (λ h. cc)
set_value-Sets unset (list_of_floats w) = reports unset (list_of_floats w) (λ h. cc)
set_value-Sets unset (list_of_strings w) = reports unset (list_of_strings w) (λ h. cc)
set_value-Sets unset (map_object w) = reports unset (map_object w) (λ h. cc)
set_value-Sets (bytes_v x) (string w) = sets_bytes x w
set_value-Sets (bytes_v x) (number w) = reports (bytes_v x) (number w) (λ h. cc)
set_value-Sets (bytes_v x) (float_number w) = reports (bytes_v x) (float_number w) (λ h. cc)
set_value-Sets (bytes_v x) (list_of_ints w) = reports (bytes_v x) (list_of_ints w) (λ h. cc)
set_value-Sets (bytes_v x) (list_of_floats w) = reports (bytes_v x) (list_of_floats w) (λ h. cc)
set_value-Sets (bytes_v x) (list_of_strings w) = reports (bytes_v x) (list_of_strings w) (λ h. cc)
set_value-Sets (bytes_v x) (map_object w) = reports (bytes_v x) (map_object w) (λ h. cc)
set_value-Sets (float_v x) (string w) = reports (float_v x) (string w) (λ h. cc)
set_value-Sets (float_v x) (number w) = reports (float_v x) (number w) (λ h. cc)
set_value-Sets (float_v x) (float_number w) = sets_float x w
set_value-Sets (float_v x) (list_of_ints w) = reports (float_v x) (list_of_ints w) (λ h. cc)
set_value-Sets (float_v x) (list_of_floats w) = reports (float_v x) (list_of_floats w) (λ h. cc)
set_value-Sets (float_v x) (list_of_strings w) = reports (float_v x) (list_of_strings w) (λ h. cc)
set_value-Sets (float_v x) (map_object w) = reports (float_v x) (map_object w) (λ h. cc)
set_value-Sets (int64_v x) (string w) = reports (int64_v x) (string w) (λ h. cc)
set_value-Sets (int64_v x) (number w) = sets_int64 x w
set_value-Sets (int64_v x) (float_number w) = reports (int64_v x) (float_number w) (λ h. cc)
set_value-Sets (int64_v x) (list_of_ints w) = reports (int64_v x) (list_of_ints w) (λ h. cc)
set_value-Sets (int64_v x) (list_of_floats w) = reports (int64_v x) (list_of_floats w) (λ h. cc)
set_value-Sets (int64_v x) (list_of_strings w) = reports (int64_v x) (list_of_strings w) (λ h. cc)
set_value-Sets (int64_v x) (map_object w) = reports (int64_v x) (map_object w) (λ h. cc)

new_element-fresh : (hset : CommandHset) (now : ℕ) → new_element hset now ≡ fresh_element hset now
unfolding new_element new_object
new_element-fresh hset now =
    ap₂
      (λ (e : ℕ) (p : Option Object). record {
        encoding = 0;
        create = now;
        lru = 0;
        expire = e;
        ptr = p;
      })
      (expiry (pos_part hset.ttl)) (object hset.value)
  where
    expiry :
        (n : ℕ)
        → elim n as (λ x. ℕ) [ zero ↦ 0 | suc n ↦ now + suc n * 10 ^ 9 ]
          ≡ (if ltb 0 n then now + n * 1000000000 else 0)
    expiry zero = refl
    expiry (suc n) = ground arith

    object : (v : Value) → new_object v ≡ blank v
    object unset = refl
    object (bytes_v v) = refl
    object (float_v v) = refl
    object (int64_v v) = refl

target-wanted :
    (hset : CommandHset) (now : ℕ) (d : Database) → target hset now d ≡ wanted hset now d
target-wanted hset now d =
    ap (or_else (element_at hset.key hset.field d)) (new_element-fresh hset now)

pub exec_msg_lem :
    (hset : CommandHset) (created now : ℕ) (d : Database) (o : Object)
    → IsOwned d
    → (wanted hset created d).ptr ≡ some o
    → (reply : CommandReply) × (o' : Object) × (d' : Database) × (exec_msg hset created now d
        ≡ some (reply, d'))
      × Sets hset.value o reply o'
      × IsAnswered hset reply (record (wanted hset created d) { ptr = some o'; lru = now }) d d'
exec_msg_lem hset created now d o own p =
    let (d', e, a) =
      exec_msg-written hset created now d o own
        (ap Element.ptr (target-wanted hset created d) ∙ p) in
    (
      (set_value hset.value o).0,
      (set_value hset.value o).1,
      d',
      e,
      set_value-Sets hset.value o,
      subst
          (λ w.
            IsAnswered hset (set_value hset.value o).0
              (record w { ptr = some (set_value hset.value o).1; lru = now }) d d')
          (target-wanted hset created d) a,
    )
