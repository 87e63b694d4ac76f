-- ===== src/Hset.antt =====
-- command/command_hset.cpp and command/command_hget.cpp over the database. Elements are in a store, and
-- an address stands for the shared pointer: HSET changes the element behind the pointer that get finds.
pub mod Fields
pub mod Owned
pub mod Exec
pub mod Answer
pub mod ReadBack
use mathlib.Core.Option
use naruto.Prelude.{
  ℕ, zero, suc, ◌+◌, ◌*◌, ◌^◌, Bool, true, false, Option, some, none, List, [], ◌∷◌, ◌++◌, length,
  get_elem?, set, if◌then◌else◌,
}
use naruto.Prelude.Int.{ℤ, pos_part}
use naruto.Prelude.Maps.{String}
use naruto.Buckets.{Buckets, get, put}
use naruto.Objects.{
  Object, string, number, float_number, Feature, FeatureType, new_feature, type_of, serialize,
}

-- element. Times are in ticks of the clock; a `ptr` of none is a null pointer.
pub record Element : Type 0 where
  pub encoding : ℕ
  pub create : ℕ
  pub lru : ℕ
  pub expire : ℕ
  pub ptr : Option Object

pub record Database : Type 0 where
  pub buckets : Buckets
  pub store : List Element

-- command_data of protocol/client.proto, command_hset and command_reply. The text of an error names a
-- type, which stands for it.
pub data Value : Type 0 where
  unset : Value
  float_v : ℕ → Value
  int64_v : ℕ → Value
  bytes_v : String → Value

pub record CommandHset : Type 0 where
  pub key : String
  pub field : String
  pub ttl : ℤ
  pub value : Value

pub record CommandReply : Type 0 where
  pub errcode : ℕ
  pub errmsg : Option FeatureType

abbrev pub ticks_per_second : ℕ
ticks_per_second = 10 ^ 9

-- The object of a new element; a command without a value leaves the pointer null.
unfoldable pub new_object : Value → Option Object
new_object unset = none
new_object (float_v v) = some (float_number 0)
new_object (int64_v v) = some (number 0)
new_object (bytes_v v) = some (string [])

unfoldable pub new_element : CommandHset → ℕ → Element
new_element hset now = record {
  encoding = 0;
  create = now;
  lru = 0;
  expire = elim (pos_part hset.ttl) [ zero ↦ 0 | suc n ↦ now + suc n * ticks_per_second ];
  ptr = new_object hset.value;
}

-- The address of the field's element, which is made if there is none.
unfoldable pub get_data : CommandHset → ℕ → Database → ℕ × Database
get_data hset now d = elim (get hset.key hset.field d.buckets) [
  | some data_at ↦ (data_at, d)
  | none ↦ (
    length d.store,
    record {
      buckets = put hset.key hset.field (length d.store) d.buckets;
      store = d.store ++ new_element hset now ∷ [];
    },
  )
]

-- The chain of tests on the kind of the value and the type of the object.
unfoldable pub set_value : Value → Object → CommandReply × Object
set_value (bytes_v v) (string old) = (record { errcode = 0; errmsg = none }, string v)
set_value (float_v v) (float_number old) = (record { errcode = 0; errmsg = none }, float_number v)
set_value (int64_v v) (number old) = (record { errcode = 0; errmsg = none }, number v)
set_value value object = (record { errcode = 1; errmsg = some (type_of object) }, object)

-- What follows once the element is there. A null pointer is dereferenced on each way: `none`.
unfoldable pub set_data : Value → ℕ → ℕ → Database → Option (CommandReply × Database)
set_data value now data_at d = elim (get_elem? d.store data_at) [
  | none ↦ none
  | some element ↦ elim element.ptr [
    | none ↦ none
    | some object ↦
        (let (reply, object') = set_value value object in
          some (
            reply,
            record d {
              store = set d.store data_at (record element { ptr = some object'; lru = now });
            },
          ))
  ]
]

-- execMsg, with the two readings of the clock.
unfoldable pub exec_msg : CommandHset → ℕ → ℕ → Database → Option (CommandReply × Database)
exec_msg hset created now d =
    let (data_at, d') = get_data hset created d in set_data hset.value now data_at d'

-- HGET: a feature for each of the fields, an empty one for a field that is not there.
unfoldable pub hget_field : String → String → Database → Option Feature
hget_field key field d = elim (get key field d.buckets) [
  | none ↦ some new_feature
  | some data_at ↦ elim (get_elem? d.store data_at) [
    | none ↦ none
    | some element ↦ Option.map (λ (object : Object). serialize object new_feature) element.ptr
  ]
]

unfoldable pub hget_fields : String → List String → Database → Option (List Feature)
hget_fields key [] d = some []
hget_fields key (field ∷ fields) d = elim (hget_field key field d) [
  | none ↦ none
  | some feature ↦ Option.map (λ (fs : List Feature). feature ∷ fs) (hget_fields key fields d)
]
