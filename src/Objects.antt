-- ===== src/Objects.antt =====
-- database/object.h and the objects behind an element: strings, numbers, lists and maps, with the
-- features they are sent and dumped as. A float is its 32 bits and an int64_t its 64.
use naruto.Prelude.{ℕ, List, [], ◌∷◌, ◌++◌}
use naruto.Prelude.Maps.{String, assign}

-- tensorflow::Type of protocol/features.proto
pub data FeatureType : Type 0 where
  unknow : FeatureType
  int_type : FeatureType
  int_list_type : FeatureType
  float_type : FeatureType
  float_list_type : FeatureType
  bytes_type : FeatureType
  bytes_list_type : FeatureType
  map_type : FeatureType

-- The oneof of a Feature.
pub data Kind : Type 0 where
  kind_not_set : Kind
  bytes_value : String → Kind
  float_value : ℕ → Kind
  int64_value : ℕ → Kind
  bytes_list : List String → Kind
  float_list : List ℕ → Kind
  int64_list : List ℕ → Kind
  bytes_map : List (String × String) → Kind

pub record Feature : Type 0 where
  pub type : FeatureType
  pub encoding : ℕ
  pub create : ℕ
  pub lru : ℕ
  pub expire : ℕ
  pub kind : Kind

abbrev pub new_feature : Feature
new_feature = record {
  type = unknow;
  encoding = 0;
  create = 0;
  lru = 0;
  expire = 0;
  kind = kind_not_set;
}

-- String, Number, ListObject and Map.
pub data Object : Type 0 where
  string : String → Object
  number : ℕ → Object
  float_number : ℕ → Object
  list_of_ints : List ℕ → Object
  list_of_floats : List ℕ → Object
  list_of_strings : List String → Object
  map_object : List (String × String) → Object

-- type()
unfoldable pub type_of : Object → FeatureType
type_of (string v) = bytes_type
type_of (number v) = int_type
type_of (float_number v) = float_type
type_of (list_of_ints vs) = int_list_type
type_of (list_of_floats vs) = float_list_type
type_of (list_of_strings vs) = bytes_list_type
type_of (map_object m) = map_type

-- add_value on the list of a feature, which is made if the feature holds another kind.
unfoldable pub add_int : ℕ → Kind → Kind
add_int v kind = elim kind [ int64_list vs ↦ int64_list (vs ++ v ∷ []) | _ ↦ int64_list (v ∷ []) ]

unfoldable pub add_float : ℕ → Kind → Kind
add_float v kind = elim kind [ float_list vs ↦ float_list (vs ++ v ∷ []) | _ ↦ float_list (v ∷ []) ]

unfoldable pub add_bytes : String → Kind → Kind
add_bytes v kind = elim kind [ bytes_list vs ↦ bytes_list (vs ++ v ∷ []) | _ ↦ bytes_list (v ∷ []) ]

unfoldable pub set_entry : String × String → Kind → Kind
set_entry (k, v) kind = elim kind [
  | bytes_map m ↦ bytes_map (assign k v m)
  | _ ↦ bytes_map ((k, v) ∷ [])
]

abbrev pub each {ℓ} : {A : Type ℓ} → (A → Kind → Kind) → List A → Kind → Kind
each f [] kind = kind
each f (v ∷ vs) kind = each f vs (f v kind)

-- serialize(feature) of each class
unfoldable pub string_serialize : String → Feature → Feature
string_serialize v f = record f { type = bytes_type; kind = bytes_value v }

unfoldable pub number_serialize : ℕ → Feature → Feature
number_serialize v f = record f { type = int_type; kind = int64_value v }

unfoldable pub float_serialize : ℕ → Feature → Feature
float_serialize v f = record f { type = float_type; kind = float_value v }

unfoldable pub ints_serialize : List ℕ → Feature → Feature
ints_serialize vs f = record f { type = int_list_type; kind = each add_int vs f.kind }

unfoldable pub floats_serialize : List ℕ → Feature → Feature
floats_serialize vs f = record f { type = float_list_type; kind = each add_float vs f.kind }

unfoldable pub strings_serialize : List String → Feature → Feature
strings_serialize vs f = record f { type = bytes_list_type; kind = each add_bytes vs f.kind }

unfoldable pub map_serialize : List (String × String) → Feature → Feature
map_serialize m f = record f { type = map_type; kind = each set_entry m f.kind }

unfoldable pub serialize : Object → Feature → Feature
serialize (string v) = string_serialize v
serialize (number v) = number_serialize v
serialize (float_number v) = float_serialize v
serialize (list_of_ints vs) = ints_serialize vs
serialize (list_of_floats vs) = floats_serialize vs
serialize (list_of_strings vs) = strings_serialize vs
serialize (map_object m) = map_serialize m
