-- ===== src/Dump.antt =====
-- database/buckets.cpp: the features that an element is dumped as, and the element that is made of a
-- feature when the dump is loaded. A time is in ticks of the clock, a feature's in milliseconds.
pub mod RoundTrip
use naruto.Prelude.{ℕ, ◌*◌, ◌/◌, ◌^◌, Option, none, some, List, [], ◌∷◌, ◌++◌}
use naruto.Prelude.Maps.{String, emplace}
use naruto.Objects.{
  FeatureType, bytes_type, int_type, int_list_type, float_type, float_list_type, bytes_list_type,
  map_type, Kind, kind_not_set, bytes_value, float_value, int64_value, bytes_list, float_list,
  int64_list, bytes_map, Feature, new_feature, Object, string, number, float_number, list_of_ints,
  list_of_floats, list_of_strings, map_object, serialize,
}
use naruto.Hset.{Element}

abbrev pub ticks_per_ms : ℕ
ticks_per_ms = 10 ^ 6

-- The feature before its object is written into it.
abbrev pub stamped : Element → Feature
stamped e = record new_feature {
  encoding = e.encoding;
  create = e.create / ticks_per_ms;
  lru = e.lru / ticks_per_ms;
  expire = e.lru / ticks_per_ms;
}

-- The body of the inner loop of bucket::dump; `none` is a null pointer that is dereferenced.
unfoldable pub dump_feature : Element → Option Feature
dump_feature e = elim e.ptr [ none ↦ none | some object ↦ some (serialize object (stamped e)) ]

-- The members of the oneof, each with its default where the feature is of another kind.
abbrev bytes_value_of : Kind → String
bytes_value_of kind = elim kind [ bytes_value v ↦ v | _ ↦ [] ]

abbrev int64_value_of : Kind → ℕ
int64_value_of kind = elim kind [ int64_value v ↦ v | _ ↦ 0 ]

abbrev float_value_of : Kind → ℕ
float_value_of kind = elim kind [ float_value v ↦ v | _ ↦ 0 ]

abbrev int64_list_of : Kind → List ℕ
int64_list_of kind = elim kind [ int64_list vs ↦ vs | _ ↦ [] ]

abbrev float_list_of : Kind → List ℕ
float_list_of kind = elim kind [ float_list vs ↦ vs | _ ↦ [] ]

abbrev bytes_list_of : Kind → List String
bytes_list_of kind = elim kind [ bytes_list vs ↦ vs | _ ↦ [] ]

abbrev bytes_map_of : Kind → List (String × String)
bytes_map_of kind = elim kind [ bytes_map m ↦ m | _ ↦ [] ]

-- deSeralize(feature) of each class, which does nothing where the feature has another type.
unfoldable pub string_deserialize : Feature → String → String
string_deserialize f old = elim f.type [ bytes_type ↦ bytes_value_of f.kind | _ ↦ old ]

unfoldable pub number_deserialize : Feature → ℕ → ℕ
number_deserialize f old = elim f.type [ int_type ↦ int64_value_of f.kind | _ ↦ old ]

unfoldable pub float_deserialize : Feature → ℕ → ℕ
float_deserialize f old = elim f.type [ float_type ↦ float_value_of f.kind | _ ↦ old ]

unfoldable pub ints_deserialize : Feature → List ℕ → List ℕ
ints_deserialize f old = elim f.type [ int_list_type ↦ old ++ int64_list_of f.kind | _ ↦ old ]

unfoldable pub floats_deserialize : Feature → List ℕ → List ℕ
floats_deserialize f old = elim f.type [ float_list_type ↦ old ++ float_list_of f.kind | _ ↦ old ]

unfoldable pub strings_deserialize : Feature → List String → List String
strings_deserialize f old = elim f.type [ bytes_list_type ↦ old ++ bytes_list_of f.kind | _ ↦ old ]

unfoldable pub emplace_all :
    List (String × String) → List (String × String) → List (String × String)
emplace_all [] old = old
emplace_all ((k, v) ∷ m) old = emplace_all m (emplace k v old)

unfoldable pub map_deserialize : Feature → List (String × String) → List (String × String)
map_deserialize f old = elim f.type [ map_type ↦ emplace_all (bytes_map_of f.kind) old | _ ↦ old ]

-- The chain of tests in Buckets::parse: an empty object of the feature's kind, then its deSeralize.
unfoldable pub parse_object : Feature → Option Object
parse_object f = elim f.kind [
  | kind_not_set ↦ none
  | int64_value v ↦ some (number (number_deserialize f 0))
  | int64_list vs ↦ some (list_of_ints (ints_deserialize f []))
  | float_value v ↦ some (float_number (float_deserialize f 0))
  | float_list vs ↦ some (list_of_floats (floats_deserialize f []))
  | bytes_value v ↦ some (string (string_deserialize f []))
  | bytes_list vs ↦ some (list_of_strings (strings_deserialize f []))
  | bytes_map m ↦ some (map_object (map_deserialize f []))
]

-- A round of the loop of Buckets::parse; `none` is a feature that is left out.
unfoldable pub parse_feature : Feature → Option Element
parse_feature f = elim (parse_object f) [
  | none ↦ none
  | some object ↦ some (record {
    encoding = f.encoding;
    create = f.create * ticks_per_ms;
    lru = f.lru * ticks_per_ms;
    expire = f.expire * ticks_per_ms;
    ptr = some object;
  })
]
