-- ===== src/Buckets.antt =====
-- database/buckets: the database as slots, each with rows of fields under keys. An element is behind a
-- shared pointer; here a field holds the element's address in the store of Hset.antt. The mutex of a
-- slot makes each of its operations one step.
pub mod Lookup
use naruto.Prelude.{
  ℕ, ◌+◌, ◌%◌, Option, some, none, List, [], ◌∷◌, length, get_or, set, replicate, ◌==◌,
  if◌then◌else◌,
}
use naruto.Prelude.Maps.{String, lookup, emplace, replace, erase}
use naruto.Crc.{crc16}

abbrev pub slots_size : ℕ
slots_size = 16384

-- columns, and row: the fields of a key, and the keys of a slot.
abbrev pub Columns : Type 0
Columns = List (String × ℕ)

abbrev pub Bucket : Type 0
Bucket = List (String × Columns)

-- The operations of one slot.
unfoldable pub bucket_get : String → String → Bucket → Option ℕ
bucket_get key field objs = elim (lookup key objs) [
  | none ↦ none
  | some columns ↦ lookup field columns
]

unfoldable pub bucket_put : String → String → ℕ → Bucket → Bucket
bucket_put key field v objs = elim (lookup key objs) [
  | none ↦ emplace key (emplace field v []) objs
  | some columns ↦ replace key (emplace field v columns) objs
]

unfoldable pub bucket_del : String → String → Bucket → Bucket
bucket_del key field objs = elim (lookup key objs) [
  | none ↦ objs
  | some columns ↦ replace key (erase field columns) objs
]

abbrev pub bucket_size : Bucket → ℕ
bucket_size objs = length objs

abbrev pub bucket_flush : Bucket → Bucket
bucket_flush objs = []

-- Buckets: one slot for each remainder.
abbrev pub Buckets : Type 0
Buckets = List Bucket

abbrev pub new_buckets : ℕ → Buckets
new_buckets size = replicate size []

unfoldable pub hash : String → ℕ
hash key = crc16 key % slots_size

unfoldable pub get : String → String → Buckets → Option ℕ
get key field d = bucket_get key field (get_or d (hash key) [])

unfoldable pub put : String → String → ℕ → Buckets → Buckets
put key field v d = set d (hash key) (bucket_put key field v (get_or d (hash key) []))

unfoldable pub del : String → String → Buckets → Buckets
del key field d = set d (hash key) (bucket_del key field (get_or d (hash key) []))

abbrev pub size : Buckets → ℕ
size [] = 0
size (b ∷ d) = bucket_size b + size d

abbrev pub flush : Buckets → Buckets
flush [] = []
flush (b ∷ d) = bucket_flush b ∷ flush d
