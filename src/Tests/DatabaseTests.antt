-- ===== src/Tests/DatabaseTests.antt =====
-- The database and its commands: runs on concrete inputs.
use naruto.Prelude.{
  ℕ, ◌<◌, ◌≡◌, refl, ap, some, none, [], ◌∷◌, length, length-replicate, Option, arith,
}
use naruto.Prelude.Int.{ℤ}
use naruto.Prelude.Maps.{String, or_else}
use naruto.Crc.{crc16}
use naruto.Buckets.{Bucket, Buckets, new_buckets, slots_size, hash, get, put}
use naruto.Buckets.Lookup.{Apart, get-put}
use naruto.Objects.{string, Feature, new_feature, bytes_type, bytes_value, list_of_ints}
use naruto.Dump.{dump_feature, parse_feature}
use naruto.Dump.RoundTrip.{parse_feature-dump_feature}
use naruto.Hset.{CommandHset, CommandReply, Database, Element, bytes_v, exec_msg, hget_field}
use naruto.Hset.Answer.{wanted, fresh_element}
use naruto.Hset.ReadBack.{hget_field-exec_msg}
use naruto.Hset.Owned.{get-new_buckets, new_database-IsOwned}

-- The check value of CRC-16/XMODEM, for "123456789".
crc16_check : crc16 (49 ∷ 50 ∷ 51 ∷ 52 ∷ 53 ∷ 54 ∷ 55 ∷ 56 ∷ 57 ∷ []) ≡ 12739
unfolding crc16 naruto.Crc.crc16_from naruto.Crc.crc16_step
crc16_check = refl

abbrev pub empty : Buckets
empty = new_buckets slots_size

abbrev pub name : String
name = 110 ∷ []

abbrev pub age : String
age = 97 ∷ []

pub name_slot : hash name < length empty
unfolding hash
name_slot = omega (arith, length-replicate {A = Bucket} slots_size [])

get-put_example :
    (get name age (put name age 7 empty) ≡ some (or_else (get name age empty) 7))
    × ((k f : String) → Apart name age k f → get k f (put name age 7 empty) ≡ get k f empty)
get-put_example = get-put name age 7 empty name_slot

-- HSET name age "x" for ten seconds.
abbrev command : CommandHset
command = record { key = name; field = age; ttl = ℤ.pos 10; value = bytes_v (120 ∷ []) }

abbrev database : Database
database = record { buckets = empty; store = [] }

command-wanted : (wanted command 5 database).ptr ≡ some (string [])
command-wanted =
    ap
      (λ o.
        (or_else (elim o as (λ x. Option Element) [ none ↦ none | some a ↦ none ])
          (fresh_element command 5)).ptr)
      (get-new_buckets slots_size name age)

hget_field-exec_msg_example :
    (reply : CommandReply) × (d' : Database) × (exec_msg command 5 6 database ≡ some (reply, d'))
    × (reply.errcode ≡ 0)
    × (hget_field name age d'
        ≡ some (record new_feature { type = bytes_type; kind = bytes_value (120 ∷ []) }))
hget_field-exec_msg_example =
    hget_field-exec_msg command 5 6 database (string []) new_database-IsOwned command-wanted refl

-- An element that expires ten seconds after it was made.
abbrev element : Element
element = record {
  encoding = 0;
  create = 5000001;
  lru = 7000000;
  expire = 10005000001;
  ptr = some (list_of_ints (1 ∷ 2 ∷ []));
}

parse_feature-dump_feature_example :
    (f : Feature) × (dump_feature element ≡ some f)
    × (parse_feature f
        ≡ some (record element {
          create = 5000000;
          lru = 7000000;
          expire = 7000000;
          ptr = some (list_of_ints (1 ∷ 2 ∷ []));
        }))
parse_feature-dump_feature_example =
    parse_feature-dump_feature element (list_of_ints (1 ∷ 2 ∷ [])) refl (λ h. not_empty h)
  where
    not_empty : {a b : ℕ} → a ∷ b ∷ [] ≡ [] → ⊥
    not_empty h = cc
