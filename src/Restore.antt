-- ===== src/Restore.antt =====
-- database/buckets.cpp, parse and flush on the whole database, and the loading of a dump by
-- replication/replication.cpp. The parsing of a protobuf message is the parameter `decode`.
use naruto.Prelude.{ℕ, Option, none, some, List, [], ◌∷◌, ◌++◌, length, ◌==◌, if◌then◌else◌}
use naruto.Prelude.Maps.{String}
use naruto.Buckets
use naruto.Buckets.{put}
use naruto.Objects.{Feature}
use naruto.Hset.{Database, Element}
use naruto.Dump.{parse_feature}
use naruto.Loader.{Entry, load_file}

-- Features of protocol/features.proto, the map of fields in the order of its iteration.
pub record Features : Type 0 where
  pub id : String
  pub feature : List (String × Feature)

-- cmdtype::REPL_OBJECT
abbrev pub repl_object : ℕ
repl_object = 1

-- put(features.id(), feature.first, element)
unfoldable pub put_element : String → String → Element → Database → Database
put_element key field e d = record {
  buckets = put key field (length d.store) d.buckets;
  store = d.store ++ e ∷ [];
}

-- The loop of parse, which leaves out a feature without a value.
unfoldable pub parse_fields : String → List (String × Feature) → Database → Database
parse_fields key [] d = d
parse_fields key ((field, feature) ∷ rest) d =
    parse_fields key rest
      (elim (parse_feature feature) [ none ↦ d | some e ↦ put_element key field e d ])

unfoldable pub flush_database : Database → Database
flush_database d = record d { buckets = Buckets.flush d.buckets }

module _ (decode : List ℕ → Features) where
  -- Buckets::parse(flag, type, msg, body_size)
  unfoldable pub parse : Entry → Database → Database
  parse e d =
      let features : Features = decode e.body in
      if e.type == repl_object then parse_fields features.id features.feature d else d

  unfoldable pub parse_entries : List Entry → Database → Database
  parse_entries [] d = d
  parse_entries (e ∷ es) d = parse_entries es (parse e d)

  -- loadFile(dbname, 0, parse)
  unfoldable pub load_database : List ℕ → Database → Option Database
  load_database contents d = elim (load_file contents 0) [
    | none ↦ none
    | some es ↦ some (parse_entries es d)
  ]
