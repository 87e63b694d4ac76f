-- ===== src/Tests/LinkTests.antt =====
-- Links and their queues, and commands over them: runs on concrete inputs.
use naruto.Prelude.{
  ℕ, ◌≡◌, refl, ap, ◌∙◌, true, false, Option, some, List, [], ◌∷◌, length, map, arith,
}
use naruto.Prelude.Int.{ℤ}
use naruto.Codec.{le_bytes, le_value}
use naruto.Bytes.{new}
use naruto.Bytes.PackLayout.{pack_bytes}
use naruto.Objects.{string, serialize, new_feature}
use naruto.Prelude.Maps.{or_else}
use naruto.Buckets.{get, put, slots_size}
use naruto.Buckets.Lookup.{get-put}
use naruto.Hset.{Database, bytes_v, hget_field, hget_fields}
use naruto.Hset.Owned.{get-new_buckets}
use naruto.Connection.{Connect, connected, got, sent, interrupted, send_loop}
use naruto.Link.{
  ClientLink, CommandHget, Answer, reply, hget_reply, not_found, pong_from, Messages, Server,
  served, fault, serve, on_write,
}
use naruto.Link.Queue.{Message, send_all, receive_all, receive_all-send_all}
use naruto.Link.Serve.{Arrives, serve-hget, serve-hset}
use naruto.Tests.DatabaseTests.{empty, name, age, name_slot}
use naruto.Tests.BacklogTests.{idle}

abbrev healthy : Connect
healthy = record { status = connected; err = ℤ.pos 0 }

abbrev link : ClientLink
link = record {
  worker_id = 1;
  connect = healthy;
  rbuf = new;
  wbuf = new;
  reading = true;
  writing = false;
  lastinteraction = 0;
}

abbrev messages : List Message
messages = (3, 7 ∷ 8 ∷ []) ∷ (4, []) ∷ []

-- The first call of ::send takes eleven bytes, the second is interrupted, the third takes the rest.
receive_all-send_all_example :
    receive_all 2
      (on_write (sent 11 ∷ interrupted ∷ sent 7 ∷ []) (send_all messages link)).0
      healthy
    ≡ (3, some (7 ∷ 8 ∷ [])) ∷ (4, some []) ∷ []
unfolding send_loop le_bytes
receive_all-send_all_example =
    receive_all-send_all messages (sent 11 ∷ interrupted ∷ sent 7 ∷ []) link healthy refl
      (omega arith) (omega arith) (omega arith) refl refl

-- A simple form for the messages: a request for the field "a" is its key, an answer is the number of its features.
abbrev encode : Answer → List ℕ
encode (reply r) = r.errcode ∷ []
encode (hget_reply fs) = length fs ∷ []
encode not_found = []
encode pong_from = []

abbrev simple : Messages
simple = record {
  decode_hset =
      λ body. record { key = body; field = age; ttl = ℤ.pos 0; value = bytes_v (118 ∷ []) };
  decode_hget = λ body. record { key = body; fields = age ∷ [] };
  encode_hget = λ q. q.key;
  encode_answer = encode;
}

abbrev stored : Database
stored = record {
  buckets = put name age 0 empty;
  store =
      (record { encoding = 0; create = 0; lru = 0; expire = 0; ptr = some (string (120 ∷ [])) })
      ∷ [];
}

stored_reads :
    hget_fields name (age ∷ []) stored ≡ some (serialize (string (120 ∷ [])) new_feature ∷ [])
unfolding hget_fields hget_field
stored_reads = rw (found, hget_fields, hget_field) refl
  where
    found : get name age (put name age 0 empty) ≡ some 0
    found =
        (get-put name age 0 empty name_slot).0
        ∙ ap (λ (o : Option ℕ). some (or_else o 0)) (get-new_buckets slots_size name age)

abbrev server : Server
server = record { database = stored; backlog = idle }

abbrev request : CommandHget
request = record { key = name; fields = age ∷ [] }

request_pieces : Arrives 2001 (110 ∷ []) (9 ∷ 0 ∷ 0 ∷ 0 ∷ 0 ∷ 0 ∷ 209 ∷ 7 ∷ []) ((110 ∷ []) ∷ [])
unfolding le_bytes
request_pieces = record {
  whole = refl;
  pieces = omega arith;
  has_head = omega arith;
  is_type = omega arith;
  bytes = omega arith;
  fits = omega arith;
}

serve-hget_example :
    (l' : ClientLink) × (serve simple
        (map got ((9 ∷ 0 ∷ 0 ∷ 0 ∷ 0 ∷ 0 ∷ 209 ∷ 7 ∷ []) ∷ (110 ∷ []) ∷ []))
        5
        6
        link
        server
      ≡ served l' server)
    × (receive_all 1 (on_write (sent 9 ∷ []) l').0 healthy ≡ (2001, some (1 ∷ [])) ∷ [])
unfolding send_loop le_bytes
serve-hget_example =
    serve-hget simple request (serialize (string (120 ∷ [])) new_feature ∷ [])
      (9 ∷ 0 ∷ 0 ∷ 0 ∷ 0 ∷ 0 ∷ 209 ∷ 7 ∷ []) ((110 ∷ []) ∷ []) 5 6 (sent 9 ∷ []) link server healthy
      refl request_pieces stored_reads refl refl (omega arith) (omega arith) (omega arith) refl refl

-- The start of a message with the key "name".
abbrev hset_message : List ℕ
hset_message = 10 ∷ 4 ∷ 110 ∷ 97 ∷ 109 ∷ 101 ∷ []

hset_pieces : Arrives 2000 hset_message (pack_bytes 2000 hset_message) []
unfolding le_bytes
hset_pieces = record {
  whole = refl;
  pieces = omega arith;
  has_head = omega arith;
  is_type = omega arith;
  bytes = omega arith;
  fits = omega arith;
}

serve-hset_example :
    serve simple (map got (pack_bytes 2000 hset_message ∷ [])) 5 6 link server ≡ fault
unfolding le_value
serve-hset_example =
    serve-hset simple hset_message (pack_bytes 2000 hset_message) [] 5 6 link server hset_pieces
      (omega arith) (omega arith) refl
