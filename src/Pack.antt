-- ===== src/Pack.antt =====
-- utils/pack.h and utils/pack.cpp: packs, the unit of the protocol and of the files on disk.
-- A protobuf message stands as the bytes that it serialises to.
pub mod RoundTrip
use naruto.Prelude.{
  ℕ, ◌+◌, ◌-◌, ◌^◌, Option, some, none, List, ◌++◌, length, slice, get_or, leb, if◌then◌else◌,
}
use naruto.Codec.{le_bytes}
use naruto.Bytes.{Bytes, u32, read_at, put_head, put_bytes, put_message, pack_head_len}

-- The indices of protocol/message_type.h.
abbrev pub pack_head_size_index : ℕ
pack_head_size_index = 0

abbrev pub pack_head_type_index : ℕ
pack_head_type_index = 6

-- serialize(msg, type, pack)
unfoldable pub serialize_message : List ℕ → ℕ → Bytes → Bytes
serialize_message msg type pack = put_message msg type pack

-- serialize(msg, type, out): the stream gets the same head and the message behind it.
unfoldable pub serialize_stream : List ℕ → ℕ → List ℕ → List ℕ
serialize_stream msg type out =
    (((out ++ le_bytes 4 (u32 (pack_head_len + u32 (length msg)))) ++ le_bytes 2 0)
      ++ le_bytes 2 type)
    ++ msg

-- serialize(msg, n, type, pack)
unfoldable pub serialize_raw : List ℕ → ℕ → Bytes → Bytes
serialize_raw msg type pack = put_bytes msg (put_head (u32 (length msg)) type pack)

-- The bytes handed to ParseFromArray; `none` where it would read behind the buffer.
unfoldable pub body_of : List ℕ → ℕ → Option (List ℕ)
body_of bytes len =
    if leb (pack_head_len + len) (length bytes) then some (slice bytes pack_head_len len) else none

-- deSerialize(pack, msg): the type, and the bytes that the message is parsed from.
unfoldable pub deserialize : Bytes → ℕ × Option (List ℕ)
deserialize pack = (
  read_at 2 pack_head_type_index pack,
  body_of pack.buf (u32 (read_at 4 pack_head_size_index pack + 2 ^ 32 - pack_head_len)),
)

-- deSerialize(data, n, msg): the length and the type are single bytes of the array here.
unfoldable pub deserialize_raw : List ℕ → ℕ × Option (List ℕ)
deserialize_raw bytes = (
  get_or bytes pack_head_type_index 0,
  body_of bytes (u32 (get_or bytes pack_head_size_index 0 + 2 ^ 32 - pack_head_len)),
)
