-- ===== src/Pack/RoundTrip.antt =====
-- What is serialised comes back, and the three ways to serialise agree.
use naruto.Prelude.{
  ℕ, ◌+◌, ◌-◌, ◌%◌, ◌^◌, ◌≤◌, ◌<◌, ◌≡◌, refl, sym, ap, ap₂, ◌∙◌, Option, some, none, List, [], ◌++◌,
  length, length-append, append_assoc, take, leb, if◌then◌else◌, IsBytes, arith, take_all, le→leb,
}
use naruto.Codec.{le_bytes, le_value-le_bytes}
use naruto.Bytes.{u32, read_at, put_head, put_bytes}
use naruto.Bytes.Write.{read_at-slice}
use naruto.Bytes.Ends.{at_end, put_bytes-at_end}
use naruto.Bytes.PackLayout.{
  pack_bytes, put_head-at_end, put_message-at_end, length-head, length-pack_bytes,
}
use naruto.Pack.{
  serialize_message, serialize_stream, serialize_raw, deserialize, deserialize_raw, body_of,
}

pub serialize_raw-at_end :
    (msg xs : List ℕ) (type r : ℕ)
    → IsBytes msg
    → length xs + 8 + length msg < 2 ^ 32
    → serialize_raw msg type (at_end xs r) ≡ at_end (xs ++ pack_bytes type msg) r
unfolding serialize_raw
serialize_raw-at_end msg xs type r v h =
    let head : List ℕ = le_bytes 4 (8 + length msg) ++ (le_bytes 2 0 ++ le_bytes 2 type) in
    let n : u32 (length msg) ≡ length msg = omega arith in
    ap (λ k. put_bytes msg (put_head k type (at_end xs r))) n
    ∙ ap (put_bytes msg) (put_head-at_end (length msg) type xs r h)
    ∙ put_bytes-at_end msg (xs ++ head) r v
        (omega (arith, length-append xs head, length-head (8 + length msg) type))
    ∙ ap (λ t. at_end t r) (append_assoc xs head msg)

-- The three ways to serialise a message of bytes produce the same pack behind what was there: through
-- putMessage, from an array, and to a stream. The whole fits a uint32_t.
pub serialize_agree :
    (msg xs : List ℕ) (type r : ℕ)
    → IsBytes msg
    → length xs + 8 + length msg < 2 ^ 32
    → (serialize_raw msg type (at_end xs r) ≡ serialize_message msg type (at_end xs r))
      × (serialize_message msg type (at_end xs r) ≡ at_end (serialize_stream msg type xs) r)
unfolding serialize_message serialize_stream
serialize_agree msg xs type r v h = (
  serialize_raw-at_end msg xs type r v h ∙ sym (put_message-at_end msg xs type r h),
  put_message-at_end msg xs type r h ∙ ap (λ t. at_end t r) (sym stream),
)
  where
    word : u32 (8 + u32 (length msg)) ≡ 8 + length msg
    word = omega arith

    stream :
        (((xs ++ le_bytes 4 (u32 (8 + u32 (length msg)))) ++ le_bytes 2 0) ++ le_bytes 2 type)
          ++ msg
        ≡ xs ++ pack_bytes type msg
    stream =
        ap (λ n. (((xs ++ le_bytes 4 n) ++ le_bytes 2 0) ++ le_bytes 2 type) ++ msg) word
        ∙ simp append_assoc

-- The type and the length word of a pack, read at their places.
pub type-pack_bytes :
    (type : ℕ) (msg : List ℕ) (r w : ℕ)
    → type < 2 ^ 16
    → read_at 2 6 (record { buf = pack_bytes type msg; rpos = r; wpos = w }) ≡ type
unfolding le_bytes
type-pack_bytes type msg r w t =
    read_at-slice 2 6 _ (le_bytes 2 type) refl (omega arith) ∙ le_value-le_bytes 2 type t

pub size-pack_bytes :
    (type : ℕ) (msg : List ℕ) (r w : ℕ)
    → 8 + length msg < 2 ^ 32
    → read_at 4 0 (record { buf = pack_bytes type msg; rpos = r; wpos = w }) ≡ 8 + length msg
unfolding le_bytes
size-pack_bytes type msg r w h =
    read_at-slice 4 0 _ (le_bytes 4 (8 + length msg)) refl (omega arith)
    ∙ le_value-le_bytes 4 (8 + length msg) h

pub body_of-pack_bytes :
    (type : ℕ) (msg : List ℕ) → body_of (pack_bytes type msg) (length msg) ≡ some msg
unfolding body_of le_bytes
body_of-pack_bytes type msg =
    rw
      (le→leb (8 + length msg) (length (pack_bytes type msg))
        (omega (arith, length-pack_bytes type msg)))
      (ap some (take_all (length msg) msg (omega arith)))

-- Round trip: a message packed into a new buffer is unpacked with its type and all its bytes. The type
-- is a uint16_t and the pack's length a uint32_t.
pub deserialize-serialize :
    (msg : List ℕ) (type : ℕ)
    → type < 2 ^ 16
    → 8 + length msg < 2 ^ 32
    → deserialize (serialize_message msg type (at_end [] 0)) ≡ (type, some msg)
unfolding deserialize serialize_message
deserialize-serialize msg type t h = rw (put_message-at_end msg [] type 0 h) (
    ap₂ (λ (a : ℕ) (b : Option (List ℕ)). (a, b)) (type-pack_bytes type msg 0 _ t)
      (rw (size-pack_bytes type msg 0 (length (pack_bytes type msg)) h)
        (ap (body_of (pack_bytes type msg)) (omega arith) ∙ body_of-pack_bytes type msg)))

-- Unpacking from an array reads one byte of the length and one of the type: it gives the type modulo 256,
-- and as much of the message as a length modulo 256 leaves it, if that is at least the head's.
pub deserialize_raw-pack_bytes :
    (msg : List ℕ) (type : ℕ)
    → 8 ≤ (8 + length msg) % 256
    → deserialize_raw (pack_bytes type msg)
      ≡ (type % 256, some (take ((8 + length msg) % 256 - 8) msg))
unfolding deserialize_raw le_bytes body_of
deserialize_raw-pack_bytes msg type h =
    ap (λ (b : Option (List ℕ)). (type % 256, b))
      (ap (λ n. if leb (8 + n) (length (pack_bytes type msg)) then some (take n msg) else none)
          {y = (8 + length msg) % 256 - 8} (omega arith)
        ∙ rw (
            le→leb (8 + ((8 + length msg) % 256 - 8)) (length (pack_bytes type msg))
              (omega (arith, length-pack_bytes type msg))))
