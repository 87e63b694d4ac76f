-- ===== src/Bytes.antt =====
-- utils/bytes.h and utils/bytes.cpp: the growable byte buffer with a read and a write position.
-- A value of type T is its bit pattern, `w` is sizeof(T); positions are uint32_t and wrap at 2 ^ 32,
-- `index + sizeof(T)` is a size_t and does not.
-- The one field that the model leaves out is `name`, a label that only the print functions read.
pub mod Write
pub mod Search
pub mod Ends
pub mod Fields
pub mod PackLayout
use naruto.Prelude.{
  ℕ, zero, suc, ◌+◌, ◌-◌, ◌%◌, ◌^◌, Bool, true, false, not, ◌&&◌, Option, some, none, List, [], ◌∷◌,
  ◌++◌, length, take, replicate, get_or, set, slice, blit, ltb, leb, ◌==◌, if◌then◌else◌,
}
use naruto.Codec.{le_bytes, le_value}

pub record Bytes : Type 0 where
  pub buf : List ℕ
  pub rpos : ℕ
  pub wpos : ℕ

abbrev pub u32 : ℕ → ℕ
u32 n = n % 2 ^ 32

-- std::vector::resize: cut off, or filled up with zeros.
unfoldable pub vector_resize : ℕ → List ℕ → List ℕ
vector_resize n xs = take n xs ++ replicate (n - length xs) 0

unfoldable pub clear : Bytes → Bytes
clear b = record { buf = []; rpos = 0; wpos = 0 }

-- Bytes(size): only the capacity depends on the size.
abbrev pub new : Bytes
new = record { buf = []; rpos = 0; wpos = 0 }

unfoldable pub size : Bytes → ℕ
size b = u32 (length b.buf)

unfoldable pub bytes_remaining : Bytes → ℕ
bytes_remaining b = u32 (size b + 2 ^ 32 - b.rpos)

unfoldable pub resize : ℕ → Bytes → Bytes
resize n b = record { buf = vector_resize n b.buf; rpos = 0; wpos = 0 }

-- read<T>(index): zero beyond the end.
unfoldable pub read_at : ℕ → ℕ → Bytes → ℕ
read_at w index b = if leb (index + w) (length b.buf) then le_value (slice b.buf index w) else 0

-- read<T>(): the position moves on, also beyond the end.
unfoldable pub read : ℕ → Bytes → ℕ × Bytes
read w b = (read_at w b.rpos b, record b { rpos = u32 (b.rpos + w) })

-- append<T>(data)
unfoldable pub append : ℕ → ℕ → Bytes → Bytes
append w v b =
    let end : ℕ = u32 (b.wpos + w) in
    let grown : List ℕ = if ltb (size b) end then vector_resize end b.buf else b.buf in
    record b { buf = blit grown b.wpos (le_bytes w v); wpos = end }

-- insert<T>(data, index)
unfoldable pub insert : ℕ → ℕ → ℕ → Bytes → Bytes
insert w v index b =
    if ltb (size b) (index + w)
    then b
    else record b { buf = blit b.buf index (le_bytes w v); wpos = u32 (index + w) }

-- setReadPos, reset and setWritePos.
abbrev pub set_read_pos : ℕ → Bytes → Bytes
set_read_pos r b = record b { rpos = r }

abbrev pub set_write_pos : ℕ → Bytes → Bytes
set_write_pos w b = record b { wpos = w }

-- The accessors of the fixed widths.
abbrev pub peek : Bytes → ℕ
peek b = read_at 1 b.rpos b

abbrev pub get_byte : Bytes → ℕ × Bytes
get_byte = read 1

abbrev pub get_short : Bytes → ℕ × Bytes
get_short = read 2

abbrev pub get_int : Bytes → ℕ × Bytes
get_int = read 4

abbrev pub get_long : Bytes → ℕ × Bytes
get_long = read 8

abbrev pub put_byte : ℕ → Bytes → Bytes
put_byte = append 1

abbrev pub put_short : ℕ → Bytes → Bytes
put_short = append 2

abbrev pub put_int : ℕ → Bytes → Bytes
put_int = append 4

abbrev pub put_long : ℕ → Bytes → Bytes
put_long = append 8

-- getBytes(buf, len): `len` single reads.
unfoldable pub get_bytes : ℕ → Bytes → List ℕ × Bytes
get_bytes zero b = ([], b)
get_bytes (suc n) b = let (x, b') = read 1 b in let (xs, b'') = get_bytes n b' in (x ∷ xs, b'')

-- putBytes(b, len): `len` single appends.
unfoldable pub put_bytes : List ℕ → Bytes → Bytes
put_bytes [] b = b
put_bytes (x ∷ xs) b = put_bytes xs (append 1 x b)

unfoldable pub put_bytes_at : List ℕ → ℕ → Bytes → Bytes
put_bytes_at xs index b = put_bytes xs (record b { wpos = index })

-- The loop of put(src) and of clone(): bytes `i` to `i + n` of `src` are appended to `dst`.
unfoldable pub copy_from : ℕ → ℕ → Bytes → Bytes → Bytes
copy_from zero i src dst = dst
copy_from (suc n) i src dst = copy_from n (i + 1) src (append 1 (read_at 1 i src) dst)

unfoldable pub put : Bytes → Bytes → Bytes
put src b = copy_from (size src) 0 src b

unfoldable pub clone : Bytes → Bytes
clone b = record (copy_from (length b.buf) 0 b new) { rpos = 0; wpos = 0 }

-- The loop of equals(): bytes `i` to `i + n`.
unfoldable pub equals_from : ℕ → ℕ → Bytes → Bytes → Bool
equals_from zero i b other = true
equals_from (suc n) i b other =
    if not (read_at 1 i b == read_at 1 i other) then false else equals_from n (i + 1) b other

unfoldable pub equals : Bytes → Bytes → Bool
equals b other = if not (size b == size other) then false else equals_from (size b) 0 b other

-- The loop of find<T>(key, start); `none` is -1.
unfoldable pub find_from : ℕ → ℕ → ℕ → ℕ → Bytes → Option ℕ
find_from w key zero i b = none
find_from w key (suc n) i b =
    if not (key == 0) && (read_at w i b == 0)
    then none
    else if read_at w i b == key
    then some i
    else find_from w key n (i + 1) b

unfoldable pub find : ℕ → ℕ → ℕ → Bytes → Option ℕ
find w key start b = find_from w key (size b - start) start b

-- The loop of replace(key, rep, start, firstOccuranceOnly).
unfoldable pub replace_from : ℕ → ℕ → Bool → ℕ → ℕ → Bytes → Bytes
replace_from key rep first zero i b = b
replace_from key rep first (suc n) i b =
    if not (key == 0) && (read_at 1 i b == 0)
    then b
    else if not (read_at 1 i b == key)
    then replace_from key rep first n (i + 1) b
    else if first
    then record b { buf = set b.buf i rep }
    else replace_from key rep first n (i + 1) (record b { buf = set b.buf i rep })

unfoldable pub replace : ℕ → ℕ → ℕ → Bool → Bytes → Bytes
replace key rep start first b = replace_from key rep first (size b - start) start b

-- The constants of protocol/message_type.h.
abbrev pub pack_size_len : ℕ
pack_size_len = 4

abbrev pub pack_head_len : ℕ
pack_head_len = 8

-- The head of a pack: the four bytes of its length, two of the flag and two of the type.
unfoldable pub put_head : ℕ → ℕ → Bytes → Bytes
put_head body_size type b =
    put_short type (put_short 0 (put_int (u32 (pack_head_len + body_size)) b))

-- The end of putMessage: room for the body, which is serialised to the write position.
unfoldable pub put_body : List ℕ → Bytes → Bytes
put_body body b =
    let end : ℕ = u32 (b.wpos + u32 (length body)) in
    let grown : List ℕ = if ltb (size b) end then vector_resize end b.buf else b.buf in
    record b { buf = blit grown b.wpos body; wpos = end }

-- putMessage(message, type): `body` is what the message serialises to.
unfoldable pub put_message : List ℕ → ℕ → Bytes → Bytes
put_message body type b = put_body body (put_head (u32 (length body)) type b)
