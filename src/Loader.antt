-- ===== src/Loader.antt =====
-- The reader of files of packs: `loadFile` of utils/file.cpp. (`onSendIncrToSlave` of
-- replication/replica_link.cpp has the same inner loop.)
pub mod Drain
pub mod Whole
pub mod Straddle
pub mod Ending
pub mod Total
use naruto.Prelude.{
  ℕ, zero, suc, ◌+◌, ◌-◌, ◌^◌, ◌%◌, Bool, true, false, ◌&&◌, Option, some, none, List, [], ◌∷◌,
  ◌++◌, length, take, drop, ltb, leb, if◌then◌else◌,
}
use mathlib.Core.Option
use naruto.Bytes.{
  Bytes, u32, new, bytes_remaining, get_int, get_short, get_bytes, put_bytes, pack_size_len,
  pack_head_len,
}

-- The arguments of a call of the loader's callback.
pub record Entry : Type 0 where
  pub flag : ℕ
  pub type : ℕ
  pub body : List ℕ

-- A size_t.
abbrev pub u64 : ℕ → ℕ
u64 n = n % 2 ^ 64

-- How a round of the inner loop ends: the loop is left, at its test or at the break, the callback is
-- called and the loop goes on, or the array for a body that is shorter than no body at all overflows the stack.
pub data Round : Type 0 where
  overflow : Round
  stop : Bytes → Round
  entry : Entry → Bytes → Round

-- The rest of a round once its length word is read. `pack_size - sizeof(pack_size)` is a size_t. A pack size of 4 to 7
-- passes the test, and the unsigned size of its body is more than 2 ^ 32 - 5.
unfoldable pub after_size : ℕ → Bytes → Round
after_size pack_size b =
    if ltb (bytes_remaining b) (u64 (pack_size + 2 ^ 64 - 4))
    then stop b
    else if ltb pack_size pack_head_len
    then overflow
    else (let (flag, at_type) = get_short b in
        let (type, at_body) = get_short at_type in
        let (body, after) = get_bytes (u32 (pack_size + 2 ^ 32 - pack_head_len)) at_body in
        entry (record { flag = flag; type = type; body = body }) after)

unfoldable pub next_entry : Bytes → Round
next_entry b =
    if ltb pack_size_len (bytes_remaining b)
    then (let (pack_size, b') = get_int b in after_size pack_size b')
    else stop b

-- The inner loop; `none` is the end of the fuel, or of the process where the stack overflows.
unfoldable pub drain : ℕ → Bytes → Option (List Entry × Bytes)
drain zero b = none
drain (suc fuel) b = elim (next_entry b) [
  | overflow ↦ none
  | stop b' ↦ some ([], b')
  | entry e b' ↦ Option.map (λ (r : List Entry × Bytes). (e ∷ r.0, r.1)) (drain fuel b')
]

-- The size of the array that the file is read through.
abbrev pub chunk_size : ℕ
chunk_size = 4096

-- The end of a round of the outer loop: the last one if the read came to the end of the file.
unfoldable pub after_drain :
    Option (List Entry × Bytes) → Bool → (Bytes → Option (List Entry)) → Option (List Entry)
after_drain none eof next = none
after_drain (some (es, b)) true next = some es
after_drain (some (es, b)) false next = Option.map (λ (later : List Entry). es ++ later) (next b)

-- The outer loop over what is left of the file. A read of less than a whole chunk sets eof. Each round
-- drains with as much fuel as there are bytes in the buffer, and one more.
unfoldable pub load : ℕ → List ℕ → Bytes → Option (List Entry)
load zero file b = none
load (suc fuel) file b =
    let chunk : List ℕ = take chunk_size file in
    let filled : Bytes = put_bytes chunk b in
    after_drain (drain (suc (length filled.buf)) filled) (ltb (length chunk) chunk_size)
      (λ b'. load fuel (drop chunk_size file) b')

-- loadFile(filename, offset, f) on the contents of a file: the calls of `f` in turn. After `seekg` a
-- `peek` at the end sets eof, and nothing is read. An offset of 2 ^ 63 or more, which is behind every file, is a negative
-- streamoff: `seekg` fails, nothing is read, and eof never comes.
unfoldable pub load_file : List ℕ → ℕ → Option (List Entry)
load_file contents offset =
    if leb (length contents) offset
    then (if ltb (length contents) offset && leb (2 ^ 63) offset then none else some [])
    else load (suc (length contents)) (drop offset contents) new
