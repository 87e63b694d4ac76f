-- ===== src/Tests/BytesTests.antt =====
-- Byte buffers and packs: runs on concrete inputs.
use naruto.Prelude.{
  ℕ, ◌+◌, ◌^◌, ◌<◌, ◌≤◌, ap, ◌≡◌, ◌≢◌, ◌↔◌, refl, Bool, true, Option, some, none, List, [], ◌∷◌,
  ◌++◌, length, take, drop, arith, All, ◌⊎◌,
}
use naruto.Codec.{le_bytes}
use naruto.Bytes.{Bytes, append, insert, read_at, equals, clone, put, find, new}

-- Seven bytes, the writer at the second and the reader at the fourth.
abbrev seven : Bytes
seven = record { buf = 10 ∷ 11 ∷ 12 ∷ 13 ∷ 14 ∷ 15 ∷ 16 ∷ []; rpos = 3; wpos = 1 }

append_short :
    append 2 513 seven ≡ record seven { buf = 10 ∷ 1 ∷ 2 ∷ 13 ∷ 14 ∷ 15 ∷ 16 ∷ []; wpos = 3 }
unfolding append naruto.Bytes.size naruto.Bytes.vector_resize naruto.Prelude.blit le_bytes
append_short = refl
