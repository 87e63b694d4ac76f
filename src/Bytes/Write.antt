-- ===== src/Bytes/Write.antt =====
-- What the write operations of a byte buffer do, and the invariant that they keep.
use naruto.Prelude.{
  ℕ, ◌+◌, ◌-◌, ◌^◌, ◌≤◌, ◌<◌, ◌≡◌, refl, sym, ap, ◌∙◌, List, ◌++◌, length, length-append, take,
  replicate, slice, blit, blit_over, length-blit, slice-blit_self, take-append_le, take_all, ltb,
  inl, inr, Bool-cases, if◌then◌else◌, drop, le→leb, ◌⊎◌, arith, ltb→lt, length-take,
  length-replicate, take-blit, drop-blit,
}
use naruto.Codec.{le_bytes, le_value, length-le_bytes, le_value-le_bytes}
use naruto.Bytes.{Bytes, u32, size, vector_resize, read_at, append, insert}

-- The write position lies in the buffer, whose length is a uint32_t.
pub record IsValid (b : Bytes) : Type 0 where
  pub fits : length b.buf < 2 ^ 32
  pub within : b.wpos ≤ length b.buf

-- One write of `src` at the write position, once the buffer has grown.
abbrev pub written : Bytes → List ℕ → Bytes
written b src = record b { buf = blit b.buf b.wpos src; wpos = b.wpos + length src }

length-vector_resize : (n : ℕ) (xs : List ℕ) → length (vector_resize n xs) ≡ n
unfolding vector_resize
length-vector_resize n xs = omega (
  arith,
  length-append (take n xs) (replicate (n - length xs) 0),
  length-take n xs,
  length-replicate {A = ℕ} (n - length xs) 0,
)

-- A write that ends with the grown buffer does not see the zeros that it grew by.
blit-vector_resize :
    (n i : ℕ) (xs src : List ℕ)
    → i ≤ length xs
    → length xs ≤ n
    → n ≡ i + length src
    → blit (vector_resize n xs) i src ≡ blit xs i src
unfolding vector_resize
blit-vector_resize n i xs src h k e =
    blit_over _ i src (omega (arith, length-vector_resize n xs))
      (omega (arith, length-vector_resize n xs))
    ∙ ap (λ t. take i t ++ src) (ap (λ t. t ++ replicate (n - length xs) 0) (take_all n xs k))
    ∙ ap (λ t. t ++ src) (take-append_le i xs _ h)
    ∙ sym (blit_over xs i src h (omega arith))

-- `append` and the tail of `putMessage` alike: grow if the write ends behind the buffer, copy.
pub grow-blit :
    (b : Bytes) (src : List ℕ) (n : ℕ)
    → IsValid b
    → b.wpos + length src < 2 ^ 32
    → n ≡ u32 (b.wpos + length src)
    → blit (if ltb (size b) n then vector_resize n b.buf else b.buf) b.wpos src
      ≡ blit b.buf b.wpos src
unfolding size
grow-blit b src n h k e = elim (Bool-cases (ltb (u32 (length b.buf)) n)) [
  | inl t ↦
      rw t
        (blit-vector_resize n b.wpos b.buf src h.within (omega (arith, ltb→lt _ _ t)) (omega arith))
  | inr f ↦ rw f
]

pub append-written :
    (w v : ℕ) (b : Bytes)
    → IsValid b
    → b.wpos + w < 2 ^ 32
    → append w v b ≡ written b (le_bytes w v)
unfolding append
append-written w v b h k =
    ground (arith, grow-blit b (le_bytes w v) (u32 (b.wpos + w)), length-le_bytes w v)

-- A write keeps the buffer valid.
pub written-IsValid :
    (b : Bytes) (src : List ℕ) → IsValid b → b.wpos + length src < 2 ^ 32 → IsValid (written b src)
written-IsValid b src h k = record {
  fits = omega (arith, length-blit b.buf b.wpos src h.within);
  within = omega (arith, length-blit b.buf b.wpos src h.within);
}

-- A read within the buffer is the value of the bytes there.
pub read_at-slice :
    (w i : ℕ) (b : Bytes) (src : List ℕ)
    → slice b.buf i w ≡ src
    → i + w ≤ length b.buf
    → read_at w i b ≡ le_value src
unfolding read_at
read_at-slice w i b src e h = rw (le→leb _ _ h) (ap le_value e)

-- append<T> at a valid position writes the value where it stood, and nothing else changes: it is read
-- back there, what lies before and behind the write stays, the position moves past the write, and the
-- buffer stays valid. The value fits its width and the position does not wrap.
pub append_lem :
    (w v : ℕ) (b : Bytes)
    → IsValid b
    → b.wpos + w < 2 ^ 32
    → v < 256 ^ w
    → let b' = append w v b in
      (read_at w b.wpos b' ≡ v)
      × (b'.wpos ≡ b.wpos + w)
      × (b'.rpos ≡ b.rpos)
      × (take b.wpos b'.buf ≡ take b.wpos b.buf)
      × (drop (b.wpos + w) b'.buf ≡ drop (b.wpos + w) b.buf)
      × IsValid b'
append_lem w v b h k f =
    rw (append-written w v b h k, length-le_bytes w v)
      (read_at-written, refl, refl, take-blit b.buf b.wpos (le_bytes w v) h.within, behind, valid)
  where
    len : length (le_bytes w v) ≡ w
    len = length-le_bytes w v

    read_at-written :
        read_at w b.wpos (record b { buf = blit b.buf b.wpos (le_bytes w v); wpos = b.wpos + w })
        ≡ v
    read_at-written =
        read_at-slice w b.wpos _ (le_bytes w v)
          (rw len at (slice-blit_self b.buf b.wpos (le_bytes w v) h.within))
          (omega (arith, length-blit b.buf b.wpos (le_bytes w v) h.within, length-le_bytes w v))
        ∙ le_value-le_bytes w v f

    behind : drop (b.wpos + w) (blit b.buf b.wpos (le_bytes w v)) ≡ drop (b.wpos + w) b.buf
    behind = rw len at (drop-blit b.buf b.wpos (le_bytes w v) h.within)

    valid : IsValid (record b { buf = blit b.buf b.wpos (le_bytes w v); wpos = b.wpos + w })
    valid = rw len at (written-IsValid b (le_bytes w v) h (omega (arith, length-le_bytes w v)))

-- insert<T> within the buffer overwrites in place; beyond its end it does nothing.
pub insert_lem :
    (w v index : ℕ) (b : Bytes)
    → length b.buf < 2 ^ 32
    → ((length b.buf < index + w) × (insert w v index b ≡ b))
      ⊎ ((index + w ≤ length b.buf)
          × (insert w v index b
              ≡ record b { buf = blit b.buf index (le_bytes w v); wpos = index + w }))
unfolding insert size
insert_lem w v index b h = ground arith
