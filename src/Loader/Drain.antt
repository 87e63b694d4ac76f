-- ===== src/Loader/Drain.antt =====
-- The inner loop: its step on a whole pack, and that it always ends.
use naruto.Prelude.{
  ℕ, zero, suc, ◌+◌, ◌-◌, ◌^◌, ◌≤◌, ◌<◌, ◌≡◌, refl, sym, ap, ap₂, ◌∙◌, false, some, List, [], ◌∷◌,
  ◌++◌, length, length-append, append_assoc, drop, ltb, lt→ltb, All, IsBytes, arith,
}
use mathlib.Core.Option
use naruto.Codec.{le_bytes, le_value, le_value-le_bytes}
use naruto.Bytes.{Bytes, u32, size, bytes_remaining, read, get_bytes, get_short}
use naruto.Bytes.Ends.{unread, unread-advance, length-unread, read-unread, get_bytes-unread}
use naruto.Bytes.PackLayout.{pack_bytes, length-pack_bytes}
use naruto.Loader.{Entry, stop, entry, next_entry, after_size, drain, u64}

-- A reader within its buffer.
pub record IsReader (b : Bytes) : Type 0 where
  pub fits : length b.buf < 2 ^ 32
  pub inside : b.rpos ≤ length b.buf

pub bytes_remaining_lem : (b : Bytes) → IsReader b → bytes_remaining b ≡ length b.buf - b.rpos
unfolding bytes_remaining size
bytes_remaining_lem b h = omega arith

pub bytes_remaining-unread :
    (b : Bytes) (ys : List ℕ) → IsReader b → unread b ≡ ys → bytes_remaining b ≡ length ys
bytes_remaining-unread b ys h e = bytes_remaining_lem b h ∙ length-unread b ys e

-- Reading ends within the buffer if it stays within what is unread.
pub advance-IsReader :
    (b : Bytes) (ys zs : List ℕ)
    → IsReader b
    → unread b ≡ ys ++ zs
    → IsReader (record b { rpos = b.rpos + length ys })
advance-IsReader b ys zs h e = record {
  fits = h.fits;
  inside = omega (arith, length-unread b (ys ++ zs) e, length-append ys zs);
}

-- An entry that a uint16_t type and a body of bytes make.
abbrev pub IsEntry : Entry → Type 0
IsEntry e = (e.flag ≡ 0) × (e.type < 2 ^ 16) × IsBytes e.body × (8 + length e.body < 2 ^ 32)

abbrev pub pack_of : Entry → List ℕ
pack_of e = pack_bytes e.type e.body

-- The fields behind the length word: flag, type, body, in the bytes `ys` that are unread.
abbrev pub fields_of : Entry → List ℕ → List ℕ
fields_of e zs = le_bytes 2 0 ++ (le_bytes 2 e.type ++ (e.body ++ zs))

module _ (e : Entry) (b : Bytes) (zs : List ℕ) (v : IsEntry e) (h : IsReader b) where
  after_size-pack :
      unread b ≡ fields_of e zs
      → after_size (8 + length e.body) b
        ≡ entry e (record b { rpos = b.rpos + (4 + length e.body) })
  unfolding after_size le_bytes
  after_size-pack u = rw (bytes_remaining-unread b (fields_of e zs) h u) (
      rw (enough, whole_head, read_flag)
        (rw read_type (
          rw (body_size, read_body)
            (ap₂ entry
              (ap₂ (λ (f : ℕ) (t : ℕ). record { flag = f; type = t; body = e.body })
                (le_value-le_bytes 2 0 (omega arith) ∙ sym v.0) (le_value-le_bytes 2 e.type v.1))
              (ap (λ (r : ℕ). record b { rpos = r }) (omega arith))))))
    where
      len : length (fields_of e zs) ≡ 4 + length e.body + length zs
      len = omega (arith, length-append e.body zs)

      room : b.rpos + (4 + length e.body) ≤ length b.buf
      room = omega (arith, length-unread b (fields_of e zs) u, len)

      enough : ltb (length (fields_of e zs)) (u64 (8 + length e.body + 2 ^ 64 - 4)) ≡ false
      enough = ground (arith, len)

      whole_head : ltb (8 + length e.body) 8 ≡ false
      whole_head = ground arith

      body_size : u32 (8 + length e.body + 2 ^ 32 - 8) ≡ length e.body
      body_size = omega arith

      read_flag : get_short b ≡ (le_value (le_bytes 2 0), record b { rpos = b.rpos + 2 })
      read_flag =
          read-unread 2 b (le_bytes 2 0) (le_bytes 2 e.type ++ (e.body ++ zs)) u refl (omega arith)
            (omega (arith, room))

      u' : drop (b.rpos + 2) b.buf ≡ le_bytes 2 e.type ++ (e.body ++ zs)
      u' = unread-advance b (le_bytes 2 0) (le_bytes 2 e.type ++ (e.body ++ zs)) u

      read_type :
          get_short (record b { rpos = b.rpos + 2 })
          ≡ (le_value (le_bytes 2 e.type), record b { rpos = b.rpos + 2 + 2 })
      read_type =
          read-unread 2 (record b { rpos = b.rpos + 2 }) (le_bytes 2 e.type) (e.body ++ zs) u' refl
            (omega arith) (omega (arith, room))

      read_body :
          get_bytes (length e.body) (record b { rpos = b.rpos + 2 + 2 })
          ≡ (e.body, record b { rpos = b.rpos + 2 + 2 + length e.body })
      read_body =
          get_bytes-unread e.body zs (record b { rpos = b.rpos + 2 + 2 })
            (unread-advance (record b { rpos = b.rpos + 2 }) (le_bytes 2 e.type) (e.body ++ zs) u')
            v.2 (omega (arith, room))

-- The length word in front of bytes `ys`: what a round reads first.
size_word :
    (n : ℕ) (ys : List ℕ) (b : Bytes)
    → n < 2 ^ 32
    → IsReader b
    → unread b ≡ le_bytes 4 n ++ ys
    → read 4 b ≡ (n, record b { rpos = b.rpos + 4 })
unfolding le_bytes
size_word n ys b k h u =
    read-unread 4 b (le_bytes 4 n) ys u refl (omega arith)
      (omega (arith, length-unread b (le_bytes 4 n ++ ys) u))
    ∙ ap (λ (m : ℕ). (m, record b { rpos = b.rpos + 4 })) (le_value-le_bytes 4 n k)

pub next_entry-sized :
    (n : ℕ) (ys : List ℕ) (b : Bytes)
    → 0 < length ys
    → n < 2 ^ 32
    → IsReader b
    → unread b ≡ le_bytes 4 n ++ ys
    → next_entry b ≡ after_size n (record b { rpos = b.rpos + 4 })
unfolding next_entry le_bytes
next_entry-sized n ys b p k h u = rw (
  bytes_remaining-unread b (le_bytes 4 n ++ ys) h u,
  lt→ltb 4 (length (le_bytes 4 n ++ ys)) (omega arith),
  size_word n ys b k h u,
)

pub pack_of-split :
    (e : Entry) (zs : List ℕ) → pack_of e ++ zs ≡ le_bytes 4 (8 + length e.body) ++ fields_of e zs
pack_of-split e zs = simp append_assoc

-- One round on a whole pack calls back with its type and body and goes on behind it.
pub next_entry-pack :
    (e : Entry) (b : Bytes) (zs : List ℕ)
    → IsEntry e
    → IsReader b
    → unread b ≡ pack_of e ++ zs
    → next_entry b ≡ entry e (record b { rpos = b.rpos + (8 + length e.body) })
unfolding le_bytes
next_entry-pack e b zs v h u =
    next_entry-sized (8 + length e.body) (fields_of e zs) b (omega arith) (omega arith) h u'
    ∙ after_size-pack e (record b { rpos = b.rpos + 4 }) zs v
        (advance-IsReader b (le_bytes 4 (8 + length e.body)) (fields_of e zs) h u')
        (unread-advance b (le_bytes 4 (8 + length e.body)) (fields_of e zs) u')
    ∙ ap (λ (r : ℕ). entry e (record b { rpos = r })) (omega arith)
  where
    u' : unread b ≡ le_bytes 4 (8 + length e.body) ++ fields_of e zs
    u' = u ∙ pack_of-split e zs

-- With nothing unread the loop is left.
pub next_entry_done : (b : Bytes) → IsReader b → unread b ≡ [] → next_entry b ≡ stop b
unfolding next_entry
next_entry_done b h u = rw (bytes_remaining-unread b [] h u)

abbrev pub packs_of : List Entry → List ℕ
packs_of [] = []
packs_of (e ∷ es) = pack_of e ++ packs_of es

abbrev pub add_entry : Entry → List Entry × Bytes → List Entry × Bytes
add_entry e r = (e ∷ r.0, r.1)

pub drain-entry :
    (fuel : ℕ) (b b' : Bytes) (e : Entry)
    → next_entry b ≡ entry e b'
    → drain (suc fuel) b ≡ Option.map (add_entry e) (drain fuel b')
unfolding drain
drain-entry fuel b b' e h = rw (h, drain)

pub drain-stop :
    (fuel : ℕ) (b b' : Bytes) → next_entry b ≡ stop b' → drain (suc fuel) b ≡ some ([], b')
unfolding drain
drain-stop fuel b b' h = rw (h, drain)

-- Draining whole packs calls back for each in turn and reads all of them.
pub drain-packs :
    (es : List Entry) (fuel : ℕ) (b : Bytes)
    → length es < fuel
    → All IsEntry es
    → IsReader b
    → unread b ≡ packs_of es
    → drain fuel b ≡ some (es, record b { rpos = b.rpos + length (packs_of es) })
drain-packs es zero b f v h u = absurd (omega arith)
drain-packs [] (suc fuel) b f v h u =
    drain-stop fuel b b (next_entry_done b h u)
    ∙ ap (λ (r : ℕ). some ([], record b { rpos = r })) (omega arith)
drain-packs (e ∷ es) (suc fuel) b f v h u =
    drain-entry fuel b b' e (next_entry-pack e b (packs_of es) v.0 h u)
    ∙ ap (Option.map (add_entry e)) (drain-packs es fuel b' (omega arith) v.1 valid rest)
    ∙ ap (λ (r : ℕ). some (e ∷ es, record b { rpos = r }))
        (omega (arith, len, length-append (pack_of e) (packs_of es)))
  where
    b' : Bytes
    b' = record b { rpos = b.rpos + (8 + length e.body) }

    len : length (pack_of e) ≡ 8 + length e.body
    len = length-pack_bytes e.type e.body

    valid : IsReader b'
    valid = rw len at (advance-IsReader b (pack_of e) (packs_of es) h u)

    rest : unread b' ≡ packs_of es
    rest = rw len at (unread-advance b (pack_of e) (packs_of es) u)
