-- ===== src/Loader/Ending.antt =====
-- Draining ends on every buffer, whatever it holds.
use naruto.Prelude.{
  ℕ, zero, suc, ◌+◌, ◌-◌, ◌^◌, ◌≤◌, ◌<◌, ◌≡◌, refl, sym, subst, ap, ◌∙◌, true, false, Option, some,
  none, List, [], ◌∷◌, length, length-drop, length-take, drop, ltb, leb, ltb→lt, leb→le, Bool-cases,
  inl, inr, ◌⊎◌, All-take, All-drop, IsBytes, arith, slice,
}
use mathlib.Core.Option
use naruto.Codec.{le_value, le_value-lt}
use naruto.Bytes.{Bytes, u32, bytes_remaining, read_at, read, get_bytes}
use naruto.Loader.{Entry, Round, overflow, stop, entry, after_size, next_entry, drain, u64}
use naruto.Loader.Drain.{IsReader, bytes_remaining_lem, drain-entry, drain-stop, add_entry}

read_at_four : (i : ℕ) (b : Bytes) → IsBytes b.buf → read_at 4 i b < 2 ^ 32
unfolding read_at
read_at_four i b v = elim (Bool-cases (leb (i + 4) (length b.buf))) [
  | inl inside ↦ rw inside (word (leb→le _ _ inside))
  | inr outside ↦ rw outside (omega arith)
]
  where
    word : i + 4 ≤ length b.buf → le_value (slice b.buf i 4) < 2 ^ 32
    word h =
        rw (four h) at
          (le_value-lt (slice b.buf i 4) (All-take _ 4 (drop i b.buf) (All-drop _ i b.buf v)))
      where
        four : i + 4 ≤ length b.buf → length (slice b.buf i 4) ≡ 4
        four h = omega (arith, length-take 4 (drop i b.buf), length-drop i b.buf)

get_bytes-rpos :
    (n : ℕ) (b : Bytes) → b.rpos < 2 ^ 32 → (get_bytes n b).1 ≡ record b { rpos = u32 (b.rpos + n) }
unfolding get_bytes read
get_bytes-rpos zero b h = ap (λ (r : ℕ). record b { rpos = r }) (omega arith)
get_bytes-rpos (suc n) b h =
    get_bytes-rpos n (record b { rpos = u32 (b.rpos + 1) }) (omega arith)
    ∙ ap (λ (r : ℕ). record b { rpos = r }) (omega arith)

-- What a round leaves: a reader of the same buffer, not further back, and further on after an entry.
abbrev Leaves : Bytes → Round → Type 0
Leaves b overflow = Unit
Leaves b (stop b') =
    (b'.buf ≡ b.buf) × (b'.wpos ≡ b.wpos) × (b.rpos ≤ b'.rpos) × (b'.rpos ≤ length b.buf)
Leaves b (entry e b') =
    (b'.buf ≡ b.buf) × (b'.wpos ≡ b.wpos) × (b.rpos < b'.rpos) × (b'.rpos ≤ length b.buf)

after_size-Leaves :
    (n : ℕ) (b : Bytes)
    → n < 2 ^ 32
    → 4 ≤ b.rpos
    → IsReader b
    → Leaves (record b { rpos = b.rpos - 4 }) (after_size n b)
unfolding after_size read
after_size-Leaves n b k p h = elim (Bool-cases (ltb (bytes_remaining b) (u64 (n + 2 ^ 64 - 4)))) [
  | inl short ↦ rw short (refl, refl, omega arith, h.inside)
  | inr whole ↦ rw whole (elim (Bool-cases (ltb n 8)) [
    | inl small ↦ rw small tt
    | inr large ↦ rw large (
      ap (λ (x : Bytes). x.buf) last,
      ap (λ (x : Bytes). x.wpos) last,
      omega (arith, ap (λ (x : Bytes). x.rpos) last, fits whole),
      omega (arith, ap (λ (x : Bytes). x.rpos) last, fits whole),
    )
  ])
]
  where
    at_body : Bytes
    at_body = record b { rpos = u32 (u32 (b.rpos + 2) + 2) }

    last :
        (get_bytes (u32 (n + 2 ^ 32 - 8)) at_body).1
        ≡ record b { rpos = u32 (u32 (u32 (b.rpos + 2) + 2) + u32 (n + 2 ^ 32 - 8)) }
    last = get_bytes-rpos (u32 (n + 2 ^ 32 - 8)) at_body (omega arith)

    fits :
        ltb (bytes_remaining b) (u64 (n + 2 ^ 64 - 4)) ≡ false
        → (4 ≤ n) × (b.rpos + n ≤ length b.buf + 4)
    fits w = ground (arith, bytes_remaining_lem b h)

next_entry-Leaves : (b : Bytes) → IsBytes b.buf → IsReader b → Leaves b (next_entry b)
unfolding next_entry read
next_entry-Leaves b v h = elim (Bool-cases (ltb 4 (bytes_remaining b))) [
  | inl more ↦ rw more (
      subst (λ (r : ℕ). Leaves (record b { rpos = r }) (after_size (read_at 4 b.rpos b) at_flag))
        (back more)
        (after_size-Leaves (read_at 4 b.rpos b) at_flag (read_at_four b.rpos b v) (ahead more)
          (valid more)))
  | inr done ↦ rw done (refl, refl, omega arith, h.inside)
]
  where
    at_flag : Bytes
    at_flag = record b { rpos = u32 (b.rpos + 4) }

    room : ltb 4 (bytes_remaining b) ≡ true → b.rpos + 4 ≤ length b.buf
    room m = omega (arith, ltb→lt _ _ m, bytes_remaining_lem b h)

    back : ltb 4 (bytes_remaining b) ≡ true → u32 (b.rpos + 4) - 4 ≡ b.rpos
    back m = omega (arith, room m)

    ahead : ltb 4 (bytes_remaining b) ≡ true → 4 ≤ u32 (b.rpos + 4)
    ahead m = omega (arith, room m)

    valid : ltb 4 (bytes_remaining b) ≡ true → IsReader at_flag
    valid m = record { fits = h.fits; inside = omega (arith, room m) }

Round-cases :
    (r : Round)
    → (r ≡ overflow) ⊎ ((b : Bytes) × (r ≡ stop b)) ⊎ ((e : Entry) × (b : Bytes) × (r ≡ entry e b))
Round-cases overflow = inl refl
Round-cases (stop b) = inr (inl (b, refl))
Round-cases (entry e b) = inr (inr (e, b, refl))

-- The rounds that read a buffer come to one in which the stack overflows.
pub data Overflows : Bytes → Type 0 where
  now : (b : Bytes) → next_entry b ≡ overflow → Overflows b
  later : (b b' : Bytes) (e : Entry) → next_entry b ≡ entry e b' → Overflows b' → Overflows b

-- What draining leaves of a buffer: its contents, with the reader inside; or it has come to an overflow.
abbrev pub Drained : Bytes → Option (List Entry × Bytes) → Type 0
Drained b o =
    ((es : List Entry) × (b' : Bytes) × (o ≡ some (es, b'))
      × (b'.buf ≡ b.buf)
      × (b'.wpos ≡ b.wpos)
      × (b'.rpos ≤ length b.buf))
    ⊎ ((o ≡ none) × Overflows b)

drain-overflow : (fuel : ℕ) (b : Bytes) → next_entry b ≡ overflow → drain (suc fuel) b ≡ none
unfolding drain
drain-overflow fuel b n = rw (drain, n) refl

Drained-entry :
    (fuel : ℕ) (b b' : Bytes) (e : Entry)
    → next_entry b ≡ entry e b'
    → b'.buf ≡ b.buf
    → b'.wpos ≡ b.wpos
    → Drained b' (drain fuel b')
    → Drained b (drain (suc fuel) b)
Drained-entry fuel b b' e n same place (inl (es, b'', d, c, w, r)) = inl (
  e ∷ es,
  b'',
  drain-entry fuel b b' e n ∙ ap (Option.map (add_entry e)) d,
  c ∙ same,
  w ∙ place,
  omega (arith, ap length same),
)
Drained-entry fuel b b' e n same place (inr (d, v)) =
    inr (drain-entry fuel b b' e n ∙ ap (Option.map (add_entry e)) d, later b b' e n v)

-- The inner loop ends on any bytes: with more fuel than there are unread bytes it comes to an overflow, or gives a
-- result, which leaves the contents and the write position as they are and the reader inside.
pub drain_total :
    (fuel : ℕ) (b : Bytes)
    → IsBytes b.buf
    → IsReader b
    → length b.buf - b.rpos < fuel
    → Drained b (drain fuel b)
drain_total zero b v h f = absurd (omega arith)
drain_total (suc fuel) b v h f = elim (Round-cases (next_entry b)) [
  | inl e ↦ inr (drain-overflow fuel b e, now b e)
  | inr (inl (b', e)) ↦
      (let l = subst (Leaves b) e (next_entry-Leaves b v h) in
        inl ([], b', drain-stop fuel b b' e, l.0, l.1, l.3))
  | inr (inr (en, b', e)) ↦
      (let l = subst (Leaves b) e (next_entry-Leaves b v h) in
        Drained-entry fuel b b' en e l.0 l.1 (
          drain_total fuel b' (subst IsBytes (sym l.0) v)
            (record { fits = omega (arith, ap length l.0); inside = omega (arith, ap length l.0) })
            (omega (arith, ap length l.0))))
]
