-- ===== src/Loader/Straddle.antt =====
-- A pack that straddles a chunk of the reader is lost: the length word that the break has already read
-- is not put back.
use naruto.Prelude.{
  ℕ, suc, ◌+◌, ◌-◌, ◌*◌, ◌^◌, ◌<◌, ◌≡◌, refl, sym, ap, ap₂, ◌∙◌, true, false, some, List, [], ◌∷◌,
  ◌++◌, length, length-append, length-drop, length-take, append-nil, All-take, All-drop, take, drop,
  ltb, leb, IsBytes, arith, take-append-drop,
}
use mathlib.Core.Option
use naruto.Codec.{le_bytes, length-le_bytes}
use naruto.Bytes.{Bytes, new, put_bytes}
use naruto.Bytes.Ends.{at_end, put_bytes-at_end, unread, length-unread, unread-advance}
use naruto.Bytes.PackLayout.{length-pack_bytes}
use naruto.Loader.{Entry, stop, after_size, next_entry, drain, load, load_file, u64}
use naruto.Loader.Drain.{
  IsReader, IsEntry, pack_of, fields_of, pack_of-split, bytes_remaining-unread, next_entry-sized,
  drain-stop,
}
use naruto.Loader.Whole.{pack_of-IsBytes, load-last, load-more}

-- A length word that asks for more than is there: the round stops, four bytes further on.
pub next_entry_short :
    (n : ℕ) (ys : List ℕ) (b : Bytes)
    → 0 < length ys
    → length ys + 4 < n
    → n < 2 ^ 32
    → IsReader b
    → unread b ≡ le_bytes 4 n ++ ys
    → next_entry b ≡ stop (record b { rpos = b.rpos + 4 })
unfolding after_size le_bytes
next_entry_short n ys b p q k h u =
    next_entry-sized n ys b p k h u
    ∙ rw (bytes_remaining-unread (record b { rpos = b.rpos + 4 }) ys valid rest, short)
  where
    room : 4 + length ys ≡ length b.buf - b.rpos
    room = omega (arith, length-unread b (le_bytes 4 n ++ ys) u)

    valid : IsReader (record b { rpos = b.rpos + 4 })
    valid = record { fits = h.fits; inside = omega (arith, room) }

    rest : unread (record b { rpos = b.rpos + 4 }) ≡ ys
    rest = unread-advance b (le_bytes 4 n) ys u

    short : ltb (length ys) (u64 (n + 2 ^ 64 - 4)) ≡ true
    short = ground arith

-- Flag and type, read as the one word that the next round takes for a length.
flag_type_word : (t : ℕ) → t < 2 ^ 16 → le_bytes 2 0 ++ le_bytes 2 t ≡ le_bytes 4 (t * 65536)
unfolding le_bytes
flag_type_word t h =
    ap₂ ◌∷◌ (omega arith)
      (ap₂ ◌∷◌ (omega arith) (ap₂ ◌∷◌ (omega arith) (ap₂ ◌∷◌ (omega arith) refl)))

module _ (e : Entry) (v : IsEntry e) (long : 4096 < 8 + length e.body)
    (short : 8 + length e.body < 8192) (typed : 0 < e.type) where
  front : List ℕ
  front = take 4096 (pack_of e)

  len : length (pack_of e) ≡ 8 + length e.body
  len = length-pack_bytes e.type e.body

  length-front : length front ≡ 4096
  unfolding front
  length-front = omega (arith, length-take 4096 (pack_of e), len)

  front-split : front ≡ le_bytes 4 (8 + length e.body) ++ take 4092 (fields_of e [])
  unfolding front le_bytes
  front-split = ap (take 4096) (sym (append-nil (pack_of e)) ∙ pack_of-split e [])

  front-IsBytes : IsBytes front
  unfolding front
  front-IsBytes = All-take _ 4096 (pack_of e) (pack_of-IsBytes e v)

  length-ys : length (take 4092 (fields_of e [])) ≡ 4092
  length-ys = omega (
    arith,
    length-front,
    ap length front-split,
    length-append (le_bytes 4 (8 + length e.body)) (take 4092 (fields_of e [])),
    length-le_bytes 4 (8 + length e.body),
  )

  -- The first chunk: the length word is read, the pack is not complete.
  first_round :
      drain (suc (length (put_bytes front new).buf)) (put_bytes front new)
      ≡ some ([], at_end front 4)
  first_round = rw (put_bytes-at_end front [] 0 front-IsBytes (omega (arith, length-front))) (
      drain-stop (length front) (at_end front 0) (at_end front 4) (
        next_entry_short (8 + length e.body) (take 4092 (fields_of e [])) (at_end front 0)
          (omega (arith, length-ys)) (omega (arith, length-ys)) (omega arith)
          (record { fits = omega (arith, length-front); inside = omega arith }) front-split))

  back : List ℕ
  back = drop 4096 (pack_of e)

  front-back : front ++ back ≡ pack_of e
  unfolding front back
  front-back = take-append-drop 4096 (pack_of e)

  length-back : length back < 4096
  unfolding back
  length-back = omega (arith, length-drop 4096 (pack_of e), len)

  back-IsBytes : IsBytes back
  unfolding back
  back-IsBytes = All-drop _ 4096 (pack_of e) (pack_of-IsBytes e v)

  filled : put_bytes back (at_end front 4) ≡ at_end (pack_of e) 4
  filled =
      put_bytes-at_end back front 4 back-IsBytes (omega (arith, length-front, length-back))
      ∙ ap (λ xs. at_end xs 4) front-back

  unread_word : unread (at_end (pack_of e) 4) ≡ le_bytes 4 (e.type * 65536) ++ e.body
  unfolding le_bytes
  unread_word = ap (λ xs. xs ++ e.body) (flag_type_word e.type v.1)

  -- The second chunk: flag and type are read as a length, of at least 65536.
  second_round :
      drain (suc (length (put_bytes back (at_end front 4)).buf)) (put_bytes back (at_end front 4))
      ≡ some ([], at_end (pack_of e) 8)
  second_round = rw filled (
      drain-stop (length (pack_of e)) (at_end (pack_of e) 4) (at_end (pack_of e) 8) (
        next_entry_short (e.type * 65536) e.body (at_end (pack_of e) 4) (omega arith) (omega arith)
          (omega arith) (record { fits = omega (arith, len); inside = omega (arith, len) })
          unread_word))

  -- So neither round finds an entry.
  two_rounds : (fuel : ℕ) → load (suc (suc fuel)) (pack_of e) new ≡ some []
  two_rounds fuel = rw (← front-back) (
      load-more (suc fuel) front back new (at_end front 4) [] length-front first_round
      ∙ ap (Option.map (λ (later : List Entry). [] ++ later))
          (load-last fuel back (at_end front 4) (at_end (pack_of e) 8) [] length-back second_round))

-- The bug: in a file that holds one command of more than a chunk and less than two, the loader finds no
-- command at all.
pub load_file_straddle :
    (e : Entry)
    → IsEntry e
    → 4096 < 8 + length e.body
    → 8 + length e.body < 8192
    → 0 < e.type
    → load_file (pack_of e) 0 ≡ some []
unfolding load_file
load_file_straddle e v long short typed = rw not_empty (
    ap (λ n. load (suc n) (pack_of e) new) {y = suc (7 + length e.body)}
      (omega (arith, length-pack_bytes e.type e.body))
    ∙ two_rounds e v long short typed (7 + length e.body))
  where
    not_empty : leb (length (pack_of e)) 0 ≡ false
    not_empty = ground (arith, length-pack_bytes e.type e.body)
