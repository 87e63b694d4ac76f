-- ===== src/Loader/Whole.antt =====
-- Files whose packs do not straddle the reader's chunks are read as they were written.
use naruto.Prelude.{
  ℕ, zero, suc, ◌+◌, ◌^◌, ◌≤◌, ◌<◌, ◌≡◌, refl, sym, ap, ◌∙◌, some, false, List, [], ◌∷◌, ◌++◌,
  length, length-append, take, drop, take_all, leb, lt→ltb, ltb, leb→le, Bool-cases, All,
  All-append, IsBytes, arith, inl, inr, take-append, drop-append,
}
use mathlib.Core.Option
use naruto.Codec.{le_bytes, le_bytes-IsBytes}
use naruto.Bytes.{Bytes, put_bytes}
use naruto.Bytes.Ends.{at_end, put_bytes-at_end}
use naruto.Bytes.PackLayout.{length-pack_bytes}
use naruto.Loader.{Entry, drain, after_drain, load, load_file}
use naruto.Loader.Drain.{IsEntry, pack_of, packs_of, drain-packs}

pub pack_of-IsBytes : (e : Entry) → IsEntry e → IsBytes (pack_of e)
pack_of-IsBytes e v =
    All-append _ _ e.body
      (All-append _ (le_bytes 4 (8 + length e.body)) _ (le_bytes-IsBytes 4 _)
        (All-append _ (le_bytes 2 0) _ (le_bytes-IsBytes 2 0) (le_bytes-IsBytes 2 e.type)))
      v.2

packs_of-IsBytes : (es : List Entry) → All IsEntry es → IsBytes (packs_of es)
packs_of-IsBytes [] v = tt
packs_of-IsBytes (e ∷ es) v =
    All-append _ (pack_of e) (packs_of es) (pack_of-IsBytes e v.0) (packs_of-IsBytes es v.1)

length-le-packs_of : (es : List Entry) → length es ≤ length (packs_of es)
length-le-packs_of [] = omega arith
length-le-packs_of (e ∷ es) = omega (
  arith,
  length-le-packs_of es,
  length-append (pack_of e) (packs_of es),
  length-pack_bytes e.type e.body,
)

-- A chunk of whole packs, put behind what has all been read, is read whole.
drain-chunk :
    (es : List Entry) (xs : List ℕ)
    → All IsEntry es
    → length xs + length (packs_of es) < 2 ^ 32
    → let filled = put_bytes (packs_of es) (at_end xs (length xs)) in
      drain (suc (length filled.buf)) filled
      ≡ some (es, at_end (xs ++ packs_of es) (length (xs ++ packs_of es)))
drain-chunk es xs v h =
    rw (put_bytes-at_end (packs_of es) xs (length xs) (packs_of-IsBytes es v) h) (
      drain-packs es (suc (length (xs ++ packs_of es))) (at_end (xs ++ packs_of es) (length xs))
        (omega (arith, len, length-le-packs_of es)) v
        (record { fits = omega (arith, len); inside = omega (arith, len) })
        (drop-append xs (packs_of es))
      ∙ ap (λ (r : ℕ). some (es, at_end (xs ++ packs_of es) r)) (sym len))
  where
    len : length (xs ++ packs_of es) ≡ length xs + length (packs_of es)
    len = length-append xs (packs_of es)

-- A file of groups of packs, and the entries of all.
abbrev pub file_of : List (List Entry) → List Entry → List ℕ
file_of [] last = packs_of last
file_of (g ∷ gs) last = packs_of g ++ file_of gs last

abbrev pub entries_of : List (List Entry) → List Entry → List Entry
entries_of [] last = last
entries_of (g ∷ gs) last = g ++ entries_of gs last

-- A group of packs that fills one chunk exactly.
abbrev pub IsChunk : List Entry → Type 0
IsChunk g = All IsEntry g × (length (packs_of g) ≡ 4096)

-- The two ways that a round of the outer loop ends.
pub load-last :
    (fuel : ℕ) (file : List ℕ) (b b' : Bytes) (es : List Entry)
    → length file < 4096
    → drain (suc (length (put_bytes file b).buf)) (put_bytes file b) ≡ some (es, b')
    → load (suc fuel) file b ≡ some es
unfolding load after_drain
load-last fuel file b b' es s d =
    rw (take_all 4096 file (omega arith), load) (rw (d, lt→ltb (length file) 4096 s))

pub load-more :
    (fuel : ℕ) (chunk rest : List ℕ) (b b' : Bytes) (es : List Entry)
    → length chunk ≡ 4096
    → drain (suc (length (put_bytes chunk b).buf)) (put_bytes chunk b) ≡ some (es, b')
    → load (suc fuel) (chunk ++ rest) b
      ≡ Option.map (λ (later : List Entry). es ++ later) (load fuel rest b')
unfolding load after_drain
load-more fuel chunk rest b b' es s d = rw (taken, load) (rw (dropped, d, s))
  where
    taken : take 4096 (chunk ++ rest) ≡ chunk
    taken = rw (← s) (take-append chunk rest)

    dropped : drop 4096 (chunk ++ rest) ≡ rest
    dropped = rw (← s) (drop-append chunk rest)

load-chunks :
    (gs : List (List Entry)) (last : List Entry) (fuel : ℕ) (xs : List ℕ)
    → All IsChunk gs
    → All IsEntry last
    → length (packs_of last) < 4096
    → length gs < fuel
    → length xs + length (file_of gs last) < 2 ^ 32
    → load fuel (file_of gs last) (at_end xs (length xs)) ≡ some (entries_of gs last)
load-chunks gs last zero xs c v s f h = absurd (omega arith)
load-chunks [] last (suc fuel) xs c v s f h =
    load-last fuel (packs_of last) (at_end xs (length xs)) _ last s (drain-chunk last xs v h)
load-chunks (g ∷ gs) last (suc fuel) xs c v s f h =
    load-more fuel (packs_of g) (file_of gs last) (at_end xs (length xs)) _ g c.0.1
      (drain-chunk g xs c.0.0 (omega (arith, total)))
    ∙ ap (Option.map (λ (later : List Entry). g ++ later)) (
        load-chunks gs last fuel (xs ++ packs_of g) c.1 v s (omega arith)
          (omega (arith, total, length-append xs (packs_of g))))
  where
    total : length (packs_of g ++ file_of gs last) ≡ length (packs_of g) + length (file_of gs last)
    total = length-append (packs_of g) (file_of gs last)

length-le-file_of :
    (gs : List (List Entry)) (last : List Entry)
    → All IsChunk gs
    → length gs ≤ length (file_of gs last)
length-le-file_of [] last c = omega arith
length-le-file_of (g ∷ gs) last c =
    omega
      (arith, length-le-file_of gs last c.1, length-append (packs_of g) (file_of gs last), c.0.1)

no_entries :
    (gs : List (List Entry)) (last : List Entry)
    → All IsChunk gs
    → length (file_of gs last) ≡ 0
    → entries_of gs last ≡ []
no_entries [] [] c h = refl
no_entries [] (e ∷ es) c h = absurd (omega (arith, length-le-packs_of (e ∷ es)))
no_entries (g ∷ gs) last c h =
    absurd (omega (arith, length-append (packs_of g) (file_of gs last), c.0.1))

-- A file of packs in which no pack straddles a multiple of 4096 bytes is read back whole: any number of
-- groups of packs that fill a chunk exactly, then packs of less than a chunk. The callback gets every
-- entry, in order, from an offset that stands before them.
pub load_file-file_of :
    (before : List ℕ) (gs : List (List Entry)) (last : List Entry)
    → All IsChunk gs
    → All IsEntry last
    → length (packs_of last) < 4096
    → length (file_of gs last) < 2 ^ 32
    → load_file (before ++ file_of gs last) (length before) ≡ some (entries_of gs last)
unfolding load_file
load_file-file_of before gs last c v s h =
    elim (Bool-cases (leb (length (before ++ file_of gs last)) (length before))) [
      | inl empty ↦
          rw (empty, not_behind)
            (ap some (
              sym (
                no_entries gs last c
                  (omega (arith, leb→le _ _ empty, length-append before (file_of gs last))))))
      | inr more ↦
          rw (more, drop-append before (file_of gs last))
            (load-chunks gs last _ [] c v s
              (omega (arith, length-append before (file_of gs last), length-le-file_of gs last c))
              (omega arith))
    ]
  where
    not_behind : ltb (length (before ++ file_of gs last)) (length before) ≡ false
    not_behind = ground (arith, length-append before (file_of gs last))
