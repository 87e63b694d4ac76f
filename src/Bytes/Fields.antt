-- ===== src/Bytes/Fields.antt =====
-- Any sequence of fields put into a byte buffer is got back.
use naruto.Prelude.{
  ℕ, ◌+◌, ◌^◌, ◌<◌, ◌≡◌, refl, ap, ap₂, ◌∙◌, List, [], ◌∷◌, ◌++◌, length, length-append,
  append_assoc, append-nil, map, All, arith,
}
use naruto.Codec.{le_bytes, length-le_bytes, le_value-le_bytes}
use naruto.Bytes.{Bytes, read, append, new}
use naruto.Bytes.Ends.{at_end, append-at_end, unread, unread-advance, read-unread}

-- A client's fields, each with its width, written in turn; and read back in turn.
pub put_fields : List (ℕ × ℕ) → Bytes → Bytes
put_fields [] b = b
put_fields ((w, v) ∷ fs) b = put_fields fs (append w v b)

pub get_fields : List ℕ → Bytes → List ℕ × Bytes
get_fields [] b = ([], b)
get_fields (w ∷ ws) b = let (v, b') = read w b in let (vs, b'') = get_fields ws b' in (v ∷ vs, b'')

abbrev pub encode : List (ℕ × ℕ) → List ℕ
encode [] = []
encode ((w, v) ∷ fs) = le_bytes w v ++ encode fs

-- Each width is positive and its value fits.
abbrev pub Fit : ℕ × ℕ → Type 0
Fit f = (0 < f.0) × (f.1 < 256 ^ f.0)

put_fields-at_end :
    (fs : List (ℕ × ℕ)) (xs : List ℕ) (r : ℕ)
    → length xs + length (encode fs) < 2 ^ 32
    → put_fields fs (at_end xs r) ≡ at_end (xs ++ encode fs) r
unfolding put_fields
put_fields-at_end [] xs r h = rw append-nil
put_fields-at_end ((w, v) ∷ fs) xs r h =
    let l = length-append (le_bytes w v) (encode fs) in
    rw (append-at_end w v xs r (omega (arith, l, length-le_bytes w v))) (
      put_fields-at_end fs (xs ++ le_bytes w v) r
        (omega (arith, l, length-append xs (le_bytes w v)))
      ∙ ap (λ t. at_end t r) (append_assoc xs (le_bytes w v) (encode fs)))

get_fields-unread :
    (fs : List (ℕ × ℕ)) (b : Bytes)
    → All Fit fs
    → unread b ≡ encode fs
    → b.rpos + length (encode fs) < 2 ^ 32
    → (get_fields (map (λ f. f.0) fs) b).0 ≡ map (λ f. f.1) fs
unfolding get_fields
get_fields-unread [] b a e h = refl
get_fields-unread ((w, v) ∷ fs) b a e h =
    let l = length-append (le_bytes w v) (encode fs) in
    rw
      (read-unread w b (le_bytes w v) (encode fs) e (length-le_bytes w v) a.0.0
        (omega (arith, l, length-le_bytes w v)))
      (ap₂ ◌∷◌ (le_value-le_bytes w v a.0.1) (
        get_fields-unread fs (record b { rpos = b.rpos + w }) a.1
          (rw (length-le_bytes w v) at (unread-advance b (le_bytes w v) (encode fs) e))
          (omega (arith, l, length-le_bytes w v))))

-- Round trip: whatever fields a client puts into a new buffer, reading the same widths from the front
-- gives the same values, if each value fits its width and the whole fits a uint32_t.
pub get_fields-put_fields :
    (fs : List (ℕ × ℕ))
    → All Fit fs
    → length (encode fs) < 2 ^ 32
    → (get_fields (map (λ f. f.0) fs) (put_fields fs new)).0 ≡ map (λ f. f.1) fs
get_fields-put_fields fs a h =
    rw (put_fields-at_end fs [] 0 (omega arith))
      (get_fields-unread fs (at_end (encode fs) 0) a refl (omega arith))
