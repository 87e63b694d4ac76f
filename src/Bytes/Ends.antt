-- ===== src/Bytes/Ends.antt =====
-- Buffers that are written at their end and read from front to back, the way that packs are.
use naruto.Prelude.{
  ℕ, ◌+◌, ◌-◌, ◌^◌, ◌<◌, ◌≡◌, refl, sym, ap, ap₂, ◌∙◌, List, [], ◌∷◌, ◌++◌, length, length-append,
  append_assoc, append-nil, blit_end, drop, take, drop-drop, drop-append, take-append, length-drop,
  IsBytes, arith,
}
use naruto.Codec.{le_bytes, le_value}
use naruto.Bytes.{read_at, Bytes, read, append, get_bytes, put_bytes}
use naruto.Bytes.Write.{IsValid, written, append-written, read_at-slice}

-- The buffer that holds `xs` and is written at its end.
abbrev pub at_end : List ℕ → ℕ → Bytes
at_end xs r = record { buf = xs; rpos = r; wpos = length xs }

pub at_end-IsValid : (xs : List ℕ) (r : ℕ) → length xs < 2 ^ 32 → IsValid (at_end xs r)
at_end-IsValid xs r h = record { fits = h; within = omega arith }

written-at_end : (xs src : List ℕ) (r : ℕ) → written (at_end xs r) src ≡ at_end (xs ++ src) r
written-at_end xs src r = rw (blit_end, length-append)

-- A write at the end adds the bytes of the value.
pub append-at_end :
    (w v : ℕ) (xs : List ℕ) (r : ℕ)
    → length xs + w < 2 ^ 32
    → append w v (at_end xs r) ≡ at_end (xs ++ le_bytes w v) r
append-at_end w v xs r h =
    append-written w v (at_end xs r) (at_end-IsValid xs r (omega arith)) h
    ∙ written-at_end xs (le_bytes w v) r

pub le_bytes_one : (x : ℕ) → x < 256 → le_bytes 1 x ≡ x ∷ []
unfolding le_bytes
le_bytes_one x h = ap (λ n. n ∷ []) (omega arith)

-- putBytes adds its bytes.
pub put_bytes-at_end :
    (ys xs : List ℕ) (r : ℕ)
    → IsBytes ys
    → length xs + length ys < 2 ^ 32
    → put_bytes ys (at_end xs r) ≡ at_end (xs ++ ys) r
unfolding put_bytes
put_bytes-at_end [] xs r b h = rw append-nil
put_bytes-at_end (y ∷ ys) xs r b h =
    rw (append-at_end 1 y xs r (omega arith), le_bytes_one y b.0)
      (put_bytes-at_end ys (xs ++ y ∷ []) r b.1 (omega (arith, length-append xs (y ∷ [])))
        ∙ ap (λ t. at_end t r) (append_assoc xs (y ∷ []) ys))

-- The bytes that lie before the reader.
abbrev pub unread : Bytes → List ℕ
unread b = drop b.rpos b.buf

-- Reading `ys` off the front leaves `zs`.
pub unread-advance :
    (b : Bytes) (ys zs : List ℕ) → unread b ≡ ys ++ zs → drop (b.rpos + length ys) b.buf ≡ zs
unread-advance b ys zs e =
    drop-drop b.rpos (length ys) b.buf ∙ ap (drop (length ys)) e ∙ drop-append ys zs

pub length-unread : (b : Bytes) (ys : List ℕ) → unread b ≡ ys → length b.buf - b.rpos ≡ length ys
length-unread b ys e = sym (length-drop b.rpos b.buf) ∙ ap length e

-- A read gives the value of the bytes at the front, and moves behind them.
pub read-unread :
    (w : ℕ) (b : Bytes) (ys zs : List ℕ)
    → unread b ≡ ys ++ zs
    → length ys ≡ w
    → 0 < w
    → b.rpos + w < 2 ^ 32
    → read w b ≡ (le_value ys, record b { rpos = b.rpos + w })
unfolding read
read-unread w b ys zs e l p h =
    ap₂ (λ (v : ℕ) (r : ℕ). (v, record b { rpos = r }))
      (read_at-slice w b.rpos b ys (ap (take w) e ∙ rw (← l) (take-append ys zs))
        (omega (arith, length-unread b (ys ++ zs) e, length-append ys zs)))
      (omega arith)

-- getBytes(len) gives the next bytes.
pub get_bytes-unread :
    (ys zs : List ℕ) (b : Bytes)
    → unread b ≡ ys ++ zs
    → IsBytes ys
    → b.rpos + length ys < 2 ^ 32
    → get_bytes (length ys) b ≡ (ys, record b { rpos = b.rpos + length ys })
unfolding get_bytes le_value
get_bytes-unread [] zs b e v h = ap (λ r. ([], record b { rpos = r })) (omega arith)
get_bytes-unread (y ∷ ys) zs b e v h =
    rw (read-unread 1 b (y ∷ []) (ys ++ zs) e refl (omega arith) (omega arith)) (
      rw
        (get_bytes-unread ys zs (record b { rpos = b.rpos + 1 })
          (unread-advance b (y ∷ []) (ys ++ zs) e) v.1 (omega arith))
        (ap₂ (λ (x : ℕ) (r : ℕ). (x ∷ ys, record b { rpos = r })) (omega arith) (omega arith)))

-- A read at an index in front of `ys` gives their value.
pub read_at-front :
    (w i : ℕ) (b : Bytes) (ys zs : List ℕ)
    → drop i b.buf ≡ ys ++ zs
    → length ys ≡ w
    → 0 < w
    → read_at w i b ≡ le_value ys
read_at-front w i b ys zs e l p =
    read_at-slice w i b ys (ap (take w) e ∙ rw (← l) (take-append ys zs))
      (omega (arith, sym (length-drop i b.buf) ∙ ap length e, length-append ys zs))
