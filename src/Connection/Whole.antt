-- ===== src/Connection/Whole.antt =====
-- A pack that comes in pieces is read whole.
use naruto.Prelude.{
  ℕ, ◌+◌, ◌^◌, ◌≤◌, ◌<◌, ◌≡◌, refl, sym, ap, ◌∙◌, true, false, List, [], ◌∷◌, ◌++◌, length,
  length-append, append_assoc, append-nil, take, take-append_le, concat, map, All, IsBytes, ◌==◌,
  arith, le→leb, if◌then◌else◌,
}
use naruto.Prelude.Int.{ℤ}
use naruto.Codec.{le_value}
use naruto.Bytes.{Bytes, size, clear, read_at, pack_head_len}
use naruto.Bytes.Ends.{at_end, put_bytes-at_end}
use naruto.Connection.{
  Connect, Recv, got, finished, read_loop, read_pack, next_len, is_whole, has_err,
}

-- The length in the head of a pack.
abbrev pub head_length : List ℕ → ℕ
head_length p = le_value (take 4 p)

pub read_at-head_length : (g : List ℕ) → 8 ≤ length g → read_at 4 0 (at_end g 0) ≡ head_length g
unfolding read_at
read_at-head_length g h = ground arith

is_whole-at_end :
    (g : List ℕ)
    → 8 ≤ length g
    → length g < 2 ^ 32
    → is_whole (at_end g 0) ≡ (length g == head_length g)
unfolding size
is_whole-at_end g h l = rw (fits g l, read_at-head_length g h) (rw (le→leb 8 (length g) h) refl)
  where
    fits : (g : List ℕ) → length g < 2 ^ 32 → size (at_end g 0) ≡ length g
    fits g l = omega arith

-- What one call of recv can bring.
abbrev pub IsPiece : List ℕ → Type 0
IsPiece c = (0 < length c) × IsBytes c

-- A piece with which the head is complete.
pub read_piece :
    (c f : List ℕ) (rs : List Recv) (next : ℕ) (conn : Connect)
    → IsBytes c
    → 8 ≤ length (f ++ c)
    → length (f ++ c) < 2 ^ 32
    → has_err conn.err ≡ false
    → read_loop (got c ∷ rs) next (at_end f 0) conn ≡ (
        if length (f ++ c) == head_length (f ++ c)
        then finished (ℤ.pos 0) (at_end (f ++ c) 0) conn
        else read_loop rs (next_len (length c) (at_end (f ++ c) 0)) (at_end (f ++ c) 0) conn)
unfolding read_loop
read_piece c f rs next conn v h l n =
    rw (n, put_bytes-at_end c f 0 v (omega (arith, length-append f c)))
      (rw (is_whole-at_end (f ++ c) h l) refl)

read_rest :
    (c : List ℕ) (cs : List (List ℕ)) (f p : List ℕ) (next : ℕ) (conn : Connect)
    → f ++ concat (c ∷ cs) ≡ p
    → All IsPiece (c ∷ cs)
    → 8 ≤ length (f ++ c)
    → head_length (f ++ c) ≡ length p
    → length p < 2 ^ 32
    → has_err conn.err ≡ false
    → read_loop (map got (c ∷ cs)) next (at_end f 0) conn ≡ finished (ℤ.pos 0) (at_end p 0) conn
read_rest c [] f p next conn e k h w l n =
    read_piece c f [] next conn k.0.1 h (omega (arith, ap length here)) n
    ∙ rw (same _ _ (ap length here ∙ sym w)) (ap (λ xs. finished (ℤ.pos 0) (at_end xs 0) conn) here)
  where
    here : f ++ c ≡ p
    here = ap (λ xs. f ++ xs) (sym (append-nil c)) ∙ e

    same : (m n : ℕ) → m ≡ n → (m == n) ≡ true
    same m n q = ground arith
read_rest c (d ∷ cs) f p next conn e k h w l n =
    read_piece c f (map got (d ∷ cs)) next conn k.0.1 h (omega (arith, total)) n
    ∙ rw (not_yet (length (f ++ c)) (head_length (f ++ c)) (omega (arith, total, k.1.0.0, w))) (
        read_rest d cs (f ++ c) p _ conn (append_assoc f c (concat (d ∷ cs)) ∙ e) k.1
          (omega (arith, h, length-append (f ++ c) d))
          (ap le_value (take-append_le 4 (f ++ c) d (omega arith)) ∙ w) l n)
  where
    total : length (f ++ c) + length d ≤ length p
    total = omega (
      arith,
      ap length e,
      length-append f (concat (c ∷ d ∷ cs)),
      length-append c (concat (d ∷ cs)),
      length-append d (concat cs),
      length-append f c,
    )

    not_yet : (m n : ℕ) → m < n → (m == n) ≡ false
    not_yet m n q = ground arith

-- A pack of which the head says its length, which comes in pieces of which the first has its whole head:
-- read_ ends with CONNECT_RT_OK and exactly the pack in the buffer, with the reader at its start. The pack
-- is shorter than 2 ^ 32.
pub read_pack-whole :
    (c : List ℕ) (cs : List (List ℕ)) (pack : Bytes) (conn : Connect)
    → All IsPiece (c ∷ cs)
    → 8 ≤ length c
    → head_length c ≡ length (concat (c ∷ cs))
    → length (concat (c ∷ cs)) < 2 ^ 32
    → has_err conn.err ≡ false
    → read_pack (map got (c ∷ cs)) pack conn ≡ finished (ℤ.pos 0) (at_end (concat (c ∷ cs)) 0) conn
unfolding read_pack clear
read_pack-whole c cs pack conn k h w l n = read_rest c cs [] _ pack_head_len conn refl k h w l n
