-- ===== src/Link/Stream.antt =====
-- read_ on a stream: ::recv with MSG_WAITALL on a blocking socket takes as many bytes as it is asked for.
use naruto.Prelude.{
  ℕ, zero, suc, ◌^◌, ◌≤◌, ◌<◌, ◌≡◌, refl, sym, subst, ap, ◌∙◌, true, false, List, [], ◌∷◌, ◌++◌,
  length, length-append, length-take, length-drop, append_assoc, append-nil, take, drop,
  take-append-drop, take-append_le, drop-append_le, take_all, drop_all, All-take, All-drop, IsBytes,
  min, arith, ◌==◌, le→leb, leb→le, leb, if◌then◌else◌, Bool-cases, inl, inr,
}
use naruto.Prelude.Int.{ℤ}
use naruto.Codec.{le_value}
use naruto.Bytes.{Bytes, size, clear, pack_head_len}
use naruto.Bytes.Ends.{at_end}
use naruto.Connection.{
  Connect, got, Reading, finished, waiting, read_loop, read_pack, next_len, read_buf_size, has_err,
}
use naruto.Connection.Whole.{head_length, read_piece, read_at-head_length}

-- As long as the reading waits, the socket gives it the next bytes of the stream.
unfoldable pub read_stream : ℕ → List ℕ → Reading → Reading × List ℕ
read_stream zero stream r = (r, stream)
read_stream (suc fuel) stream (finished k pack c) = (finished k pack c, stream)
read_stream (suc fuel) stream (waiting next pack c) =
    read_stream fuel (drop next stream) (read_loop (got (take next stream) ∷ []) next pack c)

-- The bytes of a pack, whose head says its length.
pub record IsPack (p : List ℕ) : Type 0 where
  pub bytes : IsBytes p
  pub has_head : 8 ≤ length p
  pub length_in_head : head_length p ≡ length p
  pub fits : length p < 2 ^ 32

next_len-at_end :
    (readn : ℕ) (f g : List ℕ)
    → 8 ≤ length f
    → head_length f ≡ length (f ++ g)
    → length (f ++ g) < 2 ^ 32
    → next_len readn (at_end f 0) ≡ min (length g) read_buf_size
unfolding next_len size
next_len-at_end readn f g h w l =
    rw
      (fits f (omega (arith, length-append f g)), le→leb 8 (length f) h, read_at-head_length f h, w)
      (omega (arith, length-append f g))
  where
    fits : (f : List ℕ) → length f < 2 ^ 32 → size (at_end f 0) ≡ length f
    fits f l = omega arith

pub head_length-append : (f g : List ℕ) → 8 ≤ length f → head_length (f ++ g) ≡ head_length f
head_length-append f g h = ap le_value (take-append_le 4 f g (omega arith))

read_stream-finished :
    (fuel : ℕ) (stream : List ℕ) (k : ℤ) (pack : Bytes) (c : Connect)
    → read_stream fuel stream (finished k pack c) ≡ (finished k pack c, stream)
unfolding read_stream
read_stream-finished zero stream k pack c = refl
read_stream-finished (suc fuel) stream k pack c = refl

-- What one call of recv brings to a pack of which `f` has been read, with at least its head.
module _ (f g : List ℕ) (conn : Connect) (p : IsPack (f ++ g)) (h : 8 ≤ length f) (v : IsBytes g)
    (ok : has_err conn.err ≡ false) where
  rejoin : (n : ℕ) → (f ++ take n g) ++ drop n g ≡ f ++ g
  rejoin n = append_assoc f (take n g) (drop n g) ∙ ap (λ xs. f ++ xs) (take-append-drop n g)

  longer : (n : ℕ) → 8 ≤ length (f ++ take n g)
  longer n = omega (arith, length-append f (take n g))

  head_length-part : (n : ℕ) → head_length (f ++ take n g) ≡ length (f ++ g)
  head_length-part n =
      sym (head_length-append (f ++ take n g) (drop n g) (longer n))
      ∙ ap head_length (rejoin n)
      ∙ p.length_in_head

  stream_piece :
      (n : ℕ) (rest : List ℕ)
      → n ≤ length g
      → read_loop (got (take n (g ++ rest)) ∷ []) n (at_end f 0) conn ≡ (
          if length (f ++ take n g) == length (f ++ g)
          then finished (ℤ.pos 0) (at_end (f ++ take n g) 0) conn
          else waiting (min (length (drop n g)) read_buf_size) (at_end (f ++ take n g) 0) conn)
  unfolding read_loop
  stream_piece n rest l = rw (take-append_le n g rest l) (
      read_piece (take n g) f [] n conn (All-take _ n g v) (longer n)
        (omega (arith, p.fits, ap length (rejoin n), length-append (f ++ take n g) (drop n g))) ok
      ∙ rw (head_length-part n) (
          ap
            (λ (k : ℕ).
              if length (f ++ take n g) == length (f ++ g)
              then finished (ℤ.pos 0) (at_end (f ++ take n g) 0) conn
              else waiting k (at_end (f ++ take n g) 0) conn)
            (next_len-at_end (length (take n g)) (f ++ take n g) (drop n g) (longer n)
              (head_length-part n ∙ sym (ap length (rejoin n)))
              (omega (arith, p.fits, ap length (rejoin n))))))

-- The rest of a pack of which `f` has been read, with at least its head.
stream_rest :
    (fuel : ℕ) (f g rest : List ℕ) (conn : Connect)
    → IsPack (f ++ g)
    → 8 ≤ length f
    → IsBytes g
    → 0 < length g
    → length g < fuel
    → has_err conn.err ≡ false
    → read_stream fuel (g ++ rest) (waiting (min (length g) read_buf_size) (at_end f 0) conn)
      ≡ (finished (ℤ.pos 0) (at_end (f ++ g) 0) conn, rest)
unfolding read_stream
stream_rest zero f g rest conn p h v s b n = absurd (omega arith)
stream_rest (suc fuel) f g rest conn p h v s b n = by_size (min (length g) read_buf_size) refl λ l.
    stream_rest fuel (f ++ take (min (length g) read_buf_size) g)
      (drop (min (length g) read_buf_size) g) rest conn
      (subst IsPack (sym (rejoin f g conn p h v n (min (length g) read_buf_size))) p)
      (longer f g conn p h v n (min (length g) read_buf_size))
      (All-drop _ (min (length g) read_buf_size) g v) l
      (omega (arith, length-drop (min (length g) read_buf_size) g)) n
  where
    Goal : List ℕ → List ℕ → Type 0
    Goal f' g' =
        read_stream fuel (g' ++ rest) (waiting (min (length g') read_buf_size) (at_end f' 0) conn)
        ≡ (finished (ℤ.pos 0) (at_end (f' ++ g') 0) conn, rest)

    shut : (x y : ℕ) → x < y → (x == y) ≡ false
    shut x y l = ground arith

    same : (x : ℕ) → (x == x) ≡ true
    same x = ground arith

    leb-false→lt : (x y : ℕ) → leb x y ≡ false → y < x
    leb-false→lt x y l = ground arith

    by_size :
        (k : ℕ)
        → k ≡ min (length g) read_buf_size
        → (0 < length (drop k g) → Goal (f ++ take k g) (drop k g))
        → read_stream fuel
            (drop k (g ++ rest))
            (read_loop (got (take k (g ++ rest)) ∷ []) k (at_end f 0) conn)
          ≡ (finished (ℤ.pos 0) (at_end (f ++ g) 0) conn, rest)
    by_size k e later =
        rw
          (
            stream_piece f g conn p h v n k rest (omega arith),
            drop-append_le k g rest (omega arith),
          )
          (elim (Bool-cases (leb (length g) read_buf_size)) [
            | inl t ↦
                rw
                  (
                    take_all k g (omega (arith, leb→le _ _ t)),
                    drop_all k g (omega (arith, leb→le _ _ t)),
                    same (length (f ++ g)),
                  )
                  (read_stream-finished fuel rest (ℤ.pos 0) (at_end (f ++ g) 0) conn)
            | inr t ↦
                (let left : 0 < length (drop k g) =
                    omega (arith, length-drop k g, leb-false→lt _ _ t) in
                  rw
                    (shut (length (f ++ take k g)) (length (f ++ g)) (
                      omega (
                        arith,
                        ap length (rejoin f g conn p h v n k),
                        length-append (f ++ take k g) (drop k g),
                      )))
                    (later left
                      ∙ ap (λ xs. (finished (ℤ.pos 0) (at_end xs 0) conn, rest))
                          (rejoin f g conn p h v n k)))
          ])

-- The head, which is read first.
stream_head :
    (f g : List ℕ) (conn : Connect)
    → IsPack (f ++ g)
    → length f ≡ 8
    → IsBytes f
    → has_err conn.err ≡ false
    → read_loop (got f ∷ []) pack_head_len (at_end [] 0) conn ≡ (
        if length f == length (f ++ g)
        then finished (ℤ.pos 0) (at_end f 0) conn
        else waiting (min (length g) read_buf_size) (at_end f 0) conn)
unfolding read_loop
stream_head f g conn p h v n =
    read_piece f [] [] pack_head_len conn v (omega arith) (omega arith) n
    ∙ rw w (
        ap
          (λ (k : ℕ).
            if length f == length (f ++ g)
            then finished (ℤ.pos 0) (at_end f 0) conn
            else waiting k (at_end f 0) conn)
          (next_len-at_end (length f) f g (omega arith) w p.fits))
  where
    w : head_length f ≡ length (f ++ g)
    w = sym (head_length-append f g (omega arith)) ∙ p.length_in_head

stream_parts :
    (fuel : ℕ) (f g rest : List ℕ) (conn : Connect)
    → IsPack (f ++ g)
    → length f ≡ 8
    → IsBytes f
    → IsBytes g
    → length g < fuel
    → has_err conn.err ≡ false
    → read_stream fuel (g ++ rest) (read_loop (got f ∷ []) pack_head_len (at_end [] 0) conn)
      ≡ (finished (ℤ.pos 0) (at_end (f ++ g) 0) conn, rest)
stream_parts fuel f [] rest conn p h v v' b n = rw (stream_head f [] conn p h v n) (
    rw (same (length f) (length (f ++ [])) (ap length (sym (append-nil f)))) (
      read_stream-finished fuel rest (ℤ.pos 0) (at_end f 0) conn
      ∙ ap (λ xs. (finished (ℤ.pos 0) (at_end xs 0) conn, rest)) (sym (append-nil f))))
  where
    same : (x y : ℕ) → x ≡ y → (x == y) ≡ true
    same x y e = ground arith
stream_parts fuel f (x ∷ g) rest conn p h v v' b n = rw (stream_head f (x ∷ g) conn p h v n) (
    rw (shut (length f) (length (f ++ x ∷ g)) (omega (arith, length-append f (x ∷ g))))
      (stream_rest fuel f (x ∷ g) rest conn p (omega arith) v' (omega arith) b n))
  where
    shut : (x y : ℕ) → x < y → (x == y) ≡ false
    shut x y l = ground arith

-- Of a stream that begins with a pack, read_ takes exactly the pack, in calls of ::recv of the head and of at most 16384
-- bytes at a time, and leaves the rest of the stream.
pub read_stream-pack :
    (fuel : ℕ) (q rest : List ℕ) (pack : Bytes) (conn : Connect)
    → IsPack q
    → length q < fuel
    → has_err conn.err ≡ false
    → read_stream fuel (q ++ rest) (read_pack [] pack conn)
      ≡ (finished (ℤ.pos 0) (at_end q 0) conn, rest)
unfolding read_stream read_pack clear read_loop
read_stream-pack zero q rest pack conn p b n = absurd (omega arith)
read_stream-pack (suc fuel) q rest pack conn p b n =
    rw (take-append_le 8 q rest p.has_head, drop-append_le 8 q rest p.has_head)
      (stream_parts fuel (take 8 q) (drop 8 q) rest conn (subst IsPack (sym whole) p)
          (omega (arith, length-take 8 q, p.has_head)) (All-take _ 8 q p.bytes)
          (All-drop _ 8 q p.bytes) (omega (arith, length-drop 8 q, p.has_head)) n
        ∙ ap (λ xs. (finished (ℤ.pos 0) (at_end xs 0) conn, rest)) whole)
  where
    whole : take 8 q ++ drop 8 q ≡ q
    whole = take-append-drop 8 q
