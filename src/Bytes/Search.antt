-- ===== src/Bytes/Search.antt =====
-- Copying, comparing and searching byte buffers: put(Bytes&), clone, equals, find of utils/bytes.
use naruto.Prelude.{
  ℕ, ◌+◌, ◌-◌, ◌^◌, ◌<◌, ◌≡◌, ◌≢◌, refl, sym, ap, ◌∙◌, List, [], ◌∷◌, ◌++◌, length, length-append,
  append_assoc, append-nil, All, IsBytes, arith, drop, drop-drop, Option, some, none, ◌⊎◌, inl, inr,
  ◌↔◌, true, false, length-drop, ◌==◌, ==_iff, not, ◌&&◌, Bool-cases,
}
use naruto.Codec.{le_value}
use naruto.Bytes.{
  Bytes, u32, size, read_at, copy_from, put, clone, equals, equals_from, find, find_from,
}
use naruto.Bytes.Write.{read_at-slice}
use naruto.Bytes.Ends.{at_end, append-at_end, le_bytes_one}

-- A single byte read at `i`, and the step to the next index.
read_at-drop : (i x : ℕ) (xs : List ℕ) (b : Bytes) → drop i b.buf ≡ x ∷ xs → read_at 1 i b ≡ x
unfolding le_value
read_at-drop i x xs b e =
    read_at-slice 1 i b (x ∷ []) (rw e) (omega (arith, sym (length-drop i b.buf) ∙ ap length e))
    ∙ omega arith

drop-next : (i x : ℕ) (xs ys : List ℕ) → drop i ys ≡ x ∷ xs → drop (i + 1) ys ≡ xs
drop-next i x xs ys e = drop-drop i 1 ys ∙ ap (drop 1) e

copy_from-at_end :
    (ys xs : List ℕ) (i r : ℕ) (src : Bytes)
    → drop i src.buf ≡ ys
    → IsBytes ys
    → length xs + length ys < 2 ^ 32
    → copy_from (length ys) i src (at_end xs r) ≡ at_end (xs ++ ys) r
unfolding copy_from
copy_from-at_end [] xs i r src e v h = rw append-nil
copy_from-at_end (y ∷ ys) xs i r src e v h =
    rw (read_at-drop i y ys src e, copy_from)
      (rw (append-at_end 1 y xs r (omega arith), le_bytes_one y v.0)
        (copy_from-at_end ys (xs ++ y ∷ []) (i + 1) r src (drop-next i y ys src.buf e) v.1
            (omega (arith, length-append xs (y ∷ [])))
          ∙ ap (λ t. at_end t r) (append_assoc xs (y ∷ []) ys)))

-- put(src) adds the whole contents of `src` behind those of a buffer that is written at its end,
-- wherever the reader of `src` stands.
pub put-at_end :
    (src : Bytes) (xs : List ℕ) (r : ℕ)
    → IsBytes src.buf
    → length xs + length src.buf < 2 ^ 32
    → put src (at_end xs r) ≡ at_end (xs ++ src.buf) r
unfolding put size
put-at_end src xs r v h =
    ap (λ n. copy_from n 0 src (at_end xs r)) (omega arith)
    ∙ copy_from-at_end src.buf xs 0 r src refl v h

-- clone() copies the contents, and both positions of the copy are zero whatever those of the original.
pub clone_lem :
    (b : Bytes)
    → IsBytes b.buf
    → length b.buf < 2 ^ 32
    → clone b ≡ record { buf = b.buf; rpos = 0; wpos = 0 }
unfolding clone
clone_lem b v h = rw (copy_from-at_end b.buf [] 0 0 b refl v (omega arith))

equals_from_iff :
    (xs ys : List ℕ) (i : ℕ) (b other : Bytes)
    → drop i b.buf ≡ xs
    → drop i other.buf ≡ ys
    → length xs ≡ length ys
    → (equals_from (length xs) i b other ≡ true) ↔ (xs ≡ ys)
unfolding equals_from
equals_from_iff [] [] i b other e f l = (λ _. refl, λ _. refl)
equals_from_iff [] (y ∷ ys) i b other e f l = absurd (omega arith)
equals_from_iff (x ∷ xs) [] i b other e f l = absurd (omega arith)
equals_from_iff (x ∷ xs) (y ∷ ys) i b other e f l =
    rw (read_at-drop i x xs b e, read_at-drop i y ys other f)
      (ground (
        arith,
        equals_from_iff xs ys (i + 1) b other (drop-next i x xs b.buf e)
            (drop-next i y ys other.buf f) (omega arith),
      ))

-- equals() says whether the contents are the same; positions do not count.
pub equals_iff :
    (b other : Bytes)
    → length b.buf < 2 ^ 32
    → length other.buf < 2 ^ 32
    → (equals b other ≡ true) ↔ (b.buf ≡ other.buf)
unfolding equals size
equals_iff b other h k =
    let m : u32 (length b.buf) ≡ length b.buf = omega arith in
    let n : u32 (length other.buf) ≡ length other.buf = omega arith in
    rw (m, n)
      (elim (Bool-cases (length b.buf == length other.buf)) [
        | inl same ↦
            rw same (equals_from_iff b.buf other.buf 0 b other refl refl ((==_iff _ _).0 same))
        | inr differ ↦
            rw differ ((λ e. cc), (λ e. absurd (omega (arith, ap length e, differ_lem differ))))
      ])
  where
    differ_lem : (length b.buf == length other.buf) ≡ false → length b.buf ≢ length other.buf
    differ_lem = ground arith

-- A byte that the search for `key` passes over.
abbrev pub Passed : ℕ → ℕ → Type 0
Passed key x = (x ≢ key) × ((key ≡ 0) ⊎ (x ≢ 0))

-- How a search for `key` from index `i` through the bytes `xs` ends: at the first `key`, at a zero byte
-- that stands before any `key`, or at the end.
abbrev pub Found : ℕ → ℕ → List ℕ → Option ℕ → Type 0
Found key i xs r =
    ((pre : List ℕ) × (post : List ℕ) × (xs ≡ pre ++ key ∷ post)
      × All (Passed key) pre
      × (r ≡ some (i + length pre)))
    ⊎ ((pre : List ℕ) × (post : List ℕ) × (xs ≡ pre ++ 0 ∷ post)
        × (key ≢ 0)
        × All (Passed key) pre
        × (r ≡ none))
    ⊎ (All (Passed key) xs × (r ≡ none))

Found-cons :
    (key i x : ℕ) (xs : List ℕ) (r : Option ℕ)
    → Passed key x
    → Found key (i + 1) xs r
    → Found key i (x ∷ xs) r
Found-cons key i x xs r p (inl (pre, post, e, a, f)) =
    inl (x ∷ pre, post, ap (◌∷◌ x) e, (p, a), f ∙ ap some (omega arith))
Found-cons key i x xs r p (inr (inl (pre, post, e, k, a, f))) =
    inr (inl (x ∷ pre, post, ap (◌∷◌ x) e, k, (p, a), f))
Found-cons key i x xs r p (inr (inr (a, f))) = inr (inr ((p, a), f))

find_from-Found :
    (key : ℕ) (xs : List ℕ) (i : ℕ) (b : Bytes)
    → drop i b.buf ≡ xs
    → Found key i xs (find_from 1 key (length xs) i b)
unfolding find_from
find_from-Found key [] i b e = inr (inr (tt, refl))
find_from-Found key (x ∷ xs) i b e =
    rw (read_at-drop i x xs b e) (elim (Bool-cases (not (key == 0) && (x == 0))) [
      | inl stop ↦
          rw stop (inr (inl ([], xs, ap (λ y. y ∷ xs) (ground arith), ground arith, tt, refl)))
      | inr go ↦ rw go (elim (Bool-cases (x == key)) [
        | inl hit ↦
            rw hit (inl ([], xs, ap (λ y. y ∷ xs) (ground arith), tt, ap some (omega arith)))
        | inr miss ↦ rw miss (
            Found-cons key i x xs _ (ground arith)
              (find_from-Found key xs (i + 1) b (drop-next i x xs b.buf e)))
      ])
    ])

-- find<uint8_t>(key, start) gives the index of the first `key` at or after `start`, unless the key is
-- not zero and a zero byte comes first; then, and where there is no `key`, it gives none.
pub find-Found :
    (key start : ℕ) (b : Bytes)
    → length b.buf < 2 ^ 32
    → Found key start (drop start b.buf) (find 1 key start b)
unfolding find size
find-Found key start b h = rw n (find_from-Found key (drop start b.buf) start b refl)
  where
    n : u32 (length b.buf) - start ≡ length (drop start b.buf)
    n = omega (arith, length-drop start b.buf)
