-- ===== src/Sink/Checkpoint.antt =====
-- A position taken by curRollFile stays good: what lies behind it in the files is what was written since.
use naruto.Prelude.{
  ℕ, concat, zero, suc, ◌+◌, ◌-◌, ◌≤◌, ◌<◌, ◌≡◌, refl, sym, ap, ◌∙◌, List, [], ◌∷◌, ◌++◌, some,
  length, length-append, append_assoc, append-nil, drop, drop-append_le, drop_all, leb, leb→le,
  ◌==◌, inl, inr, Bool-cases, false, ==_iff, arith,
}
use naruto.Sink.{
  RotateFileStream, FileState, rotate_init, rotate, put_stream, write, cur_roll_file, add_to_file,
}

-- The stream stands at the end of its file, and the files behind it are not written yet.
pub record IsOpen (s : RotateFileStream) : Type 0 where
  pub at_end : length (s.files s.idx) ≡ s.offset
  pub fresh : (i : ℕ) → s.idx < i → s.files i ≡ []

-- Some writes that come to the bytes `w` and start below the size at which the file is rotated. Each stays
-- in the file if those before it leave it below that size.
pub record Stays (w : List ℕ) (s s' : RotateFileStream) : Type 0 where
  pub idx : s.offset < s.rotate_size → s'.idx ≡ s.idx
  pub offset : s.offset < s.rotate_size → s'.offset ≡ s.offset + length w
  pub rotate_size : s'.rotate_size ≡ s.rotate_size

pub write-Stays : (w : List ℕ) (s : RotateFileStream) → Stays w s (write w s).1
unfolding write put_stream rotate
write-Stays w s = elim (Bool-cases (leb s.rotate_size s.offset)) [
  | inl full ↦ rw full (record {
    idx = λ h. absurd (omega (arith, h, leb→le _ _ full));
    offset = λ h. absurd (omega (arith, h, leb→le _ _ full));
    rotate_size = refl;
  })
  | inr room ↦ rw room (record { idx = λ h. refl; offset = λ h. refl; rotate_size = refl })
]

-- Files `i` to `i + n`, one behind the other.
abbrev pub joined : (ℕ → List ℕ) → ℕ → ℕ → List ℕ
joined files i zero = []
joined files i (suc n) = files i ++ joined files (i + 1) n

-- What a reader finds from a position on, up to the stream's file.
abbrev pub since : FileState → RotateFileStream → List ℕ
since c s = drop c.offset (s.files c.name) ++ joined s.files (c.name + 1) (s.idx - c.name)

abbrev pub write_all : List (List ℕ) → RotateFileStream → RotateFileStream
write_all [] s = s
write_all (w ∷ ws) s = write_all ws (write w s).1

put_stream-IsOpen : (bytes : List ℕ) (s : RotateFileStream) → IsOpen s → IsOpen (put_stream bytes s)
unfolding put_stream
put_stream-IsOpen bytes s h = record {
  at_end = ground (arith, length-append (s.files s.idx) bytes, h.at_end);
  fresh = λ i k. ground (arith, h.fresh i);
}

rotate-IsOpen : (s : RotateFileStream) → IsOpen s → IsOpen (rotate s)
unfolding rotate
rotate-IsOpen s h = record {
  at_end = rw (h.fresh (s.idx + 1) (omega arith));
  fresh = λ i k. h.fresh i (omega arith);
}

pub write-IsOpen : (bytes : List ℕ) (s : RotateFileStream) → IsOpen s → IsOpen (write bytes s).1
unfolding write
write-IsOpen bytes s h = elim (Bool-cases (leb s.rotate_size s.offset)) [
  | inl full ↦ rw full (put_stream-IsOpen bytes (rotate s) (rotate-IsOpen s h))
  | inr room ↦ rw room (put_stream-IsOpen bytes s h)
]

joined-add_to_file :
    (n i : ℕ) (files : ℕ → List ℕ) (idx : ℕ) (w : List ℕ)
    → idx ≡ i + n
    → joined (add_to_file files idx w) i (suc n) ≡ joined files i (suc n) ++ w
joined-add_to_file zero i files idx w e =
    rw ((==_iff i idx).1 (omega arith), append-nil (files i ++ w), append-nil (files i))
joined-add_to_file (suc n) i files idx w e = rw (differ) (
    ap (◌++◌ (files i)) (joined-add_to_file n (i + 1) files idx w (omega arith))
    ∙ sym (append_assoc (files i) (joined files (i + 1) (suc n)) w))
  where
    differ : (i == idx) ≡ false
    differ = ground arith

joined_fresh :
    (n i : ℕ) (files : ℕ → List ℕ) → files (i + n) ≡ [] → joined files i (suc n) ≡ joined files i n
joined_fresh zero i files e = rw (ap files {x = i} {y = i + 0} (omega arith) ∙ e)
joined_fresh (suc n) i files e =
    ap (◌++◌ (files i)) (joined_fresh n (i + 1) files (ap files {x = i + 1 + n} (omega arith) ∙ e))

-- A position that lies in the files written so far.
pub record IsPosition (c : FileState) (s : RotateFileStream) : Type 0 where
  pub reached : c.name ≤ s.idx
  pub inside : c.offset ≤ length (s.files c.name)

since-rotate :
    (c : FileState) (s : RotateFileStream)
    → IsOpen s
    → IsPosition c s
    → since c (rotate s) ≡ since c s
unfolding rotate
since-rotate c s h p =
    ap (λ n. drop c.offset (s.files c.name) ++ joined s.files (c.name + 1) n)
      {x = s.idx + 1 - c.name} {y = suc (s.idx - c.name)} (omega arith)
    ∙ ap (◌++◌ (drop c.offset (s.files c.name))) (
        joined_fresh (s.idx - c.name) (c.name + 1) s.files
          (h.fresh (c.name + 1 + (s.idx - c.name)) (omega arith)))

joined-since :
    (name off n : ℕ) (files : ℕ → List ℕ) (idx : ℕ) (w : List ℕ)
    → idx ≡ name + n
    → off ≤ length (files name)
    → drop off (add_to_file files idx w name) ++ joined (add_to_file files idx w) (name + 1) n
      ≡ (drop off (files name) ++ joined files (name + 1) n) ++ w
joined-since name off zero files idx w e h =
    rw ((==_iff name idx).1 (omega arith), append-nil (drop off (files name)))
      (append-nil (drop off (files name ++ w)) ∙ drop-append_le off (files name) w h)
joined-since name off (suc n) files idx w e h = rw differ (
    ap (◌++◌ (drop off (files name))) (joined-add_to_file n (name + 1) files idx w (omega arith))
    ∙ sym (append_assoc (drop off (files name)) (joined files (name + 1) (suc n)) w))
  where
    differ : (name == idx) ≡ false
    differ = ground arith

since-put_stream :
    (c : FileState) (w : List ℕ) (s : RotateFileStream)
    → IsPosition c s
    → since c (put_stream w s) ≡ since c s ++ w
unfolding put_stream
since-put_stream c w s p =
    joined-since c.name c.offset (s.idx - c.name) s.files s.idx w (omega arith) p.inside

rotate-IsPosition :
    (c : FileState) (s : RotateFileStream) → IsPosition c s → IsPosition c (rotate s)
unfolding rotate
rotate-IsPosition c s p = record { reached = omega arith; inside = p.inside }

put_stream-IsPosition :
    (c : FileState) (w : List ℕ) (s : RotateFileStream)
    → IsPosition c s
    → IsPosition c (put_stream w s)
unfolding put_stream
put_stream-IsPosition c w s p = record {
  reached = p.reached;
  inside = ground (arith, length-append (s.files c.name) w);
}

-- One write adds its bytes to what lies behind any earlier position, whether or not the file is rotated.
pub since-write :
    (c : FileState) (w : List ℕ) (s : RotateFileStream)
    → IsOpen s
    → IsPosition c s
    → (since c (write w s).1 ≡ since c s ++ w) × IsPosition c (write w s).1
unfolding write
since-write c w s h p = elim (Bool-cases (leb s.rotate_size s.offset)) [
  | inl full ↦ rw full (
    since-put_stream c w (rotate s) (rotate-IsPosition c s p)
        ∙ ap (λ t. t ++ w) (since-rotate c s h p),
    put_stream-IsPosition c w (rotate s) (rotate-IsPosition c s p),
  )
  | inr room ↦ rw room (since-put_stream c w s p, put_stream-IsPosition c w s p)
]

since-write_all :
    (c : FileState) (ws : List (List ℕ)) (s : RotateFileStream)
    → IsOpen s
    → IsPosition c s
    → since c (write_all ws s) ≡ since c s ++ concat ws
since-write_all c [] s h p = sym (append-nil (since c s))
since-write_all c (w ∷ ws) s h p =
    since-write_all c ws (write w s).1 (write-IsOpen w s h) (since-write c w s h p).1
    ∙ ap (λ t. t ++ concat ws) (since-write c w s h p).0
    ∙ append_assoc (since c s) w (concat ws)

-- A position that curRollFile gives is good for as long as the server writes: reading on from it, through
-- the file it names and all later ones, gives exactly the bytes of the writes since, in order, wherever
-- the files were rotated.
pub since-cur_roll_file :
    (ws : List (List ℕ)) (s : RotateFileStream)
    → IsOpen s
    → since (cur_roll_file s) (write_all ws s) ≡ concat ws
unfolding cur_roll_file
since-cur_roll_file ws s h =
    since-write_all (cur_roll_file s) ws s h
      (record { reached = omega arith; inside = omega (arith, h.at_end) })
    ∙ ap (λ t. t ++ concat ws) nothing_yet
  where
    nothing_yet : since (cur_roll_file s) s ≡ []
    nothing_yet =
        ap (λ n. drop s.offset (s.files s.idx) ++ joined s.files (s.idx + 1) n) {y = 0}
          (omega arith)
        ∙ append-nil (drop s.offset (s.files s.idx))
        ∙ drop_all s.offset (s.files s.idx) (omega (arith, h.at_end))

-- A stream opened behind the last file of a directory is open, if the files behind that are not written.
pub rotate_init-IsOpen :
    (files : ℕ → List ℕ) (last rotate_size : ℕ)
    → ((i : ℕ) → last < i → files i ≡ [])
    → IsOpen (rotate_init files (some last) rotate_size)
unfolding rotate_init
rotate_init-IsOpen files last rotate_size h = record {
  at_end = ap length (h (last + 1) (omega arith));
  fresh = λ i k. h i (omega arith);
}
