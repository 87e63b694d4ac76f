-- ===== src/Loader/Total.antt =====
-- The loader ends on every file, whatever it holds.
use naruto.Prelude.{
  ℕ, zero, suc, ◌+◌, ◌^◌, ◌≤◌, ◌<◌, ◌≡◌, refl, sym, subst, ap, ◌∙◌, Option, some, none, ◌⊎◌, Bool,
  true, false, ◌&&◌, if◌then◌else◌, take_all, List, [], ◌++◌, length, length-append, length-drop,
  length-take, take, drop, ltb, leb, ltb→lt, ltb-false→le, Bool-cases, inl, inr, All-append,
  take-append-drop, All-take, All-drop, IsBytes, arith,
}
use mathlib.Core.Option
use naruto.Bytes.{Bytes, new, put_bytes}
use naruto.Bytes.Ends.{put_bytes-at_end}
use naruto.Loader.{Entry, drain, load, load_file, after_drain}
use naruto.Loader.Whole.{load-last, load-more}
use naruto.Loader.Ending.{Drained, Overflows, drain_total}

put_bytes-end :
    (ys : List ℕ) (b : Bytes)
    → b.wpos ≡ length b.buf
    → IsBytes ys
    → length b.buf + length ys < 2 ^ 32
    → put_bytes ys b ≡ record { buf = b.buf ++ ys; rpos = b.rpos; wpos = length (b.buf ++ ys) }
put_bytes-end ys b w v h =
    ap (λ (n : ℕ). put_bytes ys (record b { wpos = n })) w ∙ put_bytes-at_end ys b.buf b.rpos v h

chunk-Drained :
    (chunk : List ℕ) (b : Bytes)
    → IsBytes chunk
    → IsBytes b.buf
    → b.rpos ≤ length b.buf
    → b.wpos ≡ length b.buf
    → length b.buf + length chunk < 2 ^ 32
    → let filled : Bytes = record {
      buf = b.buf ++ chunk;
      rpos = b.rpos;
      wpos = length (b.buf ++ chunk);
    } in
      Drained filled (drain (suc (length (put_bytes chunk b).buf)) (put_bytes chunk b))
chunk-Drained chunk b v w r p h = rw (put_bytes-end chunk b p v h) (
    drain_total (suc (length (b.buf ++ chunk))) _ (All-append _ b.buf chunk w v)
      (record { fits = omega (arith, len); inside = omega (arith, len) }) (omega arith))
  where
    len : length (b.buf ++ chunk) ≡ length b.buf + length chunk
    len = length-append b.buf chunk

-- A buffer that the outer loop may go on with.
pub record CanGoOn (file : List ℕ) (b : Bytes) : Type 0 where
  pub file_bytes : IsBytes file
  pub buf_bytes : IsBytes b.buf
  pub inside : b.rpos ≤ length b.buf
  pub at_write : b.wpos ≡ length b.buf
  pub fits : length b.buf + length file < 2 ^ 32

-- What draining a chunk gives.
abbrev pub round_of : List ℕ → Bytes → Option (List Entry × Bytes)
round_of chunk b = drain (suc (length (put_bytes chunk b).buf)) (put_bytes chunk b)

-- Reading a rest of a file comes to a round in which the stack overflows.
pub data Crashes : List ℕ → Bytes → Type 0 where
  in_last :
      (file : List ℕ) (b : Bytes)
      → length file < 4096
      → Overflows (put_bytes file b)
      → Crashes file b
  in_chunk :
      (file : List ℕ) (b : Bytes)
      → 4096 ≤ length file
      → Overflows (put_bytes (take 4096 file) b)
      → Crashes file b
  behind :
      (file : List ℕ) (b b' : Bytes) (es : List Entry)
      → 4096 ≤ length file
      → round_of (take 4096 file) b ≡ some (es, b')
      → Crashes (drop 4096 file) b'
      → Crashes file b

-- A round that does not come to the end of the file overflows, or it ends and the loop may go on.
pub full_round :
    (file : List ℕ) (b : Bytes)
    → 4096 ≤ length file
    → CanGoOn file b
    → ((es : List Entry) × (b' : Bytes) × (round_of (take 4096 file) b ≡ some (es, b'))
        × (b'.buf ≡ b.buf ++ take 4096 file)
        × CanGoOn (drop 4096 file) b')
      ⊎ ((round_of (take 4096 file) b ≡ none) × Overflows (put_bytes (take 4096 file) b))
full_round file b big g =
    elim (chunk-Drained (take 4096 file) b (All-take _ 4096 file g.file_bytes) g.buf_bytes g.inside
      g.at_write (omega (arith, g.fits, length-take 4096 file))) [
        | inr (d, v) ↦ inr (
          d,
          subst Overflows
              (sym (
                put_bytes-end (take 4096 file) b g.at_write (All-take _ 4096 file g.file_bytes)
                  (omega (arith, g.fits, length-take 4096 file))))
              v,
        )
        | inl (es, b', d, c, w, r) ↦
            (let whole : length (take 4096 file) ≡ 4096 = omega (arith, length-take 4096 file) in
              inl (
                es,
                b',
                d,
                c,
                record {
                  file_bytes = All-drop _ 4096 file g.file_bytes;
                  buf_bytes = subst IsBytes (sym c) (
                      All-append _ b.buf (take 4096 file) g.buf_bytes
                        (All-take _ 4096 file g.file_bytes));
                  inside = omega (arith, ap length c);
                  at_write = w ∙ ap length (sym c);
                  fits = omega (
                    arith,
                    ap length c,
                    length-append b.buf (take 4096 file),
                    whole,
                    length-drop 4096 file,
                    g.fits,
                  );
                },
              ))
      ]

-- The last round overflows, or it ends; what has been read stays in the buffer.
pub last_round :
    (file : List ℕ) (b : Bytes)
    → CanGoOn file b
    → ((es : List Entry) × (b' : Bytes) × (round_of file b ≡ some (es, b'))
        × (b'.buf ≡ b.buf ++ file))
      ⊎ ((round_of file b ≡ none) × Overflows (put_bytes file b))
last_round file b g =
    elim (chunk-Drained file b g.file_bytes g.buf_bytes g.inside g.at_write g.fits) [
      | inl (es, b', d, c, w, r) ↦ inl (es, b', d, c)
      | inr (d, v) ↦
          inr (d, subst Overflows (sym (put_bytes-end file b g.at_write g.file_bytes g.fits)) v)
    ]

-- A round that overflows is the end of the loading.
pub load-last_lost :
    (fuel : ℕ) (file : List ℕ) (b : Bytes)
    → length file < 4096
    → round_of file b ≡ none
    → load (suc fuel) file b ≡ none
unfolding load after_drain
load-last_lost fuel file b s d = rw (take_all 4096 file (omega arith), load) (rw d refl)

pub load-more_lost :
    (fuel : ℕ) (file : List ℕ) (b : Bytes)
    → round_of (take 4096 file) b ≡ none
    → load (suc fuel) file b ≡ none
unfolding load after_drain
load-more_lost fuel file b d = rw (load, d) refl

-- The outer loop ends, with more fuel than there are bytes left in the file.
load_total :
    (fuel : ℕ) (file : List ℕ) (b : Bytes)
    → length file < fuel
    → CanGoOn file b
    → ((es : List Entry) × (load fuel file b ≡ some es))
      ⊎ ((load fuel file b ≡ none) × Crashes file b)
load_total zero file b f g = absurd (omega arith)
load_total (suc fuel) file b f g = elim (Bool-cases (ltb (length file) 4096)) [
  | inl small ↦
      (let less = ltb→lt _ _ small in
        elim (last_round file b g) [
          | inl (es, b', d, _) ↦ inl (es, load-last fuel file b b' es less d)
          | inr (d, v) ↦ inr (load-last_lost fuel file b less d, in_last file b less v)
        ])
  | inr large ↦
      (let big : 4096 ≤ length file = ltb-false→le _ _ large in
        elim (full_round file b big g) [
          | inr (d, v) ↦ inr (load-more_lost fuel file b d, in_chunk file b big v)
          | inl (es, b', d, _, g') ↦
              (let whole : length (take 4096 file) ≡ 4096 = omega (arith, length-take 4096 file) in
                let step =
                  subst
                    (λ x.
                      load (suc fuel) x b
                      ≡ Option.map (λ (more : List Entry). es ++ more)
                          (load fuel (drop 4096 file) b'))
                    (take-append-drop 4096 file)
                    (load-more fuel (take 4096 file) (drop 4096 file) b b' es whole d) in
                elim (load_total fuel (drop 4096 file) b' (omega (arith, length-drop 4096 file))
                  g') [
                    | inl (later, l) ↦
                        inl (
                          es ++ later,
                          step ∙ ap (Option.map (λ (more : List Entry). es ++ more)) l,
                        )
                    | inr (l, v) ↦ inr (
                      step ∙ ap (Option.map (λ (more : List Entry). es ++ more)) l,
                      behind file b b' es big d v,
                    )
                  ])
        ])
]

-- Loading ends on every file of bytes that is shorter than 2 ^ 32, from every offset below 2 ^ 63, whatever the length
-- words in the file say: neither loop runs out of fuel. It ends with a result, or it comes to a length word of 4
-- to 7, where the stack overflows.
pub load_file_total :
    (contents : List ℕ) (offset : ℕ)
    → IsBytes contents
    → length contents < 2 ^ 32
    → offset < 2 ^ 63
    → ((es : List Entry) × (load_file contents offset ≡ some es))
      ⊎ ((load_file contents offset ≡ none) × Crashes (drop offset contents) new)
unfolding load_file
load_file_total contents offset v h o = elim (Bool-cases (leb (length contents) offset)) [
  | inl past ↦ inl ([], rw (past, near) (and_false (ltb (length contents) offset)))
  | inr inside ↦ elim from_offset [
    | inl (es, e) ↦ inl (es, rw inside e)
    | inr (e, c) ↦ inr (rw inside e, c)
  ]
]
  where
    near : leb (2 ^ 63) offset ≡ false
    near = ground arith

    and_false :
        (b : Bool) → ◌≡◌ {A = Option (List Entry)} (if b && false then none else some []) (some [])
    and_false true = refl
    and_false false = refl

    from_offset :
        ((es : List Entry) × (load (suc (length contents)) (drop offset contents) new ≡ some es))
        ⊎ ((load (suc (length contents)) (drop offset contents) new ≡ none)
            × Crashes (drop offset contents) new)
    from_offset =
        load_total (suc (length contents)) (drop offset contents) new
          (omega (arith, length-drop offset contents))
          (record {
            file_bytes = All-drop _ offset contents v;
            buf_bytes = tt;
            inside = omega arith;
            at_write = refl;
            fits = omega (arith, length-drop offset contents);
          })
