-- ===== src/SlaveFeed/Increment.antt =====
-- What a master sends of its append-only files.
use naruto.Prelude.{
  ℕ, zero, suc, ◌+◌, ◌-◌, ◌*◌, ◌^◌, ◌≤◌, ◌<◌, ◌≡◌, refl, ap, subst, ◌∙◌, inl, inr, true, false,
  Option, some, none, some-inj, Option-cases, sym, false, List, ◌++◌, length, take, drop, take_all,
  length-take, length-drop, length-append, take-append-drop, ltb, leb, IsBytes, All-drop, arith,
  Bool-cases, ltb→lt, lt→ltb, ltb-false→le,
}
use mathlib.Core.Option
use naruto.Bytes.{Bytes, new}
use naruto.Loader.{Entry, load, load_file}
use naruto.Loader.Whole.{load-last, load-more}
use naruto.Loader.Total.{CanGoOn, round_of, full_round, last_round, load-last_lost, load-more_lost}
use naruto.SlaveFeed.{Sending, transfer_len, send_loop, after_read, read_packs}

-- The two ways that a round of the loop ends, for a rest of a file that is sent at once.
send_loop-last :
    (fuel : ℕ) (file : List ℕ) (readed : ℕ) (b b' : Bytes) (es : List Entry)
    → length file < 4096
    → round_of file b ≡ some (es, b')
    → send_loop (suc fuel) file readed b
      ≡ some (record { entries = es; buffer = b'; readed = readed + length file; eof = true })
unfolding send_loop after_read
send_loop-last fuel file readed b b' es s d =
    rw (take_all 4096 file (omega arith), send_loop) (rw (d, lt→ltb (length file) 4096 s))

send_loop-more :
    (fuel : ℕ) (file : List ℕ) (readed : ℕ) (b b' : Bytes) (es : List Entry)
    → 4096 ≤ length file
    → readed + 4096 < transfer_len
    → round_of (take 4096 file) b ≡ some (es, b')
    → send_loop (suc fuel) file readed b
      ≡ Option.map
          (λ (r : Sending). record r { entries = es ++ r.entries })
          (send_loop fuel (drop 4096 file) (readed + 4096) b')
unfolding send_loop after_read
send_loop-more fuel file readed b b' es l h d =
    rw (send_loop, d) (rw (whole, not_yet (readed + 4096) h))
  where
    whole : length (take 4096 file) ≡ 4096
    whole = omega (arith, length-take 4096 file)

    not_yet : (n : ℕ) → n < transfer_len → leb transfer_len n ≡ false
    not_yet n l = ground arith

-- The loop finds the entries of the loader in the same rest of a file, which is shorter than what is sent at once.
Alike : Option Sending → List Entry → ℕ → ℕ → Type 0
Alike sent all n size =
    (r : Sending) × (sent ≡ some r)
    × (all ≡ r.entries)
    × (r.readed ≡ n)
    × (length r.buffer.buf ≡ size)
    × (r.eof ≡ true)

none-ne-some : {es : List Entry} → none ≡ some es → ⊥
none-ne-some h = cc

-- What the loader finds behind a whole chunk.
rest_loaded :
    (fuel : ℕ) (file : List ℕ) (b b' : Bytes) (es all : List Entry)
    → length (take 4096 file) ≡ 4096
    → round_of (take 4096 file) b ≡ some (es, b')
    → load (suc fuel) file b ≡ some all
    → (more : List Entry) × (load fuel (drop 4096 file) b' ≡ some more) × (all ≡ es ++ more)
rest_loaded fuel file b b' es all whole d l = elim (Option-cases (load fuel (drop 4096 file) b')) [
  | inl q ↦ absurd (none-ne-some (sym (step ∙ ap (Option.map (λ (m : List Entry). es ++ m)) q) ∙ l))
  | inr (more, q) ↦
      (more, q, some-inj (sym l ∙ step ∙ ap (Option.map (λ (m : List Entry). es ++ m)) q))
]
  where
    step :
        load (suc fuel) file b
        ≡ Option.map (λ (m : List Entry). es ++ m) (load fuel (drop 4096 file) b')
    step =
        subst
          (λ x.
            load (suc fuel) x b
            ≡ Option.map (λ (m : List Entry). es ++ m) (load fuel (drop 4096 file) b'))
          (take-append-drop 4096 file)
          (load-more fuel (take 4096 file) (drop 4096 file) b b' es whole d)

send_loop-load :
    (fuel fuel' : ℕ) (file : List ℕ) (readed : ℕ) (b : Bytes) (all : List Entry)
    → CanGoOn file b
    → length file < 4096 * fuel
    → readed + length file < transfer_len
    → load fuel' file b ≡ some all
    → Alike (send_loop fuel file readed b) all (readed + length file) (length b.buf + length file)
unfolding Alike send_loop load
send_loop-load zero fuel' file readed b all g f h l = absurd (omega arith)
send_loop-load (suc fuel) zero file readed b all g f h l = absurd (none-ne-some l)
send_loop-load (suc fuel) (suc fuel') file readed b all g f h l =
    elim (Bool-cases (ltb (length file) 4096)) [
      | inl small ↦
          (let less = ltb→lt _ _ small in
            elim (last_round file b g) [
              | inr (d, v) ↦ absurd (none-ne-some (sym (load-last_lost fuel' file b less d) ∙ l))
              | inl (es, b', d, c) ↦ (
                record { entries = es; buffer = b'; readed = readed + length file; eof = true },
                send_loop-last fuel file readed b b' es less d,
                some-inj (sym l ∙ load-last fuel' file b b' es less d),
                refl,
                ap length c ∙ length-append b.buf file,
                refl,
              )
            ])
      | inr large ↦
          (let big : 4096 ≤ length file = ltb-false→le _ _ large in
            elim (full_round file b big g) [
              | inr (d, v) ↦ absurd (none-ne-some (sym (load-more_lost fuel' file b d) ∙ l))
              | inl (es, b', d, c, g') ↦
                  (let rest = length-drop 4096 file in
                    let whole : length (take 4096 file) ≡ 4096 =
                      omega (arith, length-take 4096 file) in
                    let (more, step, same) = rest_loaded fuel' file b b' es all whole d l in
                    let (r, sent, loaded, n, z, e) =
                      send_loop-load fuel fuel' (drop 4096 file) (readed + 4096) b' more g'
                        (omega (arith, rest)) (omega (arith, rest)) step in
                    (
                      record r { entries = es ++ r.entries },
                      send_loop-more fuel file readed b b' es big (omega arith) d
                          ∙ ap (Option.map _) sent,
                      same ∙ ap (λ xs. es ++ xs) loaded,
                      n ∙ omega (arith, rest),
                      z
                          ∙ omega (
                            arith,
                            rest,
                            whole,
                            ap length c,
                            length-append b.buf (take 4096 file),
                          ),
                      e,
                    ))
            ])
    ]

-- From a position with less than 16384 bytes behind it, the packs that are read are those that the loader finds from
-- there, all the bytes are read, and the end of the file is seen. The file is shorter than 2 ^ 32.
pub read_packs-load_file :
    (contents : List ℕ) (off : ℕ) (es : List Entry)
    → IsBytes contents
    → length contents < 2 ^ 32
    → off < length contents
    → length contents < off + transfer_len
    → load_file contents off ≡ some es
    → (r : Sending) × (read_packs contents off ≡ some r)
      × (es ≡ r.entries)
      × (r.readed ≡ length contents - off)
      × (length r.buffer.buf ≡ length contents - off)
      × (r.eof ≡ true)
unfolding read_packs load_file Alike
read_packs-load_file contents off es v l i s f =
    let rest = length-drop off contents in
    let (r, sent, loaded, n, z, e) =
      send_loop-load 5 (suc (length contents)) (drop off contents) 0 new es
        (record {
          file_bytes = All-drop _ off contents v;
          buf_bytes = tt;
          inside = omega arith;
          at_write = refl;
          fits = omega (arith, rest);
        })
        (omega (arith, rest)) (omega (arith, rest)) (sym (rw unread refl) ∙ f) in
    (r, rw unread sent, loaded, n ∙ omega (arith, rest), z ∙ omega (arith, rest), e)
  where
    unread : leb (length contents) off ≡ false
    unread = ground arith
