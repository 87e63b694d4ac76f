-- ===== src/SlaveFeed/Bulk.antt =====
-- The sending of a saved database.
use naruto.Prelude.{
  ℕ, zero, suc, ◌+◌, ◌≤◌, ◌≡◌, ◌≢◌, refl, sym, ap, ◌∙◌, Bool, true, false, ◌||◌, not, List, [], ◌∷◌,
  ◌++◌, length, take, drop, ltb, ◌==◌, if◌then◌else◌, arith, append_assoc, append-nil, take_all,
  length-take, length-drop,
}
use native.Mathlib.Nat.{zero-add, suc-add}
use naruto.Prelude.Int.{ℤ}
use naruto.ReplState.{connected, transfor}
use naruto.SlaveFeed.{
  Feeder, Written, wrote, again, failed, transfer_len, bulk_read, advance, close_feeder,
  on_send_bulk_to_slave,
}

-- write takes no more than it is given.
abbrev pub IsWritten : List ℕ → Feeder → Written → Type 0
IsWritten file f (wrote n) = n ≤ length (bulk_read file f)
IsWritten file f again = Unit
IsWritten file f failed = Unit

-- Calls of the handler, one for each result of write, and all that the socket takes.
unfoldable pub send_all : List ℕ → List Written → Feeder → List ℕ × Feeder
send_all file [] f = ([], f)
send_all file (w ∷ ws) f =
    let (sent, f') = on_send_bulk_to_slave file w f in
    let (more, f'') = send_all file ws f' in (sent ++ more, f'')

unfoldable pub AllWritten : List ℕ → List Written → Feeder → Type 0
AllWritten file [] f = Unit
AllWritten file (w ∷ ws) f =
    IsWritten file f w × AllWritten file ws (on_send_bulk_to_slave file w f).1

-- A link in the middle of the sending, or after it.
record IsSending (file : List ℕ) (f : Feeder) : Type 0 where
  size : f.link.repl_dbsize ≡ ℤ.pos (length file)
  inside : f.link.repl_dboff ≤ length file
  streaming : f.link.repl_db_f ≡ true → f.link.repl_state ≢ connected
  done : f.link.repl_state ≡ connected → f.link.repl_dboff ≡ length file

take-take :
    {A : Type 0} (n m : ℕ) (xs : List A) → n ≤ length (take m xs) → take n (take m xs) ≡ take n xs
take-take zero m xs h = refl
take-take (suc n) zero xs h = absurd (omega arith)
take-take (suc n) (suc m) [] h = refl
take-take (suc n) (suc m) (x ∷ xs) h = ap (λ ys. x ∷ ys) (take-take n m xs (omega arith))

take-more : {A : Type 0} (i n : ℕ) (xs : List A) → take i xs ++ take n (drop i xs) ≡ take (i + n) xs
take-more zero n xs = rw zero-add refl
take-more {A = A} (suc i) n [] = rw suc-add (take_nil n)
  where
    take_nil : (n : ℕ) → take {A = A} n [] ≡ []
    take_nil zero = refl
    take_nil (suc n) = refl
take-more (suc i) n (x ∷ xs) = rw suc-add (ap (λ ys. x ∷ ys) (take-more i n xs))

slice-take :
    (file : List ℕ) (n m : ℕ) (fail : Bool) (off : ℕ)
    → off ≤ length file
    → n ≤ length (if fail then [] else take m (drop off file))
    → (take n (if fail then [] else take m (drop off file)) ≡ take n (drop off file))
      × (off + n ≤ length file)
slice-take file zero m true off l h = (refl, omega arith)
slice-take file (suc n) m true off l h = absurd (omega arith)
slice-take file n m false off l h = (
  take-take n m (drop off file) h,
  omega (arith, length-take m (drop off file), length-drop off file),
)

-- What write takes of a read is the file from the offset on.
bulk_read-take :
    (file : List ℕ) (n : ℕ) (f : Feeder)
    → f.link.repl_dboff ≤ length file
    → n ≤ length (bulk_read file f)
    → (take n (bulk_read file f) ≡ take n (drop f.link.repl_dboff file))
      × (f.link.repl_dboff + n ≤ length file)
unfolding bulk_read
bulk_read-take file n f l h = slice-take file n transfer_len f.db_fail f.link.repl_dboff l h

advance-IsSending :
    (file : List ℕ) (off : ℕ) (f : Feeder)
    → f.link.repl_dbsize ≡ ℤ.pos (length file)
    → off ≤ length file
    → f.link.repl_state ≢ connected
    → IsSending file (advance off f) × ((advance off f).link.repl_dboff ≡ off)
unfolding advance
advance-IsSending file off f z l n = ground arith

-- One call of the handler.
step-IsSending :
    (file : List ℕ) (w : Written) (f : Feeder)
    → IsSending file f
    → IsWritten file f w
    → let (sent, f') = on_send_bulk_to_slave file w f in
      IsSending file f' × (take f.link.repl_dboff file ++ sent ≡ take f'.link.repl_dboff file)
unfolding on_send_bulk_to_slave
step-IsSending file w f h v = choose f.link.repl_db_f (length (bulk_read file f) == 0) refl
  where
    f' : Feeder
    f' = record f { db_fail = f.db_fail || ltb (length (bulk_read file f)) transfer_len }

    kept : IsSending file (close_feeder f')
    kept = record { size = h.size; inside = h.inside; streaming = h.streaming; done = h.done }

    Same : List ℕ × Feeder → Type 0
    Same (sent, g) =
        IsSending file g × (take f.link.repl_dboff file ++ sent ≡ take g.link.repl_dboff file)

    by_result :
        f.link.repl_db_f ≡ true
        → (w : Written) → IsWritten file f w
        → Same (elim w [
          | again ↦ ([], f')
          | failed ↦ ([], close_feeder f')
          | wrote n ↦ (take n (bulk_read file f), advance (f.link.repl_dboff + n) f')
        ])
    by_result o again v = (
      record { size = h.size; inside = h.inside; streaming = h.streaming; done = h.done },
      append-nil _,
    )
    by_result o failed v = (kept, append-nil _)
    by_result o (wrote n) v =
        let (t, l) = bulk_read-take file n f h.inside v in
        let (g, e) = advance-IsSending file (f.link.repl_dboff + n) f' h.size l (h.streaming o) in
        (
          g,
          ap (λ xs. take f.link.repl_dboff file ++ xs) t
              ∙ take-more f.link.repl_dboff n file
              ∙ ap (λ off. take off file) (sym e),
        )

    choose :
        (o z : Bool)
        → f.link.repl_db_f ≡ o
        → Same (
            if not o
            then ([], f)
            else (if z then ([], close_feeder f') else (elim w [
              | again ↦ ([], f')
              | failed ↦ ([], close_feeder f')
              | wrote n ↦ (take n (bulk_read file f), advance (f.link.repl_dboff + n) f')
            ])))
    choose false z e = (h, append-nil _)
    choose true true e = (kept, append-nil _)
    choose true false e = by_result e w v

send_all-IsSending :
    (file : List ℕ) (ws : List Written) (f : Feeder)
    → IsSending file f
    → AllWritten file ws f
    → let (sent, f') = send_all file ws f in
      IsSending file f' × (take f.link.repl_dboff file ++ sent ≡ take f'.link.repl_dboff file)
unfolding send_all AllWritten
send_all-IsSending file [] f h v = (h, append-nil _)
send_all-IsSending file (w ∷ ws) f h (v, vs) =
    let (h1, e1) = step-IsSending file w f h v in
    let (h2, e2) = send_all-IsSending file ws (on_send_bulk_to_slave file w f).1 h1 vs in
    (
      h2,
      sym (append_assoc (take f.link.repl_dboff file) _ _)
          ∙ ap (λ xs. xs ++ (send_all file ws (on_send_bulk_to_slave file w f).1).0) e1
          ∙ e2,
    )

-- From the start of a file of the announced size, for any results of write that take no more than they are
-- given: when the link has become connected, the socket has taken exactly the file.
pub send_all-whole :
    (file : List ℕ) (ws : List Written) (f : Feeder)
    → f.link.repl_dbsize ≡ ℤ.pos (length file)
    → f.link.repl_dboff ≡ 0
    → f.link.repl_state ≡ transfor
    → AllWritten file ws f
    → (send_all file ws f).1.link.repl_state ≡ connected
    → (send_all file ws f).0 ≡ file
send_all-whole file ws f z o t v c =
    let (h, e) = send_all-IsSending file ws f start v in
    ap (λ off. take off file ++ (send_all file ws f).0) (sym o)
    ∙ e
    ∙ take_all _ file (omega (arith, h.done c))
  where
    start : IsSending file f
    start = record {
      size = z;
      inside = omega (arith, o);
      streaming = λ q. differ;
      done = λ g. absurd (differ g);
    }
      where
        differ : f.link.repl_state ≢ connected
        differ g = cc
