-- ===== src/Backlog/Round.antt =====
-- One round of the merge: the pack of the first command goes into the log, and the lists stay in step.
use naruto.Prelude.{
  ℕ, ◌+◌, ◌-◌, ◌%◌, ◌^◌, ◌<◌, ◌≡◌, ◌≢◌, refl, sym, subst, ap, ap₂, ◌∙◌, true, false, Bool-cases,
  List, [], ◌∷◌, ◌++◌, length, length-append, length-drop, inl, inr, ◌⊎◌, drop, drop-append,
  drop-drop, get_or, set, length-set, get_or-set_self, get_or-set_ne, ltb, lt→ltb, ◌==◌, ==_iff,
  All, Any, All-and, All-map, Any-append, All-append, arith, Distinct,
}
use naruto.Codec.{le_bytes, length-le_bytes, le_value-le_bytes}
use naruto.Bytes.{Bytes, u32, new, size, read_at}
use naruto.Bytes.Ends.{read_at-front}
use naruto.Backlog.{IndexLog, Cursor, enlist}
use naruto.Backlog.Merge.{Fed, IsFed, encode, mine, bucket, Queued, mine_own, mine_other, mine-All}

-- A worker's number is taken onto the list exactly where it has a command left.
pub enlist_lem :
    (b : Bytes) (t : ℕ) (c : Cursor) (ls : List Fed)
    → length b.buf < 2 ^ 31
    → All IsFed ls
    → drop (get_or c.p t 0) b.buf ≡ encode ls
    → ((ls ≡ []) × (enlist b t c ≡ c))
      ⊎ ((l : Fed) × (r : List Fed) × (ls ≡ l ∷ r)
          × (enlist b t c ≡ record {
            p = set c.p t (get_or c.p t 0 + 8);
            id_list = c.id_list ++ record { tid = t; id = l.id } ∷ [];
          }))
unfolding enlist size
enlist_lem b t c [] f v e = inl (refl, rw past)
  where
    past : ltb (get_or c.p t 0) (length b.buf % 2 ^ 32) ≡ false
    past = ground (arith, sym (length-drop (get_or c.p t 0) b.buf) ∙ ap length e)
enlist_lem b t c (l ∷ r) f v e = inr (l, r, refl, rw (more, number, moved))
  where
    long : length b.buf - get_or c.p t 0 ≡ 8 + (length l.pack + length (encode r))
    long =
        sym (length-drop (get_or c.p t 0) b.buf)
        ∙ ap length e
        ∙ length-append (le_bytes 8 l.id) (l.pack ++ encode r)
        ∙ ap₂ ◌+◌ (length-le_bytes 8 l.id) (length-append l.pack (encode r))

    more : ltb (get_or c.p t 0) (length b.buf % 2 ^ 32) ≡ true
    more = lt→ltb _ _ (omega (arith, long))

    moved : u32 (get_or c.p t 0 + 8) ≡ get_or c.p t 0 + 8
    moved = omega (arith, long)

    number : read_at 8 (get_or c.p t 0) b ≡ l.id
    number =
        read_at-front 8 (get_or c.p t 0) b (le_bytes 8 l.id) (l.pack ++ encode r) e
          (length-le_bytes 8 l.id) (omega arith)
        ∙ le_value-le_bytes 8 l.id v.0.0

no_more_mine : (t : ℕ) (ls : List Fed) → mine t ls ≡ [] → All (λ (l : Fed). l.tid ≢ t) ls
no_more_mine t [] e = tt
no_more_mine t (l ∷ ls) e = elim (Bool-cases (l.tid == t)) [
  | inl h ↦ absurd (cons-ne-nil (sym (mine_own l t ls ((==_iff l.tid t).0 h)) ∙ e))
  | inr h ↦ (differ h, no_more_mine t ls (sym (mine_other l t ls (differ h)) ∙ e))
]
  where
    cons-ne-nil : {m : Fed} {ms : List Fed} → m ∷ ms ≡ [] → ⊥
    cons-ne-nil h = cc

    differ : (l.tid == t) ≡ false → l.tid ≢ t
    differ h = ground arith

-- A worker's entry does not depend on the other workers' positions.
pub Queued-set :
    (bs : List Bytes) (p : List ℕ) (ls : List Fed) (v t : ℕ) (y : IndexLog)
    → y.tid ≢ t
    → Queued bs p ls y
    → Queued bs (set p t v) ls y
Queued-set bs p ls v t y n q = record {
  fits = q.fits;
  known = omega (arith, length-set p t v, q.known);
  first = q.first;
  others = q.others;
  own = q.own;
  same = q.same;
  rest = ap (λ n. drop n (bucket bs y.tid)) (get_or-set_ne p t y.tid v 0 (λ h. n (sym h))) ∙ q.rest;
}

-- The other workers do not see that the first command is gone.
pub Queued-tail :
    (bs : List Bytes) (p : List ℕ) (l : Fed) (ls : List Fed) (y : IndexLog)
    → y.tid ≢ l.tid
    → Queued bs p (l ∷ ls) y
    → Queued bs p ls y
Queued-tail bs p l ls y n q = record {
  fits = q.fits;
  known = q.known;
  first = q.first;
  others = q.others;
  own = sym (mine_other l y.tid ls (λ h. n (sym h))) ∙ q.own;
  same = q.same;
  rest = q.rest;
}

-- What taking worker `t`'s number onto the list does.
pub record Taken (bs : List Bytes) (ls : List Fed) (t : ℕ) (c c' : Cursor) : Type 1 where
  pub queued : All (Queued bs c'.p ls) c'.id_list
  pub distinct : Distinct (λ (x : IndexLog). x.id) (λ (x : IndexLog). x.tid) c'.id_list
  pub as_long : length c'.p ≡ length c.p
  pub untouched : (u : ℕ) → u ≢ t → get_or c'.p u 0 ≡ get_or c.p u 0
  pub kept : (P : IndexLog → Type 0) → Any P c.id_list → Any P c'.id_list
  pub on_list : All (λ (l : Fed). l.tid ≡ t → Any (λ (x : IndexLog). x.tid ≡ l.tid) c'.id_list) ls
  pub no_newer :
      (u : ℕ)
      → u ≢ t
      → All (λ (x : IndexLog). x.tid ≢ u) c.id_list
      → All (λ (x : IndexLog). x.tid ≢ u) c'.id_list

Distinct-append :
    (xs : List IndexLog) (y : IndexLog)
    → All (λ (x : IndexLog). x.tid ≢ y.tid) xs
    → Distinct (λ (x : IndexLog). x.id) (λ (x : IndexLog). x.tid) xs
    → Distinct (λ (x : IndexLog). x.id) (λ (x : IndexLog). x.tid) (xs ++ y ∷ [])
Distinct-append [] y n d = (tt, tt)
Distinct-append (x ∷ xs) y n d = (
  All-append (λ (z : IndexLog). z.tid ≢ x.tid) xs (y ∷ []) d.0 (λ e. n.0 (sym e), tt),
  Distinct-append xs y n.1 d.1,
)

pub enlist-Taken :
    (bs : List Bytes) (ls : List Fed) (t : ℕ) (c : Cursor)
    → length (bucket bs t) < 2 ^ 31
    → t < length c.p
    → All IsFed ls
    → All (Queued bs c.p ls) c.id_list
    → All (λ (x : IndexLog). x.tid ≢ t) c.id_list
    → Distinct (λ (x : IndexLog). x.id) (λ (x : IndexLog). x.tid) c.id_list
    → drop (get_or c.p t 0) (bucket bs t) ≡ encode (mine t ls)
    → Taken bs ls t c (enlist (get_or bs t new) t c)
unfolding le_bytes
enlist-Taken bs ls t c f k v q n d e =
    elim (enlist_lem (get_or bs t new) t c (mine t ls) f (mine-All IsFed t ls v) e) [
      | inl (none_left, same) ↦ subst (Taken bs ls t c) (sym same) (record {
        queued = q;
        distinct = d;
        as_long = refl;
        untouched = λ u h. refl;
        kept = λ P a. a;
        on_list =
            All-map (λ (l : Fed). l.tid ≢ t)
              (λ (l : Fed). l.tid ≡ t → Any (λ (x : IndexLog). x.tid ≡ l.tid) c.id_list) ls
              (λ l h m. absurd (h m)) (no_more_mine t ls none_left);
        no_newer = λ u h a. a;
      })
      | inr (l, r, own, same) ↦ subst (Taken bs ls t c) (sym same) (taken l r own)
    ]
  where
    taken :
        (l : Fed) (r : List Fed)
        → mine t ls ≡ l ∷ r
        → Taken bs ls t c (record {
          p = set c.p t (get_or c.p t 0 + 8);
          id_list = c.id_list ++ record { tid = t; id = l.id } ∷ [];
        })
    taken l r own = record {
      queued =
          All-append (Queued bs (set c.p t (get_or c.p t 0 + 8)) ls) c.id_list _
            (All-map (λ (y : IndexLog). (y.tid ≢ t) × Queued bs c.p ls y) _ c.id_list
              (λ y h. Queued-set bs c.p ls (get_or c.p t 0 + 8) t y h.0 h.1)
              (All-and (λ (y : IndexLog). y.tid ≢ t) (Queued bs c.p ls) c.id_list n q))
            (entry, tt);
      distinct = Distinct-append c.id_list _ n d;
      as_long = length-set c.p t (get_or c.p t 0 + 8);
      untouched = λ u h. get_or-set_ne c.p t u (get_or c.p t 0 + 8) 0 (λ m. h (sym m));
      kept = λ P a. Any-append P c.id_list _ (inl a);
      on_list =
          every (λ (l : Fed). l.tid ≡ t → Any (λ (x : IndexLog). x.tid ≡ l.tid) _) ls
            (λ l m. Any-append _ c.id_list _ (inr (inl (sym m))));
      no_newer =
          λ u h a. All-append (λ (x : IndexLog). x.tid ≢ u) c.id_list _ a ((λ m. h (sym m)), tt);
    }
      where
        every : (P : Fed → Type 0) (ms : List Fed) → ((m : Fed) → P m) → All P ms
        every P [] g = tt
        every P (m ∷ ms) g = (g m, every P ms g)

        entry : Queued bs (set c.p t (get_or c.p t 0 + 8)) ls (record { tid = t; id = l.id })
        entry = record {
          fits = f;
          known = omega (arith, length-set c.p t (get_or c.p t 0 + 8));
          first = l;
          others = r;
          own = own;
          same = refl;
          rest =
              ap (λ n. drop n (bucket bs t)) (get_or-set_self c.p t (get_or c.p t 0 + 8) 0 k)
              ∙ drop-drop (get_or c.p t 0) 8 (bucket bs t)
              ∙ ap (drop 8) (e ∙ ap encode own)
              ∙ drop-append (le_bytes 8 l.id) (l.pack ++ encode r);
        }
