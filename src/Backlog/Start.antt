-- ===== src/Backlog/Start.antt =====
-- The first loop of the merge: every worker with commands gets onto the list.
use naruto.Prelude.{
  ℕ, zero, suc, ◌+◌, ◌^◌, ◌<◌, ◌≤◌, ◌≡◌, ◌≢◌, refl, subst, ap, ◌∙◌, false, Bool-cases, inl, inr,
  List, [], ◌∷◌, length, drop, drop-drop, get_or, ltb, ltb-false→le, if◌then◌else◌, All, Any,
  All-and, All-map, arith, Distinct,
}
use naruto.Bytes.{Bytes, new, size}
use naruto.Backlog.{IndexLog, Cursor, enlist, enlist_all, zeros}
use naruto.Backlog.Merge.{Fed, IsFed, encode, mine, Ascending, bucket, Queued, Holds}
use naruto.Backlog.Round.{Taken, enlist-Taken}

-- Every worker's buffer is its commands of the list, in the list's order.
pub record Buffers (bs : List Bytes) (ls : List Fed) : Type 0 where
  pub fed : All IsFed ls
  pub ascending : Ascending ls
  pub worker : All (λ (l : Fed). l.tid < length bs) ls
  pub held : (t : ℕ) → t < length bs → bucket bs t ≡ encode (mine t ls)
  pub fits : (t : ℕ) → t < length bs → length (bucket bs t) < 2 ^ 31

-- The state of the loop before worker `j`.
record Started (bs : List Bytes) (ls : List Fed) (j : ℕ) (c : Cursor) : Type 0 where
  queued : All (Queued bs c.p ls) c.id_list
  distinct : Distinct (λ (x : IndexLog). x.id) (λ (x : IndexLog). x.tid) c.id_list
  as_long : length c.p ≡ length bs
  at_start : (u : ℕ) → j ≤ u → get_or c.p u 0 ≡ 0
  before : (u : ℕ) → j ≤ u → All (λ (x : IndexLog). x.tid ≢ u) c.id_list
  on_list : All (λ (l : Fed). l.tid < j → Any (λ (x : IndexLog). x.tid ≡ l.tid) c.id_list) ls

get_or-drop :
    (j : ℕ) (bs : List Bytes) (b : Bytes) (r : List Bytes) → drop j bs ≡ b ∷ r → get_or bs j new ≡ b
get_or-drop zero [] b r e = cc
get_or-drop zero (a ∷ bs) b r e = cc
get_or-drop (suc j) [] b r e = cc
get_or-drop (suc j) (a ∷ bs) b r e = get_or-drop j bs b r e

drop_next :
    (j : ℕ) (bs : List Bytes) (b : Bytes) (r : List Bytes) → drop j bs ≡ b ∷ r → drop (j + 1) bs ≡ r
drop_next j bs b r e = drop-drop j 1 bs ∙ ap (drop 1) e

-- The guard on the size of the buffer adds nothing to that on the position.
guard_lem :
    (b : Bytes) (j : ℕ) (c : Cursor) → (if ltb 0 (size b) then enlist b j c else c) ≡ enlist b j c
unfolding enlist
guard_lem b j c = elim (Bool-cases (ltb 0 (size b))) [ inl t ↦ rw t refl | inr f ↦ rw (f, past f) ]
  where
    past : ltb 0 (size b) ≡ false → ltb (get_or c.p j 0) (size b) ≡ false
    past f = ground (arith, ltb-false→le 0 (size b) f)

Started-enlist :
    (bs : List Bytes) (ls : List Fed) (j : ℕ) (c : Cursor)
    → Buffers bs ls
    → j < length bs
    → Started bs ls j c
    → Started bs ls (j + 1) (enlist (get_or bs j new) j c)
Started-enlist bs ls j c h k s = record {
  queued = t.queued;
  distinct = t.distinct;
  as_long = t.as_long ∙ s.as_long;
  at_start = λ u m. t.untouched u (omega arith) ∙ s.at_start u (omega arith);
  before = λ u m. t.no_newer u (omega arith) (s.before u (omega arith));
  on_list =
      All-map
        (λ (l : Fed).
          (l.tid < j → Any (λ (x : IndexLog). x.tid ≡ l.tid) c.id_list)
          × (l.tid ≡ j
              → Any (λ (x : IndexLog). x.tid ≡ l.tid) (enlist (get_or bs j new) j c).id_list))
        _ ls (λ l a m. or_equal l a.0 a.1 m) (All-and _ _ ls s.on_list t.on_list);
}
  where
    t : Taken bs ls j c (enlist (get_or bs j new) j c)
    t =
        enlist-Taken bs ls j c (h.fits j k) (omega (arith, s.as_long)) h.fed s.queued
          (s.before j (omega arith)) s.distinct
          (ap (λ n. drop n (bucket bs j)) (s.at_start j (omega arith)) ∙ h.held j k)

    or_equal :
        (l : Fed)
        → (l.tid < j → Any (λ (x : IndexLog). x.tid ≡ l.tid) c.id_list)
        → (l.tid ≡ j → Any (λ (x : IndexLog). x.tid ≡ l.tid) (enlist (get_or bs j new) j c).id_list)
        → l.tid < j + 1
        → Any (λ (x : IndexLog). x.tid ≡ l.tid) (enlist (get_or bs j new) j c).id_list
    or_equal l f g m = elim (Bool-cases (ltb l.tid j)) [
      | inl y ↦ t.kept (λ x. x.tid ≡ l.tid) (f (ground arith))
      | inr n ↦ g (omega (arith, ltb-false→le l.tid j n))
    ]

Started-enlist_all :
    (rest bs : List Bytes) (ls : List Fed) (j : ℕ) (c : Cursor)
    → Buffers bs ls
    → drop j bs ≡ rest
    → length bs ≡ j + length rest
    → Started bs ls j c
    → Started bs ls (length bs) (enlist_all j rest c)
unfolding enlist_all
Started-enlist_all [] bs ls j c h e n s =
    let m : j ≡ length bs = omega arith in subst (λ k. Started bs ls k c) m s
Started-enlist_all (b ∷ rest) bs ls j c h e n s = rw (guard_lem b j c) (
    Started-enlist_all rest bs ls (j + 1) (enlist b j c) h (drop_next j bs b rest e) (omega arith) (
      subst (λ d. Started bs ls (j + 1) (enlist d j c)) (get_or-drop j bs b rest e)
        (Started-enlist bs ls j c h (omega arith) s)))

length-zeros : (bs : List Bytes) → length (zeros bs) ≡ length bs
length-zeros [] = refl
length-zeros (b ∷ bs) = omega (arith, length-zeros bs)

get_or-zeros : (bs : List Bytes) (u : ℕ) → get_or (zeros bs) u 0 ≡ 0
get_or-zeros [] u = refl
get_or-zeros (b ∷ bs) zero = refl
get_or-zeros (b ∷ bs) (suc u) = get_or-zeros bs u

every : (P : Fed → Type 0) (ls : List Fed) → ((l : Fed) → P l) → All P ls
every P [] f = tt
every P (l ∷ ls) f = (f l, every P ls f)

-- Behind the first loop the list has the number of every worker's first command.
pub enlist_all-Holds :
    (bs : List Bytes) (ls : List Fed)
    → Buffers bs ls
    → (let c = enlist_all 0 bs (record { p = zeros bs; id_list = [] }) in Holds bs c.p c.id_list ls)
enlist_all-Holds bs ls h = record {
  fed = h.fed;
  ascending = h.ascending;
  queued = s.queued;
  distinct = s.distinct;
  covered =
      All-map
        (λ (l : Fed).
          (l.tid < length bs)
          × (l.tid < length bs
              → Any (λ (x : IndexLog). x.tid ≡ l.tid)
                  (enlist_all 0 bs (record { p = zeros bs; id_list = [] })).id_list))
        _ ls (λ l a. a.1 a.0) (All-and _ _ ls h.worker s.on_list);
}
  where
    s : Started bs ls (length bs) (enlist_all 0 bs (record { p = zeros bs; id_list = [] }))
    s =
        Started-enlist_all bs bs ls 0 (record { p = zeros bs; id_list = [] }) h refl (omega arith)
          (record {
            queued = tt;
            distinct = tt;
            as_long = length-zeros bs;
            at_start = λ u m. get_or-zeros bs u;
            before = λ u m. tt;
            on_list = every _ ls (λ l m. absurd (omega arith));
          })
