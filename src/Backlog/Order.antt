-- ===== src/Backlog/Order.antt =====
-- The merge puts the packs into the log in the order of their numbers.
use naruto.Prelude.{
  ℕ, zero, suc, ◌+◌, ◌-◌, ◌^◌, ◌≤◌, ◌<◌, true, ltb, leb, length-append, length-drop, none, ◌≡◌, ◌≢◌,
  refl, sym, ap, ap₂, ◌∙◌, some, List, [], ◌∷◌, ◌++◌, length, append_assoc, inl, inr, take, drop,
  slice, take-append, drop-append, drop-drop, get_or, set, length-set, get_or-set_self, All, Any,
  All-and, All-map, arith, IsSorted, sort_by, All-sort_by, Any-sort_by, sort_by-IsSorted,
  sort_by-Distinct,
}
use naruto.Codec.{le_bytes, length-le_bytes, le_value-le_bytes}
use naruto.Bytes.{Bytes, u32, new, read_at}
use naruto.Bytes.Ends.{read_at-front}
use naruto.Backlog.{Backlog, IndexLog, Cursor, enlist, merge_round, merge_loop, backlog_feed}
use naruto.Backlog.Merge.{Fed, encode, mine, bucket, Queued, Holds, mine_own, least_is_first}
use naruto.Backlog.Round.{Taken, enlist-Taken, Queued-set, Queued-tail}

module _ (bs : List Bytes) (p : List ℕ) (l : Fed) (ls : List Fed) (x : IndexLog)
    (xs : List IndexLog) (h : Holds bs p (x ∷ xs) (l ∷ ls)) (e : x.tid ≡ l.tid) where
  q : Queued bs p (l ∷ ls) x
  q = h.queued.0

  own : q.first ∷ q.others ≡ l ∷ mine x.tid ls
  own = sym q.own ∙ mine_own l x.tid ls (sym e)

  at_pack : drop (get_or p x.tid 0) (bucket bs x.tid) ≡ l.pack ++ encode (mine x.tid ls)
  at_pack = q.rest ∙ ap₂ (λ a b. a.pack ++ encode b) (head own) (tail own)
    where
      head : {a b : Fed} {us cs : List Fed} → a ∷ us ≡ b ∷ cs → a ≡ b
      head g = cc

      tail : {a b : Fed} {us cs : List Fed} → a ∷ us ≡ b ∷ cs → us ≡ cs
      tail g = cc

  -- The pack's own length is read.
  pack_length : read_at 4 (get_or p x.tid 0) (get_or bs x.tid new) ≡ length l.pack
  pack_length =
      read_at-front 4 (get_or p x.tid 0) (get_or bs x.tid new) (le_bytes 4 (length l.pack))
        (h.fed.0.1.0 ++ encode (mine x.tid ls))
        (at_pack
          ∙ ap (λ t. t ++ encode (mine x.tid ls)) h.fed.0.1.1
          ∙ append_assoc (le_bytes 4 (length l.pack)) h.fed.0.1.0 (encode (mine x.tid ls)))
        (length-le_bytes 4 (length l.pack)) (omega arith)
      ∙ le_value-le_bytes 4 (length l.pack) h.fed.0.1.2

  pack_bytes : slice (bucket bs x.tid) (get_or p x.tid 0) (length l.pack) ≡ l.pack
  pack_bytes = ap (take (length l.pack)) at_pack ∙ take-append l.pack (encode (mine x.tid ls))

  abbrev moved : List ℕ
  moved = set p x.tid (get_or p x.tid 0 + length l.pack)

  behind_pack : drop (get_or moved x.tid 0) (bucket bs x.tid) ≡ encode (mine x.tid ls)
  behind_pack =
      ap (λ n. drop n (bucket bs x.tid))
        (get_or-set_self p x.tid (get_or p x.tid 0 + length l.pack) 0 q.known)
      ∙ drop-drop (get_or p x.tid 0) (length l.pack) (bucket bs x.tid)
      ∙ ap (drop (length l.pack)) at_pack
      ∙ drop-append l.pack (encode (mine x.tid ls))

  abbrev next : Cursor
  next = enlist (get_or bs x.tid new) x.tid (record { p = moved; id_list = xs })

  taken : Taken bs ls x.tid (record { p = moved; id_list = xs }) next
  taken =
      enlist-Taken bs ls x.tid (record { p = moved; id_list = xs }) q.fits
        (omega (arith, q.known, length-set p x.tid (get_or p x.tid 0 + length l.pack))) h.fed.1
        (All-map (λ (y : IndexLog). (y.tid ≢ x.tid) × Queued bs p (l ∷ ls) y) (Queued bs moved ls)
          xs
          (λ y k.
            Queued-set bs p ls (get_or p x.tid 0 + length l.pack) x.tid y k.0
              (Queued-tail bs p l ls y (λ m. k.0 (m ∙ sym e)) k.1))
          (All-and (λ (y : IndexLog). y.tid ≢ x.tid) (Queued bs p (l ∷ ls)) xs h.distinct.0
            h.queued.1))
        h.distinct.0 h.distinct.1 behind_pack

  still_covered : All (λ (m : Fed). Any (λ (y : IndexLog). y.tid ≡ m.tid) next.id_list) ls
  still_covered =
      All-map
        (λ (m : Fed).
          Any (λ (y : IndexLog). y.tid ≡ m.tid) (x ∷ xs)
          × (m.tid ≡ x.tid → Any (λ (y : IndexLog). y.tid ≡ m.tid) next.id_list))
        _ ls (λ m k. either m k.0 k.1) (All-and _ _ ls h.covered.1 taken.on_list)
    where
      either :
          (m : Fed)
          → Any (λ (y : IndexLog). y.tid ≡ m.tid) (x ∷ xs)
          → (m.tid ≡ x.tid → Any (λ (y : IndexLog). y.tid ≡ m.tid) next.id_list)
          → Any (λ (y : IndexLog). y.tid ≡ m.tid) next.id_list
      either m (inl a) g = g (sym a)
      either m (inr a) g = taken.kept (λ y. y.tid ≡ m.tid) a

  next-Holds : Holds bs next.p next.id_list ls
  next-Holds = record {
    fed = h.fed.1;
    ascending = h.ascending.1;
    queued = taken.queued;
    distinct = taken.distinct;
    covered = still_covered;
  }

  -- A round for the worker of the first command appends that command's pack, and what is left to merge
  -- is the commands behind it.
  merge_round_lem :
      (s : Backlog)
      → merge_round bs x (record { p = p; id_list = xs }) s ≡ some (next, backlog_feed l.pack s)
  unfolding merge_round
  merge_round_lem s = rw (pack_length, pack_bytes, below, inside, moved_on) refl
    where
      long :
          length (bucket bs x.tid) - get_or p x.tid 0
          ≡ length l.pack + length (encode (mine x.tid ls))
      long =
          sym (length-drop (get_or p x.tid 0) (bucket bs x.tid))
          ∙ ap length at_pack
          ∙ length-append l.pack (encode (mine x.tid ls))

      four : 4 ≤ length l.pack
      four = omega (
        arith,
        ap length h.fed.0.1.1,
        length-append (le_bytes 4 (length l.pack)) h.fed.0.1.0,
        length-le_bytes 4 (length l.pack),
      )

      below : ltb (get_or p x.tid 0) (2 ^ 31) ≡ true
      below = ground (arith, long, four, q.fits)

      inside : leb (get_or p x.tid 0 + length l.pack) (length (bucket bs x.tid)) ≡ true
      inside = ground (arith, long, four)

      moved_on : u32 (get_or p x.tid 0 + length l.pack) ≡ get_or p x.tid 0 + length l.pack
      moved_on = omega (arith, long, four, q.fits)

-- The log with the packs of the commands.
abbrev pub feed_all : List Fed → Backlog → Backlog
feed_all [] s = s
feed_all (l ∷ ls) s = feed_all ls (backlog_feed l.pack s)

Holds-sort_by :
    (bs : List Bytes) (p : List ℕ) (ids : List IndexLog) (ls : List Fed)
    → Holds bs p ids ls
    → Holds bs p (sort_by (λ (y : IndexLog). y.id) ids) ls
Holds-sort_by bs p ids ls h = record {
  fed = h.fed;
  ascending = h.ascending;
  queued = All-sort_by (λ (y : IndexLog). y.id) (Queued bs p ls) ids h.queued;
  distinct = sort_by-Distinct (λ (y : IndexLog). y.id) (λ (y : IndexLog). y.tid) ids h.distinct;
  covered =
      All-map _ _ ls
        (λ l a. Any-sort_by (λ (y : IndexLog). y.id) (λ (y : IndexLog). y.tid ≡ l.tid) ids a)
        h.covered;
}

-- The second loop of the merge, where the numbers on the list are those of the workers' first commands,
-- ends within a round for each command and one more, and the packs go into the log in the order of the
-- commands' numbers.
pub merge_loop-feed_all :
    (fuel : ℕ) (bs : List Bytes) (c : Cursor) (ls : List Fed) (s : Backlog)
    → Holds bs c.p c.id_list ls
    → length ls < fuel
    → merge_loop fuel bs c s ≡ some (feed_all ls s)
unfolding merge_loop
merge_loop-feed_all zero bs c ls s h f = absurd (omega arith)
merge_loop-feed_all (suc fuel) bs c ls s h f =
    sorted (sort_by (λ (y : IndexLog). y.id) c.id_list) ls (Holds-sort_by bs c.p c.id_list ls h)
      (sort_by-IsSorted (λ (y : IndexLog). y.id) c.id_list) f (merge_loop-feed_all fuel bs)
  where
    sorted :
        (ids : List IndexLog) (ls : List Fed)
        → Holds bs c.p ids ls
        → IsSorted (λ (y : IndexLog). y.id) ids
        → length ls < suc fuel
        → ((c' : Cursor) (ms : List Fed) (s' : Backlog)
            → Holds bs c'.p c'.id_list ms
            → length ms < fuel
            → merge_loop fuel bs c' s' ≡ some (feed_all ms s'))
        → elim ids [
          | [] ↦ some s
          | least ∷ others ↦ elim (merge_round bs least (record c { id_list = others }) s) [
            | none ↦ none
            | some (c', s') ↦ merge_loop fuel bs c' s'
          ]
        ]
          ≡ some (feed_all ls s)
    sorted [] [] h o f again = refl
    sorted [] (l ∷ ls) h o f again = absurd h.covered.0
    sorted (x ∷ xs) [] h o f again = absurd (nil-ne-cons h.queued.0.own)
      where
        nil-ne-cons : {m : Fed} {ms : List Fed} → [] ≡ m ∷ ms → ⊥
        nil-ne-cons g = cc
    sorted (x ∷ xs) (l ∷ ls) h o f again =
        let e : x.tid ≡ l.tid = least_is_first bs c.p l ls x xs h o in
        rw (merge_round_lem bs c.p l ls x xs h e s) (
          again (next bs c.p l ls x xs h e) ls (backlog_feed l.pack s)
            (next-Holds bs c.p l ls x xs h e) (omega arith))
