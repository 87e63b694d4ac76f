-- ===== src/Backlog/Issue.antt =====
-- What a run of calls of backlogFeed leaves in the workers' buffers.
use naruto.Prelude.{
  ℕ, ◌+◌, ◌^◌, ◌≤◌, ◌<◌, ◌≡◌, ◌≢◌, refl, sym, subst, ap, ap₂, ◌∙◌, false, Bool-cases, inl, inr,
  List, [], ◌∷◌, ◌++◌, length, length-append, append_assoc, append-nil, get_or, get_or-set_self,
  get_or-set_ne, ◌==◌, ==_iff, All, arith,
}
use naruto.Codec.{le_bytes, length-le_bytes}
use naruto.Bytes.{new, put_long}
use naruto.Bytes.Ends.{at_end, append-at_end}
use naruto.Bytes.PackLayout.{pack_bytes, length-pack_bytes}
use naruto.Loader.{u64}
use naruto.Backlog.{Backlog, workers_at}
use naruto.Backlog.Merge.{Fed, IsPack, IsFed, encode, mine, Ascending, mine_own, mine_other}
use naruto.Backlog.Feed.{
  Call, raw, message, copied, worker, pack_of_call, IsCall, issue, issue_all, fed_from, current,
  Kept, feed-current, feed_incr, feed-Kept, writer, issue-feed, writer-at_end,
}

-- A call adds its number and its pack to the buffer of its worker.
issue_own :
    (c : Call) (s : Backlog) (xs : List ℕ)
    → IsCall c
    → worker c < length (current s)
    → get_or (current s) (worker c) new ≡ at_end xs 0
    → length xs + (8 + length (pack_of_call c)) < 2 ^ 32
    → get_or (current (issue c s)) (worker c) new
      ≡ at_end ((xs ++ le_bytes 8 s.repl_command_incr) ++ pack_of_call c) 0
issue_own c s xs v k e h =
    ap (λ a. get_or (current a) (worker c) new) (issue-feed c s)
    ∙ ap (λ bs. get_or bs (worker c) new) (feed-current (worker c) (writer c) s)
    ∙ get_or-set_self (current s) (worker c) _ new k
    ∙ ap (λ b. writer c (put_long s.repl_command_incr b)) e
    ∙ ap (writer c) (append-at_end 8 s.repl_command_incr xs 0 (omega arith))
    ∙ writer-at_end c (xs ++ le_bytes 8 s.repl_command_incr) v (
        omega (
          arith,
          length-append xs (le_bytes 8 s.repl_command_incr),
          length-le_bytes 8 s.repl_command_incr,
        ))

issue_other :
    (c : Call) (s : Backlog) (t : ℕ)
    → worker c ≢ t
    → get_or (current (issue c s)) t new ≡ get_or (current s) t new
issue_other c s t n =
    ap (λ a. get_or (current a) t new) (issue-feed c s)
    ∙ ap (λ bs. get_or bs t new) (feed-current (worker c) (writer c) s)
    ∙ get_or-set_ne (current s) (worker c) t _ new n

issue-Kept : (c : Call) (s : Backlog) → Kept s (issue c s)
issue-Kept c s = subst (Kept s) (sym (issue-feed c s)) (feed-Kept (worker c) (writer c) s)

issue_incr :
    (c : Call) (s : Backlog) → (issue c s).repl_command_incr ≡ u64 (s.repl_command_incr + 1)
issue_incr c s = ap Backlog.repl_command_incr (issue-feed c s) ∙ feed_incr (worker c) (writer c) s

pub issue_all_incr :
    (cs : List Call) (s : Backlog)
    → s.repl_command_incr + length cs < 2 ^ 64
    → (issue_all cs s).repl_command_incr ≡ s.repl_command_incr + length cs
issue_all_incr [] s h = omega arith
issue_all_incr (c ∷ cs) s h =
    issue_all_incr cs (issue c s) (omega (arith, issue_incr c s)) ∙ omega (arith, issue_incr c s)

pub issue_all-Kept : (cs : List Call) (s : Backlog) → Kept s (issue_all cs s)
issue_all-Kept [] s = record {
  pos = refl;
  width_0 = refl;
  width_1 = refl;
  log = refl;
  file = refl;
  offset = refl;
  flushed = refl;
}
issue_all-Kept (c ∷ cs) s =
    let a = issue-Kept c s in
    let b = issue_all-Kept cs (issue c s) in
    record {
      pos = b.pos ∙ a.pos;
      width_0 = b.width_0 ∙ a.width_0;
      width_1 = b.width_1 ∙ a.width_1;
      log = b.log ∙ a.log;
      file = b.file ∙ a.file;
      offset = b.offset ∙ a.offset;
      flushed = b.flushed ∙ a.flushed;
    }

current-width : (s s' : Backlog) → Kept s s' → length (current s') ≡ length (current s)
unfolding workers_at
current-width s s' k =
    rw k.pos
      (elim (Bool-cases (s.repl_pos == 0)) [ inl e ↦ rw e k.width_0 | inr e ↦ rw e k.width_1 ])

pub length-encode :
    (l : Fed) (ls : List Fed) → length (encode (l ∷ ls)) ≡ 8 + (length l.pack + length (encode ls))
length-encode l ls =
    length-append (le_bytes 8 l.id) (l.pack ++ encode ls)
    ∙ ap₂ ◌+◌ (length-le_bytes 8 l.id) (length-append l.pack (encode ls))

-- What a run of calls leaves in the buffer of worker `t`.
pub issue_all-current :
    (cs : List Call) (s : Backlog) (t : ℕ) (xs : List ℕ)
    → All IsCall cs
    → All (λ (c : Call). worker c < length (current s)) cs
    → get_or (current s) t new ≡ at_end xs 0
    → length xs + length (encode (fed_from s.repl_command_incr cs)) < 2 ^ 32
    → s.repl_command_incr + length cs < 2 ^ 64
    → get_or (current (issue_all cs s)) t new
      ≡ at_end (xs ++ encode (mine t (fed_from s.repl_command_incr cs))) 0
issue_all-current [] s t xs v k e h n = e ∙ ap (λ ys. at_end ys 0) (sym (append-nil xs))
issue_all-current (c ∷ cs) s t xs v k e h n = elim (Bool-cases (worker c == t)) [
  | inl m ↦
      let eq : worker c ≡ t = (==_iff (worker c) t).0 m in
      issue_all-current cs (issue c s) t ((xs ++ le_bytes 8 s.repl_command_incr) ++ pack_of_call c)
        v.1 width
        (ap (λ u. get_or (current (issue c s)) u new) (sym eq)
          ∙ issue_own c s xs v.0 k.0 (ap (λ u. get_or (current s) u new) eq ∙ e)
              (omega (arith, long)))
        (rw incr (
          omega (
            arith,
            long,
            length-append (xs ++ le_bytes 8 s.repl_command_incr) (pack_of_call c),
            length-append xs (le_bytes 8 s.repl_command_incr),
            length-le_bytes 8 s.repl_command_incr,
          )))
        (omega (arith, incr))
      ∙ ap (λ ys. at_end ys 0)
          (ap
              (λ i.
                ((xs ++ le_bytes 8 s.repl_command_incr) ++ pack_of_call c)
                ++ encode (mine t (fed_from i cs)))
              incr
            ∙ append_assoc (xs ++ le_bytes 8 s.repl_command_incr) (pack_of_call c)
                (encode (mine t rest))
            ∙ append_assoc xs (le_bytes 8 s.repl_command_incr)
                (pack_of_call c ++ encode (mine t rest))
            ∙ ap (λ ls. xs ++ encode ls) (sym (mine_own first t rest eq)))
  | inr m ↦
      let ne : worker c ≢ t = differ m in
      issue_all-current cs (issue c s) t xs v.1 width (issue_other c s t ne ∙ e)
        (rw incr (omega (arith, long))) (omega (arith, incr))
      ∙ ap (λ ys. at_end (xs ++ ys) 0)
          (ap (λ i. encode (mine t (fed_from i cs))) incr
            ∙ ap encode (sym (mine_other first t rest ne)))
]
  where
    rest : List Fed
    rest = fed_from (s.repl_command_incr + 1) cs

    first : Fed
    first = record { tid = worker c; id = s.repl_command_incr; pack = pack_of_call c }

    differ : worker c == t ≡ false → worker c ≢ t
    differ m = ground arith

    incr : (issue c s).repl_command_incr ≡ s.repl_command_incr + 1
    incr = issue_incr c s ∙ omega arith

    long : length (encode (first ∷ rest)) ≡ 8 + (length (pack_of_call c) + length (encode rest))
    long = length-encode first rest

    width : All (λ (d : Call). worker d < length (current (issue c s))) cs
    width =
        subst (λ w. All (λ (d : Call). worker d < w) cs)
          (sym (current-width s (issue c s) (issue-Kept c s))) k.1

-- The numbers ascend.
fed_from_bounds : (m n : ℕ) (cs : List Call) → m < n → All (λ (l : Fed). m < l.id) (fed_from n cs)
fed_from_bounds m n [] h = tt
fed_from_bounds m n (c ∷ cs) h = (h, fed_from_bounds m (n + 1) cs (omega arith))

pub fed_from-Ascending : (n : ℕ) (cs : List Call) → Ascending (fed_from n cs)
fed_from-Ascending n [] = tt
fed_from-Ascending n (c ∷ cs) =
    (fed_from_bounds n (n + 1) cs (omega arith), fed_from-Ascending (n + 1) cs)

pack_bytes-IsPack :
    (type : ℕ) (msg : List ℕ) → 8 + length msg < 2 ^ 32 → IsPack (pack_bytes type msg)
pack_bytes-IsPack type msg h = (
  (le_bytes 2 0 ++ le_bytes 2 type) ++ msg,
  append_assoc (le_bytes 4 (8 + length msg)) (le_bytes 2 0 ++ le_bytes 2 type) msg
      ∙ ap (λ n. le_bytes 4 n ++ ((le_bytes 2 0 ++ le_bytes 2 type) ++ msg))
          (sym (length-pack_bytes type msg)),
  omega (arith, length-pack_bytes type msg),
)

call-IsPack : (c : Call) → IsCall c → IsPack (pack_of_call c)
call-IsPack (raw t msg type) v = pack_bytes-IsPack type msg v.1
call-IsPack (message t msg type) v = pack_bytes-IsPack type msg v.1
call-IsPack (copied t b) v = v.1

pub fed_from-IsFed :
    (n : ℕ) (cs : List Call) → All IsCall cs → n + length cs < 2 ^ 64 → All IsFed (fed_from n cs)
fed_from-IsFed n [] v h = tt
fed_from-IsFed n (c ∷ cs) v h =
    ((omega arith, call-IsPack c v.0), fed_from-IsFed (n + 1) cs v.1 (omega arith))

pub fed_from_worker :
    (n w : ℕ) (cs : List Call)
    → All (λ (c : Call). worker c < w) cs
    → All (λ (l : Fed). l.tid < w) (fed_from n cs)
fed_from_worker n w [] h = tt
fed_from_worker n w (c ∷ cs) h = (h.0, fed_from_worker (n + 1) w cs h.1)

-- A worker's share is not longer than the whole.
pub share_le : (t : ℕ) (ls : List Fed) → length (encode (mine t ls)) ≤ length (encode ls)
share_le t [] = omega arith
share_le t (l ∷ ls) = elim (Bool-cases (l.tid == t)) [
  | inl e ↦ rw e (omega (arith, share_le t ls, length-encode l ls, length-encode l (mine t ls)))
  | inr e ↦ rw e (omega (arith, share_le t ls, length-encode l ls))
]
