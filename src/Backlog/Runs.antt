-- ===== src/Backlog/Runs.antt =====
-- Round after round: the workers issue commands, the timer merges, and the append-only file grows.
use naruto.Prelude.{
  ℕ, ◌+◌, ◌^◌, ◌<◌, ◌≡◌, refl, sym, subst, ap, ◌∙◌, Option, none, some, List, [], ◌∷◌, ◌++◌, length,
  length-append, append_assoc, append-nil, concat, All, arith, Bool-cases, inl, inr, ◌==◌,
}
use naruto.Sink.{FileState}
use naruto.Sink.Checkpoint.{IsPosition, since}
use naruto.Backlog.{Backlog, workers_at, merge_backlog}
use naruto.Backlog.Merge.{encode}
use naruto.Backlog.Feed.{Call, worker, IsCall, issue_all, fed_from, current}
use naruto.Backlog.Rounds.{IsFresh}
use naruto.Backlog.Whole.{packs_of_calls, IsMerged, merge_backlog-issue_all}

-- The calls of each round, and the merge behind them.
unfoldable pub run_rounds : List (List Call) → Backlog → Option Backlog
run_rounds [] s = some s
run_rounds (cs ∷ css) s = elim (merge_backlog (issue_all cs s)) [
  | none ↦ none
  | some s' ↦ run_rounds css s'
]

-- Rounds that so many workers may make from the number `n` on.
abbrev pub IsSchedule : ℕ → ℕ → List (List Call) → Type 0
IsSchedule width n [] = Unit
IsSchedule width n (cs ∷ css) =
    All IsCall cs
    × All (λ (c : Call). worker c < width) cs
    × (length (encode (fed_from n cs)) < 2 ^ 31)
    × (n + length cs < 2 ^ 64)
    × IsSchedule width (n + length cs) css

-- What the rounds come to, for a reader at any position in the file.
pub record IsGrown (css : List (List Call)) (c : FileState) (s s' : Backlog) : Type 0 where
  pub fresh : IsFresh s'
  pub file : since c s'.aof_file ≡ since c s.aof_file ++ packs_of_calls (concat css)
  pub position : IsPosition c s'.aof_file
  pub offset : s'.master_repl_offset ≡ s.master_repl_offset + length (packs_of_calls (concat css))
  pub flushed :
      s'.master_flush_repl_offset
      ≡ s.master_flush_repl_offset + length (packs_of_calls (concat css))
  pub same_file :
      s.aof_file.offset + length (packs_of_calls (concat css)) < s.aof_file.rotate_size
      → s'.aof_file.idx ≡ s.aof_file.idx

packs_of_calls-append :
    (cs ds : List Call) → packs_of_calls (cs ++ ds) ≡ packs_of_calls cs ++ packs_of_calls ds
packs_of_calls-append [] ds = refl
packs_of_calls-append (c ∷ cs) ds =
    rw (packs_of_calls-append cs ds) (sym (append_assoc _ (packs_of_calls cs) (packs_of_calls ds)))

current-width : (s : Backlog) → IsFresh s → length (current s) ≡ length s.repl_0
unfolding workers_at
current-width s f = elim (Bool-cases (s.repl_pos == 0)) [
  | inl e ↦ rw e refl
  | inr e ↦ rw e (sym f.width)
]

run_rounds-step :
    (cs : List Call) (css : List (List Call)) (s t : Backlog)
    → merge_backlog (issue_all cs s) ≡ some t
    → run_rounds (cs ∷ css) s ≡ run_rounds css t
unfolding run_rounds
run_rounds-step cs css s t e = rw (e, run_rounds) refl

grown :
    (css : List (List Call)) (cs : List Call) (c : FileState) (s t s' : Backlog)
    → IsMerged cs s t
    → IsGrown css c t s'
    → IsPosition c s.aof_file
    → IsGrown (cs ∷ css) c s s'
grown css cs c s t s' m g p = record {
  fresh = g.fresh;
  file =
      g.file
      ∙ ap (λ xs. xs ++ packs_of_calls (concat css)) (m.behind c p).0
      ∙ append_assoc (since c s.aof_file) (packs_of_calls cs) (packs_of_calls (concat css))
      ∙ ap (λ xs. since c s.aof_file ++ xs) (sym (packs_of_calls-append cs (concat css)));
  position = g.position;
  offset = omega (arith, g.offset, m.offset, total);
  flushed = omega (arith, g.flushed, m.flushed, total);
  same_file = λ h.
      let room : s.aof_file.offset < s.aof_file.rotate_size = omega (arith, h) in
      g.same_file (omega (arith, h, total, m.stays.offset room, m.stays.rotate_size))
      ∙ m.stays.idx room;
}
  where
    total :
        length (packs_of_calls (cs ++ concat css))
        ≡ length (packs_of_calls cs) + length (packs_of_calls (concat css))
    total =
        ap length (packs_of_calls-append cs (concat css))
        ∙ length-append (packs_of_calls cs) (packs_of_calls (concat css))

-- From a state between two merges, and for a position anywhere in the files written so far: any schedule of rounds ends in such
-- a state again, what lies behind the position has grown by exactly the packs of all the commands of all rounds in the order
-- in which they were issued, wherever the file was rotated, and both offsets have grown by as much. The workers are those there
-- are, their buffers stay below 2 GiB in each round, and the counter does not wrap around.
pub run_rounds-IsGrown :
    (css : List (List Call)) (c : FileState) (s : Backlog)
    → IsFresh s
    → IsPosition c s.aof_file
    → IsSchedule (length s.repl_0) s.repl_command_incr css
    → (s' : Backlog) × (run_rounds css s ≡ some s') × IsGrown css c s s'
run_rounds-IsGrown [] c s f p h = (
  s,
  unfold run_rounds in refl,
  record {
    fresh = f;
    file = sym (append-nil (since c s.aof_file));
    position = p;
    offset = omega arith;
    flushed = omega arith;
    same_file = λ h. refl;
  },
)
run_rounds-IsGrown (cs ∷ css) c s f p (calls, workers, fits, numbers, h) =
    let (t, e, m) = merge_backlog-issue_all cs s f (record {
      calls = calls;
      workers = subst (λ w. All (λ (c : Call). worker c < w) cs) (sym (current-width s f)) workers;
      fits = fits;
      numbers = numbers;
    }) in
    let (s', e', g) = run_rounds-IsGrown css c t m.fresh (m.behind c p).1 (
      subst (λ w. IsSchedule w t.repl_command_incr css) (sym m.width)
        (subst (λ n. IsSchedule (length s.repl_0) n css) (sym m.incr) h)) in
    (s', run_rounds-step cs css s t e ∙ e', grown css cs c s t s' m g p)
