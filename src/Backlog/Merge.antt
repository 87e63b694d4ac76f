-- ===== src/Backlog/Merge.antt =====
-- The merge of the workers' buffers, against the list of the commands in the order of their numbers.
use native.Mathlib.Nat.{le_refl}
use naruto.Prelude.{
  ℕ, ◌^◌, ◌≤◌, ◌<◌, ◌≡◌, ◌≢◌, sym, subst, ap, ◌∙◌, false, Bool-cases, List, [], ◌∷◌, ◌++◌, length,
  inl, inr, drop, get_or, ◌==◌, ==_iff, if◌then◌else◌, All, Any, All-and, Any-All, arith, Distinct,
  IsSorted,
}
use naruto.Codec.{le_bytes}
use naruto.Bytes.{Bytes, new}
use naruto.Backlog.{IndexLog}

-- A command as it was fed: the worker, its number and its pack.
pub record Fed : Type 0 where
  pub tid : ℕ
  pub id : ℕ
  pub pack : List ℕ

-- A pack begins with its own length.
abbrev pub IsPack : List ℕ → Type 0
IsPack pack = (tail : List ℕ) × (pack ≡ le_bytes 4 (length pack) ++ tail) × (length pack < 2 ^ 32)

abbrev pub IsFed : Fed → Type 0
IsFed l = (l.id < 2 ^ 64) × IsPack l.pack

-- What a buffer holds of commands, and what the log gets of them.
abbrev pub encode : List Fed → List ℕ
encode [] = []
encode (l ∷ ls) = le_bytes 8 l.id ++ (l.pack ++ encode ls)

abbrev pub packs : List Fed → List ℕ
packs [] = []
packs (l ∷ ls) = l.pack ++ packs ls

-- The commands of one worker.
abbrev pub mine : ℕ → List Fed → List Fed
mine t [] = []
mine t (l ∷ ls) = if l.tid == t then l ∷ mine t ls else mine t ls

-- The commands after one with a smaller number.
abbrev pub Ascending : List Fed → Type 0
Ascending [] = Unit
Ascending (l ∷ ls) = All (λ (m : Fed). l.id < m.id) ls × Ascending ls

abbrev pub bucket : List Bytes → ℕ → List ℕ
bucket bs t = (get_or bs t new).buf

-- An entry of the list of numbers: the worker's first command, whose number has been read.
pub record Queued (bs : List Bytes) (p : List ℕ) (ls : List Fed) (x : IndexLog) : Type 0 where
  pub fits : length (bucket bs x.tid) < 2 ^ 31
  pub known : x.tid < length p
  pub first : Fed
  pub others : List Fed
  pub own : mine x.tid ls ≡ first ∷ others
  pub same : first.id ≡ x.id
  pub rest : drop (get_or p x.tid 0) (bucket bs x.tid) ≡ first.pack ++ encode others

pub record Holds (bs : List Bytes) (p : List ℕ) (ids : List IndexLog) (ls : List Fed) : Type 0 where
  pub fed : All IsFed ls
  pub ascending : Ascending ls
  pub queued : All (Queued bs p ls) ids
  pub distinct : Distinct (λ (x : IndexLog). x.id) (λ (x : IndexLog). x.tid) ids
  pub covered : All (λ (l : Fed). Any (λ (x : IndexLog). x.tid ≡ l.tid) ids) ls

pub mine-All : (P : Fed → Type 0) (t : ℕ) (ls : List Fed) → All P ls → All P (mine t ls)
mine-All P t [] h = tt
mine-All P t (l ∷ ls) h = elim (Bool-cases (l.tid == t)) [
  | inl e ↦ rw e (h.0, mine-All P t ls h.1)
  | inr e ↦ rw e (mine-All P t ls h.1)
]

pub mine_own : (l : Fed) (t : ℕ) (ls : List Fed) → l.tid ≡ t → mine t (l ∷ ls) ≡ l ∷ mine t ls
mine_own l t ls e = rw ((==_iff l.tid t).1 e)

pub mine_other : (l : Fed) (t : ℕ) (ls : List Fed) → l.tid ≢ t → mine t (l ∷ ls) ≡ mine t ls
mine_other l t ls e = rw (differ)
  where
    differ : (l.tid == t) ≡ false
    differ = ground arith

-- The number that is next for the worker of the first command is that command's.
pub first_number :
    (bs : List Bytes) (p : List ℕ) (l : Fed) (ls : List Fed) (x : IndexLog)
    → Queued bs p (l ∷ ls) x
    → x.tid ≡ l.tid
    → x.id ≡ l.id
first_number bs p l ls x q e =
    sym q.same ∙ ap Fed.id (cons-head (sym q.own ∙ mine_own l x.tid ls (sym e)))
  where
    cons-head : {a b : Fed} {us cs : List Fed} → a ∷ us ≡ b ∷ cs → a ≡ b
    cons-head h = cc

-- Any other worker's is greater.
pub other_number :
    (bs : List Bytes) (p : List ℕ) (l : Fed) (ls : List Fed) (x : IndexLog)
    → Queued bs p (l ∷ ls) x
    → Ascending (l ∷ ls)
    → x.tid ≢ l.tid
    → l.id < x.id
other_number bs p l ls x q a e =
    rw (← q.same)
      (subst (All (λ (m : Fed). l.id < m.id)) (sym (mine_other l x.tid ls (λ h. e (sym h))) ∙ q.own)
        (mine-All (λ (m : Fed). l.id < m.id) x.tid ls a.0)).0

-- So the least number is that of the first command.
pub least_is_first :
    (bs : List Bytes) (p : List ℕ) (l : Fed) (ls : List Fed) (x : IndexLog) (xs : List IndexLog)
    → Holds bs p (x ∷ xs) (l ∷ ls)
    → IsSorted (λ (y : IndexLog). y.id) (x ∷ xs)
    → x.tid ≡ l.tid
least_is_first bs p l ls x xs h s = elim (Bool-cases (x.tid == l.tid)) [
  | inl e ↦ (==_iff x.tid l.tid).0 e
  | inr e ↦
      absurd (omega (arith, bound, other_number bs p l ls x h.queued.0 h.ascending (differ e)))
]
  where
    differ : (x.tid == l.tid) ≡ false → x.tid ≢ l.tid
    differ e = ground arith

    bound : x.id ≤ l.id
    bound =
        Any-All (λ (y : IndexLog). y.tid ≡ l.tid)
          (λ (y : IndexLog). Queued bs p (l ∷ ls) y × (x.id ≤ y.id)) (x ∷ xs)
          (λ y t q. omega (arith, first_number bs p l ls y q.0 t, q.1)) h.covered.0
          (All-and (Queued bs p (l ∷ ls)) (λ (y : IndexLog). x.id ≤ y.id) (x ∷ xs) h.queued
            (le_refl x.id, s.0))
