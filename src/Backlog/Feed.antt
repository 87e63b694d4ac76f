-- ===== src/Backlog/Feed.antt =====
-- The three backlogFeed, and what one call of each does.
use naruto.Prelude.{
  ℕ, ◌+◌, ◌^◌, ◌<◌, ◌≡◌, refl, Bool-cases, inl, inr, List, [], ◌∷◌, ◌++◌, length, length-set,
  get_or, set, ◌==◌, IsBytes, arith,
}
use naruto.Bytes.{Bytes, new, put_long, put}
use naruto.Bytes.Ends.{at_end}
use naruto.Bytes.PackLayout.{pack_bytes, length-pack_bytes, put_message-at_end}
use naruto.Bytes.Search.{put-at_end}
use naruto.Pack.{serialize_message, serialize_raw}
use naruto.Pack.RoundTrip.{serialize_raw-at_end}
use naruto.Loader.{u64}
use naruto.Backlog.{Backlog, workers_at, set_workers, feed, feed_raw, feed_message, feed_pack}
use naruto.Backlog.Merge.{Fed, IsPack}

-- A call of backlogFeed: with bytes, with a message, or with a pack.
pub data Call : Type 0 where
  raw : ℕ → List ℕ → ℕ → Call
  message : ℕ → List ℕ → ℕ → Call
  copied : ℕ → Bytes → Call

abbrev pub worker : Call → ℕ
worker (raw t msg type) = t
worker (message t msg type) = t
worker (copied t b) = t

-- What the log is to get of it.
abbrev pub pack_of_call : Call → List ℕ
pack_of_call (raw t msg type) = pack_bytes type msg
pack_of_call (message t msg type) = pack_bytes type msg
pack_of_call (copied t b) = b.buf

abbrev pub IsCall : Call → Type 0
IsCall (raw t msg type) = IsBytes msg × (8 + length msg < 2 ^ 32)
IsCall (message t msg type) = IsBytes msg × (8 + length msg < 2 ^ 32)
IsCall (copied t b) = IsBytes b.buf × IsPack b.buf

abbrev pub issue : Call → Backlog → Backlog
issue (raw t msg type) s = feed_raw t msg type s
issue (message t msg type) s = feed_message t msg type s
issue (copied t b) s = feed_pack t b s

abbrev pub issue_all : List Call → Backlog → Backlog
issue_all [] s = s
issue_all (c ∷ cs) s = issue_all cs (issue c s)

-- The commands of the calls, numbered from `n`.
abbrev pub fed_from : ℕ → List Call → List Fed
fed_from n [] = []
fed_from n (c ∷ cs) = record { tid = worker c; id = n; pack = pack_of_call c } ∷ fed_from (n + 1) cs

-- The buffers that are written now.
abbrev pub current : Backlog → List Bytes
current s = workers_at s.repl_pos s

-- What the calls leave alone.
pub record Kept (s s' : Backlog) : Type 0 where
  pub pos : s'.repl_pos ≡ s.repl_pos
  pub width_0 : length s'.repl_0 ≡ length s.repl_0
  pub width_1 : length s'.repl_1 ≡ length s.repl_1
  pub log : s'.back_log ≡ s.back_log
  pub file : s'.aof_file ≡ s.aof_file
  pub offset : s'.master_repl_offset ≡ s.master_repl_offset
  pub flushed : s'.master_flush_repl_offset ≡ s.master_flush_repl_offset

pub feed-current :
    (tid : ℕ) (pack : Bytes → Bytes) (s : Backlog)
    → current (feed tid pack s)
      ≡ set (current s) tid (pack (put_long s.repl_command_incr (get_or (current s) tid new)))
unfolding feed workers_at set_workers
feed-current tid pack s = elim (Bool-cases (s.repl_pos == 0)) [
  | inl e ↦ rw e (rw e refl)
  | inr e ↦ rw e (rw e refl)
]

pub feed_incr :
    (tid : ℕ) (pack : Bytes → Bytes) (s : Backlog)
    → (feed tid pack s).repl_command_incr ≡ u64 (s.repl_command_incr + 1)
unfolding feed set_workers
feed_incr tid pack s = elim (Bool-cases (s.repl_pos == 0)) [ inl e ↦ rw e refl | inr e ↦ rw e refl ]

pub feed-Kept : (tid : ℕ) (pack : Bytes → Bytes) (s : Backlog) → Kept s (feed tid pack s)
unfolding feed workers_at set_workers
feed-Kept tid pack s = elim (Bool-cases (s.repl_pos == 0)) [
  | inl e ↦ rw e (record {
    pos = refl;
    width_0 = length-set s.repl_0 tid _;
    width_1 = refl;
    log = refl;
    file = refl;
    offset = refl;
    flushed = refl;
  })
  | inr e ↦ rw e (record {
    pos = refl;
    width_0 = refl;
    width_1 = length-set s.repl_1 tid _;
    log = refl;
    file = refl;
    offset = refl;
    flushed = refl;
  })
]

-- What a call adds to a buffer that is written at its end.
abbrev pub writer : Call → Bytes → Bytes
writer (raw t msg type) = serialize_raw msg type
writer (message t msg type) = serialize_message msg type
writer (copied t b) = put b

pub issue-feed : (c : Call) (s : Backlog) → issue c s ≡ feed (worker c) (writer c) s
unfolding feed_raw feed_message feed_pack
issue-feed (raw t msg type) s = refl
issue-feed (message t msg type) s = refl
issue-feed (copied t b) s = refl

pub writer-at_end :
    (c : Call) (xs : List ℕ)
    → IsCall c
    → length xs + length (pack_of_call c) < 2 ^ 32
    → writer c (at_end xs 0) ≡ at_end (xs ++ pack_of_call c) 0
unfolding serialize_message
writer-at_end (raw t msg type) xs v h =
    serialize_raw-at_end msg xs type 0 v.0 (omega (arith, length-pack_bytes type msg))
writer-at_end (message t msg type) xs v h =
    put_message-at_end msg xs type 0 (omega (arith, length-pack_bytes type msg))
writer-at_end (copied t b) xs v h = put-at_end b xs 0 v.0 h
