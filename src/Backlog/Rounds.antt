-- ===== src/Backlog/Rounds.antt =====
-- From the calls of backlogFeed to the append-only file.
use naruto.Prelude.{
  ℕ, zero, suc, ◌+◌, ◌-◌, ◌<◌, ◌≡◌, refl, sym, ap, ◌∙◌, inl, inr, ◌⊎◌, Option, some, none, List, [],
  ◌∷◌, ◌++◌, length, length-append, append_assoc, append-nil, get_or, arith,
}
use naruto.Bytes.{Bytes, new, clear}
use naruto.Sink.{FileState, cur_roll_file}
use naruto.Sink.Checkpoint.{
  IsOpen, Stays, write-Stays, since, since-cur_roll_file, since-write, write-IsOpen, IsPosition,
}
use naruto.Backlog.{
  Backlog, workers_at, set_workers, backlog_feed, write_out, backlog_flush, merge_backlog,
  clear_all, merge_loop, enlist_all, zeros, total_size,
}
use naruto.Backlog.Merge.{Fed, packs}
use naruto.Backlog.Order.{feed_all, merge_loop-feed_all}
use naruto.Backlog.Start.{Buffers, enlist_all-Holds}
use naruto.Backlog.Fuel.{fuel_enough}
use naruto.Backlog.Feed.{current}

-- The state once the other set of buffers is the one that is written.
abbrev pub swap : Backlog → Backlog
swap s = record (set_workers (1 - s.repl_pos) (clear_all (workers_at (1 - s.repl_pos) s)) s) {
  repl_pos = 1 - s.repl_pos;
}

side : (s : Backlog) → s.repl_pos < 2 → (s.repl_pos ≡ 0) ⊎ (s.repl_pos ≡ 1)
side s h = ground arith

workers_at-swap : (s : Backlog) → s.repl_pos < 2 → workers_at s.repl_pos (swap s) ≡ current s
unfolding workers_at set_workers
workers_at-swap s h = elim (side s h) [ inl e ↦ rw e refl | inr e ↦ rw e refl ]

-- The merge of buffers that hold the commands `ls` ends and feeds the log with them in order.
pub merge_backlog-feed_all :
    (s : Backlog) (ls : List Fed)
    → s.repl_pos < 2
    → Buffers (current s) ls
    → merge_backlog s ≡ some (backlog_flush (feed_all ls (swap s)))
unfolding merge_backlog
merge_backlog-feed_all s ls h b = ap finish (
    ap
      (λ bs.
        merge_loop (suc (total_size bs)) bs
          (enlist_all 0 bs (record { p = zeros bs; id_list = [] })) (swap s))
      (workers_at-swap s h)
    ∙ merge_loop-feed_all (suc (total_size (current s))) (current s) _ ls (swap s)
        (enlist_all-Holds (current s) ls b) (fuel_enough (current s) ls b))
  where
    finish : Option Backlog → Option Backlog
    finish o = elim o [ none ↦ none | some merged ↦ some (backlog_flush merged) ]

-- What the log's bytes leave alone.
pub record Beside (s s' : Backlog) : Type 0 where
  pub pos : s'.repl_pos ≡ s.repl_pos
  pub set_0 : s'.repl_0 ≡ s.repl_0
  pub set_1 : s'.repl_1 ≡ s.repl_1

pub feed_all-Beside : (ls : List Fed) (s : Backlog) → Beside s (feed_all ls s)
unfolding backlog_feed
feed_all-Beside [] s = record { pos = refl; set_0 = refl; set_1 = refl }
feed_all-Beside (l ∷ ls) s =
    let b = feed_all-Beside ls (backlog_feed l.pack s) in
    record { pos = b.pos; set_0 = b.set_0; set_1 = b.set_1 }

pub feed_all-back_log :
    (ls : List Fed) (s : Backlog) → (feed_all ls s).back_log ≡ s.back_log ++ packs ls
unfolding backlog_feed
feed_all-back_log [] s = sym (append-nil s.back_log)
feed_all-back_log (l ∷ ls) s =
    feed_all-back_log ls (backlog_feed l.pack s) ∙ append_assoc s.back_log l.pack (packs ls)

pub feed_all_offset :
    (ls : List Fed) (s : Backlog)
    → (feed_all ls s).master_repl_offset ≡ s.master_repl_offset + length (packs ls)
unfolding backlog_feed
feed_all_offset [] s = omega arith
feed_all_offset (l ∷ ls) s =
    omega (arith, feed_all_offset ls (backlog_feed l.pack s), length-append l.pack (packs ls))

pub feed_all_file : (ls : List Fed) (s : Backlog) → (feed_all ls s).aof_file ≡ s.aof_file
unfolding backlog_feed
feed_all_file [] s = refl
feed_all_file (l ∷ ls) s = feed_all_file ls (backlog_feed l.pack s)

pub feed_all_flushed :
    (ls : List Fed) (s : Backlog)
    → (feed_all ls s).master_flush_repl_offset ≡ s.master_flush_repl_offset
unfolding backlog_feed
feed_all_flushed [] s = refl
feed_all_flushed (l ∷ ls) s = feed_all_flushed ls (backlog_feed l.pack s)

pub feed_all_incr :
    (ls : List Fed) (s : Backlog) → (feed_all ls s).repl_command_incr ≡ s.repl_command_incr
unfolding backlog_feed
feed_all_incr [] s = refl
feed_all_incr (l ∷ ls) s = feed_all_incr ls (backlog_feed l.pack s)

-- A flush brings all of the log to the file.
pub record Flushed (s s' : Backlog) : Type 0 where
  pub beside : Beside s s'
  pub log : s'.back_log ≡ []
  pub offset : s'.master_repl_offset ≡ s.master_repl_offset
  pub flushed : s'.master_flush_repl_offset ≡ s.master_flush_repl_offset + length s.back_log
  pub file : since (cur_roll_file s.aof_file) s'.aof_file ≡ s.back_log
  pub file_open : IsOpen s'.aof_file
  pub behind :
      (c : FileState)
      → IsPosition c s.aof_file
      → (since c s'.aof_file ≡ since c s.aof_file ++ s.back_log) × IsPosition c s'.aof_file
  pub incr : s'.repl_command_incr ≡ s.repl_command_incr
  pub stays : Stays s.back_log s.aof_file s'.aof_file

pub backlog_flush-Flushed : (s : Backlog) → IsOpen s.aof_file → Flushed s (backlog_flush s)
unfolding backlog_flush write_out
backlog_flush-Flushed s o = cases s.back_log refl
  where
    cases :
        (log : List ℕ) → s.back_log ≡ log → Flushed s (elim log [ [] ↦ s | _ ∷ _ ↦ write_out s ])
    cases [] e = record {
      beside = record { pos = refl; set_0 = refl; set_1 = refl };
      log = e;
      offset = refl;
      flushed = omega (arith, ap length e);
      file = since-cur_roll_file [] s.aof_file o ∙ sym e;
      file_open = o;
      behind = λ c p. (sym (append-nil _) ∙ ap (λ xs. since c s.aof_file ++ xs) (sym e), p);
      incr = refl;
      stays = record {
        idx = λ h. refl;
        offset = λ h. omega (arith, ap length e);
        rotate_size = refl;
      };
    }
    cases (b ∷ bs) e = record {
      beside = record { pos = refl; set_0 = refl; set_1 = refl };
      log = refl;
      offset = refl;
      flushed = refl;
      file = since-cur_roll_file (s.back_log ∷ []) s.aof_file o ∙ append-nil s.back_log;
      file_open = write-IsOpen s.back_log s.aof_file o;
      behind = λ c p. since-write c s.back_log s.aof_file o p;
      incr = refl;
      stays = write-Stays s.back_log s.aof_file;
    }

-- Between two merges: the buffers that will be written are empty, and so is the log.
pub record IsFresh (s : Backlog) : Type 0 where
  pub side : s.repl_pos < 2
  pub width : length s.repl_0 ≡ length s.repl_1
  pub empty : (t : ℕ) → get_or (current s) t new ≡ new
  pub logged : s.back_log ≡ []
  pub file_open : IsOpen s.aof_file

length-clear_all : (bs : List Bytes) → length (clear_all bs) ≡ length bs
length-clear_all [] = refl
length-clear_all (b ∷ bs) = ap suc (length-clear_all bs)

get_or-clear_all : (bs : List Bytes) (t : ℕ) → get_or (clear_all bs) t new ≡ new
unfolding clear
get_or-clear_all [] t = refl
get_or-clear_all (b ∷ bs) zero = refl
get_or-clear_all (b ∷ bs) (suc t) = get_or-clear_all bs t

pub record Swapped (s : Backlog) : Type 0 where
  pub width : length (swap s).repl_0 ≡ length (swap s).repl_1
  pub empty : (t : ℕ) → get_or (current (swap s)) t new ≡ new
  pub log : (swap s).back_log ≡ s.back_log
  pub offset : (swap s).master_repl_offset ≡ s.master_repl_offset
  pub flushed : (swap s).master_flush_repl_offset ≡ s.master_flush_repl_offset
  pub file : (swap s).aof_file ≡ s.aof_file
  pub incr : (swap s).repl_command_incr ≡ s.repl_command_incr
  pub kept_width : length (swap s).repl_0 ≡ length s.repl_0

pub swap-Swapped : (s : Backlog) → s.repl_pos < 2 → length s.repl_0 ≡ length s.repl_1 → Swapped s
unfolding workers_at set_workers
swap-Swapped s h w = elim (side s h) [
  | inl e ↦ record {
    width = rw e (w ∙ sym (length-clear_all s.repl_1));
    incr = rw e refl;
    kept_width = rw e refl;
    empty = λ t. rw e (get_or-clear_all s.repl_1 t);
    log = rw e refl;
    offset = rw e refl;
    flushed = rw e refl;
    file = rw e refl;
  }
  | inr e ↦ record {
    width = rw e (length-clear_all s.repl_0 ∙ w);
    incr = rw e refl;
    kept_width = rw e (length-clear_all s.repl_0);
    empty = λ t. rw e (get_or-clear_all s.repl_0 t);
    log = rw e refl;
    offset = rw e refl;
    flushed = rw e refl;
    file = rw e refl;
  }
]
