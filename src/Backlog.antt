-- ===== src/Backlog.antt =====
-- replication/replication.cpp: how the commands of the worker threads get into the append-only file.
-- Each worker has a buffer of its own, in two copies of which one is written and one is merged. A
-- command's number goes in front of its pack, and the merge takes the packs in the order of the numbers.
pub mod Merge
pub mod Round
pub mod Order
pub mod Feed
pub mod Issue
pub mod Start
pub mod Fuel
pub mod Rounds
pub mod Whole
pub mod Runs
use naruto.Prelude.{
  ℕ, zero, suc, ◌+◌, ◌-◌, ◌%◌, ◌^◌, Bool, true, false, ◌&&◌, Option, some, none, List, [], ◌∷◌,
  ◌++◌, length, get_or, set, slice, ltb, leb, ◌==◌, if◌then◌else◌, sort_by,
}
use naruto.Prelude.Int.{ℤ, ◌+ℤ◌}
use naruto.Bytes.{Bytes, new, size, clear, read_at, put, put_long, u32}
use naruto.Loader.{u64}
use naruto.Pack.{serialize_message, serialize_raw}
use naruto.Sink.{RotateFileStream, write}

-- indexLog: the number of the command that is next in a worker's buffer.
pub record IndexLog : Type 0 where
  pub tid : ℕ
  pub id : ℕ

-- The part of Replication that the log is kept in. `repl_pos` is 0 or 1 and says which of the two sets of
-- buffers is written. Lengths and offsets are taken without bound, as long long is wide enough.
pub record Backlog : Type 0 where
  pub repl_pos : ℕ
  pub repl_0 : List Bytes
  pub repl_1 : List Bytes
  pub repl_merge_size : ℕ
  pub repl_command_incr : ℕ
  pub back_log : List ℕ
  pub aof_file : RotateFileStream
  pub changes : ℕ
  pub dirty : ℤ
  pub master_repl_offset : ℕ
  pub master_flush_repl_offset : ℕ

-- repl_[pos]
unfoldable pub workers_at : ℕ → Backlog → List Bytes
workers_at pos s = if pos == 0 then s.repl_0 else s.repl_1

unfoldable pub set_workers : ℕ → List Bytes → Backlog → Backlog
set_workers pos bs s = if pos == 0 then record s { repl_0 = bs } else record s { repl_1 = bs }

-- The common start of the three backlogFeed: the number goes into the buffer of the worker, then what
-- `pack` adds. The load and the increment of the counter are one step here.
unfoldable pub feed : ℕ → (Bytes → Bytes) → Backlog → Backlog
feed tid pack s =
    let bs : List Bytes = workers_at s.repl_pos s in
    let local_repl : Bytes = put_long s.repl_command_incr (get_or bs tid new) in
    set_workers s.repl_pos (set bs tid (pack local_repl))
      (record s { repl_command_incr = u64 (s.repl_command_incr + 1) })

-- backlogFeed(tid, s, n, type)
unfoldable pub feed_raw : ℕ → List ℕ → ℕ → Backlog → Backlog
feed_raw tid msg type = feed tid (serialize_raw msg type)

-- backlogFeed(tid, msg, type)
unfoldable pub feed_message : ℕ → List ℕ → ℕ → Backlog → Backlog
feed_message tid msg type = feed tid (serialize_message msg type)

-- backlogFeed(tid, pack)
unfoldable pub feed_pack : ℕ → Bytes → Backlog → Backlog
feed_pack tid pack = feed tid (put pack)

-- _backlog_feed(data, size)
unfoldable pub backlog_feed : List ℕ → Backlog → Backlog
backlog_feed bytes s = record s {
  changes = s.changes + 1;
  dirty = s.dirty +ℤ ℤ.pos 1;
  master_repl_offset = s.master_repl_offset + length bytes;
  back_log = s.back_log ++ bytes;
}

-- The flush of a log that is not empty.
unfoldable pub write_out : Backlog → Backlog
write_out s =
    let (old_size, file) = write s.back_log s.aof_file in
    record s {
      aof_file = file;
      master_flush_repl_offset = s.master_flush_repl_offset + length s.back_log;
      back_log = [];
      dirty = ℤ.pos 0;
    }

-- _backlog_flush(), but for the clock and for the configuration file, which replConfFlush writes.
unfoldable pub backlog_flush : Backlog → Backlog
backlog_flush s = elim s.back_log [ [] ↦ s | _ ∷ _ ↦ write_out s ]

-- What the merge keeps beside the log: the positions in the buffers, and the numbers that are next. A position is an int,
-- which stands as its 32 bits: the comparison with a size, and the reads at a position, take it as unsigned.
pub record Cursor : Type 0 where
  pub p : List ℕ
  pub id_list : List IndexLog

-- The number at a buffer's position goes onto the list, unless the buffer is at its end.
unfoldable pub enlist : Bytes → ℕ → Cursor → Cursor
enlist b tid c =
    if ltb (get_or c.p tid 0) (size b)
    then (record {
      p = set c.p tid (u32 (get_or c.p tid 0 + 8));
      id_list = c.id_list ++ record { tid = tid; id = read_at 8 (get_or c.p tid 0) b } ∷ [];
    })
    else c

-- The first loop, from worker `j` on, over the workers' buffers from there.
unfoldable pub enlist_all : ℕ → List Bytes → Cursor → Cursor
enlist_all j [] c = c
enlist_all j (b ∷ bs) c = enlist_all (j + 1) bs (if ltb 0 (size b) then enlist b j c else c)

-- A round of the second loop for the worker with the least number. As an index of the array a position is signed: a
-- negative one, and a pack that ends behind the array, are outside of it (`none`).
unfoldable pub merge_round : List Bytes → IndexLog → Cursor → Backlog → Option (Cursor × Backlog)
merge_round bs least c s =
    let min_i = least.tid in
    let at = get_or c.p min_i 0 in
    let min_bucket : Bytes = get_or bs min_i new in
    let pack_size = read_at 4 at min_bucket in
    if ltb at (2 ^ 31) && leb (at + pack_size) (length min_bucket.buf)
    then some (
      enlist min_bucket min_i (record c { p = set c.p min_i (u32 (at + pack_size)) }),
      backlog_feed (slice min_bucket.buf at pack_size) s,
    )
    else none

-- The second loop; `none` is the end of the fuel, or of the process.
unfoldable pub merge_loop : ℕ → List Bytes → Cursor → Backlog → Option Backlog
merge_loop zero bs c s = none
merge_loop (suc fuel) bs c s = elim (sort_by (λ (l : IndexLog). l.id) c.id_list) [
  | [] ↦ some s
  | least ∷ others ↦ elim (merge_round bs least (record c { id_list = others }) s) [
    | none ↦ none
    | some (c', s') ↦ merge_loop fuel bs c' s'
  ]
]

abbrev pub total_size : List Bytes → ℕ
total_size [] = 0
total_size (b ∷ bs) = length b.buf + total_size bs

abbrev pub zeros : List Bytes → List ℕ
zeros [] = []
zeros (b ∷ bs) = 0 ∷ zeros bs

abbrev pub clear_all : List Bytes → List Bytes
clear_all [] = []
clear_all (b ∷ bs) = clear b ∷ clear_all bs

-- _merge_backlog_feed_slaves(): the other set of buffers is emptied and written from now on, this one is
-- merged into the log, and the log is flushed. Each set has `repl_merge_size_` buffers.
unfoldable pub merge_backlog : Backlog → Option Backlog
merge_backlog s =
    let cur_pos = s.repl_pos in
    let next_pos = 1 - cur_pos in
    let swapped : Backlog = record (set_workers next_pos (clear_all (workers_at next_pos s)) s) {
      repl_pos = next_pos;
    } in
    let repl_data : List Bytes = workers_at cur_pos swapped in
    let start : Cursor = enlist_all 0 repl_data (record { p = zeros repl_data; id_list = [] }) in
    elim (merge_loop (suc (total_size repl_data)) repl_data start swapped) [
      | none ↦ none
      | some merged ↦ some (backlog_flush merged)
    ]
