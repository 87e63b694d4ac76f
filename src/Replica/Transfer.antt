-- ===== src/Replica/Transfer.antt =====
-- replication/replication.cpp, onReadSyncBulkPayload: a slave receives the database of its master.
pub mod Whole
pub mod Safety
use naruto.Prelude.{
  ℕ, ◌+◌, Bool, true, false, Option, none, some, List, [], ◌∷◌, ◌++◌, length, ltb, ◌==◌,
  if◌then◌else◌,
}
use naruto.Prelude.Int.{ℤ, ◌-ℤ◌, ltb_ℤ}
use naruto.ReplState.{connected}
use naruto.Restore.{Features, load_database, flush_database}
use naruto.Hset.{Database}
use naruto.Replica.{Replica, MasterLink, stopped, on_master, abort_sync_transfer}

abbrev pub bulk_buf : ℕ
bulk_buf = 4096

-- The number of bytes that are asked for.
unfoldable pub read_len : Replica → ℤ
read_len s =
    let left : ℤ = s.transfer_size -ℤ ℤ.pos s.transfer_read in
    if ltb_ℤ left (ℤ.pos bulk_buf) then left else ℤ.pos bulk_buf

abbrev pub is_size : ℕ → ℤ → Bool
is_size n (ℤ.pos m) = n == m
is_size n (ℤ.negsuc m) = false

-- What a read brings goes to the temporary file, if that is open.
unfoldable pub write_transfer : List ℕ → ℕ → Replica → Replica
write_transfer bytes now s = record s {
  transfer_lastio = now;
  transfer_f = elim s.transfer_f [ none ↦ none | some f ↦ some (f ++ bytes) ];
  transfer_read = s.transfer_read + length bytes;
}

module _ (decode : List ℕ → Features) where
  -- The end of the transfer. `renamed` is the contents of the file that has taken the dump's place, if the
  -- renaming went well.
  unfoldable pub finish_transfer : Option (List ℕ) → Replica → Option Replica
  finish_transfer none s = abort_sync_transfer s
  finish_transfer (some contents) s =
      elim (load_database decode contents (flush_database s.database)) [
        | none ↦ none
        | some database ↦
            on_master (λ (m : MasterLink). record m { master_flag = true; repl_rio = true })
              (record s {
                ev_io_r = stopped;
                transfer_f = none;
                db_file = contents;
                database = database;
                repl_state = connected;
              })
      ]

  -- onReadSyncBulkPayload. A read of nothing is an error or the end of the connection; one of more than
  -- the array holds has written behind it.
  unfoldable pub on_read_sync_bulk_payload : List ℕ → Bool → ℕ → Replica → Option Replica
  on_read_sync_bulk_payload [] renamed now s = abort_sync_transfer s
  on_read_sync_bulk_payload (b ∷ bs) renamed now s =
      let s' : Replica = write_transfer (b ∷ bs) now s in
      if ltb bulk_buf (length (b ∷ bs))
      then none
      else (if is_size s'.transfer_read s'.transfer_size
          then finish_transfer (if renamed then s'.transfer_f else none) s'
          else some s')
