-- ===== src/Tests/SlaveFeedTests.antt =====
-- The names of the append-only files and what is sent to a slave: runs on concrete inputs.
use naruto.Prelude.{
  ℕ, ◌≡◌, refl, true, false, Option, none, some, List, [], ◌∷◌, map, sort_by, insert_by, arith,
  if◌then◌else◌,
}
use naruto.Prelude.Int.{ℤ}
use naruto.Prelude.Maps.{String, equal}
use naruto.ReplState.{transfor}
use naruto.Psync.{SlaveLink}
use naruto.AofName.{list_aof}
use naruto.AofName.Names.{aof_name}
use naruto.AofName.Directory.{numbered, from_number, list_aof-numbered}
use naruto.SlaveFeed.{Feeder, wrote, bulk_read, advance, on_send_bulk_to_slave}
use naruto.SlaveFeed.Bulk.{send_all, AllWritten, send_all-whole}

-- The files 2, 0, 11 and 1, from 1 on.
list_aof-numbered_example :
    list_aof (numbered (2 ∷ 0 ∷ 11 ∷ 1 ∷ [])) (aof_name 1)
    ≡ some (map aof_name (sort_by (λ n. n) (from_number 1 (2 ∷ 0 ∷ 11 ∷ 1 ∷ []))))
list_aof-numbered_example = list_aof-numbered 1 (2 ∷ 0 ∷ 11 ∷ 1 ∷ []) (omega arith) (omega arith)

listed_numbers : sort_by (λ n. n) (from_number 1 (2 ∷ 0 ∷ 11 ∷ 1 ∷ [])) ≡ 1 ∷ 2 ∷ 11 ∷ []
unfolding sort_by insert_by from_number
listed_numbers = refl

abbrev pub link : SlaveLink
link = record {
  repl_state = transfor;
  repl_aof_file_name = aof_name 3;
  repl_aof_off = 2;
  repl_dbsize = ℤ.pos 5;
  repl_dboff = 0;
  repl_db_f = true;
  incr_timer = false;
  bulk_io = true;
  slave_flag = true;
}

abbrev feeder : Feeder
feeder = record { link = link; db_fail = false; closed = false; added = false }

abbrev dump : List ℕ
dump = 1 ∷ 2 ∷ 3 ∷ 4 ∷ 5 ∷ []

send_all-whole_example : (send_all dump (wrote 5 ∷ []) feeder).0 ≡ dump
unfolding send_all bulk_read on_send_bulk_to_slave advance AllWritten
send_all-whole_example = send_all-whole dump (wrote 5 ∷ []) feeder refl refl refl (omega arith) refl

-- Two bytes that have been sent, and a pack of type 1 with the body "k".
abbrev pub file_3 : List ℕ
file_3 = 7 ∷ 7 ∷ 9 ∷ 0 ∷ 0 ∷ 0 ∷ 0 ∷ 0 ∷ 1 ∷ 0 ∷ 107 ∷ []

-- Two files with the same contents.
abbrev pub two_files : String → Option (List ℕ)
two_files name =
    if equal name (aof_name 3)
    then some file_3
    else (if equal name (aof_name 4) then some file_3 else none)
