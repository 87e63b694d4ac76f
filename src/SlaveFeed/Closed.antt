-- ===== src/SlaveFeed/Closed.antt =====
-- A read of a saved database that comes to the end of the file.
use naruto.Prelude.{
  ℕ, ◌+◌, ◌<◌, ◌≡◌, refl, Bool, true, false, ◌||◌, List, [], ◌∷◌, length, drop, ltb, ◌==◌, arith,
  lt→ltb, length-take, length-drop,
}
use naruto.SlaveFeed.{Feeder, Written, again, transfer_len, bulk_read, on_send_bulk_to_slave}
use naruto.SlaveFeed.Bulk.{send_all}

short_read :
    (file : List ℕ) (f : Feeder)
    → f.db_fail ≡ false
    → f.link.repl_dboff < length file
    → length file < f.link.repl_dboff + transfer_len
    → (0 < length (bulk_read file f)) × (ltb (length (bulk_read file f)) transfer_len ≡ true)
unfolding bulk_read
short_read file f n l s =
    let len = length-take transfer_len (drop f.link.repl_dboff file) in
    let rest = length-drop f.link.repl_dboff file in
    rw n (omega (arith, len, rest), lt→ltb _ _ (omega (arith, len, rest)))

waiting_read :
    (file : List ℕ) (f : Feeder)
    → f.link.repl_db_f ≡ true
    → f.db_fail ≡ false
    → f.link.repl_dboff < length file
    → length file < f.link.repl_dboff + transfer_len
    → let (sent, g) = on_send_bulk_to_slave file again f in
      (sent ≡ []) × (g.db_fail ≡ true) × (g.link.repl_db_f ≡ true)
unfolding on_send_bulk_to_slave
waiting_read file f o n l s =
    let (some_read, short) = short_read file f n l s in
    rw (on_send_bulk_to_slave, nonzero _ some_read, short, o) (refl, or_true f.db_fail, refl)
  where
    nonzero : (m : ℕ) → 0 < m → (m == 0) ≡ false
    nonzero m h = ground arith

    or_true : (b : Bool) → b || true ≡ true
    or_true b = ground arith

failed_read :
    (file : List ℕ) (w : Written) (f : Feeder)
    → f.link.repl_db_f ≡ true
    → f.db_fail ≡ true
    → ((on_send_bulk_to_slave file w f).0 ≡ []) × ((on_send_bulk_to_slave file w f).1.closed ≡ true)
unfolding on_send_bulk_to_slave bulk_read
failed_read file w f o n = rw (on_send_bulk_to_slave, o, n) (refl, refl)

-- The bug: the end of the file has been read but the socket takes nothing at the moment. The stream has
-- failed, the next call reads nothing, and the link is closed without these bytes.
pub send_again-closed :
    (file : List ℕ) (w : Written) (f : Feeder)
    → f.link.repl_db_f ≡ true
    → f.db_fail ≡ false
    → f.link.repl_dboff < length file
    → length file < f.link.repl_dboff + transfer_len
    → let (sent, g) = send_all file (again ∷ w ∷ []) f in (sent ≡ []) × (g.closed ≡ true)
unfolding send_all
send_again-closed file w f o n l s =
    let (e, g, p) = waiting_read file f o n l s in
    let (d, c) = failed_read file w (on_send_bulk_to_slave file again f).1 p g in
    (rw (e, d) refl, c)
