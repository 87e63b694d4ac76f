-- ===== src/Replica/Transfer/Safety.antt =====
-- The receiving of a database does not end the process, and does not write behind its array.
use naruto.Prelude.{
  ℕ, subst, some-inj, ◌≢◌, Option-cases, ◌+◌, ◌≤◌, ◌≡◌, refl, inl, inr, Bool, true, false, Option,
  none, some, List, [], ◌∷◌, ◌++◌, length, length-append, IsBytes, All-append, Bool-cases, arith,
  if◌then◌else◌, ltb,
}
use naruto.Prelude.Int.{ℤ, pos_part, ◌≤ℤ◌}
use naruto.ReplState.{transfor}
use naruto.Restore.{Features, load_database, parse_entries, flush_database}
use naruto.Hset.{Database}
use naruto.Loader.{load_file}
use naruto.Replica.{Replica, on_bulk, on_master}
use naruto.Replica.Safety.{IsSound, Continues, abort_sync_transfer-Continues}
use naruto.Replica.Transfer.{
  bulk_buf, read_len, is_size, write_transfer, finish_transfer, on_read_sync_bulk_payload,
}

-- recv gives no more than what is asked for.
abbrev pub IsRead : Replica → List ℕ → Type 0
IsRead s bytes = ℤ.pos (length bytes) ≤ℤ read_len s

-- The loader comes to the end of the file as it then is: to no length word of 4 to 7, and to none that it takes for one.
abbrev pub IsLoadable : List ℕ → ℕ → Replica → Type 0
IsLoadable bytes now s =
    (f : List ℕ) → (write_transfer bytes now s).transfer_f ≡ some f → load_file f 0 ≢ none

read_len-bulk_buf : (s : Replica) → pos_part (read_len s) ≤ 4096
unfolding read_len
read_len-bulk_buf s = ground arith

write_transfer-IsSound :
    (bytes : List ℕ) (now : ℕ) (s : Replica)
    → IsSound s
    → IsBytes bytes
    → IsSound (write_transfer bytes now s)
unfolding write_transfer
write_transfer-IsSound bytes now s h b = record {
  reading = h.reading;
  writing = h.writing;
  bulk = h.bulk;
  linked = h.linked;
  written = kept s.transfer_f h.written;
  small = h.small;
}
  where
    kept :
        (t : Option (List ℕ))
        → ((f : List ℕ) → t ≡ some f → IsBytes f × (length f ≤ s.transfer_read))
        → (f : List ℕ) → elim t [ none ↦ none | some g ↦ some (g ++ bytes) ] ≡ some f
        → IsBytes f × (length f ≤ s.transfer_read + length bytes)
    kept none w f e = ground arith
    kept (some g) w f e =
        let (v, l) = w g refl in
        subst (λ (o : List ℕ). IsBytes o × (length o ≤ s.transfer_read + length bytes)) (some-inj e)
          (All-append _ g bytes v b, omega (arith, length-append g bytes))

module _ (decode : List ℕ → Features) where
  pub load_database-loaded :
      (contents : List ℕ) (d : Database)
      → load_file contents 0 ≢ none
      → (d' : Database) × (load_database decode contents d ≡ some d')
  unfolding load_database
  load_database-loaded contents d l = elim (Option-cases (load_file contents 0)) [
    | inl q ↦ absurd (l q)
    | inr (es, q) ↦ (parse_entries decode es d, rw (load_database, q) refl)
  ]

  finish_transfer-Continues :
      (contents : Option (List ℕ)) (s : Replica)
      → IsSound s
      → s.repl_state ≡ transfor
      → ((f : List ℕ) → contents ≡ some f → load_file f 0 ≢ none)
      → Continues (finish_transfer decode contents s)
  unfolding finish_transfer on_master
  finish_transfer-Continues none s h t w = abort_sync_transfer-Continues s h t
  finish_transfer-Continues (some f) s h t w =
      let (d, e) = load_database-loaded f (flush_database s.database) (w f refl) in
      rw (finish_transfer, e) (ground (arith, h.linked (rw t refl)))

  -- What the handler does with a read that recv can make, while a sound slave waits for the database.
  pub on_read_sync_bulk_payload-Continues :
      (bytes : List ℕ) (renamed : Bool) (now : ℕ) (s : Replica)
      → IsSound s
      → s.ev_io_r ≡ on_bulk
      → IsBytes bytes
      → IsRead s bytes
      → IsLoadable bytes now s
      → Continues (on_read_sync_bulk_payload decode bytes renamed now s)
  unfolding on_read_sync_bulk_payload write_transfer
  on_read_sync_bulk_payload-Continues [] renamed now s h r v l o =
      abort_sync_transfer-Continues s h (h.bulk r)
  on_read_sync_bulk_payload-Continues (b ∷ bs) renamed now s h r v l o =
      rw (fits (b ∷ bs) l) (elim (Bool-cases (is_size s'.transfer_read s'.transfer_size)) [
        | inl t ↦ rw t (
            finish_transfer-Continues (if renamed then s'.transfer_f else none) s' h' t'
              (loads renamed))
        | inr f ↦ rw f h'
      ])
    where
      s' : Replica
      s' = write_transfer (b ∷ bs) now s

      h' : IsSound s'
      h' = write_transfer-IsSound (b ∷ bs) now s h v

      t' : s'.repl_state ≡ transfor
      t' = h.bulk r

      fits : (bytes : List ℕ) → IsRead s bytes → ltb bulk_buf (length bytes) ≡ false
      fits bytes l = ground (arith, read_len-bulk_buf s)

      loads :
          (renamed : Bool) (f : List ℕ)
          → (if renamed then s'.transfer_f else none) ≡ some f
          → load_file f 0 ≢ none
      loads false f e = ground arith
      loads true f e = o f e
