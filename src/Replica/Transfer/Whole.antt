-- ===== src/Replica/Transfer/Whole.antt =====
-- A transfer from its first read to its last.
use naruto.Prelude.{
  ℕ, ap, ◌∙◌, Option-cases, inl, inr, concat, ◌≢◌, ◌+◌, ◌≤◌, ◌<◌, ◌≡◌, refl, sym, subst, true,
  false, Option, none, some, List, [], ◌∷◌, ◌++◌, length, length-append, append_assoc, append-nil,
  All, arith, ltb,
}
use naruto.Prelude.Int.{ℤ}
use naruto.ReplState.{connected}
use naruto.Loader.{load_file}
use naruto.Restore.{Features, load_database, flush_database}
use naruto.Hset.{Database}
use naruto.Replica.{Replica, stopped, on_master}
use naruto.Replica.Transfer.{
  bulk_buf, is_size, write_transfer, finish_transfer, on_read_sync_bulk_payload,
}
use naruto.Replica.Transfer.Safety.{load_database-loaded}

-- What one call of recv can bring before the connection ends.
abbrev pub IsChunk : List ℕ → Type 0
IsChunk c = (1 ≤ length c) × (length c ≤ bulk_buf)

-- A slave that has received the file f of a database of n bytes.
pub record HasReceived (n : ℕ) (f : List ℕ) (d : Database) (s : Replica) : Type 0 where
  pub file : s.transfer_f ≡ some f
  pub read : s.transfer_read ≡ length f
  pub size : s.transfer_size ≡ ℤ.pos n
  pub old : s.database ≡ d
  pub linked : s.master ≢ none

-- A slave that has taken over the database of a file.
pub record HasLoaded (decode : List ℕ → Features) (contents : List ℕ) (d : Database) (t : Replica)
    : Type 0 where
  pub state : t.repl_state ≡ connected
  pub watch : t.ev_io_r ≡ stopped
  pub file : t.db_file ≡ contents
  pub loaded : load_database decode contents (flush_database d) ≡ some t.database

module _ (decode : List ℕ → Features) where
  -- The handler, for one read after the other; the renaming of the file succeeds.
  abbrev pub receive : List (List ℕ) → ℕ → Replica → Option Replica
  receive [] now s = some s
  receive (c ∷ cs) now s = elim (on_read_sync_bulk_payload decode c true now s) [
    | none ↦ none
    | some t ↦ receive cs now t
  ]

  abbrev pub IsLoaded : List ℕ → Database → Option Replica → Type 0
  IsLoaded contents d none = ⊥
  IsLoaded contents d (some t) = HasLoaded decode contents d t

  read_middle :
      (n : ℕ) (f : List ℕ) (d : Database) (c : List ℕ) (now : ℕ) (s : Replica)
      → HasReceived n f d s
      → IsChunk c
      → length f + length c < n
      → (t : Replica) × (on_read_sync_bulk_payload decode c true now s ≡ some t)
        × HasReceived n (f ++ c) d t
  unfolding on_read_sync_bulk_payload write_transfer
  read_middle n f d [] now s h k l = ground arith
  read_middle n f d (b ∷ bs) now s h k l = (
    write_transfer (b ∷ bs) now s,
    ground (arith, h.read, h.size),
    record {
      file = rw h.file refl;
      read = rw h.read (sym (length-append f (b ∷ bs)));
      size = h.size;
      old = h.old;
      linked = h.linked;
    },
  )

  read_last :
      (f : List ℕ) (d : Database) (c : List ℕ) (now : ℕ) (s : Replica)
      → HasReceived (length (f ++ c)) f d s
      → IsChunk c
      → load_file (f ++ c) 0 ≢ none
      → IsLoaded (f ++ c) d (on_read_sync_bulk_payload decode c true now s)
  unfolding on_read_sync_bulk_payload write_transfer finish_transfer on_master
  read_last f d [] now s h k v = ground arith
  read_last f d (b ∷ bs) now s h k v =
      let (d', e) = load_database-loaded decode (f ++ b ∷ bs) (flush_database d) v in
      elim (Option-cases s.master) [
        | inl q ↦ elim (h.linked q) [ ]
        | inr (m, q) ↦
            rw (finish_transfer, fits, full, h.file, h.old, e, q)
              (record { state = refl; watch = refl; file = refl; loaded = e })
      ]
    where
      fits : ltb bulk_buf (length (b ∷ bs)) ≡ false
      fits = ground arith

      full : is_size (s.transfer_read + length (b ∷ bs)) s.transfer_size ≡ true
      full = rw (h.read, h.size, length-append f (b ∷ bs)) (ground arith)

  receive_rest :
      (c : List ℕ) (cs : List (List ℕ)) (f g : List ℕ) (d : Database) (now : ℕ) (s : Replica)
      → f ++ concat (c ∷ cs) ≡ g
      → All IsChunk (c ∷ cs)
      → HasReceived (length g) f d s
      → load_file g 0 ≢ none
      → IsLoaded g d (receive (c ∷ cs) now s)
  receive_rest c [] f g d now s p (k, ks) h v =
      subst
        (λ (x : List ℕ).
          HasReceived (length x) f d s
          → load_file x 0 ≢ none
          → IsLoaded x d (receive (c ∷ []) now s))
        (ap (λ (x : List ℕ). f ++ x) (sym (append-nil c)) ∙ p)
        (λ h v. last _ (read_last f d c now s h k v)) h v
    where
      last :
          (o : Option Replica)
          → IsLoaded (f ++ c) d o
          → IsLoaded (f ++ c) d (elim o [ none ↦ none | some t ↦ some t ])
      last none w = w
      last (some t) w = w
  receive_rest c (c' ∷ cs) f g d now s p (k, ks) h v =
      let (t, e, h') = read_middle _ f d c now s h k (
        omega (
          arith,
          total,
          length-append c (c' ++ concat cs),
          length-append c' (concat cs),
          ks.0.0,
        )) in
      rw (receive, e)
        (receive_rest c' cs (f ++ c) g d now t (append_assoc f c (concat (c' ∷ cs)) ∙ p) ks h' v)
    where
      total : length f + length (concat (c ∷ c' ∷ cs)) ≡ length g
      total = sym (length-append f _) ∙ ap length p

  -- A slave with a master and an empty temporary file that is open, which expects as many bytes as the chunks have
  -- together, of 1 to 4096 bytes each, and whose file is renamed, ends connected, with the chunks' bytes as its dump,
  -- the elements that the loader reads from them as its database, and the watcher stopped. The loader reads
  -- the bytes to their end: it meets no length word of 4 to 7.
  pub receive-IsLoaded :
      (c : List ℕ) (cs : List (List ℕ)) (d : Database) (now : ℕ) (s : Replica)
      → All IsChunk (c ∷ cs)
      → HasReceived (length (concat (c ∷ cs))) [] d s
      → load_file (concat (c ∷ cs)) 0 ≢ none
      → IsLoaded (concat (c ∷ cs)) d (receive (c ∷ cs) now s)
  receive-IsLoaded c cs d now s k h v = receive_rest c cs [] _ d now s refl k h v
