-- ===== src/AofName/Directory.antt =====
-- The list of the append-only files of a directory.
use naruto.Prelude.{
  ℕ, ◌^◌, ◌<◌, ◌≡◌, refl, ap, ◌∙◌, inl, inr, true, none, some, List, [], ◌∷◌, map, ltb, leb,
  if◌then◌else◌, sort_by, insert_by, arith, Bool-cases, All,
}
use naruto.Prelude.Int.{ℤ, ◌+ℤ◌}
use naruto.Prelude.Maps.{String}
use naruto.AofName.{DirEntry, has_aof, is_wanted, sort_key, parse_file_name, list_entries, list_aof}
use naruto.AofName.Names.{aof_name, parse_file_name-aof_name}

-- A directory with the files of some numbers, and what is listed of each.
abbrev pub numbered : List ℕ → List DirEntry
numbered = map (λ n. (aof_name n, true))

abbrev listed : ℕ → ℤ × String
listed n = (ℤ.pos n, aof_name n)

-- The numbers from a on.
unfoldable pub from_number : ℕ → List ℕ → List ℕ
from_number a [] = []
from_number a (n ∷ ns) = if leb a n then n ∷ from_number a ns else from_number a ns

insert_by-map :
    (n : ℕ) (ns : List ℕ)
    → insert_by sort_key (listed n) (map listed ns) ≡ map listed (insert_by (λ m. m) n ns)
unfolding insert_by ◌+ℤ◌
insert_by-map n [] = refl
insert_by-map n (m ∷ ns) = elim (Bool-cases (ltb m n)) [
  | inl t ↦ rw (same m n ∙ t, t) (ap (λ es. listed m ∷ es) (insert_by-map n ns))
  | inr f ↦ rw (same m n ∙ f, f) refl
]
  where
    same : (m n : ℕ) → ltb (sort_key (listed m)) (sort_key (listed n)) ≡ ltb m n
    same m n = ground arith

sort_by-map : (ns : List ℕ) → sort_by sort_key (map listed ns) ≡ map listed (sort_by (λ m. m) ns)
unfolding sort_by
sort_by-map [] = refl
sort_by-map (n ∷ ns) =
    ap (insert_by sort_key (listed n)) (sort_by-map ns) ∙ insert_by-map n (sort_by (λ m. m) ns)

list_entries-numbered :
    (a : ℕ) (ns : List ℕ)
    → All (λ n. n < 2 ^ 31) ns
    → list_entries (ℤ.pos a) (numbered ns) ≡ some (map listed (from_number a ns))
unfolding list_entries from_number has_aof
list_entries-numbered a [] h = refl
list_entries-numbered a (n ∷ ns) h = elim (Bool-cases (leb a n)) [
  | inl t ↦
      rw (parse_file_name-aof_name n h.0, wanted a n ∙ t, list_entries-numbered a ns h.1, t) refl
  | inr f ↦
      rw (parse_file_name-aof_name n h.0, wanted a n ∙ f, list_entries-numbered a ns h.1, f) refl
]
  where
    wanted : (a n : ℕ) → is_wanted (ℤ.pos a) (ℤ.pos n) ≡ leb a n
    wanted a n = ground arith

name_of_listed : (ns : List ℕ) → map (λ (e : ℤ × String). e.1) (map listed ns) ≡ map aof_name ns
name_of_listed [] = refl
name_of_listed (n ∷ ns) = ap (λ es. aof_name n ∷ es) (name_of_listed ns)

-- In a directory of numbered files, listAof from the file a on gives the names of all that have a number of
-- a or more, in ascending order. The numbers are ints.
pub list_aof-numbered :
    (a : ℕ) (ns : List ℕ)
    → a < 2 ^ 31
    → All (λ n. n < 2 ^ 31) ns
    → list_aof (numbered ns) (aof_name a)
      ≡ some (map aof_name (sort_by (λ n. n) (from_number a ns)))
unfolding list_aof
list_aof-numbered a ns l h =
    rw
      (
        list_aof,
        parse_file_name-aof_name a l,
        list_entries-numbered a ns h,
        sort_by-map (from_number a ns),
      )
      (ap some (name_of_listed (sort_by (λ n. n) (from_number a ns))))

-- The bug: a regular file whose name has "aof" in it and no number behind its last point ends listAof with
-- an exception.
pub list_aof-throws :
    (dir : List DirEntry) (name after : String)
    → has_aof name ≡ true
    → parse_file_name name ≡ none
    → list_aof ((name, true) ∷ dir) after ≡ none
unfolding list_aof list_entries
list_aof-throws dir name after h e = ground arith
