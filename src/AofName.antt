-- ===== src/AofName.antt =====
-- utils/file.cpp: the names of the append-only files and the files of a directory. A name is its bytes.
-- An answer `none` is an exception of std::stoi.
pub mod Names
pub mod Directory
use naruto.Prelude.{
  ℕ, zero, suc, ◌+◌, ◌-◌, ◌*◌, ◌/◌, ◌%◌, ◌^◌, Bool, true, false, ◌&&◌, ◌||◌, not, Option, none,
  some, List, [], ◌∷◌, ◌++◌, map, ltb, leb, ◌==◌, if◌then◌else◌, sort_by,
}
use mathlib.Core.Option
use naruto.Prelude.Int.{ℤ, ◌+ℤ◌, pos_part, ltb_ℤ}
use naruto.Prelude.Maps.{String}
use naruto.Psync.{is_empty}

abbrev pub is_digit : ℕ → Bool
is_digit c = leb 48 c && leb c 57

-- std::isspace
abbrev pub is_space : ℕ → Bool
is_space c = (c == 32) || (leb 9 c && leb c 13)

unfoldable pub skip_spaces : String → String
skip_spaces [] = []
skip_spaces (c ∷ s) = if is_space c then skip_spaces s else c ∷ s

-- The number that the digits at the start of a text stand for.
unfoldable pub read_digits : ℕ → String → ℕ
read_digits n [] = n
read_digits n (c ∷ s) = if is_digit c then read_digits (n * 10 + (c - 48)) s else n

unfoldable pub unsigned_value : String → Option ℕ
unsigned_value [] = none
unsigned_value (c ∷ s) = if is_digit c then some (read_digits 0 (c ∷ s)) else none

-- The range of an int.
abbrev pub positive : ℕ → Option ℤ
positive n = if ltb n (2 ^ 31) then some (ℤ.pos n) else none

abbrev pub negative : ℕ → Option ℤ
negative zero = some (ℤ.pos 0)
negative (suc n) = if ltb n (2 ^ 31) then some (ℤ.negsuc n) else none

abbrev pub stoi_from : String → Option ℤ
stoi_from [] = none
stoi_from (c ∷ s) =
    if c == 45
    then elim (unsigned_value s) [ none ↦ none | some n ↦ negative n ]
    else (if c == 43
        then elim (unsigned_value s) [ none ↦ none | some n ↦ positive n ]
        else elim (unsigned_value (c ∷ s)) [ none ↦ none | some n ↦ positive n ])

-- std::stoi
unfoldable pub stoi : String → Option ℤ
stoi s = stoi_from (skip_spaces s)

-- v.substr(v.find_last_of('.') + 1), if there is a point.
unfoldable pub after_last_dot : String → Option String
after_last_dot [] = none
after_last_dot (c ∷ s) = elim (after_last_dot s) [
  | some r ↦ some r
  | none ↦ if c == 46 then some s else none
]

unfoldable pub parse_file_name : String → Option ℤ
parse_file_name v = elim (after_last_dot v) [ none ↦ some (ℤ.negsuc 0) | some i ↦ stoi i ]

-- std::to_string; ten digits are enough for an int.
unfoldable pub decimal : ℕ → ℕ → String
decimal zero n = []
decimal (suc fuel) n = elim (ltb n 10) [
  | true ↦ (48 + n) ∷ []
  | false ↦ decimal fuel (n / 10) ++ (48 + n % 10) ∷ []
]

unfoldable pub to_string : ℤ → String
to_string (ℤ.pos n) = decimal 10 n
to_string (ℤ.negsuc n) = 45 ∷ decimal 10 (suc n)

-- "naruto.aof."
abbrev pub with_prefix : String → String
with_prefix s = 110 ∷ 97 ∷ 114 ∷ 117 ∷ 116 ∷ 111 ∷ 46 ∷ 97 ∷ 111 ∷ 102 ∷ 46 ∷ s

-- idx == -1
abbrev pub is_error : ℤ → Bool
is_error (ℤ.pos n) = false
is_error (ℤ.negsuc zero) = true
is_error (ℤ.negsuc (suc n)) = false

unfoldable pub next_aof : String → Option String
next_aof aofname = elim (parse_file_name aofname) [
  | none ↦ none
  | some idx ↦ some (if is_error idx then [] else with_prefix (to_string (idx +ℤ ℤ.pos 1)))
]

-- The answer is the new name, if there is such a file.
unfoldable pub has_next_aof : (String → Option ℕ) → String → Option (Option String)
has_next_aof size_of aofname = elim (next_aof aofname) [
  | none ↦ none
  | some [] ↦ some none
  | some (c ∷ s) ↦ some (elim (size_of (c ∷ s)) [ none ↦ none | some size ↦ some (c ∷ s) ])
]

-- name.find("aof") != npos
abbrev pub starts_aof : String → Bool
starts_aof (a ∷ o ∷ f ∷ s) = (a == 97) && (o == 111) && (f == 102)
starts_aof _ = false

unfoldable pub has_aof : String → Bool
has_aof [] = false
has_aof (c ∷ s) = starts_aof (c ∷ s) || has_aof s

-- An entry of a directory: its name, and whether it is a regular file.
abbrev pub DirEntry : Type 0
DirEntry = String × Bool

abbrev pub is_wanted : ℤ → ℤ → Bool
is_wanted after_idx idx = not (is_error idx) && (is_error after_idx || not (ltb_ℤ idx after_idx))

-- The loop over the directory, with the number of each name that it takes.
unfoldable pub list_entries : ℤ → List DirEntry → Option (List (ℤ × String))
list_entries after_idx [] = some []
list_entries after_idx ((name, regular) ∷ dir) =
    let rest = list_entries after_idx dir in
    if regular && has_aof name
    then (elim (parse_file_name name) [
      | none ↦ none
      | some idx ↦
          if is_wanted after_idx idx then Option.map (λ es. (idx, name) ∷ es) rest else rest
    ])
    else rest

-- The order of ints, as one of numbers.
abbrev pub sort_key : ℤ × String → ℕ
sort_key (idx, name) = pos_part (idx +ℤ ℤ.pos (2 ^ 31))

-- What is appended to `list`, and sorted by number.
unfoldable pub list_aof : List DirEntry → String → Option (List String)
list_aof dir after = elim (if is_empty after then some (ℤ.negsuc 0) else parse_file_name after) [
  | none ↦ none
  | some after_idx ↦
      Option.map (λ es. map (λ (e : ℤ × String). e.1) (sort_by sort_key es))
        (list_entries after_idx dir)
]
