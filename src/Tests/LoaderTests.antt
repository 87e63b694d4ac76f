-- ===== src/Tests/LoaderTests.antt =====
-- The loader of files of packs: runs on concrete inputs.
use naruto.Prelude.{
  none, ◌⊎◌, ℕ, ◌<◌, ◌≡◌, refl, some, List, [], ◌∷◌, ◌++◌, replicate, length-replicate,
  All-replicate, arith,
}
use naruto.Codec.{le_bytes}
use naruto.Loader.{Entry, load_file}
use naruto.Loader.Drain.{IsEntry, pack_of}
use naruto.Loader.Whole.{load_file-file_of}
use naruto.Loader.Straddle.{load_file_straddle}
use naruto.Loader.Total.{Crashes, load_file_total}
use naruto.Bytes.{new}

abbrev hset : Entry
hset = record { flag = 0; type = 2000; body = 1 ∷ 2 ∷ 3 ∷ [] }

abbrev empty_entry : Entry
empty_entry = record { flag = 0; type = 3; body = [] }

-- Two packs behind an offset of two bytes.
load_file-file_of_example :
    load_file (9 ∷ 9 ∷ (pack_of hset ++ (pack_of empty_entry ++ []))) 2
    ≡ some (hset ∷ empty_entry ∷ [])
unfolding le_bytes
load_file-file_of_example =
    load_file-file_of (9 ∷ 9 ∷ []) [] (hset ∷ empty_entry ∷ []) tt (omega arith) (omega arith)
      (omega arith)

-- One command with 5000 bytes.
abbrev large : Entry
large = record { flag = 0; type = 2000; body = replicate 5000 7 }

large-IsEntry : IsEntry large
large-IsEntry = (
  refl,
  omega arith,
  All-replicate (λ b. b < 256) 5000 7 (omega arith),
  omega (arith, length-replicate {A = ℕ} 5000 7),
)

load_file_straddle_example : load_file (pack_of large) 0 ≡ some []
load_file_straddle_example =
    load_file_straddle large large-IsEntry (omega (arith, length-replicate {A = ℕ} 5000 7))
      (omega (arith, length-replicate {A = ℕ} 5000 7)) (omega arith)

-- A length word of 5 in front of three bytes.
load_file_total_example :
    ((es : List Entry) × (load_file (5 ∷ 0 ∷ 0 ∷ 0 ∷ 1 ∷ 2 ∷ 3 ∷ []) 0 ≡ some es))
    ⊎ ((load_file (5 ∷ 0 ∷ 0 ∷ 0 ∷ 1 ∷ 2 ∷ 3 ∷ []) 0 ≡ none)
        × Crashes (5 ∷ 0 ∷ 0 ∷ 0 ∷ 1 ∷ 2 ∷ 3 ∷ []) new)
load_file_total_example =
    load_file_total (5 ∷ 0 ∷ 0 ∷ 0 ∷ 1 ∷ 2 ∷ 3 ∷ []) 0 (omega arith) (omega arith) (omega arith)
