-- ===== src/Codec.antt =====
-- How a machine word lies in memory: little-endian, as on the hosts that the program is built for.
-- (utils/bytes.h copies values with memcpy and casts, so the order is the host's.)
use native.Mathlib.Nat.{pow-suc}
use naruto.Prelude.{
  ℕ, zero, suc, ◌+◌, ◌*◌, ◌/◌, ◌%◌, ◌^◌, ◌<◌, ◌≡◌, refl, List, [], ◌∷◌, length, IsBytes, arith, ap,
  ap₂, ◌∙◌,
}

-- The `w` bytes of the value `v`.
unfoldable pub le_bytes : ℕ → ℕ → List ℕ
le_bytes zero v = []
le_bytes (suc w) v = v % 256 ∷ le_bytes w (v / 256)

-- The value of a string of bytes.
unfoldable pub le_value : List ℕ → ℕ
le_value [] = 0
le_value (b ∷ bs) = b + 256 * le_value bs

pub length-le_bytes : (w v : ℕ) → length (le_bytes w v) ≡ w
unfolding le_bytes
length-le_bytes zero v = refl
length-le_bytes (suc w) v = omega (arith, length-le_bytes w (v / 256))

pub le_bytes-IsBytes : (w v : ℕ) → IsBytes (le_bytes w v)
unfolding le_bytes
le_bytes-IsBytes zero v = tt
le_bytes-IsBytes (suc w) v = (omega arith, le_bytes-IsBytes w (v / 256))

-- A value that fits the width is read back from its bytes.
pub le_value-le_bytes : (w v : ℕ) → v < 256 ^ w → le_value (le_bytes w v) ≡ v
unfolding le_bytes le_value
le_value-le_bytes zero v h = omega arith
le_value-le_bytes (suc w) v h =
    omega (arith, le_value-le_bytes w (v / 256) (omega (arith, pow-suc 256 w)))

-- A string of bytes is rebuilt from its value.
pub le_bytes-le_value : (bs : List ℕ) → IsBytes bs → le_bytes (length bs) (le_value bs) ≡ bs
unfolding le_bytes le_value
le_bytes-le_value [] h = refl
le_bytes-le_value (b ∷ bs) h = ap₂ ◌∷◌ (omega arith) (
    ap (le_bytes (length bs)) {x = (b + 256 * le_value bs) / 256} (omega arith)
    ∙ le_bytes-le_value bs h.1)

-- The value of `w` bytes fits in them.
pub le_value-lt : (bs : List ℕ) → IsBytes bs → le_value bs < 256 ^ length bs
unfolding le_value
le_value-lt [] h = omega arith
le_value-lt (b ∷ bs) h = grind (arith, pow-suc 256 (length bs), le_value-lt bs h.1)
