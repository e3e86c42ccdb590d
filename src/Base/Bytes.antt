-- ===== src/Base/Bytes.antt =====
-- Numbers as little-endian bytes, the layout of the processor's words in memory.
use native.Mathlib.Nat.{pow-suc}
use lunatik_ng.Base.{
  ℕ, zero, suc, ◌+◌, ◌-◌, ◌*◌, ◌/◌, ◌%◌, ◌^◌, ◌<◌, ◌≡◌, refl, ap, List, [], ◌∷◌, ℤ, pos, negsuc,
  length, arith,
}

-- The low `w` bytes of a number, the lowest first.
abbrev pub le_bytes : (w : ℕ) → ℕ → List ℕ
le_bytes zero n = []
le_bytes (suc w) n = n % 256 ∷ le_bytes w (n / 256)

-- The word of `w` bytes that stands for an integer.
abbrev pub to_word : (w : ℕ) → ℤ → ℕ
to_word w (pos n) = n % 256 ^ w
to_word w (negsuc n) = 256 ^ w - 1 - n % 256 ^ w

pub length-le_bytes : (w n : ℕ) → length (le_bytes w n) ≡ w
length-le_bytes zero n = refl
length-le_bytes (suc w) n = ap suc (length-le_bytes w (n / 256))

abbrev pub le_value : List ℕ → ℕ
le_value [] = 0
le_value (b ∷ bs) = b + 256 * le_value bs

-- A number that fits `w` bytes is the value of its bytes.
pub le_value-le_bytes : (w n : ℕ) → n < 256 ^ w → le_value (le_bytes w n) ≡ n
le_value-le_bytes zero n h = omega arith
le_value-le_bytes (suc w) n h = omega (arith, le_value-le_bytes w (n / 256) (less w n h))
  where
    less : (w n : ℕ) → n < 256 ^ suc w → n / 256 < 256 ^ w
    less w n h = omega (arith, pow-suc 256 w)
