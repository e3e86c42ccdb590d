-- ===== src/Crypto/Examples.antt =====
-- Runs of the functions of lib/lunatik/bindings/crypto.c.
use lunatik_ng.Base.{
  ℕ, ◌+◌, ◌^◌, ◌<◌, ◌≤◌, ◌≡◌, refl, ◌⊎◌, true, false, List, [], ◌∷◌, pos, negsuc, length,
}
use lunatik_ng.Crypto.{
  lua_error, done, too_few_bytes, no_hash, not_positive, not_enough_memory, filled,
  lunatik_get_random_bytes, lunatik_sha1,
}
use lunatik_ng.Crypto.Outcomes.{low_bits, lunatik_get_random_bytes-outcomes, lunatik_sha1-outcomes}

abbrev zeros : ℕ → ℕ
zeros i = 0

abbrev rising : ℕ → ℕ
rising i = i + 1

three_bytes : lunatik_get_random_bytes true zeros (pos 3) rising ≡ done (3 ∷ 2 ∷ 1 ∷ [])
unfolding lunatik_get_random_bytes
three_bytes = refl

-- The low 32 bits are what counts.
wrapped : lunatik_get_random_bytes true zeros (pos (2 ^ 32)) rising ≡ done []
unfolding lunatik_get_random_bytes
wrapped = refl

negative : lunatik_get_random_bytes true zeros (negsuc 0) rising ≡ lua_error not_positive
unfolding lunatik_get_random_bytes
negative = refl

-- A digest of two bytes.
abbrev two_digits : List ℕ → List ℕ
two_digits [] = 0 ∷ 0 ∷ []
two_digits (b ∷ bs) = b ∷ b ∷ []

lunatik_get_random_bytes-outcomes_example :
    ((low_bits (pos 3) < 2 ^ 31)
      × (((true ≡ true)
            × (lunatik_get_random_bytes true zeros (pos 3) rising ≡ done (filled 3 rising)))
          ⊎ ((true ≡ false)
              × (lunatik_get_random_bytes true zeros (pos 3) rising
                  ≡ lua_error not_enough_memory))))
    ⊎ ((2 ^ 31 ≤ low_bits (pos 3))
        × (lunatik_get_random_bytes true zeros (pos 3) rising ≡ lua_error not_positive))
lunatik_get_random_bytes-outcomes_example =
    lunatik_get_random_bytes-outcomes true zeros rising (pos 3)

two_digits_size : (bytes : List ℕ) → length (two_digits bytes) ≡ 2
two_digits_size [] = refl
two_digits_size (b ∷ bs) = refl

abbrev two_bytes : List ℕ
two_bytes = 7 ∷ 8 ∷ []

-- Only the first of two bytes is hashed.
first_byte : lunatik_sha1 true zeros 2 two_digits true two_bytes 0 ≡ (done (7 ∷ 7 ∷ []), 0)
unfolding lunatik_sha1
first_byte = refl

lunatik_sha1-outcomes_example :
    ((true ≡ false)
      × (lunatik_sha1 true zeros 2 two_digits true two_bytes 0 ≡ (lua_error no_hash, 0)))
    ⊎ ((true ≡ true)
        × (true ≡ true)
        × (b : ℕ) × (rest : List ℕ) × (two_bytes ≡ b ∷ rest)
        × (lunatik_sha1 true zeros 2 two_digits true two_bytes 0 ≡ (done (two_digits (b ∷ [])), 0)))
    ⊎ ((true ≡ true)
        × (true ≡ true)
        × (two_bytes ≡ [])
        × (lunatik_sha1 true zeros 2 two_digits true two_bytes 0 ≡ (too_few_bytes, 0)))
    ⊎ ((true ≡ true)
        × (true ≡ false)
        × (lunatik_sha1 true zeros 2 two_digits true two_bytes 0
            ≡ (lua_error not_enough_memory, 1)))
lunatik_sha1-outcomes_example =
    lunatik_sha1-outcomes true zeros 2 two_digits two_digits_size true two_bytes 0
