-- ===== src/Crypto/Outcomes.antt =====
-- What the functions of lib/lunatik/bindings/crypto.c return, and in which errors they end.
use lunatik_ng.Base.{
  ℕ, zero, suc, ◌+◌, ◌-◌, ◌%◌, ◌^◌, ◌<◌, ◌≤◌, Bool-cases, ltb, ◌≡◌, ◌∙◌, ap, sym, refl, ◌⊎◌, inl,
  inr, Bool, true, false, some, List, [], ◌∷◌, ℤ, pos, negsuc, length, arith,
}
use lunatik_ng.Crypto.{
  lua_error, done, too_few_bytes, no_hash, not_positive, not_enough_memory, filled, write, low_int,
  to_int, lunatik_get_random_bytes, lunatik_sha1,
}

length-filled : (n : ℕ) (bytes : ℕ → ℕ) → length (filled n bytes) ≡ n
length-filled zero bytes = refl
length-filled (suc n) bytes = ap suc (length-filled n bytes)

write_all : (buf bytes : List ℕ) → length bytes ≡ length buf → write buf bytes ≡ some bytes
unfolding write
write_all [] [] e = refl
write_all (x ∷ xs) [] e = absurd (ground arith)
write_all [] (b ∷ bs) e = absurd (ground arith)
write_all (x ∷ xs) (b ∷ bs) e = let rest = write_all xs bs (omega arith) in ground arith

-- The number of bytes that are wanted, as the low 32 bits of the argument.
abbrev pub low_bits : ℤ → ℕ
low_bits (pos n) = n % 2 ^ 32
low_bits (negsuc n) = 2 ^ 32 - 1 - n % 2 ^ 32

to_int_lem : (number : ℤ) → to_int number ≡ low_int (low_bits number)
unfolding to_int
to_int_lem (pos n) = refl
to_int_lem (negsuc n) = refl

write-filled :
    (n : ℕ) (junk random : ℕ → ℕ) → write (filled n junk) (filled n random) ≡ some (filled n random)
write-filled n junk random =
    write_all (filled n junk) (filled n random)
      (length-filled n random ∙ sym (length-filled n junk))

module _ (memory : Bool) (junk random : ℕ → ℕ) where
  random_small :
      (number : ℤ) (low : ℕ)
      → to_int number ≡ pos low
      → ((memory ≡ true)
          × (lunatik_get_random_bytes memory junk number random ≡ done (filled low random)))
        ⊎ ((memory ≡ false)
            × (lunatik_get_random_bytes memory junk number random ≡ lua_error not_enough_memory))
  unfolding lunatik_get_random_bytes
  random_small number low e = elim (Bool-cases memory) [
    | inl got_it ↦ let wrote = write-filled low junk random in inl (got_it, ground arith)
    | inr empty ↦ inr (empty, ground arith)
  ]

  -- Random bytes never go behind the end of their buffer. If the low 32 bits of the argument are below
  -- 2 ^ 31 and there is memory, the result has that many bytes, all of them random; without memory an
  -- error is raised; and for other arguments the error for numbers that are not positive.
  pub lunatik_get_random_bytes-outcomes :
      (number : ℤ)
      → ((low_bits number < 2 ^ 31)
          × (((memory ≡ true)
                × (lunatik_get_random_bytes memory junk number random
                    ≡ done (filled (low_bits number) random)))
              ⊎ ((memory ≡ false)
                  × (lunatik_get_random_bytes memory junk number random
                      ≡ lua_error not_enough_memory))))
        ⊎ ((2 ^ 31 ≤ low_bits number)
            × (lunatik_get_random_bytes memory junk number random ≡ lua_error not_positive))
  unfolding low_int lunatik_get_random_bytes
  lunatik_get_random_bytes-outcomes number = elim (Bool-cases (ltb (low_bits number) (2 ^ 31))) [
    | inl small ↦
        let e : to_int number ≡ pos (low_bits number) = to_int_lem number ∙ ground arith in
        inl (ground arith, random_small number (low_bits number) e)
    | inr big ↦
        let e : to_int number ≡ negsuc (2 ^ 32 - low_bits number - 1) =
          to_int_lem number ∙ ground arith in
        inr (ground arith, ground arith)
  ]

module _ (memory : Bool) (junk : ℕ → ℕ) (digestsize : ℕ) (digest : List ℕ → List ℕ)
    (sized : (bytes : List ℕ) → length (digest bytes) ≡ digestsize) where
  -- The digest never goes behind the end of the new buffer. Without a hash transform an error is raised and
  -- none is left over. With one and with memory, none is left over either, and the result is the digest of
  -- the first byte of the buffer alone, whatever the rest is; for a buffer without bytes the hash is asked
  -- for a byte that is not there. Without memory an error is raised and the transform is never freed.
  pub lunatik_sha1-outcomes :
      (got : Bool) (buf : List ℕ) (transforms : ℕ)
      → ((got ≡ false)
          × (lunatik_sha1 memory junk digestsize digest got buf transforms
              ≡ (lua_error no_hash, transforms)))
        ⊎ ((got ≡ true)
            × (memory ≡ true)
            × (b : ℕ) × (rest : List ℕ) × (buf ≡ b ∷ rest)
            × (lunatik_sha1 memory junk digestsize digest got buf transforms
                ≡ (done (digest (b ∷ [])), transforms)))
        ⊎ ((got ≡ true)
            × (memory ≡ true)
            × (buf ≡ [])
            × (lunatik_sha1 memory junk digestsize digest got buf transforms
                ≡ (too_few_bytes, transforms)))
        ⊎ ((got ≡ true)
            × (memory ≡ false)
            × (lunatik_sha1 memory junk digestsize digest got buf transforms
                ≡ (lua_error not_enough_memory, transforms + 1)))
  unfolding lunatik_sha1
  lunatik_sha1-outcomes false buf transforms = inl (refl, refl)
  lunatik_sha1-outcomes true [] transforms = elim (Bool-cases memory) [
    | inl got_it ↦ inr (inr (inl (refl, got_it, refl, ground arith)))
    | inr empty ↦ inr (inr (inr (refl, empty, ground arith)))
  ]
  lunatik_sha1-outcomes true (b ∷ rest) transforms =
      let wrote =
        write_all (filled digestsize junk) (digest (b ∷ []))
          (sized (b ∷ []) ∙ sym (length-filled digestsize junk)) in
      elim (Bool-cases memory) [
        | inl got_it ↦ inr (inl (refl, got_it, b, rest, refl, ground arith))
        | inr empty ↦ inr (inr (inr (refl, empty, ground arith)))
      ]
