-- ===== src/Limits/Tables.antt =====
-- The size of the array part of a table, by `computesizes` of lib/lunatik/ltable.c.
use lunatik_ng.Base.{
  ℕ, ◌+◌, ◌*◌, ◌/◌, ◌≤◌, ◌<◌, ◌≡◌, ◌⊎◌, inl, refl, Option, none, some, List, [], ◌∷◌, ◌&&◌, ltb,
  ◌==◌, if◌then◌else◌, arith, Bool, true, false,
}
use lunatik_ng.Limits.{sizes_loop, computesizes}

abbrev pub total : List ℕ → ℕ
total [] = 0
total (x ∷ xs) = x + total xs

-- There is no array part, or more than half of it is used; at most `narray` elements go there.
abbrev pub HalfUsed : ℕ → Option (ℕ × ℕ) → Type 0
HalfUsed narray none = ⊥
HalfUsed narray (some (na, n)) = ((n ≡ 0) ⊎ (n / 2 < na)) × (na ≤ narray)

HalfUsed-if :
    (narray : ℕ) (b : Bool) (o p : Option (ℕ × ℕ))
    → (b ≡ true → HalfUsed narray o)
    → (b ≡ false → HalfUsed narray p)
    → HalfUsed narray (if b then o else p)
HalfUsed-if narray true o p h g = h refl
HalfUsed-if narray false o p h g = g refl

-- The sizes behind a round.
counted-HalfUsed :
    (narray twotoi a x na n : ℕ)
    → a + x ≤ narray
    → HalfUsed narray (some (na, n))
    → let a' = if ltb 0 x then a + x else a in
      let optimal = ltb 0 x && ltb (twotoi / 2) a' in
      HalfUsed narray (some (if optimal then a' else na, if optimal then twotoi else n))
counted-HalfUsed narray twotoi a x na n fits so_far = ground arith

sizes_loop-HalfUsed :
    (nums : List ℕ) (narray twotoi a na n : ℕ)
    → a + total nums ≡ narray
    → (a < narray) ⊎ (narray ≡ 0)
    → HalfUsed narray (some (na, n))
    → HalfUsed narray (sizes_loop narray nums twotoi a na n)
unfolding sizes_loop
sizes_loop-HalfUsed [] narray twotoi a na n all more so_far = ground arith
sizes_loop-HalfUsed (x ∷ nums) narray twotoi a na n all more so_far =
    let a' = if ltb 0 x then a + x else a in
    let counted = counted-HalfUsed narray twotoi a x na n (omega arith) so_far in
    HalfUsed-if narray (ltb (twotoi / 2) narray) _ _
      (λ _.
        HalfUsed-if narray (a' == narray) _ _ (λ _. counted)
          λ differs.
            sizes_loop-HalfUsed nums narray (twotoi * 2) a' _ _ (ground arith) (inl (ground arith))
              counted)
      λ _. so_far

-- If the counts of the slices add up to `narray`, `computesizes` reads no count behind the last, and
-- returns an array part of which more than half is used, by at most `narray` elements, or none.
pub computesizes-HalfUsed :
    (nums : List ℕ) (narray : ℕ) → total nums ≡ narray → HalfUsed narray (computesizes nums narray)
unfolding computesizes
computesizes-HalfUsed nums narray all =
    sizes_loop-HalfUsed nums narray 1 0 0 0 (omega arith) (ground arith) (inl refl, omega arith)
