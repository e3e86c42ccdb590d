-- ===== src/Table/Rehash/Sizes.antt =====
-- The sizes that `rehash` of lib/lunatik/ltable.c computes from its counts.
use native.Mathlib.Nat.{pow-suc}
use lunatik_ng.Base.{
  ℕ, zero, suc, ◌+◌, ◌-◌, ◌*◌, ◌/◌, ◌^◌, ◌≤◌, ◌<◌, ◌≡◌, ◌⊎◌, inl, inr, refl, ◌&&◌, Option, none,
  some, List, [], ◌∷◌, ltb, length, if◌then◌else◌, arith, Bool-cases, Option-cases, sym, ◌∙◌, ap,
  ◌==◌, Bool, true, false,
}
use lunatik_ng.Limits.{sizes_loop, computesizes}
use lunatik_ng.Limits.Tables.{total}
use lunatik_ng.Table.{TValue, Node, Table, sizenode}
use lunatik_ng.Table.Rehash.{
  arrayindex, in_range, new_sizes, countint, numusearray, numusehash, zeros, rehash_sizes,
}
use lunatik_ng.Table.Rehash.Counts.{
  in_range_lem, countint-Adds, count_nodes-Adds, count_slices-Adds, count_slices_lem,
  count_nodes_lem, used, used_nodes, all_keys,
}
use lunatik_ng.Table.Rehash.Slices.{
  upto, used_first, below, below_nodes, int_below, upto-countint, upto-count_nodes,
  upto-count_slices,
}

zero_plus : (n : ℕ) → 0 + n ≡ n
zero_plus n = omega arith

upto-zeros : (m n : ℕ) → upto m (zeros n) ≡ 0
upto-zeros zero n = refl
upto-zeros (suc m) zero = refl
upto-zeros (suc m) (suc n) = let rest = upto-zeros m n in omega arith

-- There is no array part, or it has 2 ^ d elements, and `na` is the sum of the counts of the slices up to
-- `d`, more than half of these elements.
abbrev Picks : List ℕ → Option (ℕ × ℕ) → Type 0
Picks all none = ⊥
Picks all (some (na, n)) =
    ((n ≡ 0) × (na ≡ 0))
    ⊎ ((d : ℕ) × (d < length all) × (n ≡ 2 ^ d) × (na ≡ upto (suc d) all) × (n / 2 < na))

Picks-if :
    (all : List ℕ) (b : Bool) (o p : Option (ℕ × ℕ))
    → (b ≡ true → Picks all o)
    → (b ≡ false → Picks all p)
    → Picks all (if b then o else p)
Picks-if all true o p h g = h refl
Picks-if all false o p h g = g refl

module _ (all : List ℕ) (narray : ℕ) where
  counted-Picks :
      (e twotoi a x na n : ℕ)
      → twotoi ≡ 2 ^ e
      → e < length all
      → a + x ≡ upto (suc e) all
      → Picks all (some (na, n))
      → let a' = if ltb 0 x then a + x else a in
        let optimal = ltb 0 x && ltb (twotoi / 2) a' in
        Picks all (some (if optimal then a' else na, if optimal then twotoi else n))
  counted-Picks e twotoi a x na n power lt sum so_far = elim (Bool-cases (ltb 0 x)) [
    | inr zero_count ↦ rw zero_count so_far
    | inl some_count ↦ elim (Bool-cases (ltb (twotoi / 2) (a + x))) [
      | inl optimal ↦ rw (some_count, optimal) (inr (e, lt, power, sum, ground arith))
      | inr no_better ↦ rw (some_count, no_better) so_far
    ]
  ]

  sizes_loop-Picks :
      (nums : List ℕ) (e twotoi a na n : ℕ)
      → twotoi ≡ 2 ^ e
      → e + length nums ≡ length all
      → ((j : ℕ) → a + upto j nums ≡ upto (e + j) all)
      → a + total nums ≡ narray
      → (a < narray) ⊎ (narray ≡ 0)
      → Picks all (some (na, n))
      → Picks all (sizes_loop narray nums twotoi a na n)
  unfolding sizes_loop
  sizes_loop-Picks [] e twotoi a na n power within sums adds more so_far =
      Picks-if all (ltb (twotoi / 2) narray) _ _ (λ h. absurd (ground arith)) λ _. so_far
  sizes_loop-Picks (x ∷ nums) e twotoi a na n power within sums adds more so_far =
      let a' = if ltb 0 x then a + x else a in
      let one : upto 1 (x ∷ nums) ≡ x = omega arith in
      let at : e + 1 ≡ suc e = omega arith in
      let here : a + x ≡ upto (suc e) all =
        ap (λ y. a + y) (sym one) ∙ sums 1 ∙ ap (λ m. upto m all) at in
      let counted = counted-Picks e twotoi a x na n power (omega arith) here so_far in
      let double = pow-suc 2 e in
      Picks-if all (ltb (twotoi / 2) narray) _ _
        (λ _.
          Picks-if all (a' == narray) _ _ (λ _. counted)
            λ differs.
              sizes_loop-Picks nums (suc e) (twotoi * 2) a' _ _ (omega arith) (omega arith)
                (λ j.
                  let shape : e + suc j ≡ suc e + j = omega arith in
                  let step = sums (suc j) ∙ ap (λ m. upto m all) shape in ground arith)
                (ground arith) (inl (ground arith)) counted)
        λ _. so_far

used_first_le : (n : ℕ) (vs : List TValue) → used_first n vs ≤ used vs
used_first_le zero vs = omega arith
used_first_le (suc n) [] = omega arith
used_first_le (suc n) (v ∷ vs) = let rest = used_first_le n vs in omega arith

below_le : (m : ℕ) (key : TValue) → below m key ≤ 1
below_le m key = ground arith

below_nodes_le : (m n : ℕ) (node : ℕ → Node) → below_nodes m n node ≤ used_nodes n node
below_nodes_le m zero node = omega arith
below_nodes_le m (suc n) node = ground (arith, below_nodes_le m n node, below_le m (node n).i_key)

below-zero : (key : TValue) → below 0 key ≡ 0
below-zero key = elim (Option-cases (in_range (arrayindex key))) [
  | inl none_there ↦ ground arith
  | inr (k, there) ↦
      let (positive, _) = in_range_lem (zeros 27) (omega arith) (arrayindex key) k there in
      ground arith
]

below_nodes-zero : (n : ℕ) (node : ℕ → Node) → below_nodes 0 n node ≡ 0
below_nodes-zero zero node = refl
below_nodes-zero (suc n) node = ground (arith, below_nodes-zero n node, below-zero (node n).i_key)

-- The array part is empty, or its size is a power of two and more than half of its elements are for
-- integer keys; the hash part has a node for each key that does not lie in the array part.
abbrev pub SizesFit : Table → TValue → Option (ℕ × ℕ) → Type 0
SizesFit t ek none = ⊥
SizesFit t ek (some (nasize, nhsize)) =
    ((nasize ≡ 0) ⊎ ((d : ℕ) × (nasize ≡ 2 ^ d) × (nasize / 2 < int_below nasize t ek)))
    × (nhsize + int_below nasize t ek ≡ all_keys t)

new_sizes-SizesFit :
    (t : Table) (ek : TValue) (nums : List ℕ) (totaluse : ℕ) (sizes : Option (ℕ × ℕ))
    → length nums ≡ 27
    → ((d : ℕ) → d < 27 → upto (suc d) nums ≡ int_below (2 ^ d) t ek)
    → totaluse ≡ all_keys t
    → Picks nums sizes
    → SizesFit t ek (new_sizes totaluse sizes)
new_sizes-SizesFit t ek nums totaluse none len sums all h = h
new_sizes-SizesFit t ek nums totaluse (some (na, n)) len sums all (inl (no_array, unused)) =
    let nothing : int_below n t ek ≡ 0 =
      ap (λ m. int_below m t ek) no_array
      ∙ omega (arith, below_nodes-zero (sizenode t) t.node, below-zero ek) in
    (inl no_array, omega arith)
new_sizes-SizesFit t ek nums totaluse (some (na, n)) len sums all (inr (d, lt, power, sum, half)) =
    let same : na ≡ int_below n t ek =
      sum ∙ sums d (omega arith) ∙ ap (λ m. int_below m t ek) (sym power) in
    let a = used_first_le n t.array in
    let b = below_nodes_le n (sizenode t) t.node in
    let c = below_le n ek in (inr (d, power, omega arith), omega arith)

-- `rehash` reads no count behind the last, and computes sizes for the keys of the table and the new key: the
-- new array part is empty, or its size is a power of two and more than half of its elements are for
-- integer keys that are there; and the new hash part has room for exactly the keys that are no integers
-- from 1 to the size of the array part. The array part has at most 2 ^ 26 elements.
pub rehash_sizes-SizesFit :
    (t : Table) (ek : TValue) → length t.array ≤ 2 ^ 26 → SizesFit t ek (rehash_sizes t ek)
unfolding rehash_sizes numusearray numusehash computesizes
rehash_sizes-SizesFit t ek small =
    let start = zeros 27 in
    let nums₁ = (numusearray t start).0 in
    let (l₁, s₁) = count_slices-Adds (length t.array) start 1 1 t.array in
    let counted =
      count_slices_lem (length t.array) start 0 1 1 t.array refl (omega arith) small refl
        (inl refl) in
    let (l₂, s₂) = count_nodes-Adds (sizenode t) t.node nums₁ (omega arith) in
    let (u, i) = count_nodes_lem (sizenode t) t.node nums₁ in
    let nums₂ = (numusehash t nums₁).0 in
    let (l₃, s₃) = countint-Adds nums₂ (omega arith) ek in
    let nums₃ = (countint ek nums₂).0 in
    let array_use = (numusearray t start).1 in
    let hash_use = (numusehash t nums₁).1 in
    let hash_ause = (numusehash t nums₁).2 in
    let narray = array_use + hash_ause + (countint ek nums₂).1 in
    new_sizes-SizesFit t ek nums₃ (array_use + hash_use + 1) (computesizes nums₃ narray)
      (omega arith)
      (λ d lt.
        let in_array =
          upto-count_slices (length t.array) start 0 1 1 d t.array refl (omega arith) (inl refl)
            lt in
        let in_nodes = upto-count_nodes (sizenode t) t.node nums₁ d (omega arith) in
        let in_new = upto-countint ek nums₂ d (omega arith) in
        let empty = upto-zeros (suc d) 27 in
        let whole : 2 ^ (0 + d) + 1 - 1 ≡ 2 ^ d =
          ap (λ m. 2 ^ m + 1 - 1) (zero_plus d) ∙ omega arith in
        let first = ap (λ m. used_first m t.array) whole in omega arith)
      (omega (arith, counted, u))
      (sizes_loop-Picks nums₃ narray nums₃ 0 1 0 0 0 refl (omega arith)
        (λ j. zero_plus (upto j nums₃) ∙ ap (λ m. upto m nums₃) (sym (zero_plus j))) (omega arith)
        (ground arith) (inl (refl, refl)))
