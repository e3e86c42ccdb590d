-- ===== src/Table/Rehash.antt =====
-- The counts that `rehash` of lib/lunatik/ltable.c takes before it resizes a table.
pub mod Counts
pub mod Slices
pub mod Sizes
use lunatik_ng.Base.{
  ℕ, zero, suc, ◌+◌, ◌-◌, ◌*◌, ◌^◌, Bool, true, false, ◌&&◌, Option, none, some, List, [], ◌∷◌, ℤ,
  pos, negsuc, ltb, leb, length, set, get_or, if◌then◌else◌,
}
use lunatik_ng.Limits.{ceillog2, computesizes}
use lunatik_ng.Table.{TValue, number, is_nil, is_int, Node, Table, sizenode}

-- An integral number that fits an `int`, -1 for any other key.
unfoldable pub arrayindex : TValue → ℤ
arrayindex (number n) = if is_int n then n else negsuc 0
arrayindex _ = negsuc 0

-- `nums[i]++`
abbrev pub increment : List ℕ → ℕ → List ℕ
increment nums i = set nums i (get_or nums i 0 + 1)

-- The test of `countint`; `MAXASIZE` is 2 ^ 26.
unfoldable pub in_range : ℤ → Option ℕ
in_range (negsuc _) = none
in_range (pos k) = if ltb 0 k && leb k (2 ^ 26) then some k else none

-- The counts and what is returned.
abbrev pub count_at : List ℕ → Option ℕ → List ℕ × ℕ
count_at nums none = (nums, 0)
count_at nums (some k) = (increment nums (ceillog2 k), 1)

unfoldable pub countint : TValue → List ℕ → List ℕ × ℕ
countint key nums = count_at nums (in_range (arrayindex key))

-- The inner loop of `numusearray`, over `n` elements: how many are not nil, and the rest.
unfoldable pub count_slice : (n : ℕ) → List TValue → ℕ × List TValue
count_slice zero vs = (0, vs)
count_slice (suc n) [] = (0, [])
count_slice (suc n) (v ∷ vs) =
    let (lc, rest) = count_slice n vs in (if is_nil v then lc else lc + 1, rest)

-- The outer loop, over the counts from the present slice on; `vs` are the elements from index `i` on.
-- The counts, and how many elements are counted.
unfoldable pub count_slices : (sizearray : ℕ) → List ℕ → (ttlg i : ℕ) → List TValue → List ℕ × ℕ
count_slices sizearray [] ttlg i vs = ([], 0)
count_slices sizearray (x ∷ nums) ttlg i vs =
    let lim = if ltb sizearray ttlg then sizearray else ttlg in
    let (lc, vs') = count_slice (lim + 1 - i) vs in
    let (nums', ause) =
      count_slices sizearray nums (ttlg * 2) (if leb i lim then lim + 1 else i) vs' in
    if ltb sizearray ttlg && ltb lim i then (x ∷ nums, 0) else ((x + lc) ∷ nums', lc + ause)

unfoldable pub numusearray : Table → List ℕ → List ℕ × ℕ
numusearray t nums = count_slices (length t.array) nums 1 1 t.array

-- The loop over the `n` first nodes, the last of them first: the counts, `totaluse` and `ause`.
unfoldable pub count_nodes : (n : ℕ) → (ℕ → Node) → List ℕ → List ℕ × ℕ × ℕ
count_nodes zero node nums = (nums, 0, 0)
count_nodes (suc n) node nums =
    let (counted, one) = countint (node n).i_key nums in
    let (nums', totaluse, ause) =
      count_nodes n node (if is_nil (node n).i_val then nums else counted) in
    if is_nil (node n).i_val then (nums', totaluse, ause) else (nums', totaluse + 1, ause + one)

-- What is added to `*pnasize` is the last.
unfoldable pub numusehash : Table → List ℕ → List ℕ × ℕ × ℕ
numusehash t nums = count_nodes (sizenode t) t.node nums

abbrev pub zeros : ℕ → List ℕ
zeros zero = []
zeros (suc n) = 0 ∷ zeros n

abbrev pub new_sizes : (totaluse : ℕ) → Option (ℕ × ℕ) → Option (ℕ × ℕ)
new_sizes totaluse none = none
new_sizes totaluse (some (na, nasize)) = some (nasize, totaluse - na)

-- `rehash` up to the call of `resize`: the new sizes of the array part and of the hash part. none is a
-- read behind the counts.
unfoldable pub rehash_sizes : Table → (ek : TValue) → Option (ℕ × ℕ)
rehash_sizes t ek =
    let (nums₁, ause) = numusearray t (zeros 27) in
    let (nums₂, hash_use, hash_ause) = numusehash t nums₁ in
    let (nums₃, one) = countint ek nums₂ in
    new_sizes (ause + hash_use + 1) (computesizes nums₃ (ause + hash_ause + one))
