-- ===== src/Table/Rehash/Counts.antt =====
-- What the counts of `rehash` of lib/lunatik/ltable.c add up to.
use native.Mathlib.Nat.{pow-le-pow_right, pow-suc}
use mathlib.Core.Path.{subst}
use lunatik_ng.Base.{
  ℕ, zero, suc, ◌+◌, ◌-◌, ◌*◌, ◌/◌, ◌^◌, ◌≤◌, ◌<◌, ◌≡◌, ◌⊎◌, inl, inr, refl, ◌&&◌, none, some, List,
  [], ◌∷◌, ℤ, pos, negsuc, ltb, leb, length, if◌then◌else◌, arith, Bool-cases, Option-cases, leb→le,
  length-set, sym, ◌∙◌, ap,
}
use lunatik_ng.Limits.{ceillog2}
use lunatik_ng.Limits.Logarithm.{ceillog2-bounds}
use lunatik_ng.Limits.Tables.{total}
use lunatik_ng.Table.{TValue, is_nil, Node, Table, sizenode}
use lunatik_ng.Table.Rehash.{
  arrayindex, increment, in_range, count_at, countint, count_slice, count_slices, count_nodes,
}

total-increment :
    (nums : List ℕ) (i : ℕ) → i < length nums → total (increment nums i) ≡ total nums + 1
total-increment [] i lt = absurd (omega arith)
total-increment (x ∷ nums) zero lt = omega arith
total-increment (x ∷ nums) (suc i) lt = omega (arith, total-increment nums i (omega arith))

-- The slice of an index lies below the 27 that are counted.
pub ceillog2_lt : (k : ℕ) → 0 < k → k ≤ 2 ^ 26 → ceillog2 k < 27
ceillog2_lt k positive small =
    let (_, below) = ceillog2-bounds k positive (omega arith) in
    elim (Bool-cases (leb 27 (ceillog2 k))) [
      | inl large ↦
          let grows : 2 ^ 27 ≤ 2 ^ ceillog2 k =
            pow-le-pow_right {n = 2} (omega arith) (leb→le 27 (ceillog2 k) large) in
          absurd (omega arith)
      | inr h ↦ ground arith
    ]

-- The counts of a key or of several: their number is kept, and their sum grows by what is returned.
abbrev pub Adds : List ℕ → List ℕ → ℕ → Type 0
Adds nums nums' n = (length nums' ≡ length nums) × (total nums' ≡ total nums + n)

module _ (nums : List ℕ) (enough : 27 ≤ length nums) where
  pub in_range_lem : (i : ℤ) (k : ℕ) → in_range i ≡ some k → (0 < k) × (k ≤ 2 ^ 26)
  unfolding in_range
  in_range_lem (negsuc n) k e = ground arith
  in_range_lem (pos n) k e = ground arith

  pub countint-Adds : (key : TValue) → Adds nums (countint key nums).0 (countint key nums).1
  unfolding countint
  countint-Adds key = elim (Option-cases (in_range (arrayindex key))) [
    | inl e ↦
        subst (λ o. Adds nums (count_at nums o).0 (count_at nums o).1) (sym e) (refl, omega arith)
    | inr (k, e) ↦
        let (positive, small) = in_range_lem (arrayindex key) k e in
        let lt = ceillog2_lt k positive small in
        subst (λ o. Adds nums (count_at nums o).0 (count_at nums o).1) (sym e)
          (length-set nums (ceillog2 k) _, total-increment nums (ceillog2 k) (omega arith))
  ]

pub count_nodes-Adds :
    (n : ℕ) (node : ℕ → Node) (nums : List ℕ)
    → 27 ≤ length nums
    → Adds nums (count_nodes n node nums).0 (count_nodes n node nums).2
unfolding count_nodes
count_nodes-Adds zero node nums enough = (refl, omega arith)
count_nodes-Adds (suc n) node nums enough =
    let (l, s) = countint-Adds nums enough (node n).i_key in
    elim (Bool-cases (is_nil (node n).i_val)) [
      | inl empty ↦ rw empty (count_nodes-Adds n node nums enough)
      | inr full ↦
          let (l', s') = count_nodes-Adds n node (countint (node n).i_key nums).0 (omega arith) in
          rw full (l' ∙ l, omega arith)
    ]

pub count_slices-Adds :
    (size : ℕ) (nums : List ℕ) (ttlg i : ℕ) (vs : List TValue)
    → Adds nums (count_slices size nums ttlg i vs).0 (count_slices size nums ttlg i vs).1
unfolding count_slices
count_slices-Adds size [] ttlg i vs = (refl, refl)
count_slices-Adds size (x ∷ nums) ttlg i vs =
    let lim = if ltb size ttlg then size else ttlg in
    let next = if leb i lim then lim + 1 else i in
    let (l, s) = count_slices-Adds size nums (ttlg * 2) next (count_slice (lim + 1 - i) vs).1 in
    elim (Bool-cases (ltb size ttlg && ltb lim i)) [
      | inl over ↦ rw over (refl, omega arith)
      | inr within ↦ rw within (omega arith, omega arith)
    ]

-- How many values are not nil.
abbrev pub used : List TValue → ℕ
used [] = 0
used (v ∷ vs) = (if is_nil v then 0 else 1) + used vs

-- How many of the first `n` nodes have a value, and how many of these a key for the array part.
abbrev pub used_nodes : ℕ → (ℕ → Node) → ℕ
used_nodes zero node = 0
used_nodes (suc n) node = (if is_nil (node n).i_val then 0 else 1) + used_nodes n node

abbrev pub is_index : TValue → ℕ
is_index key = elim (in_range (arrayindex key)) [ none ↦ 0 | some _ ↦ 1 ]

abbrev pub index_nodes : ℕ → (ℕ → Node) → ℕ
index_nodes zero node = 0
index_nodes (suc n) node =
    (if is_nil (node n).i_val then 0 else is_index (node n).i_key) + index_nodes n node

pub count_slice_lem :
    (n : ℕ) (vs : List TValue)
    → (used vs ≡ (count_slice n vs).0 + used (count_slice n vs).1)
      × (length (count_slice n vs).1 ≡ length vs - n)
unfolding count_slice
count_slice_lem zero vs = (omega arith, omega arith)
count_slice_lem (suc n) [] = (omega arith, omega arith)
count_slice_lem (suc n) (v ∷ vs) = let h = count_slice_lem n vs in ground arith

used-nil : (vs : List TValue) → length vs ≡ 0 → used vs ≡ 0
used-nil [] e = refl
used-nil (v ∷ vs) e = absurd (omega arith)

-- The slices from `i` on have all the values that are left; `e` slices are done.
pub count_slices_lem :
    (size : ℕ) (nums : List ℕ) (e ttlg i : ℕ) (vs : List TValue)
    → ttlg ≡ 2 ^ e
    → length vs ≡ size + 1 - i
    → size ≤ 2 ^ 26
    → e + length nums ≡ 27
    → (i ≡ ttlg / 2 + 1) ⊎ (size < i)
    → (count_slices size nums ttlg i vs).1 ≡ used vs
unfolding count_slices
count_slices_lem size [] e ttlg i vs power left small done place =
    let all : e ≡ 27 = omega arith in
    let last : ttlg ≡ 2 ^ 27 = power ∙ ap (λ n. 2 ^ n) all in sym (used-nil vs (ground arith))
count_slices_lem size (x ∷ nums) e ttlg i vs power left small done place =
    let lim = if ltb size ttlg then size else ttlg in
    let next = if leb i lim then lim + 1 else i in
    let (split, len) = count_slice_lem (lim + 1 - i) vs in
    let p = pow-suc 2 e in
    let positive : 1 ≤ 2 ^ e = pow-le-pow_right {n = 2} (omega arith) {i = 0} (omega arith) in
    let rest =
      count_slices_lem size nums (suc e) (ttlg * 2) next (count_slice (lim + 1 - i) vs).1
        (omega arith) (ground arith) small (omega arith) (ground arith) in
    elim (Bool-cases (ltb size ttlg && ltb lim i)) [
      | inl over ↦ rw over (sym (used-nil vs (ground arith)))
      | inr within ↦ rw within (omega arith)
    ]

countint_lem : (key : TValue) (nums : List ℕ) → (countint key nums).1 ≡ is_index key
unfolding countint
countint_lem key nums = elim (Option-cases (in_range (arrayindex key))) [
  | inl e ↦ ground arith
  | inr (k, e) ↦ ground arith
]

pub count_nodes_lem :
    (n : ℕ) (node : ℕ → Node) (nums : List ℕ)
    → ((count_nodes n node nums).1 ≡ used_nodes n node)
      × ((count_nodes n node nums).2 ≡ index_nodes n node)
unfolding count_nodes
count_nodes_lem zero node nums = (refl, refl)
count_nodes_lem (suc n) node nums =
    let one = countint_lem (node n).i_key nums in
    elim (Bool-cases (is_nil (node n).i_val)) [
      | inl empty ↦ let (a, b) = count_nodes_lem n node nums in rw empty (omega arith, omega arith)
      | inr full ↦
          let (a, b) = count_nodes_lem n node (countint (node n).i_key nums).0 in
          rw full (omega arith, omega (arith, one))
    ]

-- The keys of a table and one more.
abbrev pub all_keys : Table → ℕ
all_keys t = used t.array + used_nodes (sizenode t) t.node + 1
