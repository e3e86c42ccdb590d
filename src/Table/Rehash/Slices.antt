-- ===== src/Table/Rehash/Slices.antt =====
-- What the counts of `rehash` of lib/lunatik/ltable.c say of each slice.
use native.Mathlib.Nat.{pow-le-pow_right, pow-suc}
use mathlib.Core.Path.{subst}
use lunatik_ng.Base.{
  ℕ, zero, suc, ◌+◌, ◌-◌, ◌*◌, ◌/◌, ◌^◌, ◌≤◌, ◌<◌, ◌≡◌, ◌⊎◌, inl, inr, refl, ◌&&◌, none, some, List,
  [], ◌∷◌, ltb, leb, length, if◌then◌else◌, arith, Bool-cases, Option-cases, sym, ◌∙◌, ap,
}
use lunatik_ng.Limits.{ceillog2}
use lunatik_ng.Limits.Logarithm.{ceillog2-bounds}
use lunatik_ng.Table.{TValue, is_nil, Node, Table, sizenode}
use lunatik_ng.Table.Rehash.{
  arrayindex, increment, in_range, countint, count_slice, count_slices, count_nodes,
}
use lunatik_ng.Table.Rehash.Counts.{in_range_lem, ceillog2_lt, countint-Adds, count_slice_lem}

-- The sum of the first counts.
abbrev pub upto : ℕ → List ℕ → ℕ
upto zero nums = 0
upto (suc m) [] = 0
upto (suc m) (x ∷ nums) = x + upto m nums

-- How many of the first values are not nil.
abbrev pub used_first : ℕ → List TValue → ℕ
used_first zero vs = 0
used_first (suc n) [] = 0
used_first (suc n) (v ∷ vs) = (if is_nil v then 0 else 1) + used_first n vs

-- Whether a key is an integer from 1 to `m`, and from the range of the array part.
abbrev pub below : (m : ℕ) → TValue → ℕ
below m key = elim (in_range (arrayindex key)) [ none ↦ 0 | some k ↦ if leb k m then 1 else 0 ]

abbrev pub below_nodes : (m n : ℕ) → (ℕ → Node) → ℕ
below_nodes m zero node = 0
below_nodes m (suc n) node =
    (if is_nil (node n).i_val then 0 else below m (node n).i_key) + below_nodes m n node

-- How many keys of a table and the new one are integers from 1 to `m`.
abbrev pub int_below : ℕ → Table → TValue → ℕ
int_below m t ek = used_first m t.array + below_nodes m (sizenode t) t.node + below m ek

upto-increment :
    (nums : List ℕ) (i m : ℕ)
    → i < length nums
    → upto m (increment nums i) ≡ upto m nums + (if ltb i m then 1 else 0)
upto-increment nums i zero lt = ground arith
upto-increment [] i (suc m) lt = absurd (omega arith)
upto-increment (x ∷ nums) zero (suc m) lt = ground arith
upto-increment (x ∷ nums) (suc i) (suc m) lt =
    let rest = upto-increment nums i m (omega arith) in ground arith

-- The slices up to `e` have the integers up to 2 ^ e.
ceillog2_le : (k e : ℕ) → 0 < k → k ≤ 2 ^ 26 → ltb (ceillog2 k) (suc e) ≡ leb k (2 ^ e)
ceillog2_le k e positive small =
    let (above, under) = ceillog2-bounds k positive (omega arith) in
    elim (Bool-cases (ltb (ceillog2 k) (suc e))) [
      | inl low ↦
          let le : ceillog2 k ≤ e = ground arith in
          let grows = pow-le-pow_right {n = 2} (omega arith) le in ground arith
      | inr high ↦
          let ge : suc e ≤ ceillog2 k = ground arith in
          let grows = pow-le-pow_right {n = 2} (omega arith) ge in
          let double = pow-suc 2 e in ground arith
    ]

pub upto-countint :
    (key : TValue) (nums : List ℕ) (e : ℕ)
    → 27 ≤ length nums
    → upto (suc e) (countint key nums).0 ≡ upto (suc e) nums + below (2 ^ e) key
unfolding countint
upto-countint key nums e enough = elim (Option-cases (in_range (arrayindex key))) [
  | inl none_there ↦ ground arith
  | inr (k, there) ↦
      let (positive, small) = in_range_lem nums enough (arrayindex key) k there in
      let lt = ceillog2_lt k positive small in
      let same = ceillog2_le k e positive small in
      let more = upto-increment nums (ceillog2 k) (suc e) (omega arith) in ground arith
]

pub upto-count_nodes :
    (n : ℕ) (node : ℕ → Node) (nums : List ℕ) (e : ℕ)
    → 27 ≤ length nums
    → upto (suc e) (count_nodes n node nums).0 ≡ upto (suc e) nums + below_nodes (2 ^ e) n node
unfolding count_nodes
upto-count_nodes zero node nums e enough = omega arith
upto-count_nodes (suc n) node nums e enough =
    let (l, _) = countint-Adds nums enough (node n).i_key in
    let one = upto-countint (node n).i_key nums e enough in
    elim (Bool-cases (is_nil (node n).i_val)) [
      | inl empty ↦ let rest = upto-count_nodes n node nums e enough in rw empty (omega arith)
      | inr full ↦
          let rest = upto-count_nodes n node (countint (node n).i_key nums).0 e (omega arith) in
          rw full (omega arith)
    ]

used_first-nil : (n : ℕ) (vs : List TValue) → length vs ≡ 0 → used_first n vs ≡ 0
used_first-nil zero vs e = refl
used_first-nil (suc n) [] e = refl
used_first-nil (suc n) (v ∷ vs) e = absurd (omega arith)

-- A count of a slice, and of what is behind it.
split_lem :
    (b a : ℕ) (vs : List TValue)
    → b ≤ a
    → used_first a vs ≡ (count_slice b vs).0 + used_first (a - b) (count_slice b vs).1
unfolding count_slice
split_lem zero a vs le = let same : a - 0 ≡ a = omega arith in rw same (omega arith)
split_lem (suc b) zero vs le = absurd (omega arith)
split_lem (suc b) (suc a) [] le = ground (arith, used_first-nil (suc a - suc b) [] refl)
split_lem (suc b) (suc a) (v ∷ vs) le =
    let rest = split_lem b a vs (omega arith) in
    let same : suc a - suc b ≡ a - b = omega arith in rw same (ground arith)

first_lem : (n : ℕ) (vs : List TValue) → (count_slice n vs).0 ≡ used_first n vs
unfolding count_slice
first_lem zero vs = refl
first_lem (suc n) [] = refl
first_lem (suc n) (v ∷ vs) = let rest = first_lem n vs in ground arith

-- More than there are is all.
used_first-all :
    (n n' : ℕ) (vs : List TValue)
    → length vs ≤ n
    → length vs ≤ n'
    → used_first n vs ≡ used_first n' vs
used_first-all n n' [] le le' = used_first-nil n [] refl ∙ sym (used_first-nil n' [] refl)
used_first-all zero n' (v ∷ vs) le le' = absurd (omega arith)
used_first-all (suc n) zero (v ∷ vs) le le' = absurd (omega arith)
used_first-all (suc n) (suc n') (v ∷ vs) le le' =
    let rest = used_first-all n n' vs (omega arith) (omega arith) in omega arith

-- The counts from slice `e` on, where `vs` are the values from index `i` on.
pub upto-count_slices :
    (size : ℕ) (nums : List ℕ) (e ttlg i j : ℕ) (vs : List TValue)
    → ttlg ≡ 2 ^ e
    → length vs ≡ size + 1 - i
    → (i ≡ ttlg / 2 + 1) ⊎ (size < i)
    → j < length nums
    → upto (suc j) (count_slices size nums ttlg i vs).0
      ≡ upto (suc j) nums + used_first (2 ^ (e + j) + 1 - i) vs
unfolding count_slices
upto-count_slices size [] e ttlg i j vs power left place lt = absurd (omega arith)
upto-count_slices size (x ∷ nums) e ttlg i zero vs power left place lt =
    let lim = if ltb size ttlg then size else ttlg in
    let same : e + 0 ≡ e = omega arith in
    let (split, len) = count_slice_lem (lim + 1 - i) vs in
    let none_more = first_lem (lim + 1 - i) vs in
    let all = used_first-all (2 ^ e + 1 - i) (lim + 1 - i) vs in
    elim (Bool-cases (ltb size ttlg && ltb lim i)) [
      | inl over ↦
          let none_left = used_first-nil (2 ^ e + 1 - i) vs (ground arith) in
          rw (over, same) (omega arith)
      | inr within ↦ elim (Bool-cases (ltb size ttlg)) [
        | inl short ↦
            let whole = all (ground arith) (ground arith) in rw (within, same) (ground arith)
        | inr long ↦ rw (within, same) (ground arith)
      ]
    ]
upto-count_slices size (x ∷ nums) e ttlg i (suc j) vs power left place lt =
    let lim = if ltb size ttlg then size else ttlg in
    let next = if leb i lim then lim + 1 else i in
    let (_, len) = count_slice_lem (lim + 1 - i) vs in
    let double = pow-suc 2 e in
    let grows : 2 ^ e ≤ 2 ^ (e + suc j) = pow-le-pow_right {n = 2} (omega arith) (omega arith) in
    let positive : 1 ≤ 2 ^ e = pow-le-pow_right {n = 2} (omega arith) {i = 0} (omega arith) in
    let behind = (count_slice (lim + 1 - i) vs).1 in
    let rest =
      upto-count_slices size nums (suc e) (ttlg * 2) next j behind (omega arith) (ground arith)
        (ground arith) (omega arith) in
    let shape : suc e + j ≡ e + suc j = omega arith in
    let rest' =
      subst
        (λ n.
          upto (suc j) (count_slices size nums (ttlg * 2) next behind).0
          ≡ upto (suc j) nums + used_first (2 ^ n + 1 - next) behind)
        shape rest in
    let split = split_lem (lim + 1 - i) (2 ^ (e + suc j) + 1 - i) vs (ground arith) in
    let amount : 2 ^ (e + suc j) + 1 - i - (lim + 1 - i) ≡ 2 ^ (e + suc j) + 1 - next =
      ground arith in
    let split' = split ∙ ap (λ n. (count_slice (lim + 1 - i) vs).0 + used_first n behind) amount in
    elim (Bool-cases (ltb size ttlg && ltb lim i)) [
      | inl over ↦
          let none_left = used_first-nil (2 ^ (e + suc j) + 1 - i) vs (ground arith) in
          rw over (omega arith)
      | inr within ↦ rw within (omega arith)
    ]
