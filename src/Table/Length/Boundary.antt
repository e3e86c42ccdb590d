-- ===== src/Table/Length/Boundary.antt =====
-- The length that `luaH_getn` of lib/lunatik/ltable.c finds: a boundary, in bounded time.
use native.Mathlib.Nat.{pow-suc}
use mathlib.Core.Path.{subst}
use lunatik_ng.Base.{
  ℕ, zero, suc, ◌+◌, ◌-◌, ◌*◌, ◌/◌, ◌^◌, ◌≤◌, ◌<◌, ◌≡◌, ◌⊎◌, inl, inr, refl, ap, Bool, true, false,
  ◌&&◌, ℤ, Option, none, some, pos, ltb, length, get_or, if◌then◌else◌, arith, Bool-cases,
}
use lunatik_ng.Table.{
  nil, is_nil, Table, empty_node, value_at, luah_getnum, search, hashnum, hashmod, is_number,
  nilobject,
}
use lunatik_ng.Table.Length.{nil_at, halve, linear, double, unbound_search, luah_getn}

-- A result is there, and it is 0 or the index of a value, with nil behind it.
abbrev pub IsBoundary : (ℕ → Bool) → Option ℕ → Type 0
IsBoundary absent none = ⊥
IsBoundary absent (some n) = ((n ≡ 0) ⊎ (absent n ≡ false)) × (absent (suc n) ≡ true)

module _ (absent : ℕ → Bool) where
  halve-IsBoundary :
      (fuel : ℕ) (read : ℕ → Option Bool) (i j : ℕ)
      → ((m : ℕ) → 0 < m → m < j → read m ≡ some (absent m))
      → i < j
      → j - i ≤ 2 ^ fuel
      → (i ≡ 0) ⊎ (absent i ≡ false)
      → absent j ≡ true
      → IsBoundary absent (halve (suc fuel) read i j)
  unfolding halve
  halve-IsBoundary zero read i j reads lt near low high = ground arith
  halve-IsBoundary (suc fuel) read i j reads lt near low high =
      let p = pow-suc 2 fuel in
      let m = (i + j) / 2 in
      elim (Bool-cases (ltb 1 (j - i))) [
        | inl wide ↦
            let r = reads m (ground arith) (ground arith) in
            elim (Bool-cases (absent m)) [
              | inl a ↦
                  rw (wide, r, a)
                    (halve-IsBoundary fuel read i m
                      (λ k positive below. reads k positive (ground arith)) (ground arith)
                      (ground arith) low a)
              | inr a ↦
                  rw (wide, r, a)
                    (halve-IsBoundary fuel read m j reads (ground arith) (ground arith) (inr a)
                      high)
            ]
        | inr narrow ↦
            let next : j ≡ suc i = ground arith in
            rw narrow (low, subst (λ q. absent q ≡ true) next high)
      ]

-- What `t[k]` is, for the integers `k` from 1 to 2 ^ 31 - 1: all chains that hold them end.
module _ (t : Table) (absent : ℕ → Bool)
    (reads : (k : ℕ) → 0 < k → k < 2 ^ 31 → nil_at t k ≡ some (absent k)) where
  linear_lem :
      (fuel i : ℕ) (b : Bool)
      → nil_at t i ≡ some b
      → linear (suc fuel) t i ≡ (if b then some (i - 1) else linear fuel t (i + 1))
  unfolding linear
  linear_lem fuel i b r = ground arith

  linear-IsBoundary :
      (fuel i gap : ℕ)
      → 0 < i
      → i ≤ gap
      → gap < 2 ^ 31
      → gap < i + fuel
      → absent gap ≡ true
      → (i ≡ 1) ⊎ (absent (i - 1) ≡ false)
      → IsBoundary absent (linear fuel t i)
  linear-IsBoundary zero i gap positive le small near free so_far = absurd (omega arith)
  linear-IsBoundary (suc fuel) i gap positive le small near free so_far =
      let r = reads i positive (omega arith) in
      elim (Bool-cases (absent i)) [
        | inl a ↦
            let back : i ≡ suc (i - 1) = omega arith in
            rw (linear_lem fuel i (absent i) r, a)
              (ground arith, subst (λ q. absent q ≡ true) back a)
        | inr a ↦
            let back : i ≡ i + 1 - 1 = omega arith in
            rw (linear_lem fuel i (absent i) r, a)
              (linear-IsBoundary fuel (i + 1) gap (omega arith) (ground arith) small (omega arith)
                free (inr (subst (λ q. absent q ≡ false) back a)))
      ]

  double_lem :
      (fuel i j : ℕ) (b : Bool)
      → nil_at t j ≡ some b
      → double (suc fuel) t i j ≡ (
          if b
          then halve 32 (nil_at t) i j
          else if ltb (2 ^ 31 - 3) (j * 2)
          then linear (2 ^ 31) t 1
          else double fuel t j (j * 2))
  unfolding double
  double_lem fuel i j b r = ground arith

  module _ (gap : ℕ) (positive : 0 < gap) (small : gap < 2 ^ 31) (free : absent gap ≡ true) where
    double-IsBoundary :
        (fuel e i j : ℕ)
        → e + fuel ≡ 31
        → 2 ^ e ≤ j
        → i < j
        → j < 2 ^ 31
        → (i ≡ 0) ⊎ (absent i ≡ false)
        → IsBoundary absent (double (suc fuel) t i j)
    double-IsBoundary zero e i j rounds large lt below low =
        let last : e ≡ 31 = omega arith in absurd (omega (arith, subst (λ q. 2 ^ q ≤ j) last large))
    double-IsBoundary (suc fuel) e i j rounds large lt below low =
        let r = reads j (omega arith) below in
        elim (Bool-cases (absent j)) [
          | inl a ↦
              rw (double_lem (suc fuel) i j (absent j) r, a)
                (halve-IsBoundary absent 31 (nil_at t) i j
                  (λ m above h. reads m above (omega arith)) lt (omega arith) low a)
          | inr a ↦ elim (Bool-cases (ltb (2 ^ 31 - 3) (j * 2))) [
            | inl over ↦
                rw (double_lem (suc fuel) i j (absent j) r, a, over)
                  (linear-IsBoundary (2 ^ 31) 1 gap (omega arith) (omega arith) small (omega arith)
                    free (inl refl))
            | inr within ↦
                let p = pow-suc 2 e in
                rw (double_lem (suc fuel) i j (absent j) r, a, within)
                  (double-IsBoundary fuel (suc e) j (j * 2) (omega arith) (omega arith)
                    (omega arith) (ground arith) (inr a))
          ]
        ]

  array_absent :
      (m : ℕ)
      → 0 < m
      → m ≤ length t.array
      → length t.array < 2 ^ 31
      → is_nil (get_or t.array (m - 1) nil) ≡ absent m
  unfolding nil_at luah_getnum value_at
  array_absent zero positive le small = absurd (omega arith)
  array_absent (suc k) positive le small =
      let r = reads (suc k) positive (omega arith) in
      let same : suc k - 1 ≡ k = omega arith in ground (arith, same)

  hashnum_single : t.lsizenode ≡ 0 → (n : ℤ) → hashnum t n ≡ 0
  unfolding hashnum hashmod
  hashnum_single single n =
      let one : 2 ^ t.lsizenode ≡ 1 = ap (λ l. 2 ^ l) single in ground (arith, one)

  search_dummy :
      t.lsizenode ≡ 0
      → t.node 0 ≡ empty_node
      → (n : ℕ)
      → search (2 ^ t.lsizenode) (is_number (pos (suc n))) t.node (hashnum t (pos (suc n)))
        ≡ some nilobject
  unfolding search
  search_dummy single empty n = simp (hashnum_single single (pos (suc n)), single, empty) refl

  -- The dummy node holds nothing.
  dummy_absent :
      t.lsizenode ≡ 0
      → t.node 0 ≡ empty_node
      → length t.array + 1 < 2 ^ 31
      → absent (suc (length t.array)) ≡ true
  unfolding nil_at luah_getnum value_at
  dummy_absent single empty small =
      let r = reads (suc (length t.array)) (omega arith) (omega arith) in
      ground (arith, r, search_dummy single empty (length t.array))

  -- `luaH_getn` ends, within the fuel, at an index n such that n is 0 or t[n] is not nil, and t[n + 1] is
  -- nil. The chains of the integers from 1 to 2 ^ 31 - 1 end, one of these integers has no value, the
  -- array part has fewer than 2 ^ 31 - 1 elements, and the dummy node is empty.
  pub luah_getn-IsBoundary :
      (gap : ℕ)
      → 0 < gap
      → gap < 2 ^ 31
      → absent gap ≡ true
      → length t.array + 1 < 2 ^ 31
      → (t.dummy ≡ true → (t.lsizenode ≡ 0) × (t.node 0 ≡ empty_node))
      → IsBoundary absent (luah_getn t)
  unfolding luah_getn unbound_search
  luah_getn-IsBoundary gap positive small free short is_dummy =
      let len = length t.array in
      elim (Bool-cases (ltb 0 len && is_nil (get_or t.array (len - 1) nil))) [
        | inl last ↦ rw last (
            halve-IsBoundary absent 31 (λ m. some (is_nil (get_or t.array (m - 1) nil))) 0 len
              (λ m above below. ap some (array_absent m above (omega arith) (omega arith)))
              (ground arith) (omega arith) (inl refl) (ground (arith, array_absent len)))
        | inr full ↦ elim (Bool-cases t.dummy) [
          | inl d ↦
              let (single, empty) = is_dummy d in
              rw (full, d) (ground (arith, array_absent len), dummy_absent single empty short)
          | inr d ↦
              simp (full, d)
                (double-IsBoundary gap positive small free 31 0 len (len + 1) (omega arith)
                  (omega arith) (omega arith) short (ground (arith, array_absent len)))
        ]
      ]
