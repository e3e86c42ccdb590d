-- ===== src/Limits/Logarithm.antt =====
-- `luaO_log2` of lib/lunatik/lobject.c against the number of binary digits.
use native.Mathlib.Nat.{pow-suc}
use lunatik_ng.Base.{
  ℕ, zero, suc, ◌+◌, ◌-◌, ◌*◌, ◌/◌, ◌^◌, ◌≤◌, ◌<◌, ◌≡◌, ◌⊎◌, refl, Bool, true, ◌&&◌, ◌==◌, get_or,
  if◌then◌else◌, arith, Bool-cases, inl, inr, ◌∙◌, sym, ap, ==_iff,
}
use lunatik_ng.Limits.{luao_log2, log2_loop, log_2, ceillog2}

-- The number of binary digits of `x`, up to `fuel` of them.
unfoldable pub digits : (fuel x : ℕ) → ℕ
digits zero x = 0
digits (suc fuel) x = let rest = digits fuel (x / 2) in if x == 0 then 0 else suc rest

all_below : ℕ → (ℕ → Bool) → Bool
all_below zero p = true
all_below (suc n) p = p n && all_below n p

all_below_lem : (n : ℕ) (p : ℕ → Bool) → all_below n p ≡ true → (i : ℕ) → i < n → p i ≡ true
unfolding all_below
all_below_lem zero p h i lt = absurd (omega arith)
all_below_lem (suc n) p h i lt =
    let here : p n ≡ true = ground arith in
    let rest : all_below n p ≡ true = ground arith in
    elim (Bool-cases (i == n)) [
      | inl e ↦ ap p ((==_iff i n).0 e) ∙ here
      | inr ne ↦ all_below_lem n p rest i (ground arith)
    ]

table_checked : all_below 256 (λ i. get_or log_2 i 0 == digits 8 i) ≡ true
unfolding all_below log_2 digits
table_checked = refl

log_2_lem : (i : ℕ) → i < 256 → get_or log_2 i 0 ≡ digits 8 i
log_2_lem i lt =
    (==_iff (get_or log_2 i 0) (digits 8 i)).0
      (all_below_lem 256 (λ i. get_or log_2 i 0 == digits 8 i) table_checked i lt)

digits-zero : (fuel x : ℕ) → x ≡ 0 → digits fuel x ≡ 0
unfolding digits
digits-zero zero x e = refl
digits-zero (suc fuel) x e = ground arith

-- More fuel than digits changes nothing.
digits-fuel : (f g x : ℕ) → x < 2 ^ f → digits (f + g) x ≡ digits f x
unfolding digits
digits-fuel zero g x small = digits-zero (0 + g) x (omega arith)
digits-fuel (suc f) g x small =
    let p = pow-suc 2 f in
    let shape : suc f + g ≡ suc (f + g) = omega arith in
    rw shape (ap (λ n. if x == 0 then 0 else suc n) (digits-fuel f g (x / 2) (omega arith)))

eight : ℕ → ℕ
eight f = suc (suc (suc (suc (suc (suc (suc (suc f)))))))

-- A number of more than one byte has eight digits more than what stands above its lowest byte.
digits-eight : (f x : ℕ) → 256 ≤ x → digits (eight f) x ≡ eight (digits f (x / 256))
unfolding digits eight
digits-eight f x large =
    let all : x / 2 / 2 / 2 / 2 / 2 / 2 / 2 / 2 ≡ x / 256 = omega arith in ground (arith, all)

digits-byte : (f x : ℕ) → 256 ≤ x → digits (eight f) x ≡ 8 + digits f (x / 256)
unfolding eight
digits-byte f x large = digits-eight f x large ∙ omega arith

-- A number below 256 has its digits in the table.
digits-table : (g x : ℕ) → x < 256 → digits (8 + g) x ≡ get_or log_2 x 0
digits-table g x small = digits-fuel 8 g x small ∙ sym (log_2_lem x small)

-- `luaO_log2(x) + 1` is the number of binary digits of the `unsigned int` x, as it is found by halving.
pub luao_log2-eq-digits : (x : ℕ) → x < 2 ^ 32 → luao_log2 x ≡ digits 32 x
unfolding luao_log2 log2_loop eight
luao_log2-eq-digits x small =
    let x1 = x / 256 in
    let x2 = x / 256 / 256 in
    let x3 = x / 256 / 256 / 256 in
    let b0 : 256 ≤ x → digits 32 x ≡ 8 + digits 24 x1 = digits-byte 24 x in
    let b1 : 256 ≤ x1 → digits 24 x1 ≡ 8 + digits 16 x2 = digits-byte 16 x1 in
    let b2 : 256 ≤ x2 → digits 16 x2 ≡ 8 + digits 8 x3 = digits-byte 8 x2 in
    let t0 : x < 256 → digits 32 x ≡ get_or log_2 x 0 = digits-table 24 x in
    let t1 : x1 < 256 → digits 24 x1 ≡ get_or log_2 x1 0 = digits-table 16 x1 in
    let t2 : x2 < 256 → digits 16 x2 ≡ get_or log_2 x2 0 = digits-table 8 x2 in
    let t3 : x3 < 256 → digits 8 x3 ≡ get_or log_2 x3 0 = digits-table 0 x3 in
    ground (arith, b0, b1, b2, t0, t1, t2, t3)

digits-bounds : (f x : ℕ) → x < 2 ^ f → (x < 2 ^ digits f x) × ((x ≡ 0) ⊎ (2 ^ digits f x ≤ 2 * x))
unfolding digits
digits-bounds zero x small = (small, inl (omega arith))
digits-bounds (suc f) x small =
    let p = pow-suc 2 f in
    elim (Bool-cases (x == 0)) [
      | inl z ↦ ground arith
      | inr z ↦
          let (above, below) = digits-bounds f (x / 2) (omega arith) in
          let q = pow-suc 2 (digits f (x / 2)) in
          rw z (
            omega arith,
            inr (elim below [
              | inl none_left ↦
                  let one = ap (λ n. 2 ^ n) (digits-zero f (x / 2) none_left) in
                  let nonzero : 0 < x = ground arith in omega arith
              | inr h ↦ omega arith
            ]),
          )
    ]

-- `ceillog2` is the binary logarithm rounded up: from 1 on, 2 ^ ceillog2(x) is at least x and below 2 x.
pub ceillog2-bounds : (x : ℕ) → 0 < x → x < 2 ^ 32 → (x ≤ 2 ^ ceillog2 x) × (2 ^ ceillog2 x < 2 * x)
unfolding ceillog2
ceillog2-bounds x positive small =
    let (above, below) = digits-bounds 32 (x - 1) (omega arith) in
    rw (luao_log2-eq-digits (x - 1) (omega arith)) (
      omega arith,
      elim below [
        | inl single ↦ let one = ap (λ n. 2 ^ n) (digits-zero 32 (x - 1) single) in omega arith
        | inr h ↦ omega arith
      ],
    )
