-- ===== src/Limits/Bounds.antt =====
-- What the sizes of lib/lunatik/lobject.c and lmem.c are good for.
use native.Mathlib.Nat.{pow-suc, mul_assoc, pow-le-pow_right, mul-le-mul_right}
use lunatik_ng.Base.{
  ℕ, zero, suc, ◌+◌, ◌-◌, ◌*◌, ◌/◌, ◌%◌, ◌^◌, ◌≤◌, ◌<◌, ◌≡◌, ◌≢◌, ◌⊎◌, inl, inr, refl, ap, sym, ◌∙◌,
  none, some, leb, ltb, ◌==◌, if◌then◌else◌, arith, Bool-cases, leb→le, ltb→lt, false,
}
use lunatik_ng.Limits.{luam_growaux, fb_loop, luao_int2fb, luao_fb2int}

-- A vector that is full either grows, to at least one free place and at most the limit, or is at
-- its limit, which is an error. The limit is at least 4, the least size.
pub luam_growaux-grows :
    (size limit : ℕ)
    → 4 ≤ limit
    → ((luam_growaux size limit ≡ none) × (limit ≤ size))
      ⊎ ((n : ℕ) × (luam_growaux size limit ≡ some n) × (size < n) × (n ≤ limit))
unfolding luam_growaux
luam_growaux-grows size limit h = ground arith

-- What the loop returns for `x`.
abbrev Rounded : ℕ → ℕ × ℕ → Type 0
Rounded x (e, y) = (x ≤ y * 2 ^ e) × (y * 2 ^ e < x + 2 ^ e) × (y < 16) × (e ≢ 0 → 8 ≤ y)

pow_double : (y e : ℕ) → y * 2 ^ suc e ≡ y * 2 ^ e * 2
pow_double y e = ap (λ t. y * t) (pow-suc 2 e) ∙ sym (mul_assoc y (2 ^ e) 2)

Rounded-suc : (x e y : ℕ) → 16 ≤ x → Rounded ((x + 1) / 2) (e, y) → Rounded x (suc e, y)
Rounded-suc x zero y h (above, below, small, large) =
    (omega arith, omega arith, small, λ _. omega arith)
Rounded-suc x (suc e) y h (above, below, small, large) =
    let double = pow_double y (suc e) in
    let power = pow-suc 2 (suc e) in (omega arith, omega arith, small, λ _. large (ground arith))

fb_loop-Rounded : (fuel x : ℕ) → x ≤ fuel → x < 2 ^ 32 - 1 → Rounded x (fb_loop fuel x)
unfolding fb_loop
fb_loop-Rounded zero x h fits =
    (omega arith, omega arith, omega arith, λ wrong. absurd (wrong refl))
fb_loop-Rounded (suc fuel) x h fits = elim (Bool-cases (leb 16 x)) [
  | inl e ↦
      let half : (x + 1) % 2 ^ 32 / 2 ≡ (x + 1) / 2 = omega arith in
      rw (e, half)
        (Rounded-suc x _ _ (leb→le 16 x e)
          (fb_loop-Rounded fuel ((x + 1) / 2) (omega (arith, leb→le 16 x e)) (omega arith)))
  | inr e ↦ rw (e) (omega arith, omega arith, ground arith, λ wrong. absurd (wrong refl))
]

-- Back from the byte of an exponent and a mantissa.
fb2int-large :
    (e y : ℕ) → e < 31 → 8 ≤ y → y < 16 → luao_fb2int ((e + 1) * 2 ^ 3 + (y - 8)) ≡ y * 2 ^ e
unfolding luao_fb2int
fb2int-large e y h large small =
    let b = (e + 1) * 2 ^ 3 + (y - 8) in
    let exponent : b / 2 ^ 3 % 32 ≡ e + 1 = omega arith in
    let mantissa : b % 8 + 8 ≡ y = omega arith in
    let positive : (e + 1 == 0) ≡ false = ground arith in
    rw (exponent, mantissa, positive) (ap (λ n. y * 2 ^ n) (omega arith))

fb2int-small : (y : ℕ) → y < 8 → luao_fb2int y ≡ y
unfolding luao_fb2int
fb2int-small y h = ground arith

exponent-lt : (e y x : ℕ) → 8 ≤ y → y * 2 ^ e < x + 2 ^ e → x < 2 ^ 32 - 1 → e < 31
exponent-lt e y x large below fits = elim (Bool-cases (ltb e 31)) [
  | inl h ↦ ltb→lt e 31 h
  | inr h ↦
      let least : 31 ≤ e = ground arith in
      let big : 2 ^ 31 ≤ 2 ^ e = pow-le-pow_right {n = 2} (omega arith) least in
      let product : 8 * 2 ^ e ≤ y * 2 ^ e = mul-le-mul_right (2 ^ e) large in absurd (omega arith)
]

-- What a byte stands for is not below the size that it was made of, and at most a seventh above it.
abbrev pub Covers : ℕ → ℕ → Type 0
Covers x v = (x ≤ v) × (7 * v ≤ 8 * x)

large-Covers :
    (x e y : ℕ)
    → Rounded x (e, y)
    → x < 2 ^ 32 - 1
    → 8 ≤ y
    → Covers x (luao_fb2int ((e + 1) * 2 ^ 3 + (y - 8)))
large-Covers x e y (above, below, small, large) fits least =
    let product : 8 * 2 ^ e ≤ y * 2 ^ e = mul-le-mul_right (2 ^ e) least in
    rw (fb2int-large e y (exponent-lt e y x least below fits) least small) (above, omega arith)

small-Covers : (x e y : ℕ) → Rounded x (e, y) → y < 8 → Covers x (luao_fb2int y)
small-Covers x zero y (above, below, small, large) h =
    rw (fb2int-small y h) (omega arith, omega arith)
small-Covers x (suc e) y (above, below, small, large) h = absurd (ground (arith, large))

size-Covers :
    (x e y : ℕ)
    → Rounded x (e, y)
    → x < 2 ^ 32 - 1
    → Covers x (luao_fb2int (if ltb y 8 then y else (e + 1) * 2 ^ 3 + (y - 8)))
size-Covers x e y h fits = elim (Bool-cases (ltb y 8)) [
  | inl b ↦ rw (b) (small-Covers x e y h (ltb→lt y 8 b))
  | inr b ↦ rw (b) (large-Covers x e y h fits (ground arith))
]

-- The size that OP_NEWTABLE reads back from its argument is at least the one that the compiler has
-- counted, and at most a seventh above it, for all sizes below 2 ^ 32 - 1.
pub luao_fb2int-int2fb : (x : ℕ) → x < 2 ^ 32 - 1 → Covers x (luao_fb2int (luao_int2fb x))
unfolding luao_int2fb
luao_fb2int-int2fb x fits =
    size-Covers x (fb_loop x x).0 (fb_loop x x).1 (fb_loop-Rounded x x (omega arith) fits) fits
