-- ===== src/Chunk/Opcodes/Create.antt =====
-- The macros of lib/lunatik/lopcodes.h that build an instruction, with `|` on binary digits.
use lunatik_ng.Base.{ℕ, zero, suc, ◌+◌, ◌*◌, ◌/◌, ◌%◌, ◌^◌, ◌≤◌, ◌<◌, ◌≡◌, refl, ap, ◌∙◌, arith}
use Prim.Native.Nat.{max, digits, bit_or, bit_or-bitwise}
use lunatik_ng.Chunk.Opcodes.Fields.{field_op, field_a, field_b, field_c, field_bx, getarg}

unfoldable pub create_abc : (o a b c : ℕ) → ℕ
create_abc o a b c = bit_or (bit_or (bit_or o (a * 2 ^ 6)) (b * 2 ^ 23)) (c * 2 ^ 14)

unfoldable pub create_abx : (o a bc : ℕ) → ℕ
create_abx o a bc = bit_or (bit_or o (a * 2 ^ 6)) (bc * 2 ^ 14)

abbrev or_digits : (n a b : ℕ) → ℕ
or_digits n a b = digits (λ b. b) max n a b

or_digits_fuel : (n m a b : ℕ) → a ≤ n → a ≤ m → or_digits n a b ≡ or_digits m a b
or_digits_fuel zero zero a b p q = refl
or_digits_fuel zero (suc m) zero b p q = refl
or_digits_fuel zero (suc m) (suc a) b p q = absurd (omega arith)
or_digits_fuel (suc n) zero zero b p q = refl
or_digits_fuel (suc n) zero (suc a) b p q = absurd (omega arith)
or_digits_fuel (suc n) (suc m) zero b p q = refl
or_digits_fuel (suc n) (suc m) (suc a) b p q =
    omega (arith, or_digits_fuel n m (suc a / 2) (b / 2) (omega arith) (omega arith))

zero-bit_or : (b : ℕ) → bit_or 0 b ≡ b
zero-bit_or b = bit_or-bitwise 0 b

bit_or_step : (a b : ℕ) → bit_or a b ≡ bit_or (a / 2) (b / 2) * 2 + max (a % 2) (b % 2)
bit_or_step zero b = omega (arith, zero-bit_or b, zero-bit_or (b / 2))
bit_or_step (suc a) b = omega (
  arith,
  bit_or-bitwise (suc a) b,
  bit_or-bitwise (suc a / 2) (b / 2),
  or_digits_fuel a (suc a / 2) (suc a / 2) (b / 2) (omega arith) (omega arith),
)

bit_or-zero_fuel : (n a : ℕ) → a ≤ n → bit_or a 0 ≡ a
bit_or-zero_fuel n zero h = zero-bit_or 0
bit_or-zero_fuel zero (suc a) h = absurd (omega arith)
bit_or-zero_fuel (suc n) (suc a) h =
    omega (arith, bit_or_step (suc a) 0, bit_or-zero_fuel n (suc a / 2) (omega arith))

-- A shift to the left.
abbrev shifted : (p b : ℕ) → ℕ
shifted zero b = b
shifted (suc p) b = shifted p b * 2

bit_or_halves :
    (a b x y : ℕ) → a / 2 ≡ x → b / 2 ≡ y → bit_or a b ≡ bit_or x y * 2 + max (a % 2) (b % 2)
bit_or_halves a b x y e d =
    bit_or_step a b
    ∙ ap (λ z. bit_or z (b / 2) * 2 + max (a % 2) (b % 2)) e
    ∙ ap (λ z. bit_or x z * 2 + max (a % 2) (b % 2)) d

-- Digits below the shift stay.
bit_or_low :
    (p a x y : ℕ)
    → a < shifted p 1
    → bit_or (a + shifted p x) (shifted p y) ≡ a + shifted p (bit_or x y)
bit_or_low zero zero x y h =
    let e : 0 + x ≡ x = omega arith in omega (arith, ap (λ z. bit_or z y) e)
bit_or_low zero (suc a) x y h = absurd (omega arith)
bit_or_low (suc p) a x y h = omega (
  arith,
  bit_or_low p (a / 2) x y (omega arith),
  bit_or_halves (a + shifted p x * 2) (shifted p y * 2) (a / 2 + shifted p x) (shifted p y)
      (omega arith) (omega arith),
)

bit_or_high : (p a b : ℕ) → a < shifted p 1 → bit_or (shifted p b) a ≡ a + shifted p b
bit_or_high zero zero b h = omega (arith, bit_or-zero_fuel b b (omega arith))
bit_or_high zero (suc a) b h = absurd (omega arith)
bit_or_high (suc p) a b h = omega (
  arith,
  bit_or_high p (a / 2) b (omega arith),
  bit_or_halves (shifted p b * 2) a (shifted p b) (a / 2) (omega arith) (omega arith),
)

bit_or_at :
    (p a x y : ℕ) {s t r : ℕ}
    → a < shifted p 1
    → s ≡ a + shifted p x
    → t ≡ shifted p y
    → bit_or x y ≡ r
    → bit_or s t ≡ a + shifted p r
bit_or_at p a x y {t = t} h e d f =
    ap (λ z. bit_or z t) e
    ∙ ap (bit_or (a + shifted p x)) d
    ∙ bit_or_low p a x y h
    ∙ ap (λ z. a + shifted p z) f

-- The digits of the opcode and of the first argument do not meet.
low_sum : (o a : ℕ) → o < 64 → bit_or o (a * 2 ^ 6) ≡ o + a * 64
low_sum o a h =
    let e : bit_or o (a * 2 ^ 6) ≡ o + shifted 6 a =
      bit_or_at 6 o 0 a h (omega arith) (omega arith) (zero-bit_or a) in
    omega (arith, e)

create_abx_sum : (o a bc : ℕ) → o < 64 → a < 256 → create_abx o a bc ≡ o + a * 64 + bc * 2 ^ 14
unfolding create_abx
create_abx_sum o a bc ho ha =
    let e : create_abx o a bc ≡ o + a * 64 + shifted 14 bc =
      bit_or_at 14 (o + a * 64) 0 bc (omega arith) (omega (arith, low_sum o a ho)) (omega arith)
        (zero-bit_or bc) in
    omega (arith, e)

create_abc_sum :
    (o a b c : ℕ)
    → o < 64
    → a < 256
    → c < 512
    → create_abc o a b c ≡ o + a * 64 + c * 2 ^ 14 + b * 2 ^ 23
unfolding create_abc
create_abc_sum o a b c ho ha hc =
    let low : bit_or (bit_or o (a * 2 ^ 6)) (b * 2 ^ 23) ≡ o + a * 64 + shifted 23 b =
      bit_or_at 23 (o + a * 64) 0 b (omega arith) (omega (arith, low_sum o a ho)) (omega arith)
        (zero-bit_or b) in
    let e : create_abc o a b c ≡ o + a * 64 + shifted 14 (c + shifted 9 b) =
      bit_or_at 14 (o + a * 64) (shifted 9 b) c (omega arith) (omega (arith, low)) (omega arith)
        (bit_or_high 9 c b hc) in
    omega (arith, e)

-- An instruction that is built of an opcode and of arguments that fit their fields has them in these
-- fields: the opcode, `A`, `B` and `C`, or the opcode, `A` and `Bx`.
pub getarg-create :
    (o a b c bc : ℕ)
    → o < 64
    → a < 256
    → b < 512
    → c < 512
    → bc < 2 ^ 18
    → (getarg field_op (create_abc o a b c) ≡ o)
      × (getarg field_a (create_abc o a b c) ≡ a)
      × (getarg field_b (create_abc o a b c) ≡ b)
      × (getarg field_c (create_abc o a b c) ≡ c)
      × (getarg field_op (create_abx o a bc) ≡ o)
      × (getarg field_a (create_abx o a bc) ≡ a)
      × (getarg field_bx (create_abx o a bc) ≡ bc)
unfolding getarg
getarg-create o a b c bc ho ha hb hc hbc =
    let e = create_abc_sum o a b c ho ha hc in
    let d = create_abx_sum o a bc ho ha in
    (
      omega (arith, e),
      omega (arith, e),
      omega (arith, e),
      omega (arith, e),
      omega (arith, d),
      omega (arith, d),
      omega (arith, d),
    )
