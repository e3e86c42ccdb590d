-- ===== src/Chunk/Opcodes/Fields.antt =====
-- The macros of lib/lunatik/lopcodes.h that change one field of an instruction.
use lunatik_ng.Base.{ℕ, ◌+◌, ◌-◌, ◌*◌, ◌%◌, ◌^◌, ◌≡◌, Bool, true, ◌||◌, leb, arith}
use lunatik_ng.Chunk.Opcodes.{getarg_a, getarg_b, getarg_c, getarg_bx}

pub data Field : Type 0 where
  field_op : Field
  field_a : Field
  field_b : Field
  field_c : Field
  field_bx : Field

unfoldable pub size : Field → ℕ
size field_op = 6
size field_a = 8
size field_b = 9
size field_c = 9
size field_bx = 18

unfoldable pub position : Field → ℕ
position field_op = 0
position field_a = 6
position field_b = 23
position field_c = 14
position field_bx = 14

unfoldable pub disjoint : Field → Field → Bool
disjoint f g = leb (position f + size f) (position g) || leb (position g + size g) (position f)

unfoldable pub getarg : Field → ℕ → ℕ
getarg field_op i = i % 2 ^ 6
getarg field_a i = getarg_a i
getarg field_b i = getarg_b i
getarg field_c i = getarg_c i
getarg field_bx i = getarg_bx i

-- `MASK0` clears the field and `MASK1` cuts the value to its size; since the two sides have no bit in
-- common, `|` adds them.
unfoldable pub setarg : Field → (i u : ℕ) → ℕ
setarg f i u = i - getarg f i * 2 ^ position f + u % 2 ^ size f * 2 ^ position f

getarg-setarg_same : (f : Field) (i u : ℕ) → getarg f (setarg f i u) ≡ u % 2 ^ size f
unfolding setarg getarg size position
getarg-setarg_same field_op i u = omega arith
getarg-setarg_same field_a i u = omega arith
getarg-setarg_same field_b i u = omega arith
getarg-setarg_same field_c i u = omega arith
getarg-setarg_same field_bx i u = omega arith

getarg-setarg_other :
    (f g : Field) (i u : ℕ) → disjoint f g ≡ true → getarg g (setarg f i u) ≡ getarg g i
unfolding setarg getarg size position disjoint
getarg-setarg_other field_op field_op i u h = absurd (ground arith)
getarg-setarg_other field_op field_a i u h = omega arith
getarg-setarg_other field_op field_b i u h = omega arith
getarg-setarg_other field_op field_c i u h = omega arith
getarg-setarg_other field_op field_bx i u h = omega arith
getarg-setarg_other field_a field_op i u h = omega arith
getarg-setarg_other field_a field_a i u h = absurd (ground arith)
getarg-setarg_other field_a field_b i u h = omega arith
getarg-setarg_other field_a field_c i u h = omega arith
getarg-setarg_other field_a field_bx i u h = omega arith
getarg-setarg_other field_b field_op i u h = omega arith
getarg-setarg_other field_b field_a i u h = omega arith
getarg-setarg_other field_b field_b i u h = absurd (ground arith)
getarg-setarg_other field_b field_c i u h = omega arith
getarg-setarg_other field_b field_bx i u h = absurd (ground arith)
getarg-setarg_other field_c field_op i u h = omega arith
getarg-setarg_other field_c field_a i u h = omega arith
getarg-setarg_other field_c field_b i u h = omega arith
getarg-setarg_other field_c field_c i u h = absurd (ground arith)
getarg-setarg_other field_c field_bx i u h = absurd (ground arith)
getarg-setarg_other field_bx field_op i u h = omega arith
getarg-setarg_other field_bx field_a i u h = omega arith
getarg-setarg_other field_bx field_b i u h = absurd (ground arith)
getarg-setarg_other field_bx field_c i u h = absurd (ground arith)
getarg-setarg_other field_bx field_bx i u h = absurd (ground arith)

-- A field that is set reads back as the value, cut to the size of the field, and a field that does not
-- overlap it keeps its value.
pub getarg-setarg :
    (f g : Field) (i u : ℕ)
    → disjoint f g ≡ true
    → (getarg f (setarg f i u) ≡ u % 2 ^ size f) × (getarg g (setarg f i u) ≡ getarg g i)
getarg-setarg f g i u apart = (getarg-setarg_same f i u, getarg-setarg_other f g i u apart)
