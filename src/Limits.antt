-- ===== src/Limits.antt =====
-- Sizes that the engine computes: the array parts of tables of lib/lunatik/ltable.c, the growth of vectors of lib/lunatik/lmem.c, and the "floating
-- point bytes" of lib/lunatik/lobject.c, in which OP_NEWTABLE has the sizes of tables.
pub mod Bounds
pub mod Tables
pub mod Logarithm
mod Examples
use lunatik_ng.Base.{
  ℕ, zero, suc, ◌+◌, ◌-◌, ◌*◌, ◌/◌, ◌%◌, ◌^◌, Option, none, some, List, [], ◌∷◌, ◌&&◌, leb, ltb,
  ◌==◌, if◌then◌else◌, get_or,
}

-- The new size; none is the error. The vector is reallocated with this size.
unfoldable pub luam_growaux : (size limit : ℕ) → Option ℕ
luam_growaux size limit =
    if leb (limit / 2) size
    then (if leb limit size then none else some limit)
    else (if ltb (size * 2) 4 then some 4 else some (size * 2))

-- The loop of `luaO_int2fb`: the exponent and what is left. `x + 1` is an `unsigned int`. A round
-- lowers `x`, so that `x` is fuel enough.
unfoldable pub fb_loop : (fuel x : ℕ) → ℕ × ℕ
fb_loop zero x = (0, x)
fb_loop (suc fuel) x =
    let (e, y) = fb_loop fuel ((x + 1) % 2 ^ 32 / 2) in if leb 16 x then (suc e, y) else (0, x)

unfoldable pub luao_int2fb : ℕ → ℕ
luao_int2fb x = let (e, y) = fb_loop x x in if ltb y 8 then y else (e + 1) * 2 ^ 3 + (y - 8)

unfoldable pub luao_fb2int : ℕ → ℕ
luao_fb2int x = let e = x / 2 ^ 3 % 32 in if e == 0 then x else (x % 8 + 8) * 2 ^ (e - 1)

-- The loop of `computesizes`: `nums` are the counts of the slices from the present one on. none is a
-- read behind the last of them.
unfoldable pub sizes_loop : (narray : ℕ) → List ℕ → (twotoi a na n : ℕ) → Option (ℕ × ℕ)
sizes_loop narray [] twotoi a na n = if ltb (twotoi / 2) narray then none else some (na, n)
sizes_loop narray (x ∷ nums) twotoi a na n =
    let a' = if ltb 0 x then a + x else a in
    let optimal = ltb 0 x && ltb (twotoi / 2) a' in
    let na' = if optimal then a' else na in
    let n' = if optimal then twotoi else n in
    let rest = sizes_loop narray nums (twotoi * 2) a' na' n' in
    if ltb (twotoi / 2) narray
    then (if a' == narray then some (na', n') else rest)
    else some (na, n)

-- The number of elements that go to the array part, and its size.
unfoldable pub computesizes : List ℕ → (narray : ℕ) → Option (ℕ × ℕ)
computesizes nums narray = sizes_loop narray nums 1 0 0 0

abbrev pub times : ℕ → ℕ → List ℕ → List ℕ
times zero v rest = rest
times (suc n) v rest = v ∷ times n v rest

-- The table `log_2`: each value as often as it stands there.
unfoldable pub log_2 : List ℕ
log_2 = times 1 0 (
    times 1 1
      (times 2 2 (times 4 3 (times 8 4 (times 16 5 (times 32 6 (times 64 7 (times 128 8 []))))))))

-- The loop of `luaO_log2`: `l + 1` and `x`. A round divides an `unsigned int` by 256.
unfoldable pub log2_loop : (fuel l1 x : ℕ) → ℕ × ℕ
log2_loop zero l1 x = (l1, x)
log2_loop (suc fuel) l1 x =
    let rest = log2_loop fuel (l1 + 8) (x / 256) in if leb 256 x then rest else (l1, x)

-- `luaO_log2(x) + 1`, where `luaO_log2(0)` is -1.
unfoldable pub luao_log2 : ℕ → ℕ
luao_log2 x = let (l1, y) = log2_loop 4 0 x in l1 + get_or log_2 y 0

unfoldable pub ceillog2 : ℕ → ℕ
ceillog2 x = luao_log2 (x - 1)
