-- ===== src/Table/Length.antt =====
-- The length of a table, `luaH_getn` of lib/lunatik/ltable.c with `unbound_search`, whose loops run on
-- fuel.
pub mod Boundary
use lunatik_ng.Base.{
  ℕ, zero, suc, ◌+◌, ◌-◌, ◌*◌, ◌/◌, ◌^◌, ◌≤◌, ◌<◌, ◌≡◌, Bool, true, false, ◌&&◌, Option, none, some,
  ℤ, pos, ltb, length, get_or, ◌==◌, if◌then◌else◌, arith,
}
use lunatik_ng.Table.{TValue, nil, is_nil, Table, value_at, luah_getnum}

-- `ttisnil(luaH_getnum(t, j))`
unfoldable pub nil_at : Table → ℕ → Option Bool
nil_at t j = elim (luah_getnum t (pos j)) [ none ↦ none | some p ↦ some (is_nil (value_at t p)) ]

-- The binary search between `i` and `j`, with the test `absent` for nil.
unfoldable pub halve : (fuel : ℕ) → (absent : ℕ → Option Bool) → (i j : ℕ) → Option ℕ
halve zero absent i j = none
halve (suc fuel) absent i j =
    if ltb 1 (j - i)
    then elim (absent ((i + j) / 2)) [
      | none ↦ none
      | some true ↦ halve fuel absent i ((i + j) / 2)
      | some false ↦ halve fuel absent ((i + j) / 2) j
    ]
    else some i

-- The linear search for the first absent index from `i` on.
unfoldable pub linear : (fuel : ℕ) → Table → ℕ → Option ℕ
linear zero t i = none
linear (suc fuel) t i = elim (nil_at t i) [
  | none ↦ none
  | some true ↦ some (i - 1)
  | some false ↦ linear fuel t (i + 1)
]

-- `j` doubles; behind MAX_INT, 2 ^ 31 - 3, the linear search takes over. 32 doublings are enough.
unfoldable pub double : (fuel : ℕ) → Table → (i j : ℕ) → Option ℕ
double zero t i j = none
double (suc fuel) t i j = elim (nil_at t j) [
  | none ↦ none
  | some true ↦ halve 32 (nil_at t) i j
  | some false ↦ if ltb (2 ^ 31 - 3) (j * 2) then linear (2 ^ 31) t 1 else double fuel t j (j * 2)
]

unfoldable pub unbound_search : Table → ℕ → Option ℕ
unbound_search t j = double 32 t j (j + 1)

unfoldable pub luah_getn : Table → Option ℕ
luah_getn t =
    let j = length t.array in
    if ltb 0 j && is_nil (get_or t.array (j - 1) nil)
    then halve 32 (λ m. some (is_nil (get_or t.array (m - 1) nil))) 0 j
    else if t.dummy
    then some j
    else unbound_search t j
