-- ===== src/Buffer.antt =====
-- The buffer objects of lib/lunatik/bindings/buffer.c. A buffer is its bytes; the arguments are as
-- `luaL_checkudata` and `luaL_checkinteger` give them, which raise errors of their own.
pub mod Access
mod Examples
use lunatik_ng.Base.{
  ℕ, ◌-◌, ◌%◌, Bool, Option, none, some, List, [], ◌∷◌, ℤ, pos, negsuc, length, get_elem?, get_or,
  set, ltb, leb, ltb_ℤ, pos_part, ◌||◌, not, if◌then◌else◌, map,
}

pub data BufferError : Type 0 where
  index_out_of_range : BufferError
  bad_value : BufferError

pub data Outcome (A : Type 0) : Type 0 where
  lua_error : BufferError → Outcome A
  done : A → Outcome A

-- `lua_objlen` of the buffer.
abbrev lunatik_buf_length : List ℕ → ℕ
lunatik_buf_length buf = length buf

-- `idx >= lua_objlen(...)` is a comparison of unsigned numbers, but `idx < 0` is tested first.
abbrev outside : List ℕ → ℤ → Bool
outside buf idx = ltb_ℤ idx (pos 0) || not (ltb_ℤ idx (pos (lunatik_buf_length buf)))

unfoldable pub lunatik_buf_newindex : List ℕ → (idx val : ℤ) → Outcome (List ℕ)
lunatik_buf_newindex buf idx val =
    if outside buf idx
    then lua_error index_out_of_range
    else if ltb_ℤ val (pos 0) || ltb_ℤ (pos 255) val
    then lua_error bad_value
    else done (set buf (pos_part idx) (pos_part val))

unfoldable pub lunatik_buf_index : List ℕ → (idx : ℤ) → Outcome ℕ
lunatik_buf_index buf idx =
    if outside buf idx then lua_error index_out_of_range else done (get_or buf (pos_part idx) 0)

-- A byte as a `char`, which has a sign on x86.
abbrev as_char : ℕ → ℤ
as_char b = if ltb b 128 then pos b else negsuc (255 - b)

-- The elements of the new table from the key 1 on.
abbrev pub lunatik_buf_call : List ℕ → List ℤ
lunatik_buf_call buf = map as_char buf
