-- ===== src/Chunk.antt =====
-- Precompiled chunks: the functions of lib/lunatik/lobject.h (`Proto`) as ldump.c and lundump.c
-- write and read them.
pub mod Dump
pub mod Load
pub mod Opcodes
pub mod Verify
mod Reads
mod Constants
mod RoundTrip
mod Unstripped
mod Header
mod Writer
mod Examples
use lunatik_ng.Base.{
  ℕ, Bool, Option, List, [], ◌∷◌, ◌==◌, if◌then◌else◌, true, false, none, some, suc,
}

-- A `TString *`: none is NULL. Strings are interned, so that two pointers are equal where the
-- strings are.
abbrev pub Str : Type 0
Str = Option (List ℕ)

-- Numbers of a fixed width stand for their words: an `int` is below 2 ^ 32, and negative from
-- 2 ^ 31 on; a `lua_Number` (a `long`) is below 2 ^ 64.
pub record LocVar : Type 0 where
  pub varname : Str
  pub startpc : ℕ
  pub endpc : ℕ

-- The constants that the compiler makes.
pub data Constant : Type 0 where
  k_nil : Constant
  k_boolean : Bool → Constant
  k_number : ℕ → Constant
  k_string : Str → Constant

-- The vectors' sizes are their lengths.
pub record Fields : Type 0 where
  pub source : Str
  pub linedefined : ℕ
  pub lastlinedefined : ℕ
  pub nups : ℕ
  pub numparams : ℕ
  pub is_vararg : ℕ
  pub maxstacksize : ℕ
  pub code : List ℕ
  pub k : List Constant
  pub lineinfo : List ℕ
  pub locvars : List LocVar
  pub upvalues : List Str

mutual
  pub data Proto : Type 0 where
    proto : Fields → Protos → Proto

  pub data Protos : Type 0 where
    no_more : Protos
    next : Proto → Protos → Protos

abbrev pub count : Protos → ℕ
count no_more = 0
count (next f fs) = suc (count fs)

-- `luaU_header`: "\033Lua", version, format, endianness, the sizes of int, size_t, Instruction and
-- lua_Number, and the test for an integral lua_Number.
abbrev pub luau_header : List ℕ
luau_header = 27 ∷ 76 ∷ 117 ∷ 97 ∷ 81 ∷ 0 ∷ 1 ∷ 4 ∷ 8 ∷ 4 ∷ 8 ∷ 1 ∷ []

abbrev pub same_bytes : List ℕ → List ℕ → Bool
same_bytes [] [] = true
same_bytes (x ∷ xs) (y ∷ ys) = if x == y then same_bytes xs ys else false
same_bytes xs ys = false

-- The comparison of two pointers to strings.
abbrev pub same_str : Str → Str → Bool
same_str none none = true
same_str (some a) (some b) = same_bytes a b
same_str a b = false
