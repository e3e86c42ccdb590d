-- ===== src/Chunk/Opcodes.antt =====
-- Instructions and their properties, of lib/lunatik/lopcodes.h and lopcodes.c.
pub mod Fields
pub mod Create
mod Examples
use lunatik_ng.Base.{
  ℕ, ◌-◌, ◌*◌, ◌/◌, ◌%◌, ◌^◌, Bool, true, false, Option, List, [], ◌∷◌, get_elem?, ◌==◌,
}

pub data OpMode : Type 0 where
  mode_abc : OpMode
  mode_abx : OpMode
  mode_asbx : OpMode

-- No argument, any, a register or a jump, a constant or a register.
pub data OpArgMask : Type 0 where
  arg_n : OpArgMask
  arg_u : OpArgMask
  arg_r : OpArgMask
  arg_k : OpArgMask

pub data OpCode : Type 0 where
  op_move : OpCode
  op_loadk : OpCode
  op_loadbool : OpCode
  op_loadnil : OpCode
  op_getupval : OpCode
  op_getglobal : OpCode
  op_gettable : OpCode
  op_setglobal : OpCode
  op_setupval : OpCode
  op_settable : OpCode
  op_newtable : OpCode
  op_self : OpCode
  op_add : OpCode
  op_sub : OpCode
  op_mul : OpCode
  op_div : OpCode
  op_mod : OpCode
  op_pow : OpCode
  op_unm : OpCode
  op_not : OpCode
  op_len : OpCode
  op_concat : OpCode
  op_jmp : OpCode
  op_eq : OpCode
  op_lt : OpCode
  op_le : OpCode
  op_test : OpCode
  op_testset : OpCode
  op_call : OpCode
  op_tailcall : OpCode
  op_return : OpCode
  op_forloop : OpCode
  op_forprep : OpCode
  op_tforloop : OpCode
  op_setlist : OpCode
  op_close : OpCode
  op_closure : OpCode
  op_vararg : OpCode

-- In the order of the numbers.
abbrev opcodes : List OpCode
opcodes =
    op_move ∷ op_loadk ∷ op_loadbool ∷ op_loadnil ∷ op_getupval ∷ op_getglobal ∷ op_gettable
    ∷ op_setglobal ∷ op_setupval ∷ op_settable ∷ op_newtable ∷ op_self ∷ op_add ∷ op_sub ∷ op_mul
    ∷ op_div ∷ op_mod ∷ op_pow ∷ op_unm ∷ op_not ∷ op_len ∷ op_concat ∷ op_jmp ∷ op_eq ∷ op_lt
    ∷ op_le ∷ op_test ∷ op_testset ∷ op_call ∷ op_tailcall ∷ op_return ∷ op_forloop ∷ op_forprep
    ∷ op_tforloop ∷ op_setlist ∷ op_close ∷ op_closure ∷ op_vararg ∷ []

-- T, A, B, C and the mode.
pub record Modes : Type 0 where
  pub test : Bool
  pub sets_a : Bool
  pub b_mode : OpArgMask
  pub c_mode : OpArgMask
  pub mode : OpMode

abbrev opmode : Bool → Bool → OpArgMask → OpArgMask → OpMode → Modes
opmode t a b c m = record { test = t; sets_a = a; b_mode = b; c_mode = c; mode = m }

unfoldable pub luap_opmodes : OpCode → Modes
luap_opmodes op_move = opmode false true arg_r arg_n mode_abc
luap_opmodes op_loadk = opmode false true arg_k arg_n mode_abx
luap_opmodes op_loadbool = opmode false true arg_u arg_u mode_abc
luap_opmodes op_loadnil = opmode false true arg_r arg_n mode_abc
luap_opmodes op_getupval = opmode false true arg_u arg_n mode_abc
luap_opmodes op_getglobal = opmode false true arg_k arg_n mode_abx
luap_opmodes op_gettable = opmode false true arg_r arg_k mode_abc
luap_opmodes op_setglobal = opmode false false arg_k arg_n mode_abx
luap_opmodes op_setupval = opmode false false arg_u arg_n mode_abc
luap_opmodes op_settable = opmode false false arg_k arg_k mode_abc
luap_opmodes op_newtable = opmode false true arg_u arg_u mode_abc
luap_opmodes op_self = opmode false true arg_r arg_k mode_abc
luap_opmodes op_add = opmode false true arg_k arg_k mode_abc
luap_opmodes op_sub = opmode false true arg_k arg_k mode_abc
luap_opmodes op_mul = opmode false true arg_k arg_k mode_abc
luap_opmodes op_div = opmode false true arg_k arg_k mode_abc
luap_opmodes op_mod = opmode false true arg_k arg_k mode_abc
luap_opmodes op_pow = opmode false true arg_k arg_k mode_abc
luap_opmodes op_unm = opmode false true arg_r arg_n mode_abc
luap_opmodes op_not = opmode false true arg_r arg_n mode_abc
luap_opmodes op_len = opmode false true arg_r arg_n mode_abc
luap_opmodes op_concat = opmode false true arg_r arg_r mode_abc
luap_opmodes op_jmp = opmode false false arg_r arg_n mode_asbx
luap_opmodes op_eq = opmode true false arg_k arg_k mode_abc
luap_opmodes op_lt = opmode true false arg_k arg_k mode_abc
luap_opmodes op_le = opmode true false arg_k arg_k mode_abc
luap_opmodes op_test = opmode true true arg_r arg_u mode_abc
luap_opmodes op_testset = opmode true true arg_r arg_u mode_abc
luap_opmodes op_call = opmode false true arg_u arg_u mode_abc
luap_opmodes op_tailcall = opmode false true arg_u arg_u mode_abc
luap_opmodes op_return = opmode false false arg_u arg_n mode_abc
luap_opmodes op_forloop = opmode false true arg_r arg_n mode_asbx
luap_opmodes op_forprep = opmode false true arg_r arg_n mode_asbx
luap_opmodes op_tforloop = opmode true false arg_n arg_u mode_abc
luap_opmodes op_setlist = opmode false false arg_u arg_u mode_abc
luap_opmodes op_close = opmode false false arg_n arg_n mode_abc
luap_opmodes op_closure = opmode false true arg_u arg_n mode_abx
luap_opmodes op_vararg = opmode false true arg_u arg_n mode_abc

-- `GET_OPCODE`; none is a number from NUM_OPCODES on.
unfoldable pub get_opcode : ℕ → Option OpCode
get_opcode i = get_elem? opcodes (i % 2 ^ 6)

abbrev pub getarg_a : ℕ → ℕ
getarg_a i = i / 2 ^ 6 % 2 ^ 8

abbrev pub getarg_b : ℕ → ℕ
getarg_b i = i / 2 ^ 23 % 2 ^ 9

abbrev pub getarg_c : ℕ → ℕ
getarg_c i = i / 2 ^ 14 % 2 ^ 9

abbrev pub getarg_bx : ℕ → ℕ
getarg_bx i = i / 2 ^ 14 % 2 ^ 18

-- `GETARG_sBx` is `getarg_bx` less this number.
abbrev pub maxarg_sbx : ℕ
maxarg_sbx = 131071

-- Of a 9-bit argument.
abbrev pub isk : ℕ → Bool
isk x = x / 2 ^ 8 % 2 == 1

abbrev pub indexk : ℕ → ℕ
indexk r = r - r / 2 ^ 8 % 2 * 2 ^ 8

abbrev pub no_reg : ℕ
no_reg = 255
