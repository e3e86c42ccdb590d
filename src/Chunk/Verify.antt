-- ===== src/Chunk/Verify.antt =====
-- The verifier of bytecode, `symbexec` and what it calls, of lib/lunatik/ldebug.c.
pub mod Symbexec
pub mod Bounds
pub mod Effects
pub mod Rounds
use lunatik_ng.Base.{
  ℕ, zero, suc, ◌+◌, ◌-◌, ◌/◌, ◌%◌, ◌^◌, Bool, true, false, not, ◌&&◌, ◌||◌, Option, none, some,
  List, [], ◌∷◌, length, get_elem?, ltb, leb, ◌==◌, if◌then◌else◌,
}
use lunatik_ng.Chunk.{Constant, k_string, Fields, Proto, proto, Protos, no_more, next, count}
use lunatik_ng.Chunk.Opcodes.{
  OpMode, mode_abc, mode_abx, mode_asbx, OpArgMask, arg_n, arg_u, arg_r, arg_k, OpCode, op_return,
  op_jmp, op_setlist, op_getupval, op_move, op_call, op_tailcall, Modes, get_opcode, getarg_a,
  getarg_b, getarg_c, getarg_bx, maxarg_sbx, isk, indexk,
}

-- `check` ends the verification: `rejected`. `fault` is a read outside of an array, or the end of
-- the fuel.
pub data Verdict (A : Type 0) : Type 0 where
  rejected : Verdict A
  fault : Verdict A
  passed : A → Verdict A

infixl 5 ◌>>=◌ ◌>>◌
unfoldable pub ◌>>=◌ : {A B : Type 0} → Verdict A → (A → Verdict B) → Verdict B
◌>>=◌ v f = elim v [ rejected ↦ rejected | fault ↦ fault | passed a ↦ f a ]

abbrev pub ◌>>◌ : {B : Type 0} → Verdict (Unit {0}) → Verdict B → Verdict B
◌>>◌ v w = v >>= λ _. w

abbrev pub pure : {A : Type 0} → A → Verdict A
pure a = passed a

unfoldable pub check : Bool → Verdict (Unit {0})
check true = passed tt
check false = rejected

unfoldable pub when : Bool → Verdict (Unit {0}) → Verdict (Unit {0})
when true v = v
when false v = passed tt

abbrev pub read : {A : Type 0} → Option A → Verdict A
read none = fault
read (some a) = passed a

abbrev pub is_return : Option OpCode → Bool
is_return (some op_return) = true
is_return _ = false

abbrev pub is_jmp : Option OpCode → Bool
is_jmp (some op_jmp) = true
is_jmp _ = false

abbrev pub is_setlist : Option OpCode → Bool
is_setlist (some op_setlist) = true
is_setlist _ = false

-- The pseudo-instructions behind OP_CLOSURE.
abbrev pub is_upvalue : Option OpCode → Bool
is_upvalue (some op_getupval) = true
is_upvalue (some op_move) = true
is_upvalue _ = false

abbrev pub is_open : Option OpCode → Bool
is_open (some op_call) = true
is_open (some op_tailcall) = true
is_open (some op_return) = true
is_open (some op_setlist) = true
is_open _ = false

abbrev pub is_string : Constant → Bool
is_string (k_string s) = true
is_string _ = false

abbrev pub get_proto? : Protos → ℕ → Option Proto
get_proto? no_more n = none
get_proto? (next f fs) zero = some f
get_proto? (next f fs) (suc n) = get_proto? fs n

abbrev pub nups_of : Proto → ℕ
nups_of (proto f fs) = f.nups

-- A setlist whose count stands in the next instruction.
abbrev pub has_count_behind : ℕ → Bool
has_count_behind d = is_setlist (get_opcode d) && (getarg_c d == 0)

module _ (f : Fields) (fs : Protos) where
  abbrev pub sizecode : ℕ
  sizecode = length f.code

  abbrev pub code_at : ℕ → Verdict ℕ
  code_at pc = read (get_elem? f.code pc)

  abbrev pub checkreg : ℕ → Verdict (Unit {0})
  checkreg reg = check (ltb reg f.maxstacksize)

  unfoldable pub precheck : Verdict (Unit {0})
  precheck = do
    check (leb f.maxstacksize 250)
    check (leb (f.numparams + f.is_vararg % 2) f.maxstacksize)
    check (not (f.is_vararg / 4 % 2 == 1) || (f.is_vararg % 2 == 1))
    check (leb (length f.upvalues) f.nups)
    check ((length f.lineinfo == sizecode) || (length f.lineinfo == 0))
    check (ltb 0 sizecode)
    i ← code_at (sizecode - 1)
    check (is_return (get_opcode i))

  -- The test `luaG_checkopenop` of the next instruction.
  abbrev pub checkopenop : ℕ → Verdict (Unit {0})
  checkopenop pc = do i ← code_at (pc + 1); check (is_open (get_opcode i) && (getarg_b i == 0))

  abbrev pub check_arg_mode : ℕ → OpArgMask → Verdict (Unit {0})
  check_arg_mode r arg_n = check (r == 0)
  check_arg_mode r arg_u = passed tt
  check_arg_mode r arg_r = checkreg r
  check_arg_mode r arg_k =
      check (if isk r then ltb (indexk r) (length f.k) else ltb r f.maxstacksize)

  -- The number of instructions in a row before `dest` that look like a setlist with its count behind.
  unfoldable pub setlists : (dest : ℕ) → Verdict ℕ
  setlists zero = passed 0
  setlists (suc d) = do
    i ← code_at d
    elim (has_count_behind i) [ true ↦ setlists d >>= λ j. pure (suc j) | false ↦ passed 0 ]

  -- `target` is the jump's, with `maxarg_sbx` added.
  abbrev pub check_jump : ℕ → Verdict (Unit {0})
  check_jump target = do
    check (leb maxarg_sbx target && ltb (target - maxarg_sbx) sizecode)
    j ← setlists (target - maxarg_sbx)
    check (j % 2 == 0)

  abbrev pub check_args : OpMode → Modes → (pc i : ℕ) → Verdict (Unit {0})
  check_args mode_abc m pc i = do
    check_arg_mode (getarg_b i) m.b_mode
    check_arg_mode (getarg_c i) m.c_mode
  check_args mode_abx m pc i = elim m.b_mode [
    | arg_k ↦ check (ltb (getarg_bx i) (length f.k))
    | _ ↦ passed tt
  ]
  check_args mode_asbx m pc i = elim m.b_mode [
    | arg_r ↦ check_jump (pc + 1 + getarg_bx i)
    | _ ↦ passed tt
  ]

  abbrev pub check_skip : Bool → ℕ → Verdict (Unit {0})
  check_skip false pc = passed tt
  check_skip true pc = do
    check (ltb (pc + 2) sizecode)
    i ← code_at (pc + 1)
    check (is_jmp (get_opcode i))
