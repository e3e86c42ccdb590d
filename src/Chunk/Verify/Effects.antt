-- ===== src/Chunk/Verify/Effects.antt =====
-- The second switch of `symbexec` of lib/lunatik/ldebug.c reads inside of the arrays.
use lunatik_ng.Base.{
  ℕ, ◌+◌, ◌-◌, ◌≤◌, ◌<◌, ◌≡◌, refl, sym, ap, ◌∙◌, Bool, true, false, Option, none, some, length,
  get_elem?, ltb, Bool-cases, inl, inr, arith, ltb→lt,
}
use lunatik_ng.Chunk.{Fields, Protos, count}
use lunatik_ng.Chunk.Opcodes.{
  OpCode, op_move, op_loadk, op_loadbool, op_loadnil, op_getupval, op_getglobal, op_gettable,
  op_setglobal, op_setupval, op_settable, op_newtable, op_self, op_add, op_sub, op_mul, op_div,
  op_mod, op_pow, op_unm, op_not, op_len, op_concat, op_jmp, op_eq, op_lt, op_le, op_test,
  op_testset, op_call, op_tailcall, op_return, op_forloop, op_forprep, op_tforloop, op_setlist,
  op_close, op_closure, op_vararg, luap_opmodes, get_opcode, getarg_a, getarg_b, getarg_c,
  getarg_bx,
}
use lunatik_ng.Chunk.Verify.{is_return, nups_of, checkopenop}
use lunatik_ng.Chunk.Verify.Symbexec.{check_closure, effect, check_call}
use lunatik_ng.Chunk.Verify.Bounds.{
  Safe, Any, Safe-bind, Safe-passed, Safe-check, Safe-when, Safe-test, Safe-read, Safe-read_proto,
  EndsInReturn, ArgsOk, check_pseudo-Safe,
}

-- The instruction that was read is a return.
abbrev returns : Option ℕ → Bool
returns none = false
returns (some i) = is_return (get_opcode i)

module _ (f : Fields) (fs : Protos) where
  -- `pc` does not go back, and `last` is an instruction.
  abbrev pub Next : ℕ → ℕ × ℕ → Type 0
  Next pc (pc', last') = (pc ≤ pc') × (last' < length f.code)

  -- An instruction that is no return is not the last one.
  before_last :
      (pc i : ℕ) (op : OpCode)
      → EndsInReturn f fs
      → pc < length f.code
      → get_elem? f.code pc ≡ some i
      → get_opcode i ≡ some op
      → is_return (some op) ≡ false
      → pc + 1 < length f.code
  before_last pc i op (r, last, return) inside here opcode other =
      elim (Bool-cases (ltb (pc + 1) (length f.code))) [
        | inl e ↦ ltb→lt (pc + 1) (length f.code) e
        | inr e ↦
            let same : pc ≡ length f.code - 1 = ground arith in
            let twice : some i ≡ some r = sym here ∙ ap (get_elem? f.code) same ∙ last in
            let yes : is_return (some op) ≡ true =
              sym (ap is_return opcode) ∙ ap returns twice ∙ return in
            ground (arith, sym other ∙ yes)
      ]

  openop-Safe : (pc : ℕ) → pc + 1 < length f.code → Safe (checkopenop f fs pc) Any
  openop-Safe pc h = Safe-bind _ (Safe-read f.code (pc + 1) h) λ i _. Safe-test _

  closure-Safe : (pc bx : ℕ) → Safe (check_closure f fs pc bx) Any
  closure-Safe pc bx = Safe-bind _ (Safe-check _) λ _ there.
      Safe-bind _ (Safe-read_proto fs bx (ltb→lt bx (count fs) there)) λ p _.
        Safe-bind _ (Safe-check _) λ _ room.
          Safe-bind _ (check_pseudo-Safe f fs pc 1 (nups_of p) (ground arith))
            λ _ _. Safe-passed _ _ tt

  module _ (lastpc reg : ℕ) where
    call-Safe :
        (pc last a b c : ℕ)
        → pc + 1 < length f.code
        → last < length f.code
        → Safe (check_call f fs lastpc reg pc last a b c) (Next pc)
    call-Safe pc last a b c behind inside = Safe-bind _ (Safe-when _ _ λ _. Safe-test _) λ _ _.
        Safe-bind _ (Safe-when _ _ λ _. openop-Safe pc behind)
          λ _ _. Safe-bind _ (Safe-when _ _ λ _. Safe-test _) λ _ _. Safe-passed _ _ (ground arith)

    pub effect-Safe :
        (pc last i : ℕ) (op : OpCode)
        → EndsInReturn f fs
        → pc < length f.code
        → last < length f.code
        → get_elem? f.code pc ≡ some i
        → get_opcode i ≡ some op
        → ArgsOk f fs (luap_opmodes op).mode (luap_opmodes op).b_mode i
        → Safe (effect f fs lastpc reg pc last i op) (Next pc)
    unfolding effect luap_opmodes
    effect-Safe pc last i op_move ends inside inside' here opcode args =
        Safe-passed _ _ (omega arith)
    effect-Safe pc last i op_loadk ends inside inside' here opcode args =
        Safe-passed _ _ (omega arith)
    effect-Safe pc last i op_loadbool ends inside inside' here opcode args =
        Safe-bind _
          (Safe-when _ _ λ _.
            Safe-bind _ (Safe-check _)
              λ _ room. Safe-bind _ (Safe-read f.code (pc + 1) (ground arith)) λ d _. Safe-test _)
          λ _ _. Safe-passed _ _ (ground arith)
    effect-Safe pc last i op_loadnil ends inside inside' here opcode args =
        Safe-passed _ _ (ground arith)
    effect-Safe pc last i op_getupval ends inside inside' here opcode args =
        Safe-bind _ (Safe-test _) λ _ _. Safe-passed _ _ (ground arith)
    effect-Safe pc last i op_getglobal ends inside inside' here opcode args =
        Safe-bind _ (Safe-read f.k (getarg_bx i) args)
          λ k _. Safe-bind _ (Safe-test _) λ _ _. Safe-passed _ _ (ground arith)
    effect-Safe pc last i op_gettable ends inside inside' here opcode args =
        Safe-passed _ _ (omega arith)
    effect-Safe pc last i op_setglobal ends inside inside' here opcode args =
        Safe-bind _ (Safe-read f.k (getarg_bx i) args)
          λ k _. Safe-bind _ (Safe-test _) λ _ _. Safe-passed _ _ (ground arith)
    effect-Safe pc last i op_setupval ends inside inside' here opcode args =
        Safe-bind _ (Safe-test _) λ _ _. Safe-passed _ _ (ground arith)
    effect-Safe pc last i op_settable ends inside inside' here opcode args =
        Safe-passed _ _ (omega arith)
    effect-Safe pc last i op_newtable ends inside inside' here opcode args =
        Safe-passed _ _ (omega arith)
    effect-Safe pc last i op_self ends inside inside' here opcode args =
        Safe-bind _ (Safe-test _) λ _ _. Safe-passed _ _ (ground arith)
    effect-Safe pc last i op_add ends inside inside' here opcode args =
        Safe-passed _ _ (omega arith)
    effect-Safe pc last i op_sub ends inside inside' here opcode args =
        Safe-passed _ _ (omega arith)
    effect-Safe pc last i op_mul ends inside inside' here opcode args =
        Safe-passed _ _ (omega arith)
    effect-Safe pc last i op_div ends inside inside' here opcode args =
        Safe-passed _ _ (omega arith)
    effect-Safe pc last i op_mod ends inside inside' here opcode args =
        Safe-passed _ _ (omega arith)
    effect-Safe pc last i op_pow ends inside inside' here opcode args =
        Safe-passed _ _ (omega arith)
    effect-Safe pc last i op_unm ends inside inside' here opcode args =
        Safe-passed _ _ (omega arith)
    effect-Safe pc last i op_not ends inside inside' here opcode args =
        Safe-passed _ _ (omega arith)
    effect-Safe pc last i op_len ends inside inside' here opcode args =
        Safe-passed _ _ (omega arith)
    effect-Safe pc last i op_concat ends inside inside' here opcode args =
        Safe-bind _ (Safe-test _) λ _ _. Safe-passed _ _ (ground arith)
    effect-Safe pc last i op_jmp ends inside inside' here opcode args =
        Safe-passed _ _ (ground arith)
    effect-Safe pc last i op_eq ends inside inside' here opcode args = Safe-passed _ _ (omega arith)
    effect-Safe pc last i op_lt ends inside inside' here opcode args = Safe-passed _ _ (omega arith)
    effect-Safe pc last i op_le ends inside inside' here opcode args = Safe-passed _ _ (omega arith)
    effect-Safe pc last i op_test ends inside inside' here opcode args =
        Safe-passed _ _ (omega arith)
    effect-Safe pc last i op_testset ends inside inside' here opcode args =
        Safe-passed _ _ (omega arith)
    effect-Safe pc last i op_call ends inside inside' here opcode args =
        call-Safe pc last (getarg_a i) (getarg_b i) (getarg_c i)
          (before_last pc i op_call ends inside here opcode refl) inside'
    effect-Safe pc last i op_tailcall ends inside inside' here opcode args =
        call-Safe pc last (getarg_a i) (getarg_b i) (getarg_c i)
          (before_last pc i op_tailcall ends inside here opcode refl) inside'
    effect-Safe pc last i op_return ends inside inside' here opcode args =
        Safe-bind _ (Safe-when _ _ λ _. Safe-test _) λ _ _. Safe-passed _ _ (ground arith)
    effect-Safe pc last i op_forloop ends inside inside' here opcode args =
        Safe-bind _ (Safe-test _) λ _ _. Safe-passed _ _ (ground arith)
    effect-Safe pc last i op_forprep ends inside inside' here opcode args =
        Safe-bind _ (Safe-test _) λ _ _. Safe-passed _ _ (ground arith)
    effect-Safe pc last i op_tforloop ends inside inside' here opcode args =
        Safe-bind _ (Safe-test _)
          λ _ _. Safe-bind _ (Safe-test _) λ _ _. Safe-passed _ _ (ground arith)
    effect-Safe pc last i op_setlist ends inside inside' here opcode args =
        Safe-bind _ (Safe-when _ _ λ _. Safe-test _)
          λ _ _. Safe-bind _ (Safe-when _ _ λ _. Safe-test _) λ _ _. Safe-passed _ _ (ground arith)
    effect-Safe pc last i op_close ends inside inside' here opcode args =
        Safe-passed _ _ (omega arith)
    effect-Safe pc last i op_closure ends inside inside' here opcode args =
        Safe-bind _ (closure-Safe pc (getarg_bx i)) λ nup _. Safe-passed _ _ (ground arith)
    effect-Safe pc last i op_vararg ends inside inside' here opcode args =
        Safe-bind _ (Safe-test _) λ _ _.
          Safe-bind _
            (Safe-when _ _
              λ _. openop-Safe pc (before_last pc i op_vararg ends inside here opcode refl))
            λ _ _. Safe-bind _ (Safe-test _) λ _ _. Safe-passed _ _ (ground arith)
