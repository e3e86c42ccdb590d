-- ===== src/Chunk/Verify/Symbexec.antt =====
-- The loop of `symbexec` of lib/lunatik/ldebug.c, and `luaG_checkcode`.
use lunatik_ng.Base.{
  ℕ, zero, suc, ◌+◌, ◌-◌, ◌/◌, ◌%◌, Bool, true, false, not, ◌&&◌, Option, none, some, length,
  get_elem?, ltb, leb, ◌==◌, if◌then◌else◌,
}
use lunatik_ng.Chunk.{Fields, Proto, proto, Protos, count}
use lunatik_ng.Chunk.Opcodes.{
  OpCode, op_loadbool, op_loadnil, op_getupval, op_setupval, op_getglobal, op_setglobal, op_self,
  op_concat, op_tforloop, op_forloop, op_forprep, op_jmp, op_call, op_tailcall, op_return,
  op_setlist, op_closure, op_vararg, luap_opmodes, get_opcode, getarg_a, getarg_b, getarg_c,
  getarg_bx, maxarg_sbx, no_reg,
}
use lunatik_ng.Chunk.Verify.{
  Verdict, rejected, fault, passed, ◌>>=◌, ◌>>◌, pure, check, when, read, is_string, is_upvalue,
  get_proto?, nups_of, has_count_behind, sizecode, code_at, checkreg, precheck, checkopenop,
  check_args, check_skip,
}

module _ (f : Fields) (fs : Protos) where
  -- The pseudo-instructions at `pc + j` and behind.
  unfoldable pub check_pseudo : ℕ → (j n : ℕ) → Verdict (Unit {0})
  check_pseudo pc j zero = passed tt
  check_pseudo pc j (suc n) =
      code_at f fs (pc + j) >>= λ i. check (is_upvalue (get_opcode i)) >> check_pseudo pc (suc j) n

  abbrev pub check_closure : (pc bx : ℕ) → Verdict ℕ
  check_closure pc bx = do
    check (ltb bx (count fs))
    p ← read (get_proto? fs bx)
    check (ltb (pc + nups_of p) (sizecode f fs))
    check_pseudo pc 1 (nups_of p)
    pure (nups_of p)

  module _ (lastpc reg : ℕ) where
    -- A jump is followed if it is forward and does not skip `lastpc`.
    abbrev pub jump : (pc bx : ℕ) → ℕ
    jump pc bx =
        let dest = pc + 1 + bx - maxarg_sbx in
        if not (reg == no_reg) && (ltb pc dest && leb dest lastpc) then dest - 1 else pc

    abbrev pub check_call : (pc last a b c : ℕ) → Verdict (ℕ × ℕ)
    check_call pc last a b c = do
      when (not (b == 0)) (checkreg f fs (a + b - 1))
      when (c == 0) (checkopenop f fs pc)
      when (leb 2 c) (checkreg f fs (a + c - 2))
      pure (pc, if leb a reg then pc else last)

    -- The second switch: `pc` and `last` behind it. The arguments `b` and `c` are as they are in the
    -- instruction, before the code lowers them by 1.
    unfoldable pub effect : (pc last i : ℕ) → OpCode → Verdict (ℕ × ℕ)
    effect pc last i op_loadbool = do
      when (getarg_c i == 1) (
          check (ltb (pc + 2) (sizecode f fs))
          >> (code_at f fs (pc + 1) >>= λ d. check (not (has_count_behind d))))
      pure (pc, last)
    effect pc last i op_loadnil =
        pure (pc, if leb (getarg_a i) reg && leb reg (getarg_b i) then pc else last)
    effect pc last i op_getupval = check (ltb (getarg_b i) f.nups) >> pure (pc, last)
    effect pc last i op_setupval = check (ltb (getarg_b i) f.nups) >> pure (pc, last)
    effect pc last i op_getglobal = do
      k ← read (get_elem? f.k (getarg_bx i))
      check (is_string k)
      pure (pc, last)
    effect pc last i op_setglobal = do
      k ← read (get_elem? f.k (getarg_bx i))
      check (is_string k)
      pure (pc, last)
    effect pc last i op_self = do
      checkreg f fs (getarg_a i + 1)
      pure (pc, if reg == getarg_a i + 1 then pc else last)
    effect pc last i op_concat = check (ltb (getarg_b i) (getarg_c i)) >> pure (pc, last)
    effect pc last i op_tforloop = do
      check (leb 1 (getarg_c i))
      checkreg f fs (getarg_a i + 2 + getarg_c i)
      pure (pc, if leb (getarg_a i + 2) reg then pc else last)
    effect pc last i op_forloop =
        checkreg f fs (getarg_a i + 3) >> pure (jump pc (getarg_bx i), last)
    effect pc last i op_forprep =
        checkreg f fs (getarg_a i + 3) >> pure (jump pc (getarg_bx i), last)
    effect pc last i op_jmp = pure (jump pc (getarg_bx i), last)
    effect pc last i op_call = check_call pc last (getarg_a i) (getarg_b i) (getarg_c i)
    effect pc last i op_tailcall = check_call pc last (getarg_a i) (getarg_b i) (getarg_c i)
    effect pc last i op_return =
        when (leb 2 (getarg_b i)) (checkreg f fs (getarg_a i + getarg_b i - 2)) >> pure (pc, last)
    effect pc last i op_setlist = do
      when (leb 1 (getarg_b i)) (checkreg f fs (getarg_a i + getarg_b i))
      when (getarg_c i == 0) (check (ltb (pc + 1) (sizecode f fs - 1)))
      pure (if getarg_c i == 0 then pc + 1 else pc, last)
    effect pc last i op_closure = check_closure pc (getarg_bx i) >>= λ nup.
        pure (if reg == no_reg then pc else pc + nup, last)
    effect pc last i op_vararg = do
      check ((f.is_vararg / 2 % 2 == 1) && not (f.is_vararg / 4 % 2 == 1))
      when (getarg_b i == 0) (checkopenop f fs pc)
      check (ltb (getarg_a i + getarg_b i) (f.maxstacksize + 2))
      pure (pc, last)
    effect pc last i _ = pure (pc, last)

    -- One round: `pc` of the next round, and `last`.
    unfoldable pub round_of : (pc last i : ℕ) → OpCode → Verdict (ℕ × ℕ)
    round_of pc last i op = do
      checkreg f fs (getarg_a i)
      check_args f fs (luap_opmodes op).mode (luap_opmodes op) pc i
      check_skip f fs (luap_opmodes op).test pc
      (pc', last') ←
          effect pc (if (luap_opmodes op).sets_a && (getarg_a i == reg) then pc else last) i op
      pure (pc' + 1, last')

    unfoldable pub decoded : (pc last i : ℕ) → Option OpCode → Verdict (ℕ × ℕ)
    decoded pc last i none = rejected
    decoded pc last i (some op) = round_of pc last i op

    -- Each round raises `pc`, so that the fuel `lastpc` is enough.
    unfoldable pub symbexec_loop : (fuel pc last : ℕ) → Verdict ℕ
    symbexec_loop zero pc last = if ltb pc lastpc then fault else passed last
    symbexec_loop (suc fuel) pc last = elim (ltb pc lastpc) [
      | false ↦ passed last
      | true ↦ code_at f fs pc >>= λ i.
          decoded pc last i (get_opcode i) >>= λ (pc', last'). symbexec_loop fuel pc' last'
    ]

    unfoldable pub symbexec : Verdict ℕ
    symbexec = do
      precheck f fs
      last ← symbexec_loop lastpc 0 (sizecode f fs - 1)
      code_at f fs last

accepts : Verdict ℕ → Bool
accepts (passed i) = not (i == 0)
accepts _ = false

unfoldable pub luag_checkcode : Proto → Bool
unfolding accepts
luag_checkcode (proto f fs) = accepts (symbexec f fs (length f.code) no_reg)
