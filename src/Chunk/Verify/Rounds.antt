-- ===== src/Chunk/Verify/Rounds.antt =====
-- The rounds of `symbexec` of lib/lunatik/ldebug.c: they end, and read inside of the arrays.
use lunatik_ng.Base.{
  ℕ, zero, suc, ◌+◌, ◌-◌, ◌≤◌, ◌<◌, ◌≡◌, ◌≢◌, refl, Bool, true, false, ◌&&◌, Option, none, some,
  length, get_elem?, ltb, ◌==◌, if◌then◌else◌, arith, ltb→lt,
}
use mathlib.Core.Path.{subst}
use lunatik_ng.Chunk.{Fields, Protos}
use lunatik_ng.Chunk.Opcodes.{OpCode, luap_opmodes, get_opcode, getarg_a}
use lunatik_ng.Chunk.Verify.{Verdict, fault, passed}
use lunatik_ng.Chunk.Verify.Symbexec.{round_of, symbexec_loop, symbexec, decoded}
use lunatik_ng.Chunk.Verify.Bounds.{
  Holds, Safe, Any, Safe-bind, Safe-weaken, Safe-passed, Safe-test, Safe-read, EndsInReturn,
  precheck-Safe, args-Safe, skip-Safe,
}
use lunatik_ng.Chunk.Verify.Effects.{Next, effect-Safe}

module _ (f : Fields) (fs : Protos) where
  module _ (lastpc reg : ℕ) where
    round-Safe :
        (pc last i : ℕ) (op : OpCode)
        → EndsInReturn f fs
        → pc < length f.code
        → last < length f.code
        → get_elem? f.code pc ≡ some i
        → get_opcode i ≡ some op
        → Safe (round_of f fs lastpc reg pc last i op) (Next f fs (pc + 1))
    unfolding round_of
    round-Safe pc last i op ends inside inside' here opcode = Safe-bind _ (Safe-test _) λ _ _.
        Safe-bind _ (args-Safe f fs (luap_opmodes op).mode (luap_opmodes op) pc i) λ _ args.
          Safe-bind _ (skip-Safe f fs (luap_opmodes op).test pc) λ _ _.
            Safe-bind _
              (effect-Safe f fs lastpc reg pc
                (if (luap_opmodes op).sets_a && (getarg_a i == reg) then pc else last) i op ends
                inside (ground arith) here opcode args)
              λ (pc', last') (forward, last_inside). Safe-passed _ _ (omega arith)

    decoded-Safe :
        (pc last i : ℕ) (o : Option OpCode)
        → EndsInReturn f fs
        → pc < length f.code
        → last < length f.code
        → get_elem? f.code pc ≡ some i
        → get_opcode i ≡ o
        → Safe (decoded f fs lastpc reg pc last i o) (Next f fs (pc + 1))
    unfolding decoded
    decoded-Safe pc last i none ends inside inside' here opcode = record { holds = tt }
    decoded-Safe pc last i (some op) ends inside inside' here opcode =
        round-Safe pc last i op ends inside inside' here opcode

    while-Safe :
        (b : Bool) (v : Verdict ℕ) (last : ℕ)
        → last < length f.code
        → (b ≡ true → Safe v (λ last'. last' < length f.code))
        → Safe {A = ℕ} (elim b [ false ↦ passed last | true ↦ v ]) (λ last'. last' < length f.code)
    while-Safe false v last inside h = Safe-passed last _ inside
    while-Safe true v last inside h = h refl

    loop-Safe :
        (fuel pc last : ℕ)
        → EndsInReturn f fs
        → lastpc ≤ length f.code
        → last < length f.code
        → lastpc ≤ fuel + pc
        → Safe (symbexec_loop f fs lastpc reg fuel pc last) (λ last'. last' < length f.code)
    unfolding symbexec_loop
    loop-Safe zero pc last ends few inside fuelled =
        let done : ltb pc lastpc ≡ false = ground arith in
        rw done (Safe-passed last (λ last'. last' < length f.code) inside)
    loop-Safe (suc fuel) pc last ends few inside fuelled =
        while-Safe (ltb pc lastpc) _ last inside λ more.
          let here = ltb→lt pc lastpc more in
          Safe-bind _ (Safe-read f.code pc (omega arith)) λ i e.
            Safe-bind _ (decoded-Safe pc last i (get_opcode i) ends (omega arith) inside e refl)
              λ (pc', last') (forward, inside').
                loop-Safe fuel pc' last' ends few inside' (omega arith)

    symbexec-Safe : lastpc ≤ length f.code → Safe (symbexec f fs lastpc reg) Any
    unfolding symbexec
    symbexec-Safe few = Safe-bind _ (precheck-Safe f fs) λ _ (some_code, ends).
        Safe-bind _ (loop-Safe lastpc 0 (length f.code - 1) ends few (omega arith) (omega arith))
          λ last inside. Safe-weaken (Safe-read f.code last inside) λ _ _. tt

    -- `symbexec` reads no array outside of its bounds, whatever the function's fields and bytecode are,
    -- and ends, if it is asked to stop at one of the instructions or at the end of the code.
    pub symbexec-ne-fault : lastpc ≤ length f.code → symbexec f fs lastpc reg ≢ fault
    symbexec-ne-fault few e = subst (λ v. Holds v Any) e (symbexec-Safe few).holds
