-- ===== src/Chunk/Verify/Bounds.antt =====
-- The verifier of lib/lunatik/ldebug.c reads inside of its arrays.
use lunatik_ng.Base.{
  ℕ, zero, suc, ◌+◌, ◌-◌, ◌≤◌, ◌<◌, ◌≡◌, refl, sym, Bool, true, false, some, List, [], ◌∷◌, length,
  get_elem?, ltb, arith, ltb→lt,
}
use mathlib.Core.Path.{subst}
use lunatik_ng.Chunk.{Fields, Proto, Protos, no_more, next, count}
use lunatik_ng.Chunk.Opcodes.{
  OpMode, mode_abc, mode_abx, mode_asbx, arg_n, arg_u, arg_r, arg_k, OpArgMask, Modes, get_opcode,
  getarg_b, getarg_c, getarg_bx, maxarg_sbx,
}
use lunatik_ng.Chunk.Verify.{
  Verdict, rejected, fault, passed, ◌>>=◌, pure, check, when, read, is_return, get_proto?,
  has_count_behind, precheck, check_args, check_arg_mode, check_skip, setlists, check_jump,
}
use lunatik_ng.Chunk.Verify.Symbexec.{check_pseudo}

-- Not a fault, and `Q` of what passes.
abbrev pub Holds : {A : Type 0} → Verdict A → (A → Type 0) → Type 0
Holds rejected Q = Unit
Holds fault Q = ⊥
Holds (passed a) Q = Q a

-- The same, as a record.
pub record Safe {A : Type 0} (v : Verdict A) (Q : A → Type 0) : Type 0 where
  pub holds : Holds v Q

abbrev pub Any : {A : Type 0} → A → Type 0
Any a = Unit

Holds-bind :
    {A B : Type 0} (v : Verdict A) (f : A → Verdict B) (P : A → Type 0) (Q : B → Type 0)
    → Holds v P
    → ((a : A) → P a → Holds (f a) Q)
    → Holds (v >>= f) Q
unfolding ◌>>=◌
Holds-bind rejected f P Q h g = tt
Holds-bind fault f P Q h g = h
Holds-bind (passed a) f P Q h g = g a h

weaken :
    {A : Type 0} (v : Verdict A) (P Q : A → Type 0) → Holds v P → ((a : A) → P a → Q a) → Holds v Q
weaken rejected P Q h g = tt
weaken fault P Q h g = h
weaken (passed a) P Q h g = g a h

pub Safe-bind :
    {A B : Type 0} {v : Verdict A} (f : A → Verdict B) {P : A → Type 0} {Q : B → Type 0}
    → Safe v P
    → ((a : A) → P a → Safe (f a) Q)
    → Safe (v >>= f) Q
Safe-bind {v = v} f {P = P} {Q = Q} h g = record {
  holds = Holds-bind v f P Q h.holds (λ a p. (g a p).holds);
}

pub Safe-weaken :
    {A : Type 0} {v : Verdict A} {P Q : A → Type 0} → Safe v P → ((a : A) → P a → Q a) → Safe v Q
Safe-weaken {v = v} {P = P} {Q = Q} h g = record { holds = weaken v P Q h.holds g }

pub Safe-passed : {A : Type 0} (a : A) (Q : A → Type 0) → Q a → Safe (passed a) Q
Safe-passed a Q h = record { holds = h }

pub Safe-check : (c : Bool) → Safe (check c) (λ _. c ≡ true)
unfolding check
Safe-check true = record { holds = refl }
Safe-check false = record { holds = tt }

pub Safe-when : (c : Bool) (v : Verdict (Unit {0})) → (c ≡ true → Safe v Any) → Safe (when c v) Any
unfolding when
Safe-when true v h = h refl
Safe-when false v h = record { holds = tt }

pub Safe-test : (c : Bool) → Safe (check c) Any
unfolding check
Safe-test true = record { holds = tt }
Safe-test false = record { holds = tt }

get_elem?-lt :
    {A : Type 0} (xs : List A) (i : ℕ) → i < length xs → (x : A) × (get_elem? xs i ≡ some x)
get_elem?-lt [] i h = absurd (omega arith)
get_elem?-lt (x ∷ xs) zero h = (x, refl)
get_elem?-lt (x ∷ xs) (suc i) h = get_elem?-lt xs i (omega arith)

-- A read inside of an array.
pub Safe-read :
    {A : Type 0} (xs : List A) (i : ℕ)
    → i < length xs
    → Safe (read (get_elem? xs i)) (λ x. get_elem? xs i ≡ some x)
Safe-read xs i h =
    let (x, e) = get_elem?-lt xs i h in
    subst (λ o. Safe (read o) (λ x. o ≡ some x)) (sym e) (record { holds = refl })

get_proto?-lt : (fs : Protos) (n : ℕ) → n < count fs → (p : Proto) × (get_proto? fs n ≡ some p)
get_proto?-lt no_more n h = absurd (omega arith)
get_proto?-lt (next f fs) zero h = (f, refl)
get_proto?-lt (next f fs) (suc n) h = get_proto?-lt fs n (omega arith)

pub Safe-read_proto : (fs : Protos) (n : ℕ) → n < count fs → Safe (read (get_proto? fs n)) Any
Safe-read_proto fs n h =
    let (x, e) = get_proto?-lt fs n h in
    subst (λ o. Safe (read o) Any) (sym e) (record { holds = tt })

module _ (f : Fields) (fs : Protos) where
  -- The last instruction is a return.
  abbrev pub EndsInReturn : Type 0
  EndsInReturn =
      (i : ℕ) × (get_elem? f.code (length f.code - 1) ≡ some i) × (is_return (get_opcode i) ≡ true)

  pub precheck-Safe : Safe (precheck f fs) (λ _. (0 < length f.code) × EndsInReturn)
  unfolding precheck
  precheck-Safe = Safe-bind _ (Safe-test _) λ _ _. Safe-bind _ (Safe-test _) λ _ _.
      Safe-bind _ (Safe-test _) λ _ _. Safe-bind _ (Safe-test _) λ _ _.
        Safe-bind _ (Safe-test _) λ _ _. Safe-bind _ (Safe-check _) λ _ some_code.
          Safe-bind _
            (Safe-read f.code (length f.code - 1)
              (omega (arith, ltb→lt 0 (length f.code) some_code)))
            λ i e.
              Safe-weaken (Safe-check (is_return (get_opcode i)))
                λ _ last. (ltb→lt 0 (length f.code) some_code, (i, e, last))

  setlists_round-Safe :
      (b : Bool) (v : Verdict ℕ)
      → Safe v Any
      → Safe {A = ℕ} (elim b [ true ↦ v >>= λ j. pure (suc j) | false ↦ passed 0 ]) Any
  setlists_round-Safe true v h = Safe-bind _ h λ j _. Safe-passed (suc j) Any tt
  setlists_round-Safe false v h = Safe-passed 0 Any tt

  setlists-Safe : (dest : ℕ) → dest ≤ length f.code → Safe (setlists f fs dest) Any
  unfolding setlists
  setlists-Safe zero h = Safe-passed 0 Any tt
  setlists-Safe (suc d) h = Safe-bind _ (Safe-read f.code d (omega arith)) λ i _.
      setlists_round-Safe (has_count_behind i) (setlists f fs d) (setlists-Safe d (omega arith))

  pub check_pseudo-Safe :
      (pc j n : ℕ) → pc + j + n ≤ length f.code → Safe (check_pseudo f fs pc j n) Any
  unfolding check_pseudo
  check_pseudo-Safe pc j zero h = Safe-passed tt Any tt
  check_pseudo-Safe pc j (suc n) h =
      Safe-bind _ (Safe-read f.code (pc + j) (omega arith))
        λ i _. Safe-bind _ (Safe-test _) λ _ _. check_pseudo-Safe pc (suc j) n (omega arith)

  arg_mode-Safe : (r : ℕ) (m : OpArgMask) → Safe (check_arg_mode f fs r m) Any
  arg_mode-Safe r arg_n = Safe-test _
  arg_mode-Safe r arg_u = Safe-passed tt Any tt
  arg_mode-Safe r arg_r = Safe-test _
  arg_mode-Safe r arg_k = Safe-test _

  -- The index of a constant was checked.
  abbrev pub ArgsOk : OpMode → OpArgMask → ℕ → Type 0
  ArgsOk mode_abx arg_k i = getarg_bx i < length f.k
  ArgsOk _ _ i = Unit

  jump-Safe : (target : ℕ) → Safe (check_jump f fs target) Any
  jump-Safe target = Safe-bind _ (Safe-check _) λ _ inside.
      Safe-bind _ (setlists-Safe (target - maxarg_sbx) (ground arith)) λ j _. Safe-test _

  pub args-Safe :
      (m : OpMode) (ms : Modes) (pc i : ℕ)
      → Safe (check_args f fs m ms pc i) (λ _. ArgsOk m ms.b_mode i)
  args-Safe mode_abc ms pc i =
      Safe-weaken
        (Safe-bind _ (arg_mode-Safe (getarg_b i) ms.b_mode)
          λ _ _. arg_mode-Safe (getarg_c i) ms.c_mode)
        λ _ _. tt
  args-Safe mode_abx ms pc i = constant ms.b_mode
    where
      constant :
          (b : OpArgMask)
          → Safe
              (elim b [ arg_k ↦ check (ltb (getarg_bx i) (length f.k)) | _ ↦ passed tt ])
              (λ _. ArgsOk mode_abx b i)
      constant arg_n = Safe-passed tt _ tt
      constant arg_u = Safe-passed tt _ tt
      constant arg_r = Safe-passed tt _ tt
      constant arg_k = Safe-weaken (Safe-check _) λ _ e. ltb→lt (getarg_bx i) (length f.k) e
  args-Safe mode_asbx ms pc i = target ms.b_mode
    where
      target :
          (b : OpArgMask)
          → Safe
              (elim b [ arg_r ↦ check_jump f fs (pc + 1 + getarg_bx i) | _ ↦ passed tt ])
              (λ _. ArgsOk mode_asbx b i)
      target arg_n = Safe-passed tt _ tt
      target arg_u = Safe-passed tt _ tt
      target arg_r = Safe-weaken (jump-Safe (pc + 1 + getarg_bx i)) λ _ _. tt
      target arg_k = Safe-passed tt _ tt

  pub skip-Safe : (b : Bool) (pc : ℕ) → Safe (check_skip f fs b pc) Any
  skip-Safe false pc = Safe-passed tt _ tt
  skip-Safe true pc =
      Safe-bind _ (Safe-check _)
        λ _ room. Safe-bind _ (Safe-read f.code (pc + 1) (ground arith)) λ i _. Safe-test _
