-- ===== src/Runtime/Bindings/Load/Loop.antt =====
-- The loop of `lunatik_bindings_load` of lib/lunatik/lunatik.c, by induction over the registry.
use lunatik_ng.Base.{
  ℕ, ◌≡◌, inl, inr, refl, sym, true, false, Bool, List, [], ◌∷◌, ℤ, pos, is_zero, arith, All,
  Bool-cases, ◌∙◌,
}
use lunatik_ng.Kernel.{Kernel, IsFresh, Returns, Returns_intro, Returns-mono, Returns-bind}
use lunatik_ng.Runtime.{Active, Binding, Block}
use lunatik_ng.Runtime.Bindings.{Registry, load_binding, lunatik_bindings_load}
use lunatik_ng.Runtime.Bindings.Load.{
  IsContext, IsContext-context, active_of, Served, Loaded, SameOrNode-trans, round-Loaded,
  load_binding-ne-none,
}

module _ {S : Type 0} where
  pub All-Served :
      {going going' : ℕ → Bool} (active : List (Active S)) (bs : Registry S)
      → ((m : ℕ) → going' m ≡ going m)
      → All (Served going' active) bs
      → All (Served going active) bs
  All-Served active [] same h = tt
  All-Served active (b ∷ bs) same (inl on, rest) = (inl on, All-Served active bs same rest)
  All-Served active (b ∷ bs) same (inr off, rest) =
      (inr (sym (same b.owner) ∙ off), All-Served active bs same rest)

  module _ {lc : ℕ} {b : Binding S} {bs : Registry S} {k k₁ : Kernel (Block S)} {ret : ℤ}
      (first : Loaded lc (b ∷ []) k ret k₁) where
    Loaded-cons :
        is_zero ret ≡ true
        → {ret' : ℤ} {k₂ : Kernel (Block S)} → Loaded lc bs k₁ ret' k₂
        → Loaded lc (b ∷ bs) k ret' k₂
    Loaded-cons z {ret'} {k₂} second = record {
      context = second.context;
      fresh = second.fresh;
      going = λ m. second.going m ∙ first.going m;
      grows = λ at h. second.grows at (first.grows at h);
      others = λ p ne. SameOrNode-trans (first.others p ne) (second.others p ne);
      next_ge = omega (arith, first.next_ge, second.next_ge);
      next_le = omega (arith, first.next_le, second.next_le);
      wq = second.wq ∙ first.wq;
      queue = λ wq. second.queue wq ∙ first.queue wq;
      workqueues = second.workqueues ∙ first.workqueues;
      plenty = λ h. second.plenty (first.plenty h);
      served = λ z'. (head (first.served z).0, All-Served _ bs first.going (second.served z'));
      balance = λ z' m. omega (arith, first.balance z m, second.balance z' m);
      leak =
          λ f. let (x, lost) = second.leak f in (x, λ m. omega (arith, first.balance z m, lost m));
    }
      where
        head : Served k.going (active_of (k₁.heap lc)) b → Served k.going (active_of (k₂.heap lc)) b
        head (inl on) = inl (second.grows b.at on)
        head (inr off) = inr off

    Loaded-stop : is_zero ret ≡ false → Loaded lc (b ∷ bs) k ret k₁
    Loaded-stop f = record {
      context = first.context;
      fresh = first.fresh;
      going = first.going;
      grows = first.grows;
      others = first.others;
      next_ge = first.next_ge;
      next_le = omega (arith, first.next_le);
      wq = first.wq;
      queue = first.queue;
      workqueues = first.workqueues;
      plenty = first.plenty;
      served = λ z. absurd (true_false (sym z ∙ f));
      balance = first.balance;
      leak = first.leak;
    }
      where
        true_false : true ≡ false → ⊥
        true_false e = cc

  Loaded-nil :
      {lc : ℕ} {k : Kernel (Block S)} → IsFresh k → IsContext (k.heap lc) → Loaded lc [] k (pos 0) k
  Loaded-nil fresh ctx = record {
    context = ctx;
    fresh = fresh;
    going = λ m. refl;
    grows = λ at h. h;
    others = λ p ne. inl refl;
    next_ge = omega arith;
    next_le = omega arith;
    wq = refl;
    queue = λ wq. refl;
    workqueues = refl;
    plenty = λ h. h;
    served = λ z. tt;
    balance = λ z m. refl;
    leak = λ f. absurd (cc);
  }

module _ {S : Type 0} (lc : ℕ) where
  -- From a kernel in which no address from `next` on is allocated and `lc` is a context, the load of any
  -- registry ends without a fault, whatever the outcomes of the allocations and of the functions that
  -- register. It keeps the active bindings active, the pending works and the other blocks as they are, and
  -- allocates list nodes only, one for each binding at most. If it returns 0, each binding of the registry is active
  -- or its module is being unloaded, and each module has one reference more for each binding
  -- of it that became active. If it returns an error, the module of one binding has one
  -- reference more than that.
  pub lunatik_bindings_load-Loaded :
      (reg : Registry S) (k : Kernel (Block S))
      → IsFresh k
      → IsContext (k.heap lc)
      → Returns (lunatik_bindings_load reg lc k) (Loaded lc reg k)
  unfolding lunatik_bindings_load
  lunatik_bindings_load-Loaded [] k fresh ctx = Loaded-nil fresh ctx
  lunatik_bindings_load-Loaded (b ∷ bs) k fresh ctx =
      let (c, here, unlocked) = IsContext-context (k.heap lc) ctx in
      Returns-bind (load_binding lc b k) _ _
        (Returns_intro (load_binding lc b k) {P = Loaded lc (b ∷ []) k}
          (load_binding-ne-none lc b k fresh c here unlocked)
          (λ ret k₁ e. round-Loaded lc b k fresh ret k₁ ctx e))
        (λ ret k₁ first. elim (Bool-cases (is_zero ret)) [
          | inl z ↦ rw z (
              Returns-mono (lunatik_bindings_load bs lc k₁)
                (lunatik_bindings_load-Loaded bs k₁ first.fresh first.context)
                (λ r k₂ h. Loaded-cons first z h))
          | inr f ↦ rw f (Loaded-stop first f)
        ])
