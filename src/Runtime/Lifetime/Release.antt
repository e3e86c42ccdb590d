-- ===== src/Runtime/Lifetime/Release.antt =====
-- What `lunatik_context_create` and `lunatik_context_destroy` of lib/lunatik/lunatik.c allocate and
-- release.
use lunatik_ng.Base.{ℕ, ◌-◌, ◌<◌, ◌≡◌, ◌≢◌, refl, true, false, none, some, List, [], ◌∷◌, arith}
use lunatik_ng.Kernel.{Kernel, Returns, Returns_intro, is_err, update}
use lunatik_ng.Runtime.{Context, Active, Block, context}
use lunatik_ng.Runtime.Bindings.Load.{IsContext, IsContext-context, active_of, uses}
use lunatik_ng.Runtime.Lifetime.{lunatik_context_destroy, put_all}

module _ {S : Type 0} where
  -- The reference counts after one `module_put` for each active binding.
  dropped : List (Active S) → (ℕ → ℕ) → ℕ → ℕ
  dropped [] refs = refs
  dropped (a ∷ rest) refs = dropped rest (update refs a.b.owner (refs a.b.owner - 1))

  dropped-uses :
      (active : List (Active S)) (refs : ℕ → ℕ) (m : ℕ)
      → dropped active refs m ≡ refs m - uses m active
  unfolding dropped
  dropped-uses [] refs m = omega arith
  dropped-uses (a ∷ rest) refs m =
      ground (arith, dropped-uses rest (update refs a.b.owner (refs a.b.owner - 1)) m)

  put_all_lem :
      (active : List (Active S)) (k : Kernel (Block S))
      → put_all active k ≡ some (tt, record k { refs = dropped active k.refs })
  unfolding put_all dropped
  put_all_lem [] k = refl
  put_all_lem (a ∷ rest) k = put_all_lem rest _

  -- The context's block is freed, the rest of the heap is as it was, and each module has one
  -- reference less for each of its active bindings.
  pub record Destroyed (lc : ℕ) (k k' : Kernel (Block S)) : Type 0 where
    pub freed : k'.heap lc ≡ none
    pub others : (p : ℕ) → p ≢ lc → k'.heap p ≡ k.heap p
    pub queue : (wq : ℕ) → k'.queue wq ≡ k.queue wq
    pub workqueues : k'.workqueues ≡ k.workqueues
    pub refs : (m : ℕ) → k'.refs m ≡ k.refs m - uses m (active_of (k.heap lc))

  module _ (lc : ℕ) (k : Kernel (Block S)) (pos : 0 < lc) (valid : is_err lc ≡ false)
      (c : Context S) (here : k.heap lc ≡ some (context c)) (unlocked : c.locked ≡ false) where
    abbrev locked : Kernel (Block S)
    locked = record k { heap = update k.heap lc (some (context (record c { locked = true }))) }

    destroy-ne-none : lunatik_context_destroy lc k ≢ none
    unfolding lunatik_context_destroy
    destroy-ne-none e = ground (arith, put_all_lem c.active locked)

    module _ (k' : Kernel (Block S)) (e : lunatik_context_destroy lc k ≡ some (tt, k')) where
      destroy_frees : k'.heap lc ≡ none
      unfolding lunatik_context_destroy
      destroy_frees = ground (arith, put_all_lem c.active locked)

      destroy_spares : (p : ℕ) → p ≢ lc → k'.heap p ≡ k.heap p
      unfolding lunatik_context_destroy
      destroy_spares p ne = ground (arith, put_all_lem c.active locked)

      destroy_queue : (wq : ℕ) → k'.queue wq ≡ k.queue wq
      unfolding lunatik_context_destroy
      destroy_queue wq = ground (arith, put_all_lem c.active locked)

      destroy_workqueues : k'.workqueues ≡ k.workqueues
      unfolding lunatik_context_destroy
      destroy_workqueues = ground (arith, put_all_lem c.active locked)

      destroy_drops : (m : ℕ) → k'.refs m ≡ k.refs m - uses m (active_of (k.heap lc))
      unfolding lunatik_context_destroy
      destroy_drops m = ground (arith, put_all_lem c.active locked, dropped-uses c.active k.refs m)

  -- Destroying a context whose lock is free runs without a fault, frees its block and nothing else, not
  -- even the workqueue that the context has, and drops one reference of a module for each of its active bindings. The address is not NULL and no
  -- error pointer.
  pub lunatik_context_destroy-Destroyed :
      (lc : ℕ) (k : Kernel (Block S))
      → 0 < lc
      → is_err lc ≡ false
      → IsContext (k.heap lc)
      → Returns (lunatik_context_destroy lc k) (λ _ k'. Destroyed lc k k')
  lunatik_context_destroy-Destroyed lc k nonnull valid ctx =
      let (c, here, unlocked) = IsContext-context (k.heap lc) ctx in
      Returns_intro (lunatik_context_destroy lc k)
        (destroy-ne-none lc k nonnull valid c here unlocked)
        (λ _ k' e. record {
          freed = destroy_frees lc k nonnull valid c here unlocked k' e;
          others = destroy_spares lc k nonnull valid c here unlocked k' e;
          queue = destroy_queue lc k nonnull valid c here unlocked k' e;
          workqueues = destroy_workqueues lc k nonnull valid c here unlocked k' e;
          refs = destroy_drops lc k nonnull valid c here unlocked k' e;
        })
