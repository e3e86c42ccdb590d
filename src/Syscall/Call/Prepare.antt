-- ===== src/Syscall/Call/Prepare.antt =====
-- The first part of `sys_lua` of lib/lunatik/lunatik_syscall.c: the copy of the code, the context and
-- its bindings, with the error paths back to where nothing is allocated.
use lunatik_ng.Base.{
  ℕ, ◌+◌, ◌-◌, ◌^◌, ◌<◌, ◌≡◌, refl, true, false, Bool, some, List, [], ℤ, arith, is_zero, length,
  sym, ◌∙◌, Bool-cases, inl, inr, ◌==◌, Option-cases,
}
use mathlib.Core.Path.{subst}
use lunatik_ng.Kernel.{
  Kernel, IsFresh, Returns, Returns-bind, Returns-mono, is_err, kmalloc, update, store, ptr_err,
}
use lunatik_ng.Runtime.{Engine, Block, bytes, enomem}
use lunatik_ng.Runtime.Bindings.{Registry, lunatik_bindings_load}
use lunatik_ng.Runtime.Bindings.Load.{IsContext-context, Loaded}
use lunatik_ng.Runtime.Bindings.Load.Loop.{lunatik_bindings_load-Loaded}
use lunatik_ng.Runtime.Lifetime.{lunatik_context_create}
use lunatik_ng.Runtime.Lifetime.Session.{lunatik_context_create-Created, Created}
use lunatik_ng.Syscall.Memory.{User, efault, copy_from_user, length-copy_from_user}
use lunatik_ng.Syscall.Call.{
  Call, Mode, mode, finished, out_code, out_lc, sys_lua_context, sys_lua, call_by_mode,
}
use lunatik_ng.Syscall.Call.Steps.{
  Refused, Prepared, out_lc-Refused, Allocated, kmalloc-Allocated, out_code-CodeFreed,
  Returns-store,
}

module _ {S : Type 0} (E : Engine S) (reg : Registry S) (cleanup : ℕ) (opens : Bool) (wq : ℕ)
    (has_queue : opens ≡ true → 0 < wq) where
  -- `k` is the kernel with a place for the code, allocated in `k₀`.
  module _ (k₀ k : Kernel (Block S)) (bs : List ℕ) (fresh₀ : IsFresh k₀)
      (got : Allocated (bytes []) k₀ k₀.next k) (room : k₀.next + 1 < 2 ^ 64 - 4095) where
    abbrev filled : Kernel (Block S)
    filled = record k { heap = update k.heap k₀.next (some (bytes bs)) }

    next : k₀.next < k.next
    next = let (_, _, h) = got.here fresh₀.next_pos in h

    filled-IsFresh : IsFresh filled
    filled-IsFresh = record {
      next_pos = got.fresh.next_pos;
      free = λ p h. ground (arith, got.fresh.free p, next);
    }

    no_context :
        (lc : ℕ) (k₁ : Kernel (Block S))
        → is_err lc ≡ true
        → Created E opens wq filled lc k₁
        → Returns (out_code (ptr_err lc) k₀.next k₁) (Refused k₀)
    no_context lc k₁ e made =
        Returns-mono (out_code (ptr_err lc) k₀.next k₁)
          (out_code-CodeFreed (ptr_err lc) k₀.next (bytes bs) k₁ fresh₀.next_pos
            (ground (arith, made.others k₀.next, next)))
          λ call k₂ done. record {
            status = (ptr_err lc, done.status, refl);
            others = λ p. ground (
              arith,
              next,
              made.others p,
              made.failed e,
              has_queue,
              done.code,
              done.others p,
              got.others p,
              fresh₀.free k.next,
              fresh₀.free k₀.next,
            );
            queue = λ q. done.queue q ∙ made.queue q ∙ got.queue q;
            workqueues = inl (ground (arith, done.workqueues, made.workqueues, got.workqueues));
          }

    with_context :
        (lc : ℕ) (k₁ k₂ : Kernel (Block S)) (r : ℤ)
        → is_err lc ≡ false
        → Created E opens wq filled lc k₁
        → Loaded lc reg k₁ r k₂
        → Prepared wq (length reg) (length bs) k₀ lc k₂
    with_context lc k₁ k₂ r valid made loaded =
        let (place, wq_is, positive) = made.place valid in
        let (c, here, _) = IsContext-context (k₂.heap lc) loaded.context in
        record {
          fresh = loaded.fresh;
          code = (bs, ground (arith, next, made.others k₀.next, loaded.others k₀.next), refl);
          context = loaded.context;
          workqueue = loaded.wq ∙ wq_is;
          valid = valid;
          apart = omega (arith, next);
          below = ground (arith, loaded.fresh.free lc, here);
          next_le = omega (arith, loaded.next_le, made.next_le, got.next_le);
          others = λ p ne ne'. ground (arith, made.others p, loaded.others p, got.others p);
          queue = λ q. loaded.queue q ∙ made.queue q ∙ got.queue q;
          workqueues = ground (arith, loaded.workqueues, made.workqueues, got.workqueues);
          plenty = λ h. loaded.plenty (made.plenty (got.plenty h).0);
        }

    module _ (how : Mode) (Q : Call → Kernel (Block S) → Type 0)
        (refused : (call : Call) (k' : Kernel (Block S)) → Refused k₀ call k' → Q call k')
        (prepared : (lc : ℕ) (k' : Kernel (Block S))
          → Prepared wq (length reg) (length bs) k₀ lc k'
          → Returns (call_by_mode how cleanup lc k₀.next (length bs) k') Q) where
      context-Returns :
          Returns (sys_lua_context E reg cleanup opens wq how k₀.next (length bs) filled) Q
      unfolding sys_lua_context
      context-Returns =
          Returns-bind (lunatik_context_create E opens wq filled) _ _
            (lunatik_context_create-Created E opens wq filled filled-IsFresh
              (omega (arith, got.next_le)))
            λ lc k₁ made. elim (Bool-cases (is_err lc)) [
              | inl e ↦ rw e (
                  Returns-mono (out_code (ptr_err lc) k₀.next k₁) (no_context lc k₁ e made) refused)
              | inr valid ↦
                  let (_, ctx, _) = made.context valid in
                  rw valid (
                    Returns-bind (lunatik_bindings_load reg lc k₁) _ _
                      (lunatik_bindings_load-Loaded lc reg k₁ made.fresh ctx)
                      λ ret k₂ loaded.
                        let ready = with_context lc k₁ k₂ ret valid made loaded in
                        elim (Bool-cases (is_zero ret)) [
                          | inl z ↦ rw z (prepared lc k₂ ready)
                          | inr z ↦ rw z (
                              Returns-mono (out_lc ret lc k₀.next k₂)
                                (out_lc-Refused wq (length reg) (length bs) k₀ lc k₂ ret fresh₀
                                  ready z)
                                refused)
                        ])
            ]

  not_copied :
      (k : Kernel (Block S)) (p : ℕ) (k₁ : Kernel (Block S))
      → IsFresh k
      → Allocated (bytes []) k p k₁
      → 0 < p
      → Returns (out_code efault p k₁) (Refused k)
  not_copied k p k₁ fresh got nonnull =
      let (place, here, _) = got.here nonnull in
      Returns-mono (out_code efault p k₁) (out_code-CodeFreed efault p (bytes []) k₁ nonnull here)
        λ call k₂ done. record {
          status = (efault, done.status, refl);
          others = λ q. ground (arith, done.code, done.others q, got.others q, fresh.free k.next);
          queue = λ q. done.queue q ∙ got.queue q;
          workqueues = inl (done.workqueues ∙ got.workqueues);
        }

  no_memory :
      (k k₁ : Kernel (Block S))
      → IsFresh k
      → Allocated (bytes []) k 0 k₁
      → Refused k (finished enomem) k₁
  no_memory k k₁ fresh got = record {
    status = (enomem, refl, refl);
    others = λ q. ground (arith, got.failed, got.others q, fresh.free k.next);
    queue = got.queue;
    workqueues = inl got.workqueues;
  }

  -- The rule for `sys_lua`: it has freed everything and returns an error, or it goes on by the mode
  -- with all prepared.
  pub sys_lua-Returns :
      (code size r_type r_data r_size : ℕ) (u : User) (k : Kernel (Block S))
      (Q : Call → Kernel (Block S) → Type 0)
      → IsFresh k
      → k.next + 1 < 2 ^ 64 - 4095
      → ((call : Call) (k' : Kernel (Block S)) → Refused k call k' → Q call k')
      → ((lc : ℕ) (k' : Kernel (Block S))
          → Prepared wq (length reg) size k lc k'
          → Returns (call_by_mode (mode r_type r_data r_size) cleanup lc k.next size k') Q)
      → Returns (sys_lua E reg cleanup opens wq code size r_type r_data r_size u k) Q
  unfolding sys_lua
  sys_lua-Returns code size r_type r_data r_size u k Q fresh room refused prepared =
      Returns-bind (kmalloc (bytes []) k) _ _ (kmalloc-Allocated (bytes []) k fresh) λ p k₁ got.
        elim (Bool-cases (p == 0)) [
          | inl z ↦
              let null : p ≡ 0 = ground arith in
              rw z (
                refused (finished enomem) k₁
                  (no_memory k k₁ fresh (subst (λ q. Allocated (bytes []) k q k₁) null got)))
          | inr z ↦ elim (Option-cases (copy_from_user size code u)) [
            | inl short ↦
                rw (z, short)
                  (Returns-mono (out_code efault p k₁) (not_copied k p k₁ fresh got (ground arith))
                    refused)
            | inr (bs, read) ↦
                let (place, here, _) = got.here (ground arith) in
                let len = length-copy_from_user size code u bs read in
                rw (z, read)
                  (Returns-bind (store p (bytes bs) k₁) _ _
                    (Returns-store p (bytes []) (bytes bs) k₁ here)
                    λ _ k₂ e.
                      rw (e, place, sym len)
                        (context-Returns k k₁ bs fresh
                          (subst (λ q. Allocated (bytes []) k q k₁) place got) room
                          (mode r_type r_data r_size) Q refused
                          (λ lc k' ready.
                            subst
                              (λ n.
                                Returns
                                  (call_by_mode (mode r_type r_data r_size) cleanup lc k.next n k')
                                  Q)
                              (sym len)
                              (prepared lc k'
                                (subst (λ n. Prepared wq (length reg) n k lc k') len ready)))))
          ]
        ]
