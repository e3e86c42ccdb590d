-- ===== src/Runtime/Lifetime/Session.antt =====
-- A context of lib/lunatik/lunatik.c from its creation to its destruction, with the bindings loaded
-- in between, as `sys_lua` of lib/lunatik/lunatik_syscall.c uses it.
use lunatik_ng.Base.{
  ℕ, ◌+◌, ◌-◌, ◌^◌, ◌≤◌, ◌<◌, ◌≡◌, ◌≢◌, true, false, Bool, none, some, [], ℤ, is_zero, arith,
  if◌then◌else◌, Bool-cases, inl, inr, ◌⊎◌,
}
use lunatik_ng.Kernel.{
  Kernel, M, pure, ◌>>=◌, ◌>>◌, IsFresh, Returns, Returns_intro, Returns-bind, is_err,
}
use lunatik_ng.Runtime.{Engine, Block, enomem}
use lunatik_ng.Runtime.Bindings.{Registry, lunatik_bindings_load}
use lunatik_ng.Runtime.Bindings.Load.{IsContext, active_of, wq_of}
use lunatik_ng.Runtime.Bindings.Load.Loop.{lunatik_bindings_load-Loaded}
use lunatik_ng.Runtime.Lifetime.{lunatik_context_create, lunatik_context_destroy}
use lunatik_ng.Runtime.Lifetime.Release.{lunatik_context_destroy-Destroyed}

module _ {S : Type 0} (E : Engine S) (opens : Bool) (wq : ℕ) where
  -- What a context is at its creation, and what a failure leaves.
  pub record Created (k : Kernel (Block S)) (lc : ℕ) (k' : Kernel (Block S)) : Type 0 where
    pub fresh : IsFresh k'
    pub refs : (m : ℕ) → k'.refs m ≡ k.refs m
    pub context :
        is_err lc ≡ false → (0 < lc) × IsContext (k'.heap lc) × (active_of (k'.heap lc) ≡ [])
    pub place : is_err lc ≡ false → (lc ≡ k.next) × (wq_of (k'.heap lc) ≡ wq) × (0 < wq)
    pub next_ge : k.next ≤ k'.next
    pub next_le : k'.next ≤ k.next + 1
    pub queue : (q : ℕ) → k'.queue q ≡ k.queue q
    pub workqueues : k'.workqueues ≡ k.workqueues + (if is_err lc then 0 else 1)
    pub plenty : k.oracle ≡ [] → k'.oracle ≡ []
    pub others : (p : ℕ) → p ≢ k.next → k'.heap p ≡ k.heap p
    pub failed : is_err lc ≡ true → (k'.heap k.next ≡ none) ⊎ ((opens ≡ true) × (wq ≡ 0))

  module _ (k : Kernel (Block S)) (fresh : IsFresh k) (room : k.next < 2 ^ 64 - 4095) where
    create-ne-none : lunatik_context_create E opens wq k ≢ none
    unfolding lunatik_context_create
    create-ne-none e = let free = fresh.free k.next in ground arith

    module _ (lc : ℕ) (k' : Kernel (Block S))
        (e : lunatik_context_create E opens wq k ≡ some (lc, k')) where
      create_next : 0 < k'.next
      unfolding lunatik_context_create
      create_next = let positive = fresh.next_pos in ground (arith, fresh.free k.next)

      create_fresh : (p : ℕ) → k'.next ≤ p → k'.heap p ≡ none
      unfolding lunatik_context_create
      create_fresh p h = ground (arith, fresh.free k.next, fresh.free p)

      create_refs : (m : ℕ) → k'.refs m ≡ k.refs m
      unfolding lunatik_context_create
      create_refs m = ground arith

      create-IsContext :
          is_err lc ≡ false → (0 < lc) × IsContext (k'.heap lc) × (active_of (k'.heap lc) ≡ [])
      unfolding lunatik_context_create
      create-IsContext h =
          let positive = fresh.next_pos in (ground arith, ground arith, ground arith)

      create_others : (p : ℕ) → p ≢ k.next → k'.heap p ≡ k.heap p
      unfolding lunatik_context_create
      create_others p ne = ground arith

      create_place : is_err lc ≡ false → (lc ≡ k.next) × (wq_of (k'.heap lc) ≡ wq) × (0 < wq)
      unfolding lunatik_context_create
      create_place h =
          let positive = fresh.next_pos in
          (ground arith, ground (arith, fresh.free k.next), ground arith)

      create_next_ge : k.next ≤ k'.next
      unfolding lunatik_context_create
      create_next_ge = ground arith

      create_next_le : k'.next ≤ k.next + 1
      unfolding lunatik_context_create
      create_next_le = ground arith

      create_queue : (q : ℕ) → k'.queue q ≡ k.queue q
      unfolding lunatik_context_create
      create_queue q = ground arith

      create_workqueues : k'.workqueues ≡ k.workqueues + (if is_err lc then 0 else 1)
      unfolding lunatik_context_create
      create_workqueues = let positive = fresh.next_pos in ground arith

      create_plenty : k.oracle ≡ [] → k'.oracle ≡ []
      unfolding lunatik_context_create
      create_plenty h = ground arith

      create_failed : is_err lc ≡ true → (k'.heap k.next ≡ none) ⊎ ((opens ≡ true) × (wq ≡ 0))
      unfolding lunatik_context_create
      create_failed h = let positive = fresh.next_pos in ground (arith, fresh.free k.next)

  -- `lunatik_context_create` runs without a fault on every branch. Where it returns no error pointer, there is
  -- a context at the address, unlocked and with no active binding; where it returns one, its
  -- block is freed, unless the Lua state was opened and the workqueue failed. It touches no
  -- other block and no module, and a workqueue is allocated exactly where it returns a context. No address from `next` on is allocated, and `next` lies below
  -- the error pointers.
  pub lunatik_context_create-Created :
      (k : Kernel (Block S))
      → IsFresh k
      → k.next < 2 ^ 64 - 4095
      → Returns (lunatik_context_create E opens wq k) (Created k)
  lunatik_context_create-Created k fresh room =
      Returns_intro (lunatik_context_create E opens wq k) (create-ne-none k fresh room) λ lc k' e.
        record {
          fresh = record {
            next_pos = create_next k fresh room lc k' e;
            free = create_fresh k fresh room lc k' e;
          };
          refs = create_refs k fresh room lc k' e;
          context = create-IsContext k fresh room lc k' e;
          place = create_place k fresh room lc k' e;
          next_ge = create_next_ge k fresh room lc k' e;
          next_le = create_next_le k fresh room lc k' e;
          queue = create_queue k fresh room lc k' e;
          workqueues = create_workqueues k fresh room lc k' e;
          plenty = create_plenty k fresh room lc k' e;
          others = create_others k fresh room lc k' e;
          failed = create_failed k fresh room lc k' e;
        }

  -- Create a context, load the bindings, destroy it.
  unfoldable pub session : Registry S → M (Block S) ℤ
  session reg = do
    lc ← lunatik_context_create E opens wq
    if is_err lc
        then pure enomem
        else do ret ← lunatik_bindings_load reg lc; lunatik_context_destroy lc; pure ret

  abbrev pub Balanced : Kernel (Block S) → ℤ → Kernel (Block S) → Type 0
  Balanced k ret k' = is_zero ret ≡ true → (m : ℕ) → k'.refs m ≡ k.refs m

  -- A context that is created, loaded with the bindings of any registry and destroyed leaves the reference
  -- count of every module as it was, if the load returned 0. No address from `next` on
  -- is allocated, and `next` lies below the error pointers.
  pub session-Balanced :
      (reg : Registry S) (k : Kernel (Block S))
      → IsFresh k
      → k.next < 2 ^ 64 - 4095
      → Returns (session reg k) (Balanced k)
  unfolding session
  session-Balanced reg k fresh room =
      Returns-bind (lunatik_context_create E opens wq k) _ _
        (lunatik_context_create-Created k fresh room)
        λ lc k₁ made. elim (Bool-cases (is_err lc)) [
          | inl e ↦ rw e (λ z. cc)
          | inr valid ↦
              let (nonnull, ctx, new) = made.context valid in
              rw valid (
                Returns-bind (lunatik_bindings_load reg lc k₁) _ _
                  (lunatik_bindings_load-Loaded lc reg k₁ made.fresh ctx)
                  λ ret k₂ loaded.
                    Returns-bind (lunatik_context_destroy lc k₂) _ _
                      (lunatik_context_destroy-Destroyed lc k₂ nonnull valid loaded.context)
                      λ _ k₃ gone z m. ground (arith, loaded.balance z m, gone.refs m, made.refs m))
        ]
