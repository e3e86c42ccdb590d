-- ===== src/Runtime/Lifetime/Default.antt =====
-- The default context of lib/lunatik/lunatik.c, and the module's init and exit functions.
use lunatik_ng.Base.{
  ℕ, ◌≡◌, refl, sym, Bool, true, some, [], ◌∷◌, ℤ, pos, is_zero, arith, All, inl, inr,
  if◌then◌else◌,
}
use lunatik_ng.Kernel.{
  Kernel, M, pure, ◌>>=◌, try_module_get, IsFresh, Returns, Returns-mono, is_err, ptr_err, ptr_of,
}
use lunatik_ng.Runtime.{Engine, Context, Block, context, Binding}
use lunatik_ng.Runtime.Bindings.{Registry, load_binding, lunatik_bindings_load}
use lunatik_ng.Runtime.Bindings.Load.{IsContext, IsContext-context, Served, active_of}
use lunatik_ng.Runtime.Bindings.Load.Loop.{lunatik_bindings_load-Loaded, All-Served}
use lunatik_ng.Runtime.Lifetime.{lunatik_context_create, lunatik_context_destroy}

module _ {S : Type 0} where
  -- The global `lunatik_default_context` is passed in.
  unfoldable pub lunatik_default_context_get :
      Registry S → (lunatik_default_context : ℕ) → M (Block S) ℕ
  lunatik_default_context_get reg lunatik_default_context = do
    ret ← lunatik_bindings_load reg lunatik_default_context
    pure (if is_zero ret then lunatik_default_context else ptr_of ret)

  -- The status, and the global that is set.
  unfoldable pub lunatik_default_context_init :
      Engine S → (opens : Bool) (wq : ℕ) → M (Block S) (ℤ × ℕ)
  lunatik_default_context_init E opens wq = do
    lunatik_default_context ← lunatik_context_create E opens wq
    pure (
      if is_err lunatik_default_context then ptr_err lunatik_default_context else pos 0,
      lunatik_default_context,
    )

  unfoldable pub lunatik_init : Engine S → (opens : Bool) (wq : ℕ) → M (Block S) (ℤ × ℕ)
  lunatik_init E opens wq = lunatik_default_context_init E opens wq

  unfoldable pub lunatik_exit : (lunatik_default_context : ℕ) → M (Block S) (Unit {0})
  lunatik_exit lunatik_default_context = lunatik_context_destroy lunatik_default_context

  round_again :
      (lc : ℕ) (b : Binding S) (k : Kernel (Block S)) (c : Context S)
      → k.heap lc ≡ some (context c)
      → Served k.going (active_of (k.heap lc)) b
      → load_binding lc b k ≡ some (pos 0, k)
  unfolding load_binding try_module_get
  round_again lc b k c here (inl on) = ground arith
  round_again lc b k c here (inr off) = ground arith

  load_again :
      (reg : Registry S) (lc : ℕ) (k : Kernel (Block S)) (c : Context S)
      → k.heap lc ≡ some (context c)
      → All (Served k.going (active_of (k.heap lc))) reg
      → lunatik_bindings_load reg lc k ≡ some (pos 0, k)
  unfolding lunatik_bindings_load
  load_again [] lc k c here all = refl
  load_again (b ∷ bs) lc k c here (first, rest) =
      ground (arith, round_again lc b k c here first, load_again bs lc k c here rest)

  -- If a load of the bindings into the default context returns 0, `lunatik_default_context_get` gives the
  -- context afterwards and changes nothing: no binding becomes active twice. The context is
  -- unlocked, and no address from `next` on is allocated.
  pub lunatik_default_context_get-again :
      (reg : Registry S) (lc : ℕ) (k : Kernel (Block S))
      → IsFresh k
      → IsContext (k.heap lc)
      → Returns
          (lunatik_bindings_load reg lc k)
          (λ ret k'. is_zero ret ≡ true → lunatik_default_context_get reg lc k' ≡ some (lc, k'))
  unfolding lunatik_default_context_get
  lunatik_default_context_get-again reg lc k fresh ctx =
      Returns-mono (lunatik_bindings_load reg lc k)
        (lunatik_bindings_load-Loaded lc reg k fresh ctx)
        λ ret k' loaded z.
          let (c, here, _) = IsContext-context (k'.heap lc) loaded.context in
          let served =
            All-Served (active_of (k'.heap lc)) reg (λ m. sym (loaded.going m)) (loaded.served z) in
          ground (arith, load_again reg lc k' c here served)
