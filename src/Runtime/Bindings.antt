-- ===== src/Runtime/Bindings.antt =====
-- The registry of bindings of lib/lunatik/lunatik.c, and its load into a context.
pub mod Load
pub mod Modules
use lunatik_ng.Base.{
  ℕ, ◌+◌, Bool, true, false, Option, none, some, List, [], ◌∷◌, ◌++◌, ℤ, pos, ◌==◌, ◌||◌, is_zero,
  if◌then◌else◌,
}
use lunatik_ng.Kernel.{
  Kernel, M, pure, fault, ◌>>=◌, ◌>>◌, kmalloc, kfree, load, store, try_module_get, err_ptr, is_err,
}
use lunatik_ng.Runtime.{
  Context, Active, Binding, Block, context, active_node, binding_node, load_context, context_lock,
  context_unlock, enomem,
}

-- The global list `lunatik_bindings`, oldest first, is passed in and out.
abbrev pub Registry : Type 0 → Type 0
Registry S = List (Binding S)

module _ {S : Type 0} where
  -- `regfunc(lc)` takes the lock of the context, works on its Lua state and releases the lock.
  call_regfunc : ℕ → Binding S → M (Block S) ℤ
  unfolding context_lock context_unlock load_context store
  call_regfunc lc b = do
    context_lock lc
    c ← load_context lc
    let (ret, lua) = b.regfunc c.lua
    store lc (context (record c { lua = lua }))
    context_unlock lc
    pure ret

  -- The new node, behind the others. The context was changed by `regfunc`, so it is read again.
  add_active : ℕ → Binding S → M (Block S) ℤ
  unfolding kmalloc load_context store
  add_active lc b = do
    n ← kmalloc active_node
    if n == 0 then pure enomem else do
      c ← load_context lc
      store lc (context (record c { active = c.active ++ record { node = n; b = b } ∷ [] }))
      pure (pos 0)

  register_in : ℕ → Binding S → M (Block S) ℤ
  unfolding call_regfunc add_active
  register_in lc b = do ret ← call_regfunc lc b; if is_zero ret then add_active lc b else pure ret

  -- The address of the binding or an error pointer, and the registry.
  unfoldable pub lunatik_bindings_register :
      Registry S → ℕ → (S → ℤ × S) → M (Block S) (ℕ × Registry S)
  unfolding kmalloc
  lunatik_bindings_register reg owner regfunc = do
    b ← kmalloc binding_node
    if b == 0
        then pure (err_ptr 12, reg)
        else pure (b, reg ++ record { at = b; owner = owner; regfunc = regfunc } ∷ [])

  pub unlink : ℕ → Registry S → Registry S
  unlink at [] = []
  unlink at (b ∷ bs) = if b.at == at then bs else b ∷ unlink at bs

  unfoldable pub lunatik_bindings_unregister : Registry S → ℕ → M (Block S) (Registry S)
  unfolding kfree unlink
  lunatik_bindings_unregister reg at = kfree at >> pure (unlink at reg)

  -- The inner loop: is the binding active already?
  unfoldable pub is_active : ℕ → List (Active S) → Bool
  is_active at [] = false
  is_active at (a ∷ rest) = (a.b.at == at) || is_active at rest

  -- One round of the outer loop: what `ret` is after it, `pos 0` to go on.
  unfoldable pub load_binding : ℕ → Binding S → M (Block S) ℤ
  unfolding load_context is_active try_module_get register_in
  load_binding lc b = do
    c ← load_context lc
    if is_active b.at c.active
        then pure (pos 0)
        else do got ← try_module_get b.owner; if got then register_in lc b else pure (pos 0)

  unfoldable pub lunatik_bindings_load : Registry S → ℕ → M (Block S) ℤ
  lunatik_bindings_load [] lc = pure (pos 0)
  lunatik_bindings_load (b ∷ bs) lc = do
    ret ← load_binding lc b
    if is_zero ret then lunatik_bindings_load bs lc else pure ret
