-- ===== src/Runtime/Lifetime.antt =====
-- Contexts of lib/lunatik/lunatik.c: creation and destruction.
pub mod Release
pub mod Session
pub mod Default
use lunatik_ng.Base.{
  ℕ, ◌+◌, Bool, true, false, Option, none, some, List, [], ◌∷◌, ◌++◌, ℤ, pos, ◌==◌, ◌||◌,
  if◌then◌else◌,
}
use lunatik_ng.Kernel.{
  Kernel, M, pure, fault, ◌>>=◌, ◌>>◌, kmalloc, kfree, alloc_ordered_workqueue, load, store,
  module_put, err_ptr, is_err,
}
use lunatik_ng.Runtime.{
  Engine, Context, Active, Binding, Block, context, active_node, load_context, context_lock,
  context_unlock, enomem,
}

module _ {S : Type 0} where
  -- `lunatik_workqueue_init` of the context, and what follows.
  open_queue : (lc wq : ℕ) → M (Block S) ℕ
  unfolding alloc_ordered_workqueue
  open_queue lc wq = do
    w ← alloc_ordered_workqueue wq
    if w == 0 then pure (err_ptr 12) else pure lc

module _ {S : Type 0} (E : Engine S) where
  -- `kzalloc` of the context, then `lua_open`, then the workqueue; `opens` says whether `lua_open`
  -- returns a state, and `wq` is what `alloc_ordered_workqueue` returns, 0 for NULL. Where the
  -- workqueue fails, the code jumps behind the `kfree`.
  unfoldable pub lunatik_context_create : (opens : Bool) (wq : ℕ) → M (Block S) ℕ
  unfolding kmalloc open_queue kfree
  lunatik_context_create opens wq = do
    lc ← kmalloc (context (record { lua = E.lua_open; locked = false; wq = wq; active = [] }))
    if lc == 0
        then pure (err_ptr 12)
        else if opens
        then open_queue lc wq
        else kfree lc >> pure (err_ptr 12)

module _ {S : Type 0} where
  -- `list_for_each_entry_safe` over the active bindings: the node is unlinked and not freed.
  put_all : List (Active S) → M (Block S) (Unit {0})
  unfolding module_put
  put_all [] = pure tt
  put_all (a ∷ rest) = module_put a.b.owner >> put_all rest

  -- `lua_close` and `mutex_destroy` only end the life of what the block holds. Nothing destroys the
  -- workqueue.
  unfoldable pub lunatik_context_destroy : ℕ → M (Block S) (Unit {0})
  unfolding context_lock context_unlock load_context put_all store kfree
  lunatik_context_destroy lc = if (lc == 0) || is_err lc then pure tt else do
    context_lock lc
    c ← load_context lc
    put_all c.active
    store lc (context (record c { active = [] }))
    context_unlock lc
    kfree lc
