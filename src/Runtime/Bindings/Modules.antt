-- ===== src/Runtime/Bindings/Modules.antt =====
-- The kernel modules of lib/lunatik/bindings, which register a binding with lib/lunatik/lunatik.c when
-- they are loaded and take it back when they are unloaded. The loads and unloads themselves are the
-- kernel's, of which this has the documented behaviour.
pub mod Registered
pub mod Steps
pub mod Reached
pub mod Held
mod Examples
use lunatik_ng.Base.{
  ℕ, zero, suc, ◌-◌, ◌^◌, ◌≤◌, ◌<◌, ◌≡◌, ◌↔◌, Bool, Option, none, some, List, [], ◌∷◌, ◌++◌, ℤ, pos,
  negsuc, ◌==◌, leb, ◌||◌, is_zero, if◌then◌else◌,
}
use lunatik_ng.Kernel.{Kernel, M, pure, fault, ◌>>=◌, IsFresh, is_err, ptr_err}
use lunatik_ng.Runtime.{Block, binding_node}
use lunatik_ng.Runtime.Bindings.{Registry, lunatik_bindings_register, lunatik_bindings_unregister}

-- What differs between the modules: `THIS_MODULE` and the function that adds to a Lua state.
pub record BindingModule (S : Type 0) : Type 0 where
  pub owner : ℕ
  pub regfunc : S → ℤ × S

-- A module that the kernel has loaded, with its static pointer.
pub record Loaded (S : Type 0) : Type 0 where
  pub of : BindingModule S
  pub binding : ℕ

pub record Modules (S : Type 0) : Type 0 where
  pub reg : Registry S
  pub loaded : List (Loaded S)

module _ {S : Type 0} where
  -- What `module_init` returns, the static pointer that it sets, and the registry.
  unfoldable pub binding_init : BindingModule S → Registry S → M (Block S) (ℤ × ℕ × Registry S)
  unfolding lunatik_bindings_register
  binding_init m reg = do
    r ← lunatik_bindings_register reg m.owner m.regfunc
    let (b, reg') = r
    pure (if is_err b then ptr_err b else pos 0, b, reg')

  -- `module_exit`, with the test `IS_ERR_OR_NULL` of the static pointer.
  unfoldable pub binding_exit : ℕ → Registry S → M (Block S) (Registry S)
  unfolding lunatik_bindings_unregister
  binding_exit b reg = if (b == 0) || is_err b then pure reg else lunatik_bindings_unregister reg b

  -- A module whose `module_init` returns an error is not loaded.
  unfoldable pub load_module : BindingModule S → Modules S → M (Block S) (Modules S)
  unfolding binding_init
  load_module m s = do
    r ← binding_init m s.reg
    let (ret, b, reg') = r
    pure (record {
      reg = reg';
      loaded = if is_zero ret then s.loaded ++ record { of = m; binding = b } ∷ [] else s.loaded;
    })

  pub unused : ℕ → M (Block S) Bool
  unused m k = some (k.refs m == 0, k)

  -- The module at a place of the list, and the others.
  unfoldable pub take_out : ℕ → List (Loaded S) → Option (Loaded S × List (Loaded S))
  take_out i [] = none
  take_out zero (l ∷ ls) = some (l, ls)
  take_out (suc i) (l ∷ ls) = elim (take_out i ls) [
    | none ↦ none
    | some (found, rest) ↦ some (found, l ∷ rest)
  ]

  leave : Loaded S → List (Loaded S) → Registry S → M (Block S) (Modules S)
  unfolding binding_exit
  leave l rest reg = do
    reg' ← binding_exit l.binding reg
    pure (record { reg = reg'; loaded = rest })

  -- The kernel unloads a module that nobody has a reference on.
  unfoldable pub unload_module : ℕ → Modules S → M (Block S) (Modules S)
  unfolding unused leave
  unload_module i s = elim (take_out i s.loaded) [
    | none ↦ pure s
    | some (l, rest) ↦ do free ← unused l.of.owner; if free then leave l rest s.reg else pure s
  ]

  -- What the rest of the kernel does: it leaves the nodes of the registry alone.
  pub record Elsewhere (k k' : Kernel (Block S)) : Type 0 where
    pub nodes : (p : ℕ) → (k.heap p ≡ some binding_node) ↔ (k'.heap p ≡ some binding_node)
    pub later : k.next ≤ k'.next
    pub fresh : IsFresh k'

  -- Modules S are loaded and unloaded in any order, each allocation succeeds or fails, and others run.
  -- An address that the allocator gives is no error pointer.
  pub data Reach : Modules S → Kernel (Block S) → Type 0 where
    boot :
        {k : Kernel (Block S)}
        → IsFresh k
        → ((p : ℕ) → k.heap p ≡ some binding_node → ⊥)
        → Reach (record { reg = []; loaded = [] }) k
    loads :
        {s s' : Modules S} {k k' : Kernel (Block S)} (m : BindingModule S)
        → Reach s k
        → k.next < 2 ^ 64 - 4095
        → load_module m s k ≡ some (s', k')
        → Reach s' k'
    unloads :
        {s s' : Modules S} {k k' : Kernel (Block S)} (i : ℕ)
        → Reach s k
        → unload_module i s k ≡ some (s', k')
        → Reach s' k'
    others : {s : Modules S} {k k' : Kernel (Block S)} → Reach s k → Elsewhere k k' → Reach s k'
