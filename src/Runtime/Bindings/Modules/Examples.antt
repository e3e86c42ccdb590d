-- ===== src/Runtime/Bindings/Modules/Examples.antt =====
-- Loads and unloads of two modules like those of lib/lunatik/bindings.
use lunatik_ng.Base.{
  ℕ, ◌+◌, Bool-cases, ◌==◌, inl, inr, ◌≡◌, refl, true, false, none, some, [], ◌∷◌, pos, arith,
}
use mathlib.Core.Path.{subst}
use lunatik_ng.Kernel.{Kernel, update, Returns}
use lunatik_ng.Runtime.{Active, Block, context, binding_node}
use lunatik_ng.Runtime.Bindings.{unlink, lunatik_bindings_load, load_binding}
use lunatik_ng.Runtime.Bindings.Modules.{
  BindingModule, Loaded, Modules, load_module, unload_module, take_out, Reach, Elsewhere, boot,
  loads, unloads, others,
}
use lunatik_ng.Runtime.Bindings.Load.{IsContext, active_of}
use lunatik_ng.Runtime.Bindings.Modules.Held.{
  Uses, Has, Covered, lunatik_bindings_load-Covered, unload_module-keeps,
}
use lunatik_ng.Runtime.Bindings.Modules.Registered.{node, IsRegistered}
use lunatik_ng.Runtime.Bindings.Modules.Reached.{Reach-IsRegistered}

-- The third allocation fails.
abbrev k0 : Kernel (Block ℕ)
k0 = record {
  heap = λ p. none;
  next = 4096;
  oracle = true ∷ true ∷ false ∷ [];
  refs = λ m. 0;
  going = λ m. false;
  queue = λ wq. [];
  workqueues = 0;
}

abbrev buffer : BindingModule ℕ
buffer = record { owner = 1; regfunc = λ lua. (pos 0, lua + 1) }

abbrev crypto : BindingModule ℕ
crypto = record { owner = 2; regfunc = λ lua. (pos 0, lua + 2) }

abbrev none_loaded : Modules ℕ
none_loaded = record { reg = []; loaded = [] }

abbrev after : BindingModule ℕ → Modules ℕ → Kernel (Block ℕ) → Modules ℕ × Kernel (Block ℕ)
after m s k = elim (load_module m s k) [ none ↦ (s, k) | some r ↦ r ]

abbrev one : Modules ℕ × Kernel (Block ℕ)
one = after buffer none_loaded k0

abbrev two : Modules ℕ × Kernel (Block ℕ)
two = after crypto one.0 one.1

-- No node for the third.
abbrev refused : Modules ℕ × Kernel (Block ℕ)
refused = after buffer two.0 two.1

abbrev left : Modules ℕ × Kernel (Block ℕ)
left = elim (unload_module 0 refused.0 refused.1) [ none ↦ refused | some r ↦ r ]

load_one : load_module buffer none_loaded k0 ≡ some (one.0, one.1)
unfolding load_module
load_one = refl

load_two : load_module crypto one.0 one.1 ≡ some (two.0, two.1)
unfolding load_module
load_two = refl

load_refused : load_module buffer two.0 two.1 ≡ some (refused.0, refused.1)
unfolding load_module
load_refused = refl

unload_one : unload_module 0 refused.0 refused.1 ≡ some (left.0, left.1)
unfolding load_module unload_module take_out
unload_one = refl

only_crypto : left.0.reg ≡ record { at = 4097; owner = 2; regfunc = λ lua. (pos 0, lua + 2) } ∷ []
unfolding load_module unload_module take_out unlink
only_crypto = refl

at_boot : Reach none_loaded k0
at_boot = boot (record { next_pos = omega arith; free = λ p h. refl }) (λ p h. ground arith)

reached : Reach left.0 left.1
unfolding load_module unload_module take_out
reached =
    unloads 0
      (loads buffer
        (loads crypto (loads buffer at_boot (omega arith) load_one) (omega arith) load_two)
        (omega arith) load_refused)
      unload_one

Reach-IsRegistered_example : IsRegistered left.0 left.1
Reach-IsRegistered_example = Reach-IsRegistered reached

-- A context at the next address.
abbrev with_context : Kernel (Block ℕ)
with_context = record left.1 {
  heap =
      update left.1.heap 4098
        (some (context (record { lua = 0; locked = false; wq = 4099; active = [] })));
  next = 4100;
}

context_made : Elsewhere left.1 with_context
unfolding load_module unload_module take_out
context_made = record {
  nodes = λ p. elim (Bool-cases (p == 4098)) [
    | inl e ↦ (λ h. absurd (ground arith), λ h. absurd (ground arith))
    | inr e ↦ (λ h. ground arith, λ h. ground arith)
  ];
  later = omega arith;
  fresh = record { next_pos = omega arith; free = λ p h. ground arith };
}

served_kept :
    Returns
      (lunatik_bindings_load left.0.reg 4098 with_context)
      (λ ret k'. Reach left.0 k' × IsContext (k'.heap 4098) × Covered (active_of (k'.heap 4098)) k')
unfolding load_module unload_module take_out
served_kept =
    lunatik_bindings_load-Covered left.0 with_context 4098 (others reached context_made) refl
      (λ m. omega arith)

lunatik_bindings_load-Covered_example :
    Returns
      (lunatik_bindings_load left.0.reg 4098 with_context)
      (λ ret k'. Reach left.0 k' × IsContext (k'.heap 4098) × Covered (active_of (k'.heap 4098)) k')
unfolding load_module unload_module take_out
lunatik_bindings_load-Covered_example =
    lunatik_bindings_load-Covered left.0 with_context 4098 (others reached context_made) refl
      (λ m. omega arith)

abbrev served : Kernel (Block ℕ)
served = elim (lunatik_bindings_load left.0.reg 4098 with_context) [
  | none ↦ with_context
  | some (ret, k) ↦ k
]

load_served : lunatik_bindings_load left.0.reg 4098 with_context ≡ some (pos 0, served)
unfolding load_module unload_module take_out lunatik_bindings_load load_binding
load_served = refl

abbrev crypto_loaded : Loaded ℕ
crypto_loaded = record { of = crypto; binding = 4097 }

abbrev crypto_active : Active ℕ
crypto_active = record { node = 4100; b = node crypto_loaded }

crypto_used : Uses crypto_active (active_of (served.heap 4098))
unfolding load_module unload_module take_out lunatik_bindings_load load_binding
crypto_used = inl refl

crypto_there : Has crypto_loaded left.0.loaded
unfolding load_module unload_module take_out
crypto_there = inl refl

served_at :
    Reach left.0 served
    × IsContext (served.heap 4098)
    × Covered (active_of (served.heap 4098)) served
served_at =
    subst
      (λ x. Returns x (λ ret k'.
        Reach left.0 k' × IsContext (k'.heap 4098) × Covered (active_of (k'.heap 4098)) k'))
      load_served served_kept

unload_module-keeps_example :
    Returns (unload_module 0 left.0 served) (λ s' k'.
      Has crypto_loaded s'.loaded × (k'.heap 4097 ≡ some binding_node) × IsRegistered s' k')
unload_module-keeps_example =
    unload_module-keeps left.0 served (active_of (served.heap 4098)) served_at.0 served_at.2
      crypto_active crypto_used crypto_loaded crypto_there refl 0
