-- ===== src/Runtime/Bindings/Modules/Held.antt =====
-- The bindings that a context of lib/lunatik/lunatik.c uses while modules of lib/lunatik/bindings are
-- unloaded.
use lunatik_ng.Base.{
  ℕ, zero, suc, ◌≤◌, ◌≡◌, ◌⊎◌, inl, inr, sym, ap, ◌∙◌, some, List, [], ◌∷◌, arith, Option,
  Option-cases, Bool-cases, ◌==◌, ℤ, is_zero,
}
use mathlib.Core.Path.{subst}
use lunatik_ng.Kernel.{Kernel, Returns, Returns-mono}
use lunatik_ng.Runtime.{Active, Block, binding_node}
use lunatik_ng.Runtime.Bindings.{Registry, lunatik_bindings_load}
use lunatik_ng.Runtime.Bindings.Load
use lunatik_ng.Runtime.Bindings.Load.{uses, IsContext, IsContext-context, active_of}
use lunatik_ng.Runtime.Bindings.Load.Loop.{lunatik_bindings_load-Loaded}
use lunatik_ng.Runtime.Bindings.Modules.{
  Loaded, Modules, unload_module, take_out, Reach, others, Elsewhere,
}
use lunatik_ng.Runtime.Bindings.Modules.Registered.{node, At, IsRegistered}
use lunatik_ng.Runtime.Bindings.Modules.Reached.{unload_step, Reach-IsRegistered}

module _ {S : Type 0} where
  abbrev pub Has : Loaded S → List (Loaded S) → Type 0
  Has l [] = ⊥
  Has l (x ∷ xs) = (x ≡ l) ⊎ Has l xs

  abbrev pub Uses : Active S → List (Active S) → Type 0
  Uses a [] = ⊥
  Uses a (x ∷ xs) = (x ≡ a) ⊎ Uses a xs

  Has-At : (l : Loaded S) (xs : List (Loaded S)) → Has l xs → At l.binding xs
  Has-At l [] h = h
  Has-At l (x ∷ xs) (inl e) = inl (ap (λ y. y.binding) e)
  Has-At l (x ∷ xs) (inr h) = inr (Has-At l xs h)

  -- A use of a binding counts for its module.
  use_counts : (a : Active S) (active : List (Active S)) → Uses a active → 1 ≤ uses a.b.owner active
  use_counts a [] h = absurd h
  use_counts a (x ∷ xs) (inl e) =
      let owner : x.b.owner ≡ a.b.owner = ap (λ y. y.b.owner) e in ground arith
  use_counts a (x ∷ xs) (inr h) = omega (arith, use_counts a xs h)

  left_or_taken :
      (i : ℕ) (xs : List (Loaded S)) (l' : Loaded S) (rest : List (Loaded S)) (l : Loaded S)
      → take_out i xs ≡ some (l', rest)
      → Has l xs
      → (l' ≡ l) ⊎ Has l rest
  unfolding take_out
  left_or_taken i [] l' rest l e h = absurd h
  left_or_taken zero (x ∷ xs) l' rest l e (inl here) =
      let is_l : x ≡ l' = ground arith in inl (sym is_l ∙ here)
  left_or_taken zero (x ∷ xs) l' rest l e (inr there) =
      let is_rest : xs ≡ rest = ground arith in inr (subst (Has l) is_rest there)
  left_or_taken (suc i) (x ∷ xs) l' rest l e h = elim (Option-cases (take_out i xs)) [
    | inl nothing ↦ absurd (ground arith)
    | inr ((y, ys), taken) ↦
        let is_l : y ≡ l' = ground arith in
        let is_rest : x ∷ ys ≡ rest = ground arith in
        elim h [
          | inl here ↦ inr (subst (Has l) is_rest (inl here))
          | inr there ↦ elim (left_or_taken i xs y ys l taken there) [
            | inl same ↦ inl (sym is_l ∙ same)
            | inr stays ↦ inr (subst (Has l) is_rest (inr stays))
          ]
        ]
  ]

  -- Each module has a reference for each of its bindings in the list.
  abbrev pub Covered : List (Active S) → Kernel (Block S) → Type 0
  Covered active k = (m : ℕ) → uses m active ≤ k.refs m

  differs : (o : Option (Block S)) → IsContext o → o ≡ some binding_node → ⊥
  differs o ctx e = let (c, is_c, free) = IsContext-context o ctx in ground arith

  module _ (lc : ℕ) (reg : Registry S) (k k' : Kernel (Block S)) (ret : ℤ)
      (ctx : IsContext (k.heap lc)) (done : Load.Loaded lc reg k ret k') where
    load-Elsewhere : Elsewhere k k'
    load-Elsewhere = record {
      nodes = λ p. elim (Bool-cases (p == lc)) [
        | inl e ↦
            let at : p ≡ lc = ground arith in
            (
              λ h. absurd (differs (k.heap lc) ctx (ap k.heap (sym at) ∙ h)),
              λ h. absurd (differs (k'.heap lc) done.context (ap k'.heap (sym at) ∙ h)),
            )
        | inr e ↦ elim (done.others p (ground arith)) [
          | inl same ↦ (λ h. same ∙ h, λ h. sym same ∙ h)
          | inr (free, is_node) ↦ (λ h. absurd (ground arith), λ h. absurd (ground arith))
        ]
      ];
      later = done.next_ge;
      fresh = done.fresh;
    }

    load-Covered : Covered (active_of (k.heap lc)) k → Covered (active_of (k'.heap lc)) k'
    load-Covered covered m = elim (Bool-cases (is_zero ret)) [
      | inl z ↦ omega (arith, done.balance z m, covered m)
      | inr f ↦ let (b, lost) = done.leak f in omega (arith, lost m, covered m)
    ]

  -- In each state that is reached, the load of the registry into a context returns, whatever it returns; the
  -- state is one that is reached, and each module still has a reference for each active binding of it.
  pub lunatik_bindings_load-Covered :
      (s : Modules S) (k : Kernel (Block S)) (lc : ℕ)
      → Reach s k
      → IsContext (k.heap lc)
      → Covered (active_of (k.heap lc)) k
      → Returns
          (lunatik_bindings_load s.reg lc k)
          (λ ret k'. Reach s k' × IsContext (k'.heap lc) × Covered (active_of (k'.heap lc)) k')
  lunatik_bindings_load-Covered s k lc r ctx covered =
      let kept = Reach-IsRegistered r in
      Returns-mono (lunatik_bindings_load s.reg lc k)
        (lunatik_bindings_load-Loaded lc s.reg k kept.fresh ctx)
        (λ ret k' done. (
          others r (load-Elsewhere lc s.reg k k' ret ctx done),
          done.context,
          load-Covered lc s.reg k k' ret ctx done covered,
        ))

  -- In each state that is reached, a binding that a context uses stays registered, in its node, when any
  -- module is unloaded, if each module has a reference for each active binding of it.
  pub unload_module-keeps :
      (s : Modules S) (k : Kernel (Block S)) (active : List (Active S))
      → Reach s k
      → Covered active k
      → (a : Active S) → Uses a active
      → (l : Loaded S) → Has l s.loaded
      → node l ≡ a.b
      → (i : ℕ)
      → Returns
          (unload_module i s k)
          (λ s' k'. Has l s'.loaded × (k'.heap a.b.at ≡ some binding_node) × IsRegistered s' k')
  unload_module-keeps s k active r covered a used l has is_b i =
      Returns-mono (unload_module i s k) (unload_step s k (Reach-IsRegistered r) i)
        (λ s' k' (kept, done).
          let at : l.binding ≡ a.b.at = ap (λ b. b.at) is_b in
          let owner : l.of.owner ≡ a.b.owner = ap (λ b. b.owner) is_b in
          let still : Has l s'.loaded = elim done [
            | inl same ↦ subst (λ t. Has l t.loaded) (sym same) has
            | inr (l', rest, taken, refs, is_loaded, freed) ↦
                elim (left_or_taken i s.loaded l' rest l taken has) [
                  | inl is_l ↦
                      let no_refs : k.refs a.b.owner ≡ 0 =
                        ap k.refs (sym (ap (λ y. y.of.owner) is_l ∙ owner)) ∙ refs in
                      absurd (omega (arith, use_counts a active used, covered a.b.owner, no_refs))
                  | inr stays ↦ subst (Has l) (sym is_loaded) stays
                ]
          ] in
          (still, ap k'.heap (sym at) ∙ kept.allocated l.binding (Has-At l s'.loaded still), kept))
