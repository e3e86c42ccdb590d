-- ===== src/Runtime/Bindings/Modules/Reached.antt =====
-- The registry of lib/lunatik/lunatik.c after any loads and unloads of the modules of
-- lib/lunatik/bindings.
use lunatik_ng.Base.{
  ℕ, ◌-◌, ◌^◌, ◌<◌, ◌≡◌, ◌⊎◌, inl, inr, refl, sym, false, none, some, ◌==◌, List, arith, Bool-cases,
  Option-cases,
}
use mathlib.Core.Path.{subst}
use lunatik_ng.Kernel.{Kernel, Returns, Returns-mono}
use lunatik_ng.Runtime.{Block}
use lunatik_ng.Runtime.Bindings.Modules.{
  BindingModule, Loaded, Modules, load_module, unload_module, take_out, Reach, boot, loads, unloads,
  others,
}
use lunatik_ng.Runtime.Bindings.Modules.Registered.{IsRegistered, take_out_lem}
use lunatik_ng.Runtime.Bindings.Modules.Steps.{
  added, load_module_cases, unload_module_lem, refused-IsRegistered, added-IsRegistered,
  gone-IsRegistered,
}

module _ {S : Type 0} where
  -- The module is the newest one, or its initialisation was refused and nothing is different.
  abbrev pub LoadDone :
      BindingModule S → Modules S → Kernel (Block S) → Modules S → Kernel (Block S) → Type 0
  LoadDone m s k s' k' = (s' ≡ added m s k) ⊎ ((s' ≡ s) × (k'.heap ≡ k.heap))

  -- Nothing is different, or one module that nobody had a reference on is gone, and its node is freed.
  abbrev pub UnloadDone : ℕ → Modules S → Kernel (Block S) → Modules S → Kernel (Block S) → Type 0
  UnloadDone i s k s' k' =
      (s' ≡ s)
      ⊎ ((l : Loaded S) × (rest : List (Loaded S)) × (take_out i s.loaded ≡ some (l, rest))
          × (k.refs l.of.owner ≡ 0)
          × (s'.loaded ≡ rest)
          × (k'.heap l.binding ≡ none))

  module _ (s : Modules S) (k : Kernel (Block S)) (kept : IsRegistered s k) where
    load_step :
        (m : BindingModule S)
        → k.next < 2 ^ 64 - 4095
        → Returns (load_module m s k) (λ s' k'. IsRegistered s' k' × LoadDone m s k s' k')
    load_step m room =
        let (o, outcome) = load_module_cases m s k kept.fresh.next_pos room in
        elim outcome [
          | inl e ↦
              subst (λ r. Returns r (λ s' k'. IsRegistered s' k' × LoadDone m s k s' k')) (sym e)
                (added-IsRegistered s k kept m room o, inl refl)
          | inr e ↦
              subst (λ r. Returns r (λ s' k'. IsRegistered s' k' × LoadDone m s k s' k')) (sym e)
                (refused-IsRegistered s k kept o, inr (refl, refl))
        ]

    unload_stays :
        (i : ℕ)
        → unload_module i s k ≡ some (s, k)
        → Returns (unload_module i s k) (λ s' k'. IsRegistered s' k' × UnloadDone i s k s' k')
    unload_stays i e =
        subst (λ r. Returns r (λ s' k'. IsRegistered s' k' × UnloadDone i s k s' k')) (sym e)
          (kept, inl refl)

    missing_lem : (i : ℕ) → take_out i s.loaded ≡ none → unload_module i s k ≡ some (s, k)
    unfolding unload_module
    missing_lem i e = ground arith

    wanted_lem :
        (i : ℕ) (l : Loaded S) (rest : List (Loaded S))
        → take_out i s.loaded ≡ some (l, rest)
        → (k.refs l.of.owner == 0) ≡ false
        → unload_module i s k ≡ some (s, k)
    unfolding unload_module
    wanted_lem i l rest e wanted = ground arith

    pub unload_step :
        (i : ℕ)
        → Returns (unload_module i s k) (λ s' k'. IsRegistered s' k' × UnloadDone i s k s' k')
    unload_step i = elim (Option-cases (take_out i s.loaded)) [
      | inl nothing ↦ unload_stays i (missing_lem i nothing)
      | inr ((l, rest), taken) ↦ elim (Bool-cases (k.refs l.of.owner == 0)) [
        | inr wanted ↦ unload_stays i (wanted_lem i l rest taken wanted)
        | inl free ↦
            let t = take_out_lem i s.loaded l rest kept.distinct taken in
            let (nonzero, no_error) = kept.valid l.binding t.was in
            let e =
              unload_module_lem i s k l rest taken (ground (arith, nonzero)) no_error
                (kept.allocated l.binding t.was) free in
            subst (λ r. Returns r (λ s' k'. IsRegistered s' k' × UnloadDone i s k s' k')) (sym e)
              (
                gone-IsRegistered s k kept l rest t,
                inr (l, rest, taken, ground arith, refl, ground arith),
              )
      ]
    ]

  -- However modules are loaded and unloaded, with allocations that fail, the registry has the bindings of
  -- the loaded modules in the order of their loads, each in an allocated node of its own whose address is
  -- neither NULL nor an error pointer, and the heap has no other nodes.
  pub Reach-IsRegistered : {s : Modules S} {k : Kernel (Block S)} → Reach s k → IsRegistered s k
  Reach-IsRegistered (boot fresh empty) = record {
    listed = refl;
    distinct = tt;
    allocated = λ p h. absurd h;
    owned = λ p h. empty p h;
    valid = λ p h. absurd h;
    fresh = fresh;
  }
  Reach-IsRegistered (loads {s} {s'} {k} {k'} m r room e) =
      let (kept, done) =
        subst (λ x. Returns x (λ t h. IsRegistered t h × LoadDone m s k t h)) e
          (load_step s k (Reach-IsRegistered r) m room) in
      kept
  Reach-IsRegistered (unloads {s} {s'} {k} {k'} i r e) =
      let (kept, done) =
        subst (λ x. Returns x (λ t h. IsRegistered t h × UnloadDone i s k t h)) e
          (unload_step s k (Reach-IsRegistered r) i) in
      kept
  Reach-IsRegistered (others {s} {k} {k'} r elsewhere) =
      let kept = Reach-IsRegistered r in
      record {
        listed = kept.listed;
        distinct = kept.distinct;
        allocated = λ p h. let (there, back) = elsewhere.nodes p in there (kept.allocated p h);
        owned = λ p h. let (there, back) = elsewhere.nodes p in kept.owned p (back h);
        valid = kept.valid;
        fresh = elsewhere.fresh;
      }

  -- In each state that is reached, to load a module returns: the module is the newest one and its binding
  -- the last of the registry, or nothing is different; and to unload one returns: nothing is different, or
  -- the module had no reference, is taken out, and its node is freed.
  pub Reach-returns :
      (s : Modules S) (k : Kernel (Block S))
      → Reach s k
      → ((m : BindingModule S)
          → k.next < 2 ^ 64 - 4095
          → Returns (load_module m s k) (LoadDone m s k))
        × ((i : ℕ) → Returns (unload_module i s k) (UnloadDone i s k))
  Reach-returns s k r =
      let kept = Reach-IsRegistered r in
      (
        λ m room.
            Returns-mono (load_module m s k) (load_step s k kept m room) (λ s' k' (h, done). done),
        λ i. Returns-mono (unload_module i s k) (unload_step s k kept i) (λ s' k' (h, done). done),
      )
