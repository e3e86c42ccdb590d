-- ===== src/Runtime/Bindings/Load.antt =====
-- `lunatik_bindings_load` of lib/lunatik/lunatik.c: what one round of its loop does, and the loop.
pub mod Loop
use lunatik_ng.Base.{
  ℕ, zero, suc, ◌+◌, ◌≡◌, ◌≢◌, ◌⊎◌, inl, inr, refl, sym, ◌∙◌, ap, ◌<◌, true, false, Bool, Option,
  none, some, List, [], ◌∷◌, ◌++◌, ℤ, pos, negsuc, is_zero, length, arith, ◌≤◌, All, ◌==◌, ◌||◌,
  not, if◌then◌else◌,
}
use lunatik_ng.Kernel.{
  Kernel, M, pure, fault, ◌>>=◌, ◌>>◌, IsFresh, Returns, Returns_intro, Returns_elim,
}
use lunatik_ng.Runtime.{
  Context, Active, Binding, Block, context, load_data, work, result, bytes, async_info, active_node,
  binding_node,
}
use lunatik_ng.Runtime.Bindings.{
  Registry, is_active, load_binding, lunatik_bindings_load, register_in, add_active, call_regfunc,
}

module _ {S : Type 0} where
  -- A context whose lock is free.
  abbrev pub IsContext : Option (Block S) → Type 0
  IsContext (some (context c)) = c.locked ≡ false
  IsContext _ = ⊥

  abbrev pub active_of : Option (Block S) → List (Active S)
  active_of (some (context c)) = c.active
  active_of _ = []

  -- A place of the heap is as it was, or it was free and has a list node now.
  abbrev pub SameOrNode : (before now : Option (Block S)) → Type 0
  SameOrNode before now = (now ≡ before) ⊎ ((before ≡ none) × (now ≡ some active_node))

  pub SameOrNode-trans :
      {a b c : Option (Block S)} → SameOrNode a b → SameOrNode b c → SameOrNode a c
  SameOrNode-trans (inl e) (inl e') = inl (e' ∙ e)
  SameOrNode-trans (inl e) (inr (free, node)) = inr (sym e ∙ free, node)
  SameOrNode-trans (inr (free, node)) (inl e') = inr (free, e' ∙ node)
  SameOrNode-trans (inr (free, node)) (inr (free', node')) = inr (free, node')

  abbrev pub wq_of : Option (Block S) → ℕ
  wq_of (some (context c)) = c.wq
  wq_of _ = 0

  -- How many of the active bindings belong to module `m`.
  abbrev pub uses : ℕ → List (Active S) → ℕ
  uses m [] = 0
  uses m (a ∷ rest) = (if a.b.owner == m then 1 else 0) + uses m rest

  pub uses-append : (m : ℕ) (xs ys : List (Active S)) → uses m (xs ++ ys) ≡ uses m xs + uses m ys
  uses-append m [] ys = omega arith
  uses-append m (x ∷ xs) ys = omega (arith, uses-append m xs ys)

  pub is_active-append :
      (at : ℕ) (xs ys : List (Active S))
      → is_active at (xs ++ ys) ≡ (is_active at xs || is_active at ys)
  unfolding is_active
  is_active-append at [] ys = refl
  is_active-append at (x ∷ xs) ys = ground (arith, is_active-append at xs ys)

  module _ (lc : ℕ) (b : Binding S) (k : Kernel (Block S)) (fresh : IsFresh k) (c : Context S)
      (here : k.heap lc ≡ some (context c)) (unlocked : c.locked ≡ false) where
    load_binding-ne-none : load_binding lc b k ≢ none
    unfolding load_binding
    load_binding-ne-none e = let free = fresh.free k.next in ground arith

    module _ (ret : ℤ) (k' : Kernel (Block S)) (e : load_binding lc b k ≡ some (ret, k')) where
      round-IsContext : IsContext (k'.heap lc)
      unfolding load_binding
      round-IsContext = ground (arith, fresh.free k.next)

      round_fresh : (p : ℕ) → k'.next ≤ p → k'.heap p ≡ none
      unfolding load_binding
      round_fresh p h = ground (arith, fresh.free k.next, fresh.free p, fresh.free lc)

      round_next : 0 < k'.next
      unfolding load_binding
      round_next = let pos = fresh.next_pos in ground (arith, fresh.free k.next)

      round_going : (m : ℕ) → k'.going m ≡ k.going m
      unfolding load_binding
      round_going m = ground (arith, fresh.free k.next)

      round_others : (p : ℕ) → p ≢ lc → SameOrNode (k.heap p) (k'.heap p)
      unfolding load_binding
      round_others p ne = ground (arith, fresh.free k.next)

      round_next_ge : k.next ≤ k'.next
      unfolding load_binding
      round_next_ge = ground (arith, fresh.free k.next)

      round_next_le : k'.next ≤ k.next + 1
      unfolding load_binding
      round_next_le = ground (arith, fresh.free k.next)

      round_wq : wq_of (k'.heap lc) ≡ c.wq
      unfolding load_binding
      round_wq = ground (arith, fresh.free k.next)

      round_queue : (wq : ℕ) → k'.queue wq ≡ k.queue wq
      unfolding load_binding
      round_queue wq = ground (arith, fresh.free k.next)

      round_workqueues : k'.workqueues ≡ k.workqueues
      unfolding load_binding
      round_workqueues = ground (arith, fresh.free k.next)

      round_plenty : k.oracle ≡ [] → k'.oracle ≡ []
      unfolding load_binding
      round_plenty h = ground (arith, fresh.free k.next)

      round_grows :
          (at : ℕ) → is_active at c.active ≡ true → is_active at (active_of (k'.heap lc)) ≡ true
      unfolding load_binding
      round_grows at h = ground (
        arith,
        fresh.free k.next,
        is_active-append at c.active (record { node = k.next; b = b } ∷ []),
      )

      -- A reference is taken when the binding is not active and its module is not going.
      round_refs :
          (m : ℕ)
          → k'.refs m
            ≡ k.refs m
              + (if is_active b.at c.active || k.going b.owner
                  then 0
                  else if b.owner == m
                  then 1
                  else 0)
      unfolding load_binding
      round_refs m = ground (arith, fresh.free k.next)

      round_active : active_of (k'.heap lc) ≡ (
          if is_active b.at c.active || k.going b.owner || not (is_zero ret)
          then c.active
          else c.active ++ record { node = k.next; b = b } ∷ [])
      unfolding load_binding
      round_active = ground (arith, fresh.free k.next)

      round_idle : (is_active b.at c.active || k.going b.owner) ≡ true → is_zero ret ≡ true
      unfolding load_binding
      round_idle h = ground (arith, fresh.free k.next)

      round_balance :
          (m : ℕ)
          → k'.refs m + uses m c.active
            ≡ k.refs m
              + uses m (active_of (k'.heap lc))
              + (if is_zero ret then 0 else if b.owner == m then 1 else 0)
      round_balance m = ground (
        arith,
        ap (uses m) round_active,
        round_refs m,
        round_idle,
        uses-append m c.active (record { node = k.next; b = b } ∷ []),
      )

      round_served :
          is_zero ret ≡ true
          → (is_active b.at (active_of (k'.heap lc)) ≡ true) ⊎ (k.going b.owner ≡ true)
      unfolding load_binding is_active
      round_served h = ground (
        arith,
        fresh.free k.next,
        is_active-append b.at c.active (record { node = k.next; b = b } ∷ []),
      )

  pub IsContext-context :
      (o : Option (Block S))
      → IsContext o
      → (c : Context S) × (o ≡ some (context c)) × (c.locked ≡ false)
  IsContext-context (some (context c)) h = (c, refl, h)
  IsContext-context none h = absurd h
  IsContext-context (some active_node) h = absurd h
  IsContext-context (some binding_node) h = absurd h
  IsContext-context (some (load_data _)) h = absurd h
  IsContext-context (some (work _)) h = absurd h
  IsContext-context (some (result _)) h = absurd h
  IsContext-context (some (bytes _)) h = absurd h
  IsContext-context (some (async_info _ _)) h = absurd h

  -- `b` is active, or its module is being unloaded.
  abbrev pub Served : (ℕ → Bool) → List (Active S) → Binding S → Type 0
  Served going active b = (is_active b.at active ≡ true) ⊎ (going b.owner ≡ true)

  -- What the load of `reg` has done when it returns `ret`.
  pub record Loaded (lc : ℕ) (reg : Registry S) (k : Kernel (Block S)) (ret : ℤ)
      (k' : Kernel (Block S)) : Type 0 where
    pub context : IsContext (k'.heap lc)
    pub fresh : IsFresh k'
    pub going : (m : ℕ) → k'.going m ≡ k.going m
    pub grows :
        (at : ℕ)
        → is_active at (active_of (k.heap lc)) ≡ true
        → is_active at (active_of (k'.heap lc)) ≡ true
    pub others : (p : ℕ) → p ≢ lc → SameOrNode (k.heap p) (k'.heap p)
    pub next_ge : k.next ≤ k'.next
    pub next_le : k'.next ≤ k.next + length reg
    pub wq : wq_of (k'.heap lc) ≡ wq_of (k.heap lc)
    pub queue : (wq : ℕ) → k'.queue wq ≡ k.queue wq
    pub workqueues : k'.workqueues ≡ k.workqueues
    pub plenty : k.oracle ≡ [] → k'.oracle ≡ []
    pub served : is_zero ret ≡ true → All (Served k.going (active_of (k'.heap lc))) reg
    pub balance :
        is_zero ret ≡ true
        → (m : ℕ)
        → k'.refs m + uses m (active_of (k.heap lc)) ≡ k.refs m + uses m (active_of (k'.heap lc))
    pub leak :
        is_zero ret ≡ false
        → (b : Binding S) × ((m : ℕ)
            → k'.refs m + uses m (active_of (k.heap lc))
              ≡ k.refs m + uses m (active_of (k'.heap lc)) + (if b.owner == m then 1 else 0))

  round-Loaded :
      (lc : ℕ) (b : Binding S) (k : Kernel (Block S)) (fresh : IsFresh k) (ret : ℤ)
      (k' : Kernel (Block S))
      → IsContext (k.heap lc)
      → load_binding lc b k ≡ some (ret, k')
      → Loaded lc (b ∷ []) k ret k'
  round-Loaded lc b k fresh ret k' ctx e =
      let (c, here, free) = IsContext-context (k.heap lc) ctx in
      let active = ap active_of here in
      record {
        context = round-IsContext lc b k fresh c here free ret k' e;
        fresh = record {
          next_pos = round_next lc b k fresh c here free ret k' e;
          free = round_fresh lc b k fresh c here free ret k' e;
        };
        going = round_going lc b k fresh c here free ret k' e;
        grows = λ at h. round_grows lc b k fresh c here free ret k' e at (rw active at h);
        others = round_others lc b k fresh c here free ret k' e;
        next_ge = round_next_ge lc b k fresh c here free ret k' e;
        next_le = round_next_le lc b k fresh c here free ret k' e;
        wq = round_wq lc b k fresh c here free ret k' e ∙ sym (ap wq_of here);
        queue = round_queue lc b k fresh c here free ret k' e;
        workqueues = round_workqueues lc b k fresh c here free ret k' e;
        plenty = round_plenty lc b k fresh c here free ret k' e;
        served = λ z. (round_served lc b k fresh c here free ret k' e z, tt);
        balance = λ z m. ground (arith, round_balance lc b k fresh c here free ret k' e m);
        leak = λ z. (b, λ m. ground (arith, round_balance lc b k fresh c here free ret k' e m));
      }
