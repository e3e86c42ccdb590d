-- ===== src/Kernel.antt =====
-- The kernel services that lib/lunatik/lunatik.c and lunatik_syscall.c call: the slab allocator,
-- error pointers, module reference counts and ordered workqueues. They are not code of the
-- repository; the model gives each the documented behaviour, with the outcome of every allocation
-- chosen by the environment. A command that touches memory which is not allocated is a fault.
use lunatik_ng.Base.{
  ℕ, ◌+◌, ◌-◌, ◌^◌, ◌≤◌, ◌<◌, ◌≡◌, ◌≢◌, refl, Bool, true, false, Option, none, some, List, [], ◌∷◌,
  ◌++◌, ◌==◌, leb, if◌then◌else◌, ℤ, pos, negsuc,
}

-- `heap` is what is allocated, by address. `oracle` says how the coming allocations end; behind its
-- end they succeed. `going` are the modules that are being unloaded. `queue` has the pending works
-- of each workqueue, the oldest first; `workqueues` counts the workqueues that are allocated.
pub record Kernel (B : Type 0) : Type 0 where
  pub heap : ℕ → Option B
  pub next : ℕ
  pub oracle : List Bool
  pub refs : ℕ → ℕ
  pub going : ℕ → Bool
  pub queue : ℕ → List ℕ
  pub workqueues : ℕ

-- `none` is a fault: a use of memory that is not allocated, a second free, a deadlock.
abbrev pub M : Type 0 → Type 0 → Type 0
M B A = Kernel B → Option (A × Kernel B)

abbrev pub update {ℓ} : {A : Type ℓ} → (ℕ → A) → ℕ → A → ℕ → A
update f p v a = if a == p then v else f a

module _ {B : Type 0} where
  abbrev pub pure : {A : Type 0} → A → M B A
  pure a k = some (a, k)

  abbrev pub fault : {A : Type 0} → M B A
  fault k = none

  infixl 5 ◌>>=◌ ◌>>◌
  abbrev pub ◌>>=◌ : {A C : Type 0} → M B A → (A → M B C) → M B C
  ◌>>=◌ m f k = elim (m k) [ none ↦ none | some (a, k') ↦ f a k' ]

  abbrev pub ◌>>◌ : {C : Type 0} → M B (Unit {0}) → M B C → M B C
  ◌>>◌ m c = m >>= λ _. c

  alloc : Kernel B → B → ℕ × Kernel B
  alloc k b = (k.next, record k { heap = update k.heap k.next (some b); next = k.next + 1 })

  alloc_with : List Bool → Kernel B → B → ℕ × Kernel B
  unfolding alloc
  alloc_with [] k b = alloc k b
  alloc_with (true ∷ o) k b = alloc (record k { oracle = o }) b
  alloc_with (false ∷ o) k b = (0, record k { oracle = o })

  -- `kmalloc` or `kzalloc`, with what the caller then stores in the block. 0 is NULL.
  unfoldable pub kmalloc : B → M B ℕ
  unfolding alloc_with
  kmalloc b k = some (alloc_with k.oracle k b)

  free_block : ℕ → Option B → M B (Unit {0})
  free_block p none k = none
  free_block p (some b) k = some (tt, record k { heap = update k.heap p none })

  -- `kfree(NULL)` does nothing.
  unfoldable pub kfree : ℕ → M B (Unit {0})
  unfolding free_block
  kfree p k = elim (p == 0) [ true ↦ some (tt, k) | false ↦ free_block p (k.heap p) k ]

  unfoldable pub load : ℕ → M B B
  load p k = elim (k.heap p) [ none ↦ none | some b ↦ some (b, k) ]

  unfoldable pub store : ℕ → B → M B (Unit {0})
  store p b k = elim (k.heap p) [
    | none ↦ none
    | some _ ↦ some (tt, record k { heap = update k.heap p (some b) })
  ]

  -- It fails for a module that is being unloaded.
  unfoldable pub try_module_get : ℕ → M B Bool
  try_module_get m k = elim (k.going m) [
    | true ↦ some (false, k)
    | false ↦ some (true, record k { refs = update k.refs m (k.refs m + 1) })
  ]

  unfoldable pub module_put : ℕ → M B (Unit {0})
  module_put m k = some (tt, record k { refs = update k.refs m (k.refs m - 1) })

  -- The address of a new workqueue, 0 for NULL.
  unfoldable pub alloc_ordered_workqueue : (wq : ℕ) → M B ℕ
  alloc_ordered_workqueue wq k = elim (wq == 0) [
    | true ↦ some (0, k)
    | false ↦ some (wq, record k { workqueues = k.workqueues + 1 })
  ]

  unfoldable pub queue_work : ℕ → ℕ → M B (Unit {0})
  queue_work wq w k = some (tt, record k { queue = update k.queue wq (k.queue wq ++ (w ∷ [])) })

  -- The worker of an ordered workqueue takes the oldest work, if there is one.
  unfoldable pub take_work : ℕ → M B (Option ℕ)
  take_work wq k = elim (k.queue wq) [
    | [] ↦ some (none, k)
    | w ∷ ws ↦ some (some w, record k { queue = update k.queue wq ws })
  ]

  -- Addresses from `next` on are free.
  pub record IsFresh (k : Kernel B) : Type 0 where
    pub next_pos : 0 < k.next
    pub free : (p : ℕ) → k.next ≤ p → k.heap p ≡ none

-- `ERR_PTR(-e)`, and the test `IS_ERR`.
abbrev pub err_ptr : ℕ → ℕ
err_ptr e = 2 ^ 64 - e

-- `PTR_ERR`
abbrev pub ptr_err : ℕ → ℤ
ptr_err p = negsuc (2 ^ 64 - p - 1)

-- `ERR_PTR` of a status.
abbrev pub ptr_of : ℤ → ℕ
ptr_of (pos n) = n
ptr_of (negsuc n) = 2 ^ 64 - n - 1

abbrev pub is_err : ℕ → Bool
is_err p = leb (2 ^ 64 - 4095) p

-- The command ends without a fault, and its value and the kernel that it leaves satisfy `P`.
abbrev pub Returns : {B A : Type 0} → Option (A × Kernel B) → (A → Kernel B → Type 0) → Type 0
Returns none P = ⊥
Returns (some (a, k)) P = P a k

pub Returns_intro :
    {B A : Type 0} (r : Option (A × Kernel B)) {P : A → Kernel B → Type 0}
    → r ≢ none
    → ((a : A) (k' : Kernel B) → r ≡ some (a, k') → P a k')
    → Returns r P
Returns_intro none runs h = runs refl
Returns_intro (some (a, k)) runs h = h a k refl

pub Returns_elim :
    {B A : Type 0} (r : Option (A × Kernel B)) {P : A → Kernel B → Type 0}
    → Returns r P
    → (a : A) × (k' : Kernel B) × (r ≡ some (a, k')) × P a k'
Returns_elim none h = absurd h
Returns_elim (some (a, k)) h = (a, k, refl, h)

pub Returns-mono :
    {B A : Type 0} (r : Option (A × Kernel B)) {P Q : A → Kernel B → Type 0}
    → Returns r P
    → ((a : A) (k : Kernel B) → P a k → Q a k)
    → Returns r Q
Returns-mono none h f = absurd h
Returns-mono (some (a, k)) h f = f a k h

-- The rule for a sequence of two commands, at the outcome `r` of the first.
pub Returns-bind :
    {B A C : Type 0} (r : Option (A × Kernel B)) (f : A → M B C) {P : A → Kernel B → Type 0}
    (Q : C → Kernel B → Type 0)
    → Returns r P
    → ((a : A) (k : Kernel B) → P a k → Returns (f a k) Q)
    → Returns (elim r [ none ↦ none | some (a, k) ↦ f a k ]) Q
Returns-bind none f Q h g = absurd h
Returns-bind (some (a, k)) f Q h g = g a k h

-- The postcondition of the second of two commands, as one of the first.
pub Returns-unbind :
    {B A C : Type 0} (r : Option (A × Kernel B)) (f : A → M B C) (Q : C → Kernel B → Type 0)
    → Returns (elim r [ none ↦ none | some (a, k) ↦ f a k ]) Q
    → Returns r (λ a k. Returns (f a k) Q)
Returns-unbind none f Q h = h
Returns-unbind (some (a, k)) f Q h = h

-- If the command ends without a fault, its value and the kernel that it leaves satisfy `P`.
abbrev pub IfReturns : {B A : Type 0} → Option (A × Kernel B) → (A → Kernel B → Type 0) → Type 0
IfReturns none P = Unit
IfReturns (some (a, k)) P = P a k

pub IfReturns-bind :
    {B A C : Type 0} (r : Option (A × Kernel B)) (f : A → M B C) (Q : C → Kernel B → Type 0)
    → ((a : A) (k : Kernel B) → IfReturns (f a k) Q)
    → IfReturns (elim r [ none ↦ none | some (a, k) ↦ f a k ]) Q
IfReturns-bind none f Q g = tt
IfReturns-bind (some (a, k)) f Q g = g a k

pub IfReturns-bind_when :
    {B A C : Type 0} (r : Option (A × Kernel B)) (f : A → M B C) {P : A → Kernel B → Type 0}
    (Q : C → Kernel B → Type 0)
    → IfReturns r P
    → ((a : A) (k : Kernel B) → P a k → IfReturns (f a k) Q)
    → IfReturns (elim r [ none ↦ none | some (a, k) ↦ f a k ]) Q
IfReturns-bind_when none f Q h g = tt
IfReturns-bind_when (some (a, k)) f Q h g = g a k h
