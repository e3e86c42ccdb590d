-- ===== src/Runtime/Loadcode/Interleaving/Invariant.antt =====
-- The invariant of the callers of `lunatik_loadcode_sync` of lib/lunatik/lunatik.c and the worker.
use lunatik_ng.Base.{ℕ, ◌≡◌, ◌≢◌, ◌⊎◌, inl, inr, refl, false, none, some, List, [], ◌∷◌, ◌++◌, All}
use lunatik_ng.Kernel.{Kernel, IsFresh}
use lunatik_ng.Runtime.{Context, LoadData, Work, Block, context, load_data, work}
use lunatik_ng.Runtime.Loadcode.Turn.{Heap, Waiting}
use lunatik_ng.Runtime.Loadcode.Interleaving.{Worker, idle, fetched, posting, World}

-- No element stands twice.
abbrev pub Distinct : List ℕ → Type 0
Distinct [] = Unit
Distinct (x ∷ xs) = All (λ y. x ≢ y) xs × Distinct xs

abbrev pub In : ℕ → List ℕ → Type 0
In p [] = ⊥
In p (x ∷ xs) = (p ≡ x) ⊎ In p xs

-- The works that have not run: the queue, and what the worker has taken.
abbrev pub backlog_of : Worker → List ℕ → List ℕ
backlog_of idle queue = queue
backlog_of (fetched lw) queue = lw ∷ queue
backlog_of (posting lw d) queue = queue

abbrev pub backlog : {S : Type 0} → ℕ → World S → List ℕ
backlog wq s = backlog_of s.worker (s.kernel.queue wq)

module _ {S : Type 0} where
  -- A work whose semaphore is not raised yet.
  pub record Pending (heap : Heap S) (lw : ℕ) : Type 0 where
    pub w : Work
    pub ld : LoadData
    pub queued : heap lw ≡ some (work w)
    pub request : heap w.work_data ≡ some (load_data ld)
    pub down : ld.complete ≡ 0

  -- No caller holds the block: it is no work, and no work's data.
  abbrev pub IsUnheld : Heap S → ℕ → Type 0
  IsUnheld heap p = (q : ℕ) (w : Work) → heap q ≡ some (work w) → (q ≢ p) × (w.work_data ≢ p)

  -- The work that the handler is at is still there.
  abbrev pub IsHeld : Heap S → Worker → Type 0
  IsHeld heap idle = Unit
  IsHeld heap (fetched lw) = Unit
  IsHeld heap (posting lw d) = (w : Work) × (heap lw ≡ some (work w)) × (w.work_data ≡ d)

  -- The context at `lc` is free to use, and each work is the request of one caller, with data of its own.
  -- The works that wait to run are distinct, and they are those whose semaphores are down. The blocks of the callers
  -- are new with respect to the heap at the beginning, `heap₀`, and all others but the context are as
  -- there.
  pub record IsSound (lc wq : ℕ) (heap₀ : Heap S) (k : Kernel (Block S)) (lws : List ℕ)
      : Type 0 where
    pub c : Context S
    pub is_context : k.heap lc ≡ some (context c)
    pub unlocked : c.locked ≡ false
    pub same_wq : c.wq ≡ wq
    pub plenty : k.oracle ≡ []
    pub fresh : IsFresh k
    pub null : k.heap 0 ≡ none
    pub requests : (p : ℕ) (w : Work) → k.heap p ≡ some (work w) → Waiting lc k.heap p
    pub own :
        (p q : ℕ) (v w : Work)
        → k.heap p ≡ some (work v)
        → k.heap q ≡ some (work w)
        → v.work_data ≡ w.work_data
        → p ≡ q
    pub new :
        (p : ℕ) (w : Work)
        → k.heap p ≡ some (work w)
        → (heap₀ p ≡ none) × (heap₀ w.work_data ≡ none)
    pub pending : All (Pending k.heap) lws
    pub waits :
        (p : ℕ) (w : Work) (ld : LoadData)
        → k.heap p ≡ some (work w)
        → k.heap w.work_data ≡ some (load_data ld)
        → ld.complete ≡ 0
        → In p lws
    pub distinct : Distinct lws
    pub rest : (p : ℕ) → p ≢ lc → IsUnheld k.heap p → k.heap p ≡ heap₀ p

pub All-map : {P Q : ℕ → Type 0} (xs : List ℕ) → ((x : ℕ) → P x → Q x) → All P xs → All Q xs
All-map [] f h = tt
All-map (x ∷ xs) f (h, hs) = (f x h, All-map xs f hs)

pub All-snoc : (P : ℕ → Type 0) (xs : List ℕ) (y : ℕ) → All P xs → P y → All P (xs ++ y ∷ [])
All-snoc P [] y h p = (p, tt)
All-snoc P (x ∷ xs) y (h, hs) p = (h, All-snoc P xs y hs p)

pub Distinct-snoc :
    (xs : List ℕ) (y : ℕ) → Distinct xs → All (λ x. x ≢ y) xs → Distinct (xs ++ y ∷ [])
Distinct-snoc [] y d h = (tt, tt)
Distinct-snoc (x ∷ xs) y (new, d) (ne, h) =
    (All-snoc (λ y. x ≢ y) xs y new ne, Distinct-snoc xs y d h)

pub All-zip :
    {P Q R : ℕ → Type 0} (xs : List ℕ)
    → ((x : ℕ) → P x → Q x → R x)
    → All P xs
    → All Q xs
    → All R xs
All-zip [] f h g = tt
All-zip (x ∷ xs) f (h, hs) (g, gs) = (f x h g, All-zip xs f hs gs)

pub In-snoc : (p : ℕ) (xs : List ℕ) (y : ℕ) → In p xs → In p (xs ++ y ∷ [])
In-snoc p [] y h = absurd h
In-snoc p (x ∷ xs) y (inl e) = inl e
In-snoc p (x ∷ xs) y (inr h) = inr (In-snoc p xs y h)

pub In-last : (xs : List ℕ) (y : ℕ) → In y (xs ++ y ∷ [])
In-last [] y = inl refl
In-last (x ∷ xs) y = inr (In-last xs y)

pub backlog_of-snoc :
    (worker : Worker) (queue : List ℕ) (lw : ℕ)
    → backlog_of worker (queue ++ lw ∷ []) ≡ backlog_of worker queue ++ lw ∷ []
backlog_of-snoc idle queue lw = refl
backlog_of-snoc (fetched lw') queue lw = refl
backlog_of-snoc (posting lw' d) queue lw = refl

-- The invariant does not look at the queues.
pub IsSound-queue :
    {S : Type 0} (lc wq : ℕ) (heap₀ : Heap S) (k : Kernel (Block S)) (lws : List ℕ)
    (queue : ℕ → List ℕ)
    → IsSound lc wq heap₀ k lws
    → IsSound lc wq heap₀ (record k { queue = queue }) lws
IsSound-queue lc wq heap₀ k lws queue sound = record {
  c = sound.c;
  is_context = sound.is_context;
  unlocked = sound.unlocked;
  same_wq = sound.same_wq;
  plenty = sound.plenty;
  fresh = record { next_pos = sound.fresh.next_pos; free = sound.fresh.free };
  null = sound.null;
  requests = sound.requests;
  own = sound.own;
  new = sound.new;
  pending = sound.pending;
  waits = sound.waits;
  distinct = sound.distinct;
  rest = sound.rest;
}

pub In-tail : (p x : ℕ) (xs : List ℕ) → p ≢ x → In p (x ∷ xs) → In p xs
In-tail p x xs ne (inl e) = absurd (ne e)
In-tail p x xs ne (inr h) = h
