-- ===== src/Runtime/Loadcode/Interleaving/Keeps.antt =====
-- Each step of the callers of `lunatik_loadcode_sync` of lib/lunatik/lunatik.c and of the worker keeps
-- the invariant.
use lunatik_ng.Base.{
  ℕ, ◌≡◌, ◌≢◌, refl, sym, ap, ◌∙◌, false, Option, none, some, List, [], ◌∷◌, arith,
}
use mathlib.Core.Path.{subst}
use lunatik_ng.Kernel.{Kernel, IsFresh, Returns, take_work, update}
use lunatik_ng.Runtime.{Context, Work, Block, context, work}
use lunatik_ng.Runtime.Loadcode.{Env, handler_execute, handler_notify}
use lunatik_ng.Runtime.Loadcode.Submit.{loadcode_sync_submit, loadcode_sync_wait}
use lunatik_ng.Runtime.Loadcode.Turn.{Heap}
use lunatik_ng.Runtime.Loadcode.Interleaving.{
  Worker, idle, fetched, posting, World, Step, call, take, execute, notify, resume,
}
use lunatik_ng.Runtime.Loadcode.Interleaving.Invariant.{
  IsSound, IsHeld, backlog, backlog_of, backlog_of-snoc, IsSound-queue,
}
use lunatik_ng.Runtime.Loadcode.Interleaving.Calls.{loadcode_sync_submit-Called}
use lunatik_ng.Runtime.Loadcode.Interleaving.Runs.{handler_execute-Ran, handler_notify-same}
use lunatik_ng.Runtime.Loadcode.Interleaving.Resumes.{loadcode_sync_wait-Resumed}

module _ {S : Type 0} (lc wq : ℕ) where
  -- A context that is free to use, no work, and a worker that waits; allocations succeed.
  pub record IsStart (s : World S) : Type 0 where
    pub c : Context S
    pub is_context : s.kernel.heap lc ≡ some (context c)
    pub unlocked : c.locked ≡ false
    pub same_wq : c.wq ≡ wq
    pub plenty : s.kernel.oracle ≡ []
    pub fresh : IsFresh s.kernel
    pub null : s.kernel.heap 0 ≡ none
    pub no_works : (p : ℕ) (w : Work) → s.kernel.heap p ≢ some (work w)
    pub no_queue : s.kernel.queue wq ≡ []
    pub waits : s.worker ≡ idle

  pub record Holds (heap₀ : Heap S) (s : World S) : Type 0 where
    pub sound : IsSound lc wq heap₀ s.kernel (backlog wq s)
    pub held : IsHeld s.kernel.heap s.worker

  pub IsStart-Holds : (s : World S) → IsStart s → Holds s.kernel.heap s
  IsStart-Holds s start =
      let none_left : backlog wq s ≡ [] =
        ap (λ w. backlog_of w (s.kernel.queue wq)) start.waits ∙ start.no_queue in
      record {
        sound = subst (IsSound lc wq s.kernel.heap s.kernel) (sym none_left) (record {
          c = start.c;
          is_context = start.is_context;
          unlocked = start.unlocked;
          same_wq = start.same_wq;
          plenty = start.plenty;
          fresh = record { next_pos = start.fresh.next_pos; free = start.fresh.free };
          null = start.null;
          requests = λ p w e. absurd (start.no_works p w e);
          own = λ p q v w e e' d. absurd (start.no_works p v e);
          new = λ p w e. absurd (start.no_works p w e);
          pending = tt;
          waits = λ p w ld e at down. absurd (start.no_works p w e);
          distinct = tt;
          rest = λ p ne unheld. refl;
        });
        held = subst (IsHeld s.kernel.heap) (sym start.waits) tt;
      }

-- The outcome of a command that is known.
pub outcome :
    {B A : Type 0} (r : Option (A × Kernel B)) (a : A) (k : Kernel B) (P : A → Kernel B → Type 0)
    → Returns r P
    → r ≡ some (a, k)
    → P a k
outcome r a k P h e = subst (λ r. Returns r P) e h

pub Returns-ne-none :
    {B A : Type 0} (r : Option (A × Kernel B)) (P : A → Kernel B → Type 0) → Returns r P → r ≢ none
Returns-ne-none none P h e = h
Returns-ne-none (some (a, k)) P h e = cc

module _ {S : Type 0} where
  IsHeld-keeps :
      (worker : Worker) (heap heap' : Heap S)
      → ((p : ℕ) (w : Work) → heap p ≡ some (work w) → heap' p ≡ some (work w))
      → IsHeld heap worker
      → IsHeld heap' worker
  IsHeld-keeps idle heap heap' keeps held = tt
  IsHeld-keeps (fetched lw) heap heap' keeps held = tt
  IsHeld-keeps (posting lw d) heap heap' keeps (w, there, at_d) = (w, keeps lw w there, at_d)

  -- The caller whose work the handler is at does not go on.
  IsHeld-spares :
      (worker : Worker) (heap heap' : Heap S) (lw : ℕ) (w : Work)
      → heap lw ≡ some (work w)
      → worker ≢ posting lw w.work_data
      → ((p : ℕ) (v : Work) → heap p ≡ some (work v) → p ≢ lw → heap' p ≡ some (work v))
      → IsHeld heap worker
      → IsHeld heap' worker
  IsHeld-spares idle heap heap' lw w at ne spares held = tt
  IsHeld-spares (fetched lw') heap heap' lw w at ne spares held = tt
  IsHeld-spares (posting lw' d) heap heap' lw w at ne spares (v, there, at_d) =
      (v, spares lw' v there (λ same. ne (ground arith)), at_d)

module _ {S : Type 0} (wq : ℕ) (k : Kernel (Block S)) where
  take_none : k.queue wq ≡ [] → take_work wq k ≡ some (none, k)
  unfolding take_work
  take_none e = ground arith

  abbrev pub left : List ℕ → Kernel (Block S)
  left ws = record k { queue = update k.queue wq ws }

  pub take_some :
      (w : ℕ) (ws : List ℕ) → k.queue wq ≡ w ∷ ws → take_work wq k ≡ some (some w, left ws)
  unfolding take_work
  take_some w ws e = ground arith

module _ {S : Type 0} (lc wq : ℕ) (heap₀ : Heap S) (k k' : Kernel (Block S)) (lw : ℕ) where
  -- The worker takes the oldest work of the queue: what waits to run is the same.
  taken-IsSound :
      (queue : List ℕ)
      → k.queue wq ≡ queue
      → IsSound lc wq heap₀ k (k.queue wq)
      → take_work wq k ≡ some (some lw, k')
      → IsSound lc wq heap₀ k' (lw ∷ k'.queue wq)
  taken-IsSound [] q sound e = absurd (cc (e, take_none wq k q))
  taken-IsSound (w ∷ ws) q sound e =
      let kernel : left wq k ws ≡ k' = cc (e, take_some wq k w ws q) in
      let first : w ∷ ws ≡ lw ∷ ws = cc (e, take_some wq k w ws q) in
      let rest : (left wq k ws).queue wq ≡ ws = ground arith in
      subst (λ x. IsSound lc wq heap₀ x (lw ∷ x.queue wq)) kernel
        (subst (IsSound lc wq heap₀ (left wq k ws)) (q ∙ first ∙ ap (λ r. lw ∷ r) (sym rest))
          (IsSound-queue lc wq heap₀ k (k.queue wq) (update k.queue wq ws) sound))

module _ {S : Type 0} (env : Env S) (lc wq : ℕ) (heap₀ : Heap S) where
  pub Step-Holds : {s t : World S} → Step env lc wq s t → Holds lc wq heap₀ s → Holds lc wq heap₀ t
  Step-Holds (call s code sz_code d lw ret k room given e) h =
      let after =
        outcome (loadcode_sync_submit lc code sz_code false s.kernel) (ret, d, lw) k _
          (loadcode_sync_submit-Called env lc wq heap₀ s.kernel (backlog wq s) h.sound code sz_code
            room given)
          e in
      record {
        sound =
            subst (IsSound lc wq heap₀ k)
              (sym (ap (backlog_of s.worker) after.queue ∙ backlog_of-snoc s.worker _ after.lw))
              after.sound';
        held = IsHeld-keeps s.worker s.kernel.heap k.heap (λ p w. after.keeps p (work w)) h.held;
      }
  Step-Holds (take s lw k waits e) h = record {
    sound =
        taken-IsSound lc wq heap₀ s.kernel k lw (s.kernel.queue wq) refl
          (subst (λ x. IsSound lc wq heap₀ s.kernel (backlog_of x (s.kernel.queue wq))) waits
            h.sound)
          e;
    held = tt;
  }
  Step-Holds (execute s lw w k at there runs e) h =
      let q : backlog wq s ≡ lw ∷ s.kernel.queue wq =
        ap (λ x. backlog_of x (s.kernel.queue wq)) at in
      let after =
        outcome (handler_execute env lw s.kernel) tt k _
          (handler_execute-Ran env lc wq heap₀ s.kernel lw (s.kernel.queue wq)
            (subst (IsSound lc wq heap₀ s.kernel) q h.sound) w there)
          e in
      record {
        sound = subst (IsSound lc wq heap₀ k) (sym (ap (λ f. f wq) after.queue)) after.sound';
        held = after.held;
      }
  Step-Holds (notify s lw d k at e) h =
      let same : k ≡ s.kernel =
        outcome (handler_notify env lw d s.kernel) tt k _
          (handler_notify-same env lc wq heap₀ s.kernel (backlog wq s) h.sound lw d
            (subst (IsHeld s.kernel.heap) at h.held))
          e in
      record {
        sound =
            subst (λ x. IsSound lc wq heap₀ x (x.queue wq)) (sym same)
              (subst (λ x. IsSound lc wq heap₀ s.kernel (backlog_of x (s.kernel.queue wq))) at
                h.sound);
        held = tt;
      }
  Step-Holds (resume s lw w out k there ne e) h =
      let after =
        outcome (loadcode_sync_wait w.work_data lw false false s.kernel) out k _
          (loadcode_sync_wait-Resumed lc wq heap₀ s.kernel (backlog wq s) h.sound lw w there) e in
      record {
        sound =
            subst (IsSound lc wq heap₀ k) (sym (ap (λ q. backlog_of s.worker (q wq)) after.queue))
              after.sound';
        held = IsHeld-spares s.worker s.kernel.heap k.heap lw w there ne after.spares h.held;
      }
