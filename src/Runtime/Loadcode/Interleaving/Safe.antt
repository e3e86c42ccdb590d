-- ===== src/Runtime/Loadcode/Interleaving/Safe.antt =====
-- What holds in every state that the callers of `lunatik_loadcode_sync` of lib/lunatik/lunatik.c and
-- the worker can reach.
use lunatik_ng.Base.{ℕ, ◌-◌, ◌^◌, ◌<◌, ◌≡◌, ◌≢◌, false, none, some, arith}
use mathlib.Core.Path.{subst}
use lunatik_ng.Runtime.{Work, work, loadcode_handler}
use lunatik_ng.Runtime.Loadcode.{Env, handler_execute, handler_notify}
use lunatik_ng.Runtime.Loadcode.Submit.{loadcode_sync_submit, loadcode_sync_wait}
use lunatik_ng.Runtime.Loadcode.Turn.{Heap}
use lunatik_ng.Runtime.Loadcode.Interleaving.{
  Worker, fetched, posting, World, Code, Reach, here, next,
}
use lunatik_ng.Runtime.Loadcode.Interleaving.Invariant.{backlog, backlog_of, IsHeld, IsSound}
use lunatik_ng.Runtime.Loadcode.Interleaving.Calls.{loadcode_sync_submit-Called}
use lunatik_ng.Runtime.Loadcode.Interleaving.Runs.{handler_execute-Ran, handler_notify-same}
use lunatik_ng.Runtime.Loadcode.Interleaving.Resumes.{loadcode_sync_wait-Resumed}
use lunatik_ng.Runtime.Loadcode.Interleaving.Keeps.{
  IsStart, Holds, IsStart-Holds, Step-Holds, Returns-ne-none,
}

module _ {S : Type 0} (env : Env S) (lc wq : ℕ) where
  pub Reach-Holds :
      {s t : World S} → IsStart lc wq s → Reach env lc wq s t → Holds lc wq s.kernel.heap t
  Reach-Holds {s} start here = IsStart-Holds lc wq s start
  Reach-Holds {s} start (next r step) =
      Step-Holds env lc wq s.kernel.heap step (Reach-Holds start r)

  -- No step that can be made next is a fault: a call, the run of a work that was taken, the rest of its
  -- handler, or a caller that goes on. The work that was taken is there.
  pub record IsSafe (s : World S) : Type 0 where
    pub calls :
        (code sz_code : ℕ)
        → s.kernel.next < 2 ^ 64 - 4095
        → Code s.kernel.heap code sz_code
        → loadcode_sync_submit lc code sz_code false s.kernel ≢ none
    pub runs :
        (lw : ℕ)
        → s.worker ≡ fetched lw
        → (w : Work) × (s.kernel.heap lw ≡ some (work w))
          × (w.handler ≡ loadcode_handler)
          × (handler_execute env lw s.kernel ≢ none)
    pub notifies : (lw d : ℕ) → s.worker ≡ posting lw d → handler_notify env lw d s.kernel ≢ none
    pub resumes :
        (lw : ℕ) (w : Work)
        → s.kernel.heap lw ≡ some (work w)
        → s.worker ≢ posting lw w.work_data
        → loadcode_sync_wait w.work_data lw false false s.kernel ≢ none

  module _ (heap₀ : Heap S) (s : World S) (h : Holds lc wq heap₀ s) where
    pub Holds-IsSound :
        (worker : Worker)
        → s.worker ≡ worker
        → IsSound lc wq heap₀ s.kernel (backlog_of worker (s.kernel.queue wq))
    Holds-IsSound worker e =
        subst (λ x. IsSound lc wq heap₀ s.kernel (backlog_of x (s.kernel.queue wq))) e h.sound

    runs_lem :
        (lw : ℕ)
        → s.worker ≡ fetched lw
        → (w : Work) × (s.kernel.heap lw ≡ some (work w))
          × (w.handler ≡ loadcode_handler)
          × (handler_execute env lw s.kernel ≢ none)
    runs_lem lw at =
        let sound = Holds-IsSound (fetched lw) at in
        let w = sound.pending.0.w in
        let there = sound.pending.0.queued in
        let r = sound.requests lw w there in
        let q = r.queued in
        let c = r.runs_code in
        (
          w,
          there,
          ground arith,
          Returns-ne-none (handler_execute env lw s.kernel) _
              (handler_execute-Ran env lc wq heap₀ s.kernel lw (s.kernel.queue wq) sound w there),
        )

    Holds-IsSafe : IsSafe s
    Holds-IsSafe = record {
      calls = λ code sz_code room given.
          Returns-ne-none (loadcode_sync_submit lc code sz_code false s.kernel) _ (
            loadcode_sync_submit-Called env lc wq heap₀ s.kernel (backlog wq s) h.sound code sz_code
              room given);
      runs = runs_lem;
      notifies = λ lw d at. Returns-ne-none (handler_notify env lw d s.kernel) _ (
          handler_notify-same env lc wq heap₀ s.kernel (backlog wq s) h.sound lw d
            (subst (IsHeld s.kernel.heap) at h.held));
      resumes = λ lw w there ne.
          Returns-ne-none (loadcode_sync_wait w.work_data lw false false s.kernel) _
            (loadcode_sync_wait-Resumed lc wq heap₀ s.kernel (backlog wq s) h.sound lw w there);
    }

  -- From a start with a context that is free to use and no works, any number of calls of
  -- `lunatik_loadcode_sync` without a result, the steps of the worker, and callers that go on
  -- come in any order: no next step is a fault. The allocations succeed, no signal ends a
  -- wait, and no caller goes on in the middle of the handler for its own work.
  pub Reach-IsSafe : {s t : World S} → IsStart lc wq s → Reach env lc wq s t → IsSafe t
  Reach-IsSafe {s} {t} start r = Holds-IsSafe s.kernel.heap t (Reach-Holds start r)

  -- When all callers have returned, in whatever order the steps of the callers and the worker came, so
  -- that no work is left, the heap outside the context is as it was at the start. The
  -- conditions on the start and on the steps are those of the relation `Reach` and of
  -- `IsStart`.
  pub Reach-returned :
      {s t : World S} (p : ℕ)
      → IsStart lc wq s
      → Reach env lc wq s t
      → ((q : ℕ) (w : Work) → t.kernel.heap q ≢ some (work w))
      → p ≢ lc
      → t.kernel.heap p ≡ s.kernel.heap p
  Reach-returned p start r returned ne =
      (Reach-Holds start r).sound.rest p ne λ q w e. absurd (returned q w e)
