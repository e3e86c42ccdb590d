-- ===== src/Runtime/Loadcode/Interleaving/Drained.antt =====
-- The worker serves all callers of `lunatik_loadcode_sync` of lib/lunatik/lunatik.c, in whatever state
-- they and the worker are.
use lunatik_ng.Base.{ℕ, ◌≡◌, ◌≢◌, refl, ap, ◌∙◌, false, some, List, [], ◌∷◌, arith}
use mathlib.Core.Path.{subst}
use lunatik_ng.Kernel.{Returns, Returns_elim}
use lunatik_ng.Runtime.{Work, work}
use lunatik_ng.Runtime.Loadcode.{Env, handler_execute, handler_notify}
use lunatik_ng.Runtime.Loadcode.Submit.{blocked, loadcode_sync_wait}
use lunatik_ng.Runtime.Loadcode.Turn.{Heap}
use lunatik_ng.Runtime.Loadcode.Interleaving.{
  Worker, idle, fetched, posting, World, Step, take, execute, notify, Reach, here, next,
}
use lunatik_ng.Runtime.Loadcode.Interleaving.Invariant.{backlog, backlog_of, IsHeld}
use lunatik_ng.Runtime.Loadcode.Interleaving.Runs.{handler_execute-Ran, handler_notify-same}
use lunatik_ng.Runtime.Loadcode.Interleaving.Resumes.{drained_lem}
use lunatik_ng.Runtime.Loadcode.Interleaving.Keeps.{IsStart, Holds, Step-Holds, left, take_some}
use lunatik_ng.Runtime.Loadcode.Interleaving.Safe.{Reach-Holds, Holds-IsSound}

module _ {S : Type 0} (env : Env S) (lc wq : ℕ) where
  Reach-trans : {s t u : World S} → Reach env lc wq s t → Reach env lc wq t u → Reach env lc wq s u
  Reach-trans r here = r
  Reach-trans r (next q step) = next (Reach-trans r q) step

  -- The worker gets to a state in which it waits for a work, with this queue. No work is lost on the way.
  record Settled (s : World S) (queue : List ℕ) : Type 0 where
    t : World S
    reach : Reach env lc wq s t
    waits : t.worker ≡ idle
    queued : t.kernel.queue wq ≡ queue
    works : (p : ℕ) (w : Work) → s.kernel.heap p ≡ some (work w) → t.kernel.heap p ≡ some (work w)

  module _ (heap₀ : Heap S) where
    settle_posting :
        (s : World S) (lw d : ℕ)
        → Holds lc wq heap₀ s
        → s.worker ≡ posting lw d
        → Settled s (s.kernel.queue wq)
    settle_posting s lw d h at =
        let (_, k, e, same) = Returns_elim (handler_notify env lw d s.kernel) (
          handler_notify-same env lc wq heap₀ s.kernel (backlog wq s) h.sound lw d
            (subst (IsHeld s.kernel.heap) at h.held)) in
        record {
          t = record { kernel = k; worker = idle };
          reach = next here (notify s lw d k at e);
          waits = refl;
          queued = ap (λ x. x.queue wq) same;
          works = λ p w there. ap (λ x. x.heap p) same ∙ there;
        }

    settle_fetched :
        (s : World S) (lw : ℕ)
        → Holds lc wq heap₀ s
        → s.worker ≡ fetched lw
        → Settled s (s.kernel.queue wq)
    settle_fetched s lw h at =
        let sound = Holds-IsSound env lc wq heap₀ s h (fetched lw) at in
        let w = sound.pending.0.w in
        let there = sound.pending.0.queued in
        let r = sound.requests lw w there in
        let q = r.queued in
        let c = r.runs_code in
        let (_, k, e, ran) =
          Returns_elim (handler_execute env lw s.kernel)
            (handler_execute-Ran env lc wq heap₀ s.kernel lw (s.kernel.queue wq) sound w there) in
        let step : Step env lc wq s (record { kernel = k; worker = posting lw w.work_data }) =
          execute s lw w k at there (ground arith) e in
        let rest =
          settle_posting (record { kernel = k; worker = posting lw w.work_data }) lw w.work_data
            (Step-Holds env lc wq heap₀ step h) refl in
        record {
          t = rest.t;
          reach = Reach-trans (next here step) rest.reach;
          waits = rest.waits;
          queued = rest.queued ∙ ap (λ f. f wq) ran.queue;
          works = λ p v e'. rest.works p v (ran.works p v e');
        }

    settle :
        (worker : Worker) (s : World S)
        → Holds lc wq heap₀ s
        → s.worker ≡ worker
        → Settled s (s.kernel.queue wq)
    settle idle s h at = record {
      t = s;
      reach = here;
      waits = at;
      queued = refl;
      works = λ p w e. e;
    }
    settle (fetched lw) s h at = settle_fetched s lw h at
    settle (posting lw d) s h at = settle_posting s lw d h at

    Reach-keeps : {s t : World S} → Holds lc wq heap₀ s → Reach env lc wq s t → Holds lc wq heap₀ t
    Reach-keeps h here = h
    Reach-keeps h (next r step) = Step-Holds env lc wq heap₀ step (Reach-keeps h r)

    -- The queue is served from its head.
    drain :
        (queue : List ℕ) (s : World S)
        → Holds lc wq heap₀ s
        → s.worker ≡ idle
        → s.kernel.queue wq ≡ queue
        → Settled s []
    drain [] s h at empty = record {
      t = s;
      reach = here;
      waits = at;
      queued = empty;
      works = λ p w e. e;
    }
    drain (lw ∷ rest) s h at pending =
        let k = left wq s.kernel rest in
        let s₁ : World S = record { kernel = k; worker = fetched lw } in
        let step : Step env lc wq s s₁ = take s lw k at (take_some wq s.kernel lw rest pending) in
        let first = settle_fetched s₁ lw (Step-Holds env lc wq heap₀ step h) refl in
        let reached = Reach-trans (next here step) first.reach in
        let queue : k.queue wq ≡ rest = ground arith in
        let later = drain rest first.t (Reach-keeps h reached) first.waits (first.queued ∙ queue) in
        record {
          t = later.t;
          reach = Reach-trans reached later.reach;
          waits = later.waits;
          queued = later.queued;
          works = λ p w e. later.works p w (first.works p w e);
        }

  -- In whatever order the steps of the callers and the worker came, the worker can go on to a state in
  -- which no wait of `lunatik_loadcode_sync` blocks: the works of all callers that have not
  -- returned are still there, and each of them goes on. The conditions on the start and on the steps are those of `IsStart` and
  -- of `Reach`.
  pub Reach-released :
      {s t : World S}
      → IsStart lc wq s
      → Reach env lc wq s t
      → (u : World S) × Reach env lc wq t u
        × ((lw : ℕ) (w : Work)
            → t.kernel.heap lw ≡ some (work w)
            → (u.kernel.heap lw ≡ some (work w))
              × Returns
                  (loadcode_sync_wait w.work_data lw false false u.kernel)
                  (λ out _. out ≢ blocked))
  Reach-released {s} {t} start r =
      let heap₀ = s.kernel.heap in
      let h = Reach-Holds env lc wq start r in
      let now = settle heap₀ t.worker t h refl in
      let then' =
        drain heap₀ (now.t.kernel.queue wq) now.t (Reach-keeps heap₀ h now.reach) now.waits refl in
      let reached = Reach-trans now.reach then'.reach in
      let u = then'.t in
      let h' = Reach-keeps heap₀ h reached in
      let none_left = ap (λ x. backlog_of x (u.kernel.queue wq)) then'.waits ∙ then'.queued in
      (
        u,
        reached,
        λ lw w e.
            let there = then'.works lw w (now.works lw w e) in
            (there, drained_lem lc wq heap₀ u.kernel (backlog wq u) h'.sound lw w there none_left),
      )
