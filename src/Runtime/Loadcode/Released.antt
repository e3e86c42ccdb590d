-- ===== src/Runtime/Loadcode/Released.antt =====
-- Every caller that waits in `lunatik_loadcode_sync` of lib/lunatik/lunatik.c is released.
use lunatik_ng.Base.{
  ℕ, zero, suc, ◌≡◌, ◌≢◌, refl, sym, ap, ◌∙◌, false, some, List, [], ◌∷◌, arith, length, All,
}
use mathlib.Core.Path.{subst}
use lunatik_ng.Kernel.{Kernel, M, pure, ◌>>◌, Returns, Returns_intro, Returns-bind, Returns-mono}
use lunatik_ng.Runtime.{Context, Work, Block, context, work}
use lunatik_ng.Runtime.Loadcode.{Env, run_worker}
use lunatik_ng.Runtime.Loadcode.Turn.{
  Heap, Waiting, Raised, Evolves, Evolves-Waiting, Evolves-Raised, posted_context, posted-Raised,
  posted-Evolves,
}
use lunatik_ng.Runtime.Loadcode.Progress.{taken, served, run_worker_lem, served_queue}
use lunatik_ng.Runtime.Loadcode.Submit.{blocked, loadcode_sync_wait}

module _ {S : Type 0} where
  -- So many runs of the worker.
  unfoldable pub run_workers : Env S → (wq n : ℕ) → M (Block S) (Unit {0})
  run_workers env wq zero = pure tt
  run_workers env wq (suc n) = run_worker env wq >> run_workers env wq n

  -- The wait of the caller whose work is at `lw` ends when it goes on.
  pub record WaitEnds (k : Kernel (Block S)) (lw : ℕ) : Type 0 where
    pub w : Work
    pub queued : k.heap lw ≡ some (work w)
    pub ends : Returns (loadcode_sync_wait w.work_data lw false false k) (λ out _. out ≢ blocked)

  Raised-WaitEnds : (k : Kernel (Block S)) (lw : ℕ) → Raised k.heap lw → WaitEnds k lw
  unfolding loadcode_sync_wait
  Raised-WaitEnds k lw raised =
      let q = raised.queued in
      let r = raised.request in
      let p = raised.complete in
      record {
        w = raised.w;
        queued = raised.queued;
        ends =
            Returns_intro (loadcode_sync_wait raised.w.work_data lw false false k)
              {P = λ out _. out ≢ blocked} (λ e. ground arith) (λ out k' e z. ground arith);
      }

  Evolves-refl : (heap : Heap S) → Evolves heap heap
  Evolves-refl heap = record {
    works = λ p w e. e;
    codes = λ p bs e. e;
    requests = λ p ld e. (ld.ret, ld.complete, e, omega arith);
  }

  Evolves-trans : (a b c : Heap S) → Evolves a b → Evolves b c → Evolves a c
  Evolves-trans a b c first second = record {
    works = λ p w e. second.works p w (first.works p w e);
    codes = λ p bs e. second.codes p bs (first.codes p bs e);
    requests = λ p ld e.
        let (ret, complete, e', le) = first.requests p ld e in
        let (ret', complete', e'', le') = second.requests p _ e' in
        (ret', complete', e'', omega (arith, le, le'));
  }

  All-Waiting :
      (lc : ℕ) (heap heap' : Heap S) (lws : List ℕ)
      → Evolves heap heap'
      → All (Waiting lc heap) lws
      → All (Waiting lc heap') lws
  All-Waiting lc heap heap' [] step now = tt
  All-Waiting lc heap heap' (lw ∷ lws) step (first, rest) =
      (Evolves-Waiting lc heap heap' lw step first, All-Waiting lc heap heap' lws step rest)

  All-WaitEnds :
      (k : Kernel (Block S)) (lws : List ℕ) → All (Raised k.heap) lws → All (WaitEnds k) lws
  All-WaitEnds k [] raised = tt
  All-WaitEnds k (lw ∷ lws) (first, rest) = (Raised-WaitEnds k lw first, All-WaitEnds k lws rest)

module _ {S : Type 0} (env : Env S) (lc : ℕ) where
  -- All of the works have run.
  record Served (wq : ℕ) (lws : List ℕ) (k k' : Kernel (Block S)) : Type 0 where
    idle : k'.queue wq ≡ []
    raised : All (Raised k'.heap) lws
    evolves : Evolves k.heap k'.heap

  run_workers-Served :
      (lws : List ℕ) (k : Kernel (Block S)) (c : Context S)
      → k.heap lc ≡ some (context c)
      → c.locked ≡ false
      → k.queue c.wq ≡ lws
      → All (Waiting lc k.heap) lws
      → Returns (run_workers env c.wq (length lws) k) (λ _. Served c.wq lws k)
  unfolding run_workers
  run_workers-Served [] k c here unlocked pending waiting = record {
    idle = pending;
    raised = tt;
    evolves = Evolves-refl k.heap;
  }
  run_workers-Served (lw ∷ rest) k c here unlocked pending (now, later) =
      let fetch = taken env lc k c lw rest here unlocked pending now in
      let k₁ = served env lc k c lw rest here unlocked pending now in
      let step = posted-Evolves env lc fetch c lw here unlocked now in
      let (c', here', unlocked', same_wq) = posted_context env lc fetch c lw here unlocked now in
      Returns-bind (run_worker env c.wq k) _ _
        (subst (λ r. Returns r (λ _ k'. k' ≡ k₁))
          (sym (run_worker_lem env lc k c lw rest here unlocked pending now)) refl)
        λ _ k' e. rw e (
          Returns-mono (run_workers env c.wq (length rest) k₁)
            (subst (λ q. Returns (run_workers env q (length rest) k₁) (λ _. Served q rest k₁))
              same_wq
              (run_workers-Served rest k₁ c' here' unlocked'
                (ap k₁.queue same_wq ∙ served_queue env lc k c lw rest here unlocked pending now)
                (All-Waiting lc k.heap k₁.heap rest step later)))
            λ _ k₂ served. record {
              idle = served.idle;
              raised = (
                Evolves-Raised k₁.heap k₂.heap lw served.evolves
                    (posted-Raised env lc fetch c lw here unlocked now),
                served.raised,
              );
              evolves = Evolves-trans k.heap k₁.heap k₂.heap step served.evolves;
            })

  -- When the worker has run as often as there are works, no work is left and every caller that waits in
  -- `lunatik_loadcode_sync` goes on: nothing faults, and no wait blocks. The context is unlocked,
  -- and each work is a request without a result whose code is there; the works may come from any
  -- number of callers, and the engine may do anything with the codes.
  pub sync_callers-WaitEnds :
      (lws : List ℕ) (k : Kernel (Block S)) (c : Context S)
      → k.heap lc ≡ some (context c)
      → c.locked ≡ false
      → k.queue c.wq ≡ lws
      → All (Waiting lc k.heap) lws
      → Returns
          (run_workers env c.wq (length lws) k)
          (λ _ k'. (k'.queue c.wq ≡ []) × All (WaitEnds k') lws)
  sync_callers-WaitEnds lws k c here unlocked pending waiting =
      Returns-mono (run_workers env c.wq (length lws) k)
        (run_workers-Served lws k c here unlocked pending waiting)
        λ _ k' served. (served.idle, All-WaitEnds k' lws served.raised)
