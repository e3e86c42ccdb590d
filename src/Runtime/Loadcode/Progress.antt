-- ===== src/Runtime/Loadcode/Progress.antt =====
-- Several callers of `lunatik_loadcode_sync` of lib/lunatik/lunatik.c on one context, and its worker,
-- which runs their works one after the other.
use lunatik_ng.Base.{ℕ, ◌≡◌, false, some, List, ◌∷◌, arith}
use lunatik_ng.Kernel.{Kernel, update, take_work}
use lunatik_ng.Runtime.{Context, Block, context}
use lunatik_ng.Runtime.Loadcode.{Env, run_worker, handler_notify}
use lunatik_ng.Runtime.Loadcode.Turn.{
  Waiting, posted, posted_lem, posted_answer, posted_same, handler_notify_lem,
}

module _ {S : Type 0} (env : Env S) (lc : ℕ) (k : Kernel (Block S)) (c : Context S) (lw : ℕ)
    (rest : List ℕ) (here : k.heap lc ≡ some (context c)) (unlocked : c.locked ≡ false)
    (pending : k.queue c.wq ≡ lw ∷ rest) (now : Waiting lc k.heap lw) where
  abbrev pub taken : Kernel (Block S)
  taken = record k { queue = update k.queue c.wq rest }

  -- The kernel when the worker has run the work.
  abbrev pub served : Kernel (Block S)
  served = posted env lc taken c lw here unlocked now

  notified : handler_notify env lw now.w.work_data served ≡ some (tt, served)
  notified =
      handler_notify_lem env lw now.w.work_data served _
        (posted_answer env lc taken c lw here unlocked now) now.is_request.no_callback
        now.is_request.no_callback_nores now.is_request.kept

  taken_lem : take_work c.wq k ≡ some (some lw, taken)
  unfolding take_work
  taken_lem = ground arith

  pub run_worker_lem : run_worker env c.wq k ≡ some (tt, served)
  unfolding run_worker
  run_worker_lem =
      let q = now.queued in
      let h = now.runs_code in
      ground (arith, taken_lem, posted_lem env lc taken c lw here unlocked now, notified)

  pub served_queue : served.queue c.wq ≡ rest
  served_queue = let (_, _, e) = posted_same env lc taken c lw here unlocked now in ground arith
