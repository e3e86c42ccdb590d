-- ===== src/Runtime/Loadcode/Turn.antt =====
-- Requests of `lunatik_loadcode_sync` of lib/lunatik/lunatik.c that wait for the worker, and the run of
-- one of them.
use lunatik_ng.Base.{
  ℕ, ◌+◌, ◌-◌, ◌^◌, ◌≤◌, ◌<◌, ◌≡◌, ◌≢◌, refl, sym, false, Option, some, List, ℤ, arith, length,
  take, Bool-cases, inl, inr, ◌==◌,
}
use mathlib.Core.Path.{subst}
use lunatik_ng.Kernel.{Kernel, update}
use lunatik_ng.Runtime.{
  Context, LoadData, Work, Block, context, load_data, work, bytes, loadcode_handler, no_work,
}
use lunatik_ng.Runtime.Loadcode.{Env, run_code, handler_execute, handler_notify, loadcode_internal}
use lunatik_ng.Runtime.Loadcode.Execute.{loadcode_internal_lem, after, handler_execute_lem}

abbrev pub Heap : Type 0 → Type 0
Heap S = ℕ → Option (Block S)

-- A request as `lunatik_loadcode_sync` makes it where no result is wanted.
pub record IsRequest (ld : LoadData) : Type 0 where
  pub no_result : ld.need_result ≡ false
  pub no_callback : ld.callback ≡ 0
  pub no_callback_nores : ld.callback_nores ≡ 0
  pub kept : ld.callback_work ≡ no_work
  pub positive : 0 < ld.sz_code
  pub small : ld.sz_code < 2 ^ 64

module _ {S : Type 0} where
  -- The work at `lw` stands for such a request to the context at `lc`, and the code is there.
  pub record Waiting (lc : ℕ) (heap : Heap S) (lw : ℕ) : Type 0 where
    pub w : Work
    pub ld : LoadData
    pub bs : List ℕ
    pub queued : heap lw ≡ some (work w)
    pub to_context : w.lc ≡ lc
    pub runs_code : w.handler ≡ loadcode_handler
    pub request : heap w.work_data ≡ some (load_data ld)
    pub is_request : IsRequest ld
    pub code : heap ld.code ≡ some (bytes bs)
    pub fits : ld.sz_code ≤ length bs

  -- The semaphore of the request is raised: its caller does not wait any more.
  pub record Raised (heap : Heap S) (lw : ℕ) : Type 0 where
    pub w : Work
    pub ld : LoadData
    pub queued : heap lw ≡ some (work w)
    pub request : heap w.work_data ≡ some (load_data ld)
    pub complete : 0 < ld.complete

  -- What the worker leaves of a heap: the works and the codes as they are, and of a request all but its
  -- status and its semaphore, which is never lowered.
  pub record Evolves (heap heap' : Heap S) : Type 0 where
    pub works : (p : ℕ) (w : Work) → heap p ≡ some (work w) → heap' p ≡ some (work w)
    pub codes : (p : ℕ) (bs : List ℕ) → heap p ≡ some (bytes bs) → heap' p ≡ some (bytes bs)
    pub requests :
        (p : ℕ) (ld : LoadData)
        → heap p ≡ some (load_data ld)
        → (ret : ℤ) × (complete : ℕ) × (heap' p
            ≡ some (load_data (record ld { ret = ret; complete = complete })))
          × (ld.complete ≤ complete)

  pub Evolves-Waiting :
      (lc : ℕ) (heap heap' : Heap S) (lw : ℕ)
      → Evolves heap heap'
      → Waiting lc heap lw
      → Waiting lc heap' lw
  Evolves-Waiting lc heap heap' lw step now =
      let (ret, complete, request, _) = step.requests now.w.work_data now.ld now.request in
      record {
        w = now.w;
        ld = record now.ld { ret = ret; complete = complete };
        bs = now.bs;
        queued = step.works lw now.w now.queued;
        to_context = now.to_context;
        runs_code = now.runs_code;
        request = request;
        is_request = record {
          no_result = now.is_request.no_result;
          no_callback = now.is_request.no_callback;
          no_callback_nores = now.is_request.no_callback_nores;
          kept = now.is_request.kept;
          positive = now.is_request.positive;
          small = now.is_request.small;
        };
        code = step.codes now.ld.code now.bs now.code;
        fits = now.fits;
      }

  pub Evolves-Raised :
      (heap heap' : Heap S) (lw : ℕ) → Evolves heap heap' → Raised heap lw → Raised heap' lw
  Evolves-Raised heap heap' lw step now =
      let (ret, complete, request, grows) = step.requests now.w.work_data now.ld now.request in
      record {
        w = now.w;
        ld = record now.ld { ret = ret; complete = complete };
        queued = step.works lw now.w now.queued;
        request = request;
        complete = omega (arith, now.complete);
      }

module _ {S : Type 0} (env : Env S) (lc : ℕ) (k : Kernel (Block S)) (c : Context S) (lw : ℕ)
    (here : k.heap lc ≡ some (context c)) (unlocked : c.locked ≡ false)
    (now : Waiting lc k.heap lw) where
  abbrev is_request : IsRequest now.ld
  is_request = now.is_request

  -- The kernel when the code has run, and when the semaphore is raised.
  unfoldable pub run_here : Kernel (Block S)
  run_here =
      after env k lc now.w.work_data c now.ld now.bs here unlocked now.request now.code
        is_request.positive now.fits is_request.small

  abbrev status : ℤ
  status = (run_code env c.lua (take (now.ld.sz_code - 1) now.bs)).0

  abbrev answer : LoadData
  answer = record now.ld { ret = status; complete = now.ld.complete + 1 }

  abbrev pub posted : Kernel (Block S)
  posted = record run_here { heap = update run_here.heap now.w.work_data (some (load_data answer)) }

  executed : loadcode_internal env lc now.w.work_data k ≡ some (tt, run_here)
  unfolding run_here
  executed =
      loadcode_internal_lem env k lc now.w.work_data c now.ld now.bs here unlocked now.request
        now.code is_request.positive now.fits is_request.small is_request.no_result

  answer_there : run_here.heap now.w.work_data ≡ some (load_data (record now.ld { ret = status }))
  unfolding run_here
  answer_there = let r = now.request in ground (arith, here)

  pub posted_lem : handler_execute env lw k ≡ some (tt, posted)
  posted_lem =
      handler_execute_lem env lw k run_here now.w (record now.ld { ret = status }) now.queued
        (subst (λ q. loadcode_internal env q now.w.work_data k ≡ some (tt, run_here))
          (sym now.to_context) executed)
        answer_there

  pub posted-Evolves : Evolves k.heap posted.heap
  unfolding run_here
  posted-Evolves =
      let r = now.request in
      record {
        works = λ p w e. ground (arith, here, r);
        codes = λ p bs e. ground (arith, here, r);
        requests = λ p ld e. elim (Bool-cases (p == now.w.work_data)) [
          | inl same ↦ (status, ld.complete + 1, ground arith, omega arith)
          | inr other ↦ (ld.ret, ld.complete, ground (arith, here), omega arith)
        ];
      }

  pub posted_context :
      (c' : Context S) × (posted.heap lc ≡ some (context c')) × (c'.locked ≡ false) × (c'.wq ≡ c.wq)
  unfolding run_here
  posted_context =
      let r = now.request in
      (
        record c {
          locked = false;
          lua = env.engine.pop (run_code env c.lua (take (now.ld.sz_code - 1) now.bs)).1;
        },
        ground (arith, here),
        refl,
        refl,
      )

  pub posted-Raised : Raised posted.heap lw
  unfolding run_here
  posted-Raised =
      let r = now.request in
      let q = now.queued in
      record {
        w = now.w;
        ld = answer;
        queued = ground (arith, here);
        request = ground arith;
        complete = omega arith;
      }

  -- Other blocks stay.
  pub posted_elsewhere : (p : ℕ) → p ≢ lc → p ≢ now.w.work_data → posted.heap p ≡ k.heap p
  unfolding run_here
  posted_elsewhere p a b = ground arith

  pub posted_same : (posted.oracle ≡ k.oracle) × (posted.next ≡ k.next) × (posted.queue ≡ k.queue)
  unfolding run_here
  posted_same = (refl, refl, refl)

  pub posted_answer : posted.heap now.w.work_data ≡ some (load_data answer)
  unfolding run_here
  posted_answer = ground arith

-- Behind the semaphore the handler for a request without callbacks does nothing.
pub handler_notify_lem :
    {S : Type 0} (env : Env S) (lw d : ℕ) (k : Kernel (Block S)) (ld : LoadData)
    → k.heap d ≡ some (load_data ld)
    → ld.callback ≡ 0
    → ld.callback_nores ≡ 0
    → ld.callback_work ≡ no_work
    → handler_notify env lw d k ≡ some (tt, k)
unfolding handler_notify
handler_notify_lem env lw d k ld e none_given none_given_nores kept = ground arith
