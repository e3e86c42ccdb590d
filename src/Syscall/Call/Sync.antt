-- ===== src/Syscall/Call/Sync.antt =====
-- The synchronous form of `sys_lua` of lib/lunatik/lunatik_syscall.c, from the call over the worker's run
-- to its return.
use lunatik_ng.Base.{
  ℕ, ◌+◌, ◌-◌, ◌^◌, ◌≤◌, ◌<◌, ◌≡◌, inr, refl, true, false, Bool, some, none, List, [], pos, arith,
  length, sym, ap, ◌∙◌,
}
use mathlib.Core.Path.{subst}
use lunatik_ng.Kernel.{Kernel, M, pure, ◌>>=◌, ◌>>◌, IsFresh, Returns, Returns-bind, Returns-mono}
use lunatik_ng.Runtime.{Value, nil, userdata, Block, Context, LoadData, context, bytes}
use lunatik_ng.Runtime.Bindings.{Registry}
use lunatik_ng.Runtime.Bindings.Load.{IsContext, IsContext-context, wq_of}
use lunatik_ng.Runtime.Result.Ownership.{NameFits}
use lunatik_ng.Runtime.Loadcode.{Env, run_worker, new_load_data}
use lunatik_ng.Runtime.Loadcode.Submit.{loadcode_sync_submit}
use lunatik_ng.Runtime.Loadcode.Submit.Ready.{Ready, submit_lem, submitted, new_work}
use lunatik_ng.Runtime.Loadcode.Wanted.{Answered, run_worker-Answered}
use lunatik_ng.Syscall.Memory.{User}
use lunatik_ng.Syscall.Call.{
  Call, finished, waiting, synchronous, mode, sys_lua, call_by_mode, call_sync, sys_lua_resume,
}
use lunatik_ng.Syscall.Call.Async.{Clean}
use lunatik_ng.Syscall.Call.Prepare.{sys_lua-Returns}
use lunatik_ng.Syscall.Call.Steps.{Refused, Prepared}
use lunatik_ng.Syscall.Call.Resume.{sys_lua_resume-Ended}

NameFits-small : (g : ℕ) (v : Value) → g ≤ 1 → NameFits g v
NameFits-small g (userdata bs none) h = h
NameFits-small g (userdata bs (some name)) h = tt
NameFits-small g nil h = tt
NameFits-small g v h = tt

module _ {S : Type 0} (env : Env S) (cleanup : ℕ) where
  -- A call that waits goes on when the worker has run.
  go_on : (wq r_type r_data r_size : ℕ) → User → Call → M (Block S) (Call × User)
  go_on wq r_type r_data r_size u (finished ret) = pure (finished ret, u)
  go_on wq r_type r_data r_size u (waiting lc code_kern d lw) = do
    run_worker env wq
    sys_lua_resume lc code_kern d lw r_type r_data r_size false u

  unfoldable pub sync_run :
      (reg : Registry S) (opens : Bool) (wq code size r_type r_data r_size : ℕ)
      → User
      → M (Block S) (Call × User)
  unfolding go_on
  sync_run reg opens wq code size r_type r_data r_size u = do
    call ← sys_lua env.engine reg cleanup opens wq code size r_type r_data r_size u
    go_on wq r_type r_data r_size u call

  refused_run :
      (wq r_type r_data r_size : ℕ) (u : User) (k : Kernel (Block S)) (call : Call)
      (k' : Kernel (Block S))
      → Refused k call k'
      → Returns (go_on wq r_type r_data r_size u call k') (λ o. Clean k o.0)
  unfolding go_on
  refused_run wq r_type r_data r_size u k call k' refused =
      let (ret, is_ret, _) = refused.status in
      rw is_ret
        (record { status = (ret, refl); others = refused.others; workqueues = refused.workqueues })

  -- The request of a call that has all prepared is submitted, served and answered.
  module _ (reg : Registry S) (wq size : ℕ) (k : Kernel (Block S)) (lc : ℕ) (k' : Kernel (Block S))
      (fresh : IsFresh k) (all : k.oracle ≡ []) (idle : k.queue wq ≡ [])
      (room : k.next + 3 + length reg < 2 ^ 64 - 4095) (positive : 0 < size) (small : size < 2 ^ 64)
      (garbage : env.garbage ≤ 1) (prepared : Prepared wq (length reg) size k lc k') (c : Context S)
      (is_context : k'.heap lc ≡ some (context c)) (unlocked : c.locked ≡ false) (bs : List ℕ)
      (is_code : k'.heap k.next ≡ some (bytes bs)) (len : length bs ≡ size) where
    abbrev ld : LoadData
    ld = record (new_load_data k.next size) { need_result = true }

    same_wq : c.wq ≡ wq
    same_wq = sym (ap wq_of is_context) ∙ prepared.workqueue

    ready : Ready env k' lc k.next size c bs
    ready = record {
      fresh = prepared.fresh;
      room = omega (arith, prepared.next_le);
      is_context = is_context;
      unlocked = unlocked;
      idle = ap k'.queue same_wq ∙ prepared.queue wq ∙ idle;
      is_code = is_code;
      positive = positive;
      fits = omega arith;
      small = small;
    }

    abbrev asked : Kernel (Block S)
    asked = submitted env k' lc c ld

    asked_lem :
        loadcode_sync_submit lc k.next size true k' ≡ some ((pos 0, k'.next, k'.next + 1), asked)
    unfolding loadcode_sync_submit
    asked_lem = submit_lem env k' lc c ld bs ready (prepared.plenty all)

    d_free : k'.heap k'.next ≡ none
    d_free = prepared.fresh.free k'.next (omega arith)

    lw_free : k'.heap (k'.next + 1) ≡ none
    lw_free = prepared.fresh.free (k'.next + 1) (omega arith)

    asked-IsFresh : IsFresh asked
    asked-IsFresh = record {
      next_pos = omega arith;
      free = λ p h. ground (arith, prepared.fresh.free p);
    }

    served : Returns (run_worker env wq asked) (λ _. Answered lc k'.next ld asked)
    served =
        let q = ready.idle in
        run_worker-Answered env asked lc k'.next (k'.next + 1) wq c ld bs asked-IsFresh
          (prepared.plenty all) (ground (arith, same_wq)) (ground (arith, d_free, lw_free)) unlocked
          (ground arith) (ground (arith, d_free, lw_free)) positive (omega arith) small refl refl
          refl refl (ground (arith, same_wq)) (NameFits-small env.garbage _ garbage)

    answered :
        (r_type r_data r_size : ℕ) (u : User) (k₂ : Kernel (Block S))
        → Answered lc k'.next ld asked k₂
        → Returns
            (sys_lua_resume lc k.next k'.next (k'.next + 1) r_type r_data r_size false u k₂)
            (λ o. Clean k o.0)
    answered r_type r_data r_size u k₂ answer =
        let (c', here, free') = answer.free_context in
        let pos = fresh.next_pos in
        let lt = prepared.apart in
        let lt' = prepared.below in
        Returns-mono
          (sys_lua_resume lc k.next k'.next (k'.next + 1) r_type r_data r_size false u k₂)
          (sys_lua_resume-Ended k₂ lc k.next k'.next (k'.next + 1) asked.next
            (record ld { result = asked.next; ret = answer.ret; complete = 1 })
            (new_work env k' lc c ld) (bytes bs) answer.answer
            (answer.others (k'.next + 1) (omega arith) (λ e. omega arith) (λ e. omega arith)
              ∙ ground arith)
            refl refl answer.result (subst IsContext (sym here) free') prepared.valid
            (answer.others k.next (omega arith) (λ e. omega arith) (λ e. omega arith)
              ∙ ground (arith, d_free, lw_free))
            pos lt lt' (omega arith) (omega arith) r_type r_data r_size u)
          λ o k₃ ended. record {
            status = ended.status;
            others = λ p. ground (
              arith,
              ended.freed,
              ended.gone p,
              ended.others p,
              answer.others p,
              prepared.others p,
              fresh.free p,
              fresh.free lc,
            );
            workqueues = inr (ended.workqueues ∙ answer.workqueues ∙ prepared.workqueues);
          }

    asked_run :
        (r_type r_data r_size : ℕ) (u : User)
        → Returns
            (call_by_mode synchronous cleanup lc k.next size k')
            (λ call k₁. Returns (go_on wq r_type r_data r_size u call k₁) (λ o. Clean k o.0))
    unfolding call_by_mode call_sync go_on
    asked_run r_type r_data r_size u =
        rw (asked_lem, Returns)
          (Returns-bind (run_worker env wq asked) _ _ served
            λ _ k₂ answer. answered r_type r_data r_size u k₂ answer)

  -- A synchronous `sys_lua`, with a run of the worker during its wait, has left nothing on the heap but list
  -- nodes of active bindings when it returns: it returns without a fault, with an error or not, and
  -- the context, the code, the request and the result are freed, whatever the value of the code is.
  -- At most one workqueue is left as well: that of the context, which nothing destroys.
  -- No signal ends the wait, the size is not 0, all allocations succeed, the workqueue is idle, a Lua
  -- state that opens gets a workqueue, the size of a type's name that is not set is at most 1, no
  -- address from `next` on is allocated and `next` lies below the error pointers by three more than
  -- there are bindings.
  pub sync_run_frees :
      (reg : Registry S) (opens : Bool) (wq code size r_type r_data r_size : ℕ) (u : User)
      (k : Kernel (Block S))
      → mode r_type r_data r_size ≡ synchronous
      → (opens ≡ true → 0 < wq)
      → IsFresh k
      → k.oracle ≡ []
      → k.queue wq ≡ []
      → k.next + 3 + length reg < 2 ^ 64 - 4095
      → 0 < size
      → size < 2 ^ 64
      → env.garbage ≤ 1
      → Returns (sync_run reg opens wq code size r_type r_data r_size u k) (λ o. Clean k o.0)
  unfolding sync_run
  sync_run_frees reg opens wq code size r_type r_data r_size u k with_result has_queue fresh all
        idle room positive small garbage =
      Returns-bind (sys_lua env.engine reg cleanup opens wq code size r_type r_data r_size u k) _ _
        (sys_lua-Returns env.engine reg cleanup opens wq has_queue code size r_type r_data r_size u
          k (λ call k'. Returns (go_on wq r_type r_data r_size u call k') (λ o. Clean k o.0)) fresh
          (omega arith) (λ call k' refused. refused_run wq r_type r_data r_size u k call k' refused)
          (λ lc k' ready.
            let (c, is_context, unlocked) = IsContext-context (k'.heap lc) ready.context in
            let (bs, is_code, len) = ready.code in
            rw with_result (
              asked_run reg wq size k lc k' fresh all idle room positive small garbage ready c
                is_context unlocked bs is_code len r_type r_data r_size u)))
        (λ call k' h. h)
