-- ===== src/Syscall/Call/Worker.antt =====
-- The worker's part of an asynchronous `sys_lua` of lib/lunatik/lunatik_syscall.c: it runs the code
-- and then `sys_lua_async_cleanup`.
use lunatik_ng.Base.{
  ℕ, ◌+◌, ◌-◌, ◌<◌, ◌≡◌, ◌≢◌, refl, false, none, some, List, [], ℤ, arith, sym, take,
}
use mathlib.Core.Path.{subst}
use lunatik_ng.Kernel.{
  Kernel, M, ◌>>=◌, Returns, Returns_intro, Returns_elim, is_err, kfree, update,
}
use lunatik_ng.Runtime.{
  Block, Context, bytes, async_info, load_async_info, LoadData, async_work_cleanup, load_data, work,
}
use lunatik_ng.Runtime.Bindings.Load.{IsContext}
use lunatik_ng.Runtime.Lifetime.{lunatik_context_destroy}
use lunatik_ng.Runtime.Lifetime.Release.{lunatik_context_destroy-Destroyed}
use lunatik_ng.Runtime.Loadcode.{
  Env, run_worker, loadcode_internal, handler_execute, handler_notify, new_load_data, run_code,
}
use lunatik_ng.Runtime.Loadcode.Execute.{handler_execute_lem}
use lunatik_ng.Runtime.Loadcode.Submit.{lunatik_loadcode_async_nores}
use lunatik_ng.Runtime.Loadcode.Submit.Ready.{
  Ready, quiet, submit_lem, take_lem, executed, done, taken, new_work,
}
use lunatik_ng.Syscall.Call.{sys_lua_async_cleanup}

module _ {S : Type 0} where
  -- The context, the code and the block that names them are freed, and nothing else.
  record CleanedUp (arg lc code_kern : ℕ) (k k' : Kernel (Block S)) : Type 0 where
    freed : (k'.heap arg ≡ none) × (k'.heap lc ≡ none) × (k'.heap code_kern ≡ none)
    others : (p : ℕ) → p ≢ arg → p ≢ lc → p ≢ code_kern → k'.heap p ≡ k.heap p
    workqueues : k'.workqueues ≡ k.workqueues

  -- Everything that a request had is free, and the rest of the heap is as it was.
  pub record Served (info lc code : ℕ) (k k' : Kernel (Block S)) : Type 0 where
    pub freed : (k'.heap info ≡ none) × (k'.heap lc ≡ none) × (k'.heap code ≡ none)
    pub others : (p : ℕ) → p ≢ info → p ≢ lc → p ≢ code → k'.heap p ≡ k.heap p
    pub workqueues : k'.workqueues ≡ k.workqueues

  module _ (arg lc code_kern : ℕ) (b : Block S) (k : Kernel (Block S))
      (info : k.heap arg ≡ some (async_info lc code_kern)) (ctx : IsContext (k.heap lc))
      (code : k.heap code_kern ≡ some b) (valid : is_err lc ≡ false) (p1 : 0 < code_kern)
      (p2 : code_kern < lc) (p3 : lc < arg) where
    cleanup_lem :
        (ret : ℤ)
        → Returns (sys_lua_async_cleanup arg ret k) (λ _ k'. CleanedUp arg lc code_kern k k')
    unfolding sys_lua_async_cleanup load_async_info kfree
    cleanup_lem ret =
        let (_, k₁, e, gone) =
          Returns_elim (lunatik_context_destroy lc k)
            (lunatik_context_destroy-Destroyed lc k (omega arith) valid ctx) in
        Returns_intro (sys_lua_async_cleanup arg ret k)
          {P = λ _ k'. CleanedUp arg lc code_kern k k'}
          (λ z. ground (arith, e, gone.others code_kern, gone.others arg))
          λ _ k' r. record {
            freed = ground (arith, e, gone.others code_kern, gone.others arg, gone.freed);
            others = λ p n1 n2 n3.
                ground (arith, e, gone.others code_kern, gone.others arg, gone.others p);
            workqueues = ground (arith, e, gone.others code_kern, gone.others arg, gone.workqueues);
          }

module _ {S : Type 0} (env : Env S) (cleanup : ℕ) where
  -- The callback at the address `cleanup` is `sys_lua_async_cleanup`.
  abbrev pub sys_env : Env S
  sys_env = record env { run_callback_nores = λ fn arg ret. sys_lua_async_cleanup arg ret }

  -- The request stands ready in `k`, with `info` behind the context.
  module _ (k : Kernel (Block S)) (lc code size info : ℕ) (c : Context S) (bs : List ℕ)
      (ready : Ready sys_env k lc code size c bs) (all : k.oracle ≡ [])
      (named : k.heap info ≡ some (async_info lc code)) (valid : is_err lc ≡ false)
      (is_function : 0 < cleanup) (p1 : 0 < code) (p2 : code < lc) (p3 : lc < info) where
    abbrev ld : LoadData
    ld = record (new_load_data code size) {
      need_result = false;
      callback_arg = info;
      callback_nores = cleanup;
      callback_work = async_work_cleanup;
    }

    abbrev status : ℤ
    status = (run_code (quiet sys_env) c.lua (take (size - 1) bs)).0

    abbrev ran : Kernel (Block S)
    ran = done sys_env k lc c ld bs ready all

    abbrev answer : LoadData
    answer = record ld { ret = status; complete = 1 }

    -- The kernel when the semaphore is raised.
    abbrev posted : Kernel (Block S)
    posted = record ran { heap = update ran.heap k.next (some (load_data answer)) }

    info_lt : info < k.next
    info_lt = ground (arith, ready.fresh.free info)

    posted_info : posted.heap info ≡ some (async_info lc code)
    unfolding done
    posted_info = ground (arith, ready.fresh.free k.next, ready.fresh.free (k.next + 1))

    posted_code : posted.heap code ≡ some (bytes bs)
    unfolding done
    posted_code =
        ground (arith, ready.fresh.free k.next, ready.fresh.free (k.next + 1), ready.is_code)

    posted-IsContext : IsContext (posted.heap lc)
    unfolding done
    posted-IsContext = ground (arith, ready.fresh.free k.next, ready.fresh.free (k.next + 1))

    posted_work : posted.heap (k.next + 1) ≡ some (work (new_work sys_env k lc c ld))
    unfolding done
    posted_work = ground (arith, ready.fresh.free k.next, ready.fresh.free (k.next + 1))

    posted_others : (p : ℕ) → p ≢ lc → p ≢ k.next → p ≢ k.next + 1 → posted.heap p ≡ k.heap p
    unfolding done
    posted_others p n1 n2 n3 = ground arith

    posted_workqueues : posted.workqueues ≡ k.workqueues
    unfolding done
    posted_workqueues = ground arith

    executed_here : loadcode_internal sys_env lc k.next (taken sys_env k lc c ld) ≡ some (tt, ran)
    unfolding loadcode_internal
    executed_here = executed sys_env k lc c ld bs ready all refl

    taken_work :
        (taken sys_env k lc c ld).heap (k.next + 1) ≡ some (work (new_work sys_env k lc c ld))
    taken_work = ground arith

    ran_data : ran.heap k.next ≡ some (load_data (record ld { ret = status }))
    unfolding done
    ran_data = let old = info_lt in ground arith

    executed_work :
        handler_execute sys_env (k.next + 1) (taken sys_env k lc c ld) ≡ some (tt, posted)
    executed_work =
        handler_execute_lem sys_env (k.next + 1) (taken sys_env k lc c ld) ran
          (new_work sys_env k lc c ld) (record ld { ret = status }) taken_work executed_here
          ran_data

    notified :
        Returns
          (handler_notify sys_env (k.next + 1) k.next posted)
          (λ _ k'. Served info lc code k k')
    unfolding handler_notify
    notified =
        let (_, k₁, e, clean) = Returns_elim (sys_lua_async_cleanup info status posted) (
          cleanup_lem info lc code (bytes bs) posted posted_info posted-IsContext posted_code valid
            p1 p2 p3 status) in
        let (f1, f2, f3) = clean.freed in
        let old = info_lt in
        Returns_intro (handler_notify sys_env (k.next + 1) k.next posted)
          {P = λ _ k'. Served info lc code k k'}
          (λ z. ground (arith, e, posted_work, clean.others k.next, clean.others (k.next + 1)))
          λ _ k' r. record {
            freed =
                ground (
                  arith,
                  e,
                  posted_work,
                  clean.others k.next,
                  clean.others (k.next + 1),
                  f1,
                  f2,
                  f3,
                );
            others = λ p n1 n2 n3. ground (
              arith,
              e,
              posted_work,
              clean.others k.next,
              clean.others (k.next + 1),
              clean.others p,
              posted_others p,
              ready.fresh.free k.next,
              ready.fresh.free (k.next + 1),
            );
            workqueues = ground (
              arith,
              e,
              posted_work,
              clean.others k.next,
              clean.others (k.next + 1),
              clean.workqueues,
              posted_workqueues,
            );
          }

    -- The submission and the worker's run.
    abbrev pub served : M (Block S) (Unit {0})
    served = do
      unused ← lunatik_loadcode_async_nores lc code size cleanup info
      run_worker sys_env c.wq

    served_lem : served k ≡ handler_notify sys_env (k.next + 1) k.next posted
    unfolding lunatik_loadcode_async_nores run_worker
    served_lem = ground (
      arith,
      submit_lem sys_env k lc c ld bs ready all,
      take_lem sys_env k lc c ld bs ready all,
      taken_work,
      executed_work,
    )

    pub served-Served : Returns (served k) (λ _ k'. Served info lc code k k')
    served-Served =
        subst (λ r. Returns r (λ _ k'. Served info lc code k k')) (sym served_lem) notified
