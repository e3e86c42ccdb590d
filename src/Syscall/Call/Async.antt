-- ===== src/Syscall/Call/Async.antt =====
-- The asynchronous form of `sys_lua` of lib/lunatik/lunatik_syscall.c, from the call to the end of the
-- worker's run.
use lunatik_ng.Base.{
  ℕ, ◌+◌, ◌-◌, ◌^◌, ◌<◌, ◌≡◌, inr, refl, true, false, Bool, some, [], ℤ, pos, arith, length, sym,
  ap, ◌∙◌, ◌==◌,
}
use mathlib.Core.Path.{subst}
use lunatik_ng.Kernel.{
  Kernel, M, pure, ◌>>=◌, ◌>>◌, IsFresh, Returns, Returns-bind, kmalloc, take_work, Returns-unbind,
}
use lunatik_ng.Runtime.{Block, async_info}
use lunatik_ng.Runtime.Bindings.{Registry}
use lunatik_ng.Runtime.Bindings.Load.{IsContext-context, SameOrNode, wq_of}
use lunatik_ng.Runtime.Loadcode.{Env, run_worker}
use lunatik_ng.Runtime.Loadcode.Submit.{lunatik_loadcode_async_nores}
use lunatik_ng.Runtime.Loadcode.Submit.Ready.{Ready}
use lunatik_ng.Syscall.Memory.{User}
use lunatik_ng.Syscall.Call.{Call, finished, asynchronous, mode, sys_lua, call_by_mode, call_async}
use lunatik_ng.Syscall.Call.Prepare.{sys_lua-Returns}
use lunatik_ng.Syscall.Call.Steps.{Left, Refused, Prepared, kmalloc-Allocated}
use lunatik_ng.Syscall.Call.Worker.{sys_env, served-Served, Served}

module _ {S : Type 0} where
  -- The call has returned, and nothing is left but list nodes on the heap and a workqueue at most.
  pub record Clean (k : Kernel (Block S)) (call : Call) (k' : Kernel (Block S)) : Type 0 where
    pub status : (ret : ℤ) × (call ≡ finished ret)
    pub others : (p : ℕ) → SameOrNode (k.heap p) (k'.heap p)
    pub workqueues : Left k k'

module _ {S : Type 0} (env : Env S) (cleanup : ℕ) where
  idle_worker :
      (wq : ℕ) (k : Kernel (Block S))
      → k.queue wq ≡ []
      → run_worker (sys_env env cleanup) wq k ≡ some (tt, k)
  unfolding run_worker take_work
  idle_worker wq k idle = ground arith

  -- The call, then the worker.
  unfoldable pub async_run :
      (reg : Registry S) (opens : Bool) (wq code size r_type r_data r_size : ℕ)
      → User
      → M (Block S) Call
  async_run reg opens wq code size r_type r_data r_size u = do
    call ← sys_lua env.engine reg cleanup opens wq code size r_type r_data r_size u
    run_worker (sys_env env cleanup) wq
    pure call

  failed_run :
      (wq : ℕ) (k : Kernel (Block S)) (call : Call) (k' : Kernel (Block S))
      → k.queue wq ≡ []
      → Refused k call k'
      → Returns ((run_worker (sys_env env cleanup) wq >> pure call) k') (Clean k)
  failed_run wq k call k' idle refused =
      let (ret, is_ret, _) = refused.status in
      Returns-bind (run_worker (sys_env env cleanup) wq k') _ _
        (subst (λ r. Returns r (λ _ k₁. k₁ ≡ k'))
          (sym (idle_worker wq k' (refused.queue wq ∙ idle))) refl)
        λ _ k₁ same. record {
          status = (ret, is_ret);
          others = λ p. rw same (refused.others p);
          workqueues = rw same refused.workqueues;
        }

  -- The request of a call that has all prepared is submitted and served.
  run_by_worker :
      (reg : Registry S) (wq size : ℕ) (k : Kernel (Block S)) (lc : ℕ) (k' : Kernel (Block S))
      → 0 < cleanup
      → IsFresh k
      → k.oracle ≡ []
      → k.queue wq ≡ []
      → k.next + 3 + length reg < 2 ^ 64 - 4095
      → 0 < size
      → size < 2 ^ 64
      → Prepared wq (length reg) size k lc k'
      → Returns
          (call_async cleanup lc k.next size k')
          (λ call k₁. Returns ((run_worker (sys_env env cleanup) wq >> pure call) k₁) (Clean k))
  unfolding call_async
  run_by_worker reg wq size k lc k' is_function fresh all idle room positive small ready =
      Returns-bind (kmalloc (async_info lc k.next) k') _ _
        (kmalloc-Allocated (async_info lc k.next) k' ready.fresh)
        λ info k₁ got.
          let (none_left, nonnull) = got.plenty (ready.plenty all) in
          let (place, here, later) = got.here nonnull in
          let given : (info == 0) ≡ false = ground arith in
          let (c, is_context, unlocked) = IsContext-context (k'.heap lc) ready.context in
          let (bs, is_code, len) = ready.code in
          let ready₁ : Ready (sys_env env cleanup) k₁ lc k.next size c bs = record {
            fresh = got.fresh;
            room = omega (arith, got.next_le, ready.next_le);
            is_context = got.others lc (λ e. omega (arith, ready.below)) ∙ is_context;
            unlocked = unlocked;
            idle = ground (arith, got.queue wq, ready.queue wq, ready.workqueue, is_context);
            is_code = got.others k.next (λ e. omega (arith, ready.below, ready.apart)) ∙ is_code;
            positive = positive;
            fits = omega arith;
            small = small;
          } in
          let same_wq : c.wq ≡ wq = sym (ap wq_of is_context) ∙ ready.workqueue in
          rw given (
            Returns-bind (lunatik_loadcode_async_nores lc k.next size cleanup info k₁) _ _
              (Returns-unbind (lunatik_loadcode_async_nores lc k.next size cleanup info k₁)
                (λ _. run_worker (sys_env env cleanup) c.wq) _
                (served-Served env cleanup k₁ lc k.next size info c bs ready₁ none_left here
                  ready.valid is_function fresh.next_pos ready.apart (omega (arith, ready.below))))
              λ unused k₂ run.
                Returns-bind (run_worker (sys_env env cleanup) wq k₂) _ _
                  (subst
                    (λ q.
                      Returns (run_worker (sys_env env cleanup) q k₂)
                        (λ _. Served info lc k.next k₁))
                    same_wq run)
                  λ _ k₃ served. record {
                    status = (pos 0, refl);
                    others = λ p. ground (
                      arith,
                      served.freed,
                      served.others p,
                      got.others p,
                      ready.others p,
                      fresh.free lc,
                      fresh.free k.next,
                      ready.fresh.free info,
                      fresh.free info,
                      place,
                    );
                    workqueues = inr (served.workqueues ∙ got.workqueues ∙ ready.workqueues);
                  })

  -- Once the worker has run, an asynchronous `sys_lua` has left nothing on the heap but list nodes of
  -- active bindings: it returns without a fault, with an error or not, and the context, the code
  -- and the request are freed. At most one workqueue is left as well: that of the context, which
  -- nothing destroys. The size is not 0, all allocations succeed, the workqueue is idle, a
  -- Lua state that opens gets a workqueue, no address from `next` on is allocated and `next` lies
  -- below the error pointers by three more than there are bindings.
  pub async_run_frees :
      (reg : Registry S) (opens : Bool) (wq code size r_type r_data r_size : ℕ) (u : User)
      (k : Kernel (Block S))
      → 0 < cleanup
      → mode r_type r_data r_size ≡ asynchronous
      → (opens ≡ true → 0 < wq)
      → IsFresh k
      → k.oracle ≡ []
      → k.queue wq ≡ []
      → k.next + 3 + length reg < 2 ^ 64 - 4095
      → 0 < size
      → size < 2 ^ 64
      → Returns (async_run reg opens wq code size r_type r_data r_size u k) (Clean k)
  unfolding async_run call_by_mode
  async_run_frees reg opens wq code size r_type r_data r_size u k is_function no_result has_queue
        fresh all idle room positive small =
      Returns-bind (sys_lua env.engine reg cleanup opens wq code size r_type r_data r_size u k) _ _
        (sys_lua-Returns env.engine reg cleanup opens wq has_queue code size r_type r_data r_size u
          k (λ call k'. Returns ((run_worker (sys_env env cleanup) wq >> pure call) k') (Clean k))
          fresh (omega arith) (λ call k' refused. failed_run wq k call k' idle refused)
          (λ lc k' ready. rw no_result (
            run_by_worker reg wq size k lc k' is_function fresh all idle room positive small
              ready)))
        (λ call k' h. h)
