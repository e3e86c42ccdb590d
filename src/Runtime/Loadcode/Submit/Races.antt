-- ===== src/Runtime/Loadcode/Submit/Races.antt =====
-- Orders of events in which the synchronous calls of lib/lunatik/lunatik.c use memory that is not
-- theirs any more, or that never was.
use lunatik_ng.Base.{
  ℕ, ◌^◌, ◌-◌, ◌≡◌, ◌<◌, refl, Bool, true, false, List, [], ◌∷◌, none, some, arith,
}
use lunatik_ng.Kernel.{Kernel, M, pure, ◌>>=◌, ◌>>◌, take_work, IsFresh, err_ptr}
use lunatik_ng.Runtime.{Context, LoadData, Block, context}
use lunatik_ng.Runtime.Loadcode.{
  Env, run_worker, handler_execute, handler_notify, new_load_data, submit,
}
use lunatik_ng.Runtime.Loadcode.Submit.{Wait, loadcode_sync_submit, loadcode_sync_wait}
use lunatik_ng.Runtime.Loadcode.Submit.Ready.{Ready, quiet, submit_lem, take_lem, executed, done}

module _ {S : Type 0} (env : Env S) where
  -- A signal ends the wait before the worker has taken the work.
  unfoldable pub interrupted_run : (wq lc code sz_code : ℕ) (wants : Bool) → M (Block S) Wait
  unfolding loadcode_sync_submit run_worker loadcode_sync_wait
  interrupted_run wq lc code sz_code wants = do
    (ret, d, lw) ← loadcode_sync_submit lc code sz_code wants
    out ← loadcode_sync_wait d lw wants true
    run_worker (quiet env) wq
    pure out

  -- The waiting call goes on between the worker's `up(&d->complete)` and its next statement.
  unfoldable pub overtaken_run : (wq lc code sz_code : ℕ) → M (Block S) Wait
  unfolding loadcode_sync_submit handler_execute handler_notify loadcode_sync_wait
  overtaken_run wq lc code sz_code = do
    (ret, d, lw) ← loadcode_sync_submit lc code sz_code false
    next ← take_work wq
    handler_execute (quiet env) lw
    out ← loadcode_sync_wait d lw false false
    handler_notify (quiet env) lw d
    pure out

  module _ (k : Kernel (Block S)) (lc code sz_code : ℕ) (c : Context S) (bs : List ℕ) where
    -- If a signal interrupts the wait of `lunatik_loadcode_sync` before the worker has taken the work, the
    -- worker then uses the freed work. The context and the code are ready, and all
    -- allocations succeed.
    pub interrupted_run-eq-none :
        (wants : Bool)
        → Ready env k lc code sz_code c bs
        → k.oracle ≡ []
        → interrupted_run c.wq lc code sz_code wants k ≡ none
    unfolding interrupted_run take_work
    interrupted_run-eq-none wants ready all =
        let ld : LoadData = record (new_load_data code sz_code) { need_result = wants } in
        ground (
          arith,
          submit_lem env k lc c ld bs ready all,
          ready.fresh.next_pos,
          ready.idle,
          ready.fresh.free k.next,
        )

    -- If the caller of `lunatik_loadcode_sync` goes on as soon as the worker has raised the semaphore, the
    -- worker then reads the freed data. The context and the code are ready, and all
    -- allocations succeed.
    pub overtaken_run-eq-none :
        Ready env k lc code sz_code c bs
        → k.oracle ≡ []
        → overtaken_run c.wq lc code sz_code k ≡ none
    unfolding overtaken_run done
    overtaken_run-eq-none ready all =
        let ld : LoadData = record (new_load_data code sz_code) { need_result = false } in
        ground (
          arith,
          submit_lem env k lc c ld bs ready all,
          take_lem env k lc c ld bs ready all,
          executed env k lc c ld bs ready all refl,
          ready.fresh.next_pos,
        )

    -- If the allocation of the work fails, `lunatik_loadcode_sync` uses the error pointer that
    -- `lunatik_work_create` returns as a work. No address from `next` on is allocated,
    -- and `next` lies below the error pointers.
    pub submit_failed-eq-none :
        (wants : Bool) (o : List Bool)
        → IsFresh k
        → k.next < 2 ^ 64 - 4095
        → k.heap lc ≡ some (context c)
        → k.oracle ≡ true ∷ false ∷ o
        → loadcode_sync_submit lc code sz_code wants k ≡ none
    unfolding loadcode_sync_submit submit
    submit_failed-eq-none wants o fresh room here short =
        ground (arith, fresh.free k.next, fresh.free (err_ptr 12), fresh.next_pos)
