-- ===== src/Runtime/Loadcode/Submit/Freed.antt =====
-- What is freed once the worker has run code that was submitted through lib/lunatik/lunatik.c.
use lunatik_ng.Base.{ℕ, ◌+◌, ◌-◌, ◌≡◌, ◌≢◌, refl, false, List, [], ℤ, pos, none, arith, take}
use lunatik_ng.Kernel.{Kernel, M, pure, ◌>>=◌, ◌>>◌, Returns}
use lunatik_ng.Runtime.{Context, LoadData, Block, work_cleanup, async_work_cleanup}
use lunatik_ng.Runtime.Loadcode.{Env, run_worker, new_load_data, run_code}
use lunatik_ng.Runtime.Loadcode.Submit.{
  Wait, returned, loadcode_sync_submit, loadcode_sync_wait, loadcode_submit,
  lunatik_loadcode_async_nores,
}
use lunatik_ng.Runtime.Loadcode.Submit.Ready.{Ready, quiet, submit_lem, take_lem, executed, done}

module _ {S : Type 0} (env : Env S) where
  -- Submit code, run the worker once, and wait where the call waits.
  unfoldable pub async_nores_run : (wq lc code sz_code callb arg : ℕ) → M (Block S) ℤ
  unfolding lunatik_loadcode_async_nores run_worker
  async_nores_run wq lc code sz_code callb arg = do
    ret ← lunatik_loadcode_async_nores lc code sz_code callb arg
    run_worker (quiet env) wq
    pure ret

  unfoldable pub sync_run : (wq lc code sz_code : ℕ) → M (Block S) Wait
  unfolding loadcode_sync_submit run_worker loadcode_sync_wait
  sync_run wq lc code sz_code = do
    (ret, d, lw) ← loadcode_sync_submit lc code sz_code false
    run_worker (quiet env) wq
    loadcode_sync_wait d lw false false

  unfoldable pub loadcode_run : (wq lc code sz_code : ℕ) → M (Block S) ℤ
  unfolding loadcode_submit run_worker
  loadcode_run wq lc code sz_code = do
    (ret, d, lw) ← loadcode_submit lc code sz_code false
    run_worker (quiet env) wq
    pure ret

  module _ (k : Kernel (Block S)) (lc code sz_code : ℕ) (c : Context S) (bs : List ℕ) where
    -- The status of the code in the state of the context.
    abbrev pub status : ℤ
    status = (run_code (quiet env) c.lua (take (sz_code - 1) bs)).0

    -- `lunatik_loadcode_async_nores`, followed by a run of the worker, returns 0 without a fault and leaves the
    -- heap as it was outside the context. The context and the code are ready, all
    -- allocations succeed, and the callback changes nothing.
    pub async_nores_frees :
        (callb arg p : ℕ)
        → Ready env k lc code sz_code c bs
        → k.oracle ≡ []
        → p ≢ lc
        → Returns
            (async_nores_run c.wq lc code sz_code callb arg k)
            (λ ret k'. (ret ≡ pos 0) × (k'.heap p ≡ k.heap p))
    unfolding async_nores_run done
    async_nores_frees callb arg p ready all ne =
        let ld : LoadData = record (new_load_data code sz_code) {
          need_result = false;
          callback_arg = arg;
          callback_nores = callb;
          callback_work = async_work_cleanup;
        } in
        ground (
          arith,
          submit_lem env k lc c ld bs ready all,
          take_lem env k lc c ld bs ready all,
          executed env k lc c ld bs ready all refl,
          ready.fresh.free k.next,
          ready.fresh.free (k.next + 1),
          ready.fresh.next_pos,
        )

    -- `lunatik_loadcode_sync` with no result requested, with a run of the worker during its wait, returns the
    -- status of the code without a fault and leaves the heap as it was outside the context.
    -- The context and the code are ready, and all allocations succeed.
    pub sync_frees :
        (p : ℕ)
        → Ready env k lc code sz_code c bs
        → k.oracle ≡ []
        → p ≢ lc
        → Returns
            (sync_run c.wq lc code sz_code k)
            (λ ret k'. (ret ≡ returned status 0) × (k'.heap p ≡ k.heap p))
    unfolding sync_run done
    sync_frees p ready all ne =
        let ld : LoadData = record (new_load_data code sz_code) { need_result = false } in
        ground (
          arith,
          submit_lem env k lc c ld bs ready all,
          take_lem env k lc c ld bs ready all,
          executed env k lc c ld bs ready all refl,
          ready.fresh.free k.next,
          ready.fresh.free (k.next + 1),
          ready.fresh.next_pos,
        )

    -- `lunatik_loadcode` with no result requested, followed by a run of the worker, returns 0 without a fault,
    -- frees the code and leaves the rest of the heap as it was outside the context. The
    -- context and the code are ready, and all allocations succeed.
    pub loadcode_frees :
        (p : ℕ)
        → Ready env k lc code sz_code c bs
        → k.oracle ≡ []
        → p ≢ lc
        → p ≢ code
        → 0 ≢ code
        → Returns
            (loadcode_run c.wq lc code sz_code k)
            (λ ret k'. (ret ≡ pos 0) × (k'.heap code ≡ none) × (k'.heap p ≡ k.heap p))
    unfolding loadcode_run done
    loadcode_frees p ready all ne other nonnull =
        let ld : LoadData = record (new_load_data code sz_code) { callback_work = work_cleanup } in
        ground (
          arith,
          submit_lem env k lc c ld bs ready all,
          take_lem env k lc c ld bs ready all,
          executed env k lc c ld bs ready all refl,
          ready.fresh.free k.next,
          ready.fresh.free (k.next + 1),
          ready.fresh.next_pos,
        )
