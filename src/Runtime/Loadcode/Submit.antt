-- ===== src/Runtime/Loadcode/Submit.antt =====
-- The functions of lib/lunatik/lunatik.c that submit Lua code to the workqueue of a context.
pub mod Freed
pub mod Races
pub mod Ready
use lunatik_ng.Base.{
  ℕ, ◌+◌, ◌-◌, Bool, true, false, none, some, ℤ, pos, negsuc, ◌==◌, is_zero, if◌then◌else◌,
}
use lunatik_ng.Kernel.{M, pure, ◌>>=◌, ◌>>◌, kfree, store, err_ptr}
use lunatik_ng.Runtime.{
  Block, load_data, work_cleanup, async_work_cleanup, openlib_handler, read_load_data, enomem,
}
use lunatik_ng.Runtime.Loadcode.{new_load_data, submit, lunatik_work_create, lunatik_work_queue}

-- How a call stands at `down_interruptible(&d->complete)`: it still waits, or it has returned its
-- status, with what is then in `*presult`.
pub data Wait : Type 0 where
  blocked : Wait
  returned : ℤ → (presult : ℕ) → Wait

-- `-EINTR`
abbrev eintr : ℤ
eintr = negsuc 3

module _ {S : Type 0} where
  -- `lunatik_loadcode_sync` up to the wait: the status, `d` and `lw`.
  unfoldable pub loadcode_sync_submit :
      (lc code sz_code : ℕ) (wants : Bool) → M (Block S) (ℤ × ℕ × ℕ)
  loadcode_sync_submit lc code sz_code wants =
      submit lc (record (new_load_data code sz_code) { need_result = wants })

  -- `out_free_work` and `out_free`.
  release : (d lw : ℕ) → M (Block S) (Unit {0})
  unfolding kfree
  release d lw = kfree lw >> kfree d

  -- `lunatik_loadcode_sync` from the wait on. `interrupted` says that a signal ends the wait.
  unfoldable pub loadcode_sync_wait : (d lw : ℕ) (wants interrupted : Bool) → M (Block S) Wait
  unfolding release read_load_data store
  loadcode_sync_wait d lw wants true = do release d lw; pure (returned eintr 0)
  loadcode_sync_wait d lw wants false = do
    ld ← read_load_data d
    if ld.complete == 0 then pure blocked else do
      store d (load_data (record ld { complete = ld.complete - 1 }))
      release d lw
      pure (returned ld.ret (if wants then ld.result else 0))

  -- `lunatik_loadcode` up to the wait. Without `presult` the work frees everything, the code too,
  -- and the call returns at once.
  unfoldable pub loadcode_submit : (lc code sz_code : ℕ) (wants : Bool) → M (Block S) (ℤ × ℕ × ℕ)
  loadcode_submit lc code sz_code true =
      submit lc (record (new_load_data code sz_code) { need_result = true })
  loadcode_submit lc code sz_code false =
      submit lc (record (new_load_data code sz_code) { callback_work = work_cleanup })

  unfoldable pub lunatik_loadcode_async : (lc code sz_code callb callb_arg : ℕ) → M (Block S) ℤ
  lunatik_loadcode_async lc code sz_code callb callb_arg = do
    (ret, d, lw) ← submit lc (record (new_load_data code sz_code) {
      need_result = true;
      callback_arg = callb_arg;
      callback = callb;
      callback_work = async_work_cleanup;
    })
    pure ret

  unfoldable pub lunatik_loadcode_async_nores :
      (lc code sz_code callb callb_arg : ℕ) → M (Block S) ℤ
  lunatik_loadcode_async_nores lc code sz_code callb callb_arg = do
    (ret, d, lw) ← submit lc (record (new_load_data code sz_code) {
      need_result = false;
      callback_arg = callb_arg;
      callback_nores = callb;
      callback_work = async_work_cleanup;
    })
    pure ret

  unfoldable pub lunatik_openlib : (lc luaopen_func : ℕ) → M (Block S) ℤ
  unfolding lunatik_work_create lunatik_work_queue
  lunatik_openlib lc luaopen_func = do
    lw ← lunatik_work_create lc openlib_handler luaopen_func
    if lw == 0 then pure enomem else do lunatik_work_queue lw; pure (pos 0)
