-- ===== src/Syscall/Call.antt =====
-- `sys_lua` of lib/lunatik/lunatik_syscall.c, split where it waits for the worker, and the callback
-- that ends its asynchronous form.
pub mod Steps
pub mod Prepare
pub mod Worker
pub mod Async
pub mod Lost
mod Examples
pub mod Rejects
pub mod Resume
pub mod Sync
use lunatik_ng.Base.{
  ℕ, ◌-◌, ◌^◌, Bool, true, false, not, ◌&&◌, none, some, [], ℤ, pos, negsuc, ◌==◌, is_zero,
  if◌then◌else◌,
}
use lunatik_ng.Kernel.{M, pure, ◌>>=◌, ◌>>◌, kmalloc, kfree, store, is_err, ptr_err, ptr_of}
use lunatik_ng.Runtime.{
  Engine, Block, bytes, async_info, load_async_info, load_result, enomem, einval,
}
use lunatik_ng.Runtime.Result.{lunatik_result_free}
use lunatik_ng.Runtime.Bindings.{Registry, lunatik_bindings_load}
use lunatik_ng.Runtime.Lifetime.{lunatik_context_create, lunatik_context_destroy}
use lunatik_ng.Runtime.Loadcode.Submit.{
  Wait, blocked, returned, loadcode_sync_submit, loadcode_sync_wait, lunatik_loadcode_async_nores,
}
use lunatik_ng.Syscall.{copy_lunatik_result_to_user}
use lunatik_ng.Syscall.Memory.{User, efault, copy_from_user}

-- How the call stands: it has returned, or it waits in `lunatik_loadcode_sync`.
pub data Call : Type 0 where
  finished : ℤ → Call
  waiting : (lc code_kern d lw : ℕ) → Call

-- The three branches on the pointers to the result.
pub data Mode : Type 0 where
  asynchronous synchronous neither : Mode

unfoldable pub mode : (r_type r_data r_size : ℕ) → Mode
mode r_type r_data r_size =
    if (r_type == 0) && (r_data == 0) && (r_size == 0)
    then asynchronous
    else if not (r_type == 0) && not (r_data == 0) && not (r_size == 0)
    then synchronous
    else neither

module _ {S : Type 0} where
  -- The status is not used.
  unfoldable pub sys_lua_async_cleanup : (arg : ℕ) (ret : ℤ) → M (Block S) (Unit {0})
  sys_lua_async_cleanup arg ret = do
    (lc, code_kern) ← load_async_info arg
    lunatik_context_destroy lc
    kfree code_kern
    kfree arg

  unfoldable pub out_code : ℤ → (code_kern : ℕ) → M (Block S) Call
  out_code ret code_kern = do kfree code_kern; pure (finished ret)

  unfoldable pub out_lc : ℤ → (lc code_kern : ℕ) → M (Block S) Call
  out_lc ret lc code_kern = lunatik_context_destroy lc >> out_code ret code_kern

  -- `cleanup` is the address of `sys_lua_async_cleanup`. What `lunatik_loadcode_async_nores`
  -- returns is not used.
  unfoldable pub call_async : (cleanup lc code_kern code_size : ℕ) → M (Block S) Call
  call_async cleanup lc code_kern code_size = do
    info ← kmalloc (async_info lc code_kern)
    if info == 0 then out_lc enomem lc code_kern else do
      unused ← lunatik_loadcode_async_nores lc code_kern code_size cleanup info
      pure (finished (pos 0))

  -- Up to the wait.
  unfoldable pub call_sync : (lc code_kern code_size : ℕ) → M (Block S) Call
  call_sync lc code_kern code_size = do
    (ret, d, lw) ← loadcode_sync_submit lc code_kern code_size true
    if is_zero ret then pure (waiting lc code_kern d lw) else out_lc ret lc code_kern

  unfoldable pub call_by_mode : Mode → (cleanup lc code_kern code_size : ℕ) → M (Block S) Call
  call_by_mode asynchronous cleanup lc code_kern code_size =
      call_async cleanup lc code_kern code_size
  call_by_mode synchronous cleanup lc code_kern code_size = call_sync lc code_kern code_size
  call_by_mode neither cleanup lc code_kern code_size = out_lc einval lc code_kern

  -- The status, then what is left of the call: the result, if there is one, goes to the process.
  unfoldable pub put_result : ℤ → (result r_type r_data r_size : ℕ) → User → M (Block S) (ℤ × User)
  put_result ret result r_type r_data r_size u = if result == 0 then pure (ret, u) else do
    r ← load_result result
    (ret2, u') ← copy_lunatik_result_to_user r r_type r_data r_size u
    lunatik_result_free result
    pure (if is_zero ret && not (is_zero ret2) then ret2 else ret, u')

  -- From the wait on. `interrupted` says that a signal ends it.
  unfoldable pub sys_lua_resume :
      (lc code_kern d lw r_type r_data r_size : ℕ) (interrupted : Bool)
      → User
      → M (Block S) (Call × User)
  sys_lua_resume lc code_kern d lw r_type r_data r_size interrupted u = do
    w ← loadcode_sync_wait d lw true interrupted
    elim w [
      | blocked ↦ pure (waiting lc code_kern d lw, u)
      | returned ret result ↦ do
        (ret', u') ← put_result ret result r_type r_data r_size u
        call ← out_lc ret' lc code_kern
        pure (call, u')
    ]

-- The engine, the bindings, the address of the callback, and how `lua_open` and the allocation of
-- the workqueue end.
module _ {S : Type 0} (E : Engine S) (reg : Registry S) (cleanup : ℕ) (opens : Bool) (wq : ℕ) where
  -- Behind the copy of the code.
  unfoldable pub sys_lua_context : Mode → (code_kern code_size : ℕ) → M (Block S) Call
  sys_lua_context how code_kern code_size = do
    lc ← lunatik_context_create E opens wq
    if is_err lc then out_code (ptr_err lc) code_kern else do
      ret ← lunatik_bindings_load reg lc
      if is_zero ret
          then call_by_mode how cleanup lc code_kern code_size
          else out_lc ret lc code_kern

  -- Up to the wait, if it comes to that. The block of the code is empty until it is copied.
  unfoldable pub sys_lua : (code code_size r_type r_data r_size : ℕ) → User → M (Block S) Call
  sys_lua code code_size r_type r_data r_size u = do
    code_kern ← kmalloc (bytes [])
    if code_kern == 0 then pure (finished enomem) else elim (copy_from_user code_size code u) [
      | none ↦ out_code efault code_kern
      | some bs ↦ do
        store code_kern (bytes bs)
        sys_lua_context (mode r_type r_data r_size) code_kern code_size
    ]
