-- ===== src/Runtime/Loadcode.antt =====
-- Execution of Lua code in lib/lunatik/lunatik.c: works, the handler that the worker of the ordered
-- workqueue runs, and the functions that submit code. A function that waits is split where other
-- tasks can run: its part before the wait and its part after it.
pub mod Execute
pub mod Interleaving
pub mod Progress
pub mod Released
pub mod Turn
pub mod Wanted
mod Examples
pub mod Submit
use lunatik_ng.Base.{
  ℕ, ◌+◌, ◌-◌, ◌%◌, ◌^◌, ◌&&◌, Bool, true, false, none, some, List, ℤ, pos, negsuc, ◌==◌, ltb,
  is_zero, length, take, if◌then◌else◌,
}
use lunatik_ng.Kernel.{
  M, pure, fault, ◌>>=◌, ◌>>◌, kmalloc, kfree, store, queue_work, take_work, err_ptr,
}
use lunatik_ng.Runtime.{
  Engine, Block, context, load_data, work, LoadData, Handler, loadcode_handler, openlib_handler,
  CallbackWork, no_work, work_cleanup, async_work_cleanup, load_context, read_load_data, load_work,
  load_bytes, context_lock, context_unlock, enomem,
}
use lunatik_ng.Runtime.Result.{lunatik_result_get}

-- What surrounds the runtime: the Lua engine, the indeterminate value of a variable that is not
-- initialised, and the functions that the callers pass in, by address. `reads_on` says whether the
-- engine, which reads code byte by byte, wants a byte behind the ones that are given: it does not if
-- they end the code or are not well-formed.
pub record Env (S : Type 0) : Type 0 where
  pub engine : Engine S
  pub garbage : ℕ
  pub reads_on : S → List ℕ → Bool
  pub run_callback : (fn arg : ℕ) (ret : ℤ) (result : ℕ) → M (Block S) (Unit {0})
  pub run_callback_nores : (fn arg : ℕ) (ret : ℤ) → M (Block S) (Unit {0})

abbrev pub new_load_data : (code sz_code : ℕ) → LoadData
new_load_data code sz_code = record {
  code = code;
  sz_code = sz_code;
  result = 0;
  ret = negsuc 0;
  need_result = false;
  callback_arg = 0;
  callback = 0;
  callback_nores = 0;
  callback_work = no_work;
  complete = 0;
}

module _ {S : Type 0} where
  -- The work's address, or an error pointer.
  unfoldable pub lunatik_work_create : ℕ → Handler → (work_data : ℕ) → M (Block S) ℕ
  unfolding kmalloc load_context
  lunatik_work_create lc handler work_data = do
    c ← load_context lc
    lw ← kmalloc (work (record { lc = lc; wq = c.wq; handler = handler; work_data = work_data }))
    if lw == 0 then pure (err_ptr 12) else pure lw

  unfoldable pub lunatik_work_queue : ℕ → M (Block S) (Unit {0})
  unfolding load_work queue_work
  lunatik_work_queue lw = do w ← load_work lw; queue_work w.wq lw

  -- `d->callback_work(lw)`. The function for a work reads `lw->work_data`.
  run_callback_work : CallbackWork → (lw : ℕ) → M (Block S) (Unit {0})
  unfolding load_work read_load_data kfree
  run_callback_work no_work lw = pure tt
  run_callback_work work_cleanup lw = do
    w ← load_work lw
    ld ← read_load_data w.work_data
    kfree ld.code
    kfree w.work_data
    kfree lw
  run_callback_work async_work_cleanup lw = do w ← load_work lw; kfree w.work_data; kfree lw

  call_if : ℕ → M (Block S) (Unit {0}) → M (Block S) (Unit {0})
  call_if fn m = if fn == 0 then pure tt else m

  -- The common part of the functions that submit code: the data, the work, the queue. It returns
  -- the status and the addresses of both. `lw` is tested against NULL only.
  unfoldable pub submit : (lc : ℕ) → LoadData → M (Block S) (ℤ × ℕ × ℕ)
  unfolding kmalloc kfree lunatik_work_create lunatik_work_queue
  submit lc ld = do
    d ← kmalloc (load_data ld)
    if d == 0 then pure (enomem, 0, 0) else do
      lw ← lunatik_work_create lc loadcode_handler d
      if lw == 0
          then (do kfree d; pure (enomem, 0, 0))
          else do lunatik_work_queue lw; pure (pos 0, d, lw)

module _ {S : Type 0} (env : Env S) where
  open env use {engine, garbage, reads_on, run_callback, run_callback_nores}
  open engine use {loadbuffer, pcall, top, pop, call_c}

  -- The bytes that `luaL_loadbuffer(L, code, n)` gets. If the block is shorter, a fault is a read behind
  -- it, which the engine may come to or not.
  read_code : S → (code n : ℕ) → M (Block S) (List ℕ)
  unfolding load_bytes
  read_code lua code n = do
    bs ← load_bytes code
    if ltb (length bs) n && reads_on lua bs then fault else pure (take n bs)

  -- `luaL_loadbuffer`, and `lua_pcall` if it succeeds: the status and the state.
  unfoldable pub run_code : S → List ℕ → ℤ × S
  run_code lua bs =
      let (ret, lua') = loadbuffer lua bs in if is_zero ret then pcall lua' else (ret, lua')

  -- The result is taken from the top of the stack. Without a request for it `d->ret` stays the
  -- status.
  take_result : (d : ℕ) → LoadData → ℤ → S → M (Block S) (Unit {0})
  unfolding store
  take_result d ld ret lua = elim ld.need_result [
    | true ↦ do
      (r, ret') ← lunatik_result_get garbage (top lua) ret
      store d (load_data (record ld { result = r; ret = ret' }))
    | false ↦ store d (load_data (record ld { ret = ret }))
  ]

  -- `sz_code - 1` is a `size_t`.
  unfoldable pub loadcode_internal : (lc d : ℕ) → M (Block S) (Unit {0})
  unfolding context_lock context_unlock load_context read_load_data read_code run_code take_result
      store
  loadcode_internal lc d = do
    context_lock lc
    c ← load_context lc
    ld ← read_load_data d
    bs ← read_code c.lua ld.code ((ld.sz_code + 2 ^ 64 - 1) % 2 ^ 64)
    let (ret, lua) = run_code c.lua bs
    take_result d ld ret lua
    store lc (context (record c { locked = true; lua = pop lua }))
    context_unlock lc

  -- The status and `*presult`; `wants` says whether `presult` is given.
  unfoldable pub lunatik_loadcode_direct :
      (lc code sz_code : ℕ) (wants : Bool) → M (Block S) (ℤ × ℕ)
  unfolding loadcode_internal kmalloc kfree read_load_data
  lunatik_loadcode_direct lc code sz_code wants = do
    d ← kmalloc (load_data (record (new_load_data code sz_code) { need_result = wants }))
    if d == 0 then pure (enomem, 0) else do
      loadcode_internal lc d
      ld ← read_load_data d
      kfree d
      pure (ld.ret, if wants then ld.result else 0)

  -- `loadcode_work_handler` up to `up(&d->complete)`.
  unfoldable pub handler_execute : (lw : ℕ) → M (Block S) (Unit {0})
  unfolding load_work read_load_data store
  handler_execute lw = do
    w ← load_work lw
    loadcode_internal w.lc w.work_data
    ld ← read_load_data w.work_data
    store w.work_data (load_data (record ld { complete = ld.complete + 1 }))

  -- `loadcode_work_handler` behind `up(&d->complete)`; `d` is read again before each test.
  unfoldable pub handler_notify : (lw d : ℕ) → M (Block S) (Unit {0})
  unfolding read_load_data call_if run_callback_work
  handler_notify lw d = do
    ld ← read_load_data d
    call_if ld.callback (run_callback ld.callback ld.callback_arg ld.ret ld.result)
    ld ← read_load_data d
    call_if ld.callback_nores (run_callback_nores ld.callback_nores ld.callback_arg ld.ret)
    ld ← read_load_data d
    run_callback_work ld.callback_work lw

  loadcode_work_handler : (lw : ℕ) → M (Block S) (Unit {0})
  unfolding handler_execute handler_notify load_work
  loadcode_work_handler lw = do w ← load_work lw; handler_execute lw; handler_notify lw w.work_data

  -- `openlib_work_handler` calls the C function that `work_data` points to.
  openlib_work_handler : (lw : ℕ) → M (Block S) (Unit {0})
  unfolding load_work context_lock context_unlock load_context store
  openlib_work_handler lw = do
    w ← load_work lw
    context_lock w.lc
    c ← load_context w.lc
    store w.lc (context (record c { lua = call_c w.work_data c.lua }))
    context_unlock w.lc

  run_handler : Handler → (lw : ℕ) → M (Block S) (Unit {0})
  unfolding loadcode_work_handler openlib_work_handler
  run_handler loadcode_handler lw = loadcode_work_handler lw
  run_handler openlib_handler lw = openlib_work_handler lw

  -- The worker takes the oldest work of the queue and runs it, if there is one.
  unfoldable pub run_worker : (wq : ℕ) → M (Block S) (Unit {0})
  unfolding load_work run_handler
  run_worker wq = do
    next ← take_work wq
    elim next [ none ↦ pure tt | some lw ↦ do w ← load_work lw; run_handler w.handler lw ]
