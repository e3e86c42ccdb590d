-- ===== src/Runtime/Loadcode/Interleaving.antt =====
-- Any number of callers of `lunatik_loadcode_sync` of lib/lunatik/lunatik.c on one context, and the
-- worker of its workqueue, whose steps come in any order.
pub mod Calls
pub mod Drained
mod Examples
pub mod Invariant
pub mod Keeps
pub mod Resumes
pub mod Runs
pub mod Safe
use lunatik_ng.Base.{ℕ, ◌-◌, ◌^◌, ◌≤◌, ◌<◌, ◌≡◌, ◌≢◌, false, Option, some, List, ℤ, length}
use lunatik_ng.Kernel.{Kernel, take_work}
use lunatik_ng.Runtime.{Work, Block, bytes, work, loadcode_handler}
use lunatik_ng.Runtime.Loadcode.{Env, handler_execute, handler_notify}
use lunatik_ng.Runtime.Loadcode.Submit.{Wait, loadcode_sync_submit, loadcode_sync_wait}

-- Where the worker is: it waits for a work, it has taken one from the queue, or it has raised the
-- semaphore of one and goes on with the callbacks. `d` is then in a variable of its handler.
pub data Worker : Type 0 where
  idle : Worker
  fetched : (lw : ℕ) → Worker
  posting : (lw d : ℕ) → Worker

pub record World (S : Type 0) : Type 0 where
  pub kernel : Kernel (Block S)
  pub worker : Worker

-- The code that a caller hands over, in its own memory.
pub record Code {S : Type 0} (heap : ℕ → Option (Block S)) (code sz_code : ℕ) : Type 0 where
  pub content : List ℕ
  pub is_code : heap code ≡ some (bytes content)
  pub positive : 0 < sz_code
  pub fits : sz_code ≤ length content
  pub small : sz_code < 2 ^ 64

module _ {S : Type 0} (env : Env S) (lc wq : ℕ) where
  -- `call`: a task calls the function, up to its wait. `take`, `execute` and `notify`: the worker takes
  -- a work, runs its handler up to `up(&d->complete)`, and behind it. `resume`: a caller goes on, if
  -- its semaphore lets it, with no signal, and not in the middle of the handler for its own work.
  pub data Step : World S → World S → Type 0 where
    call :
        (s : World S) (code sz_code d lw : ℕ) (ret : ℤ) (k : Kernel (Block S))
        → s.kernel.next < 2 ^ 64 - 4095
        → Code s.kernel.heap code sz_code
        → loadcode_sync_submit lc code sz_code false s.kernel ≡ some ((ret, d, lw), k)
        → Step s (record s { kernel = k })
    take :
        (s : World S) (lw : ℕ) (k : Kernel (Block S))
        → s.worker ≡ idle
        → take_work wq s.kernel ≡ some (some lw, k)
        → Step s (record { kernel = k; worker = fetched lw })
    execute :
        (s : World S) (lw : ℕ) (w : Work) (k : Kernel (Block S))
        → s.worker ≡ fetched lw
        → s.kernel.heap lw ≡ some (work w)
        → w.handler ≡ loadcode_handler
        → handler_execute env lw s.kernel ≡ some (tt, k)
        → Step s (record { kernel = k; worker = posting lw w.work_data })
    notify :
        (s : World S) (lw d : ℕ) (k : Kernel (Block S))
        → s.worker ≡ posting lw d
        → handler_notify env lw d s.kernel ≡ some (tt, k)
        → Step s (record { kernel = k; worker = idle })
    resume :
        (s : World S) (lw : ℕ) (w : Work) (out : Wait) (k : Kernel (Block S))
        → s.kernel.heap lw ≡ some (work w)
        → s.worker ≢ posting lw w.work_data
        → loadcode_sync_wait w.work_data lw false false s.kernel ≡ some (out, k)
        → Step s (record s { kernel = k })

  pub data Reach (s : World S) : World S → Type 0 where
    here : Reach s s
    next : {t u : World S} → Reach s t → Step t u → Reach s u
