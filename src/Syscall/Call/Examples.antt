-- ===== src/Syscall/Call/Examples.antt =====
-- Theorems on `sys_lua` of lib/lunatik/lunatik_syscall.c at concrete inputs.
use lunatik_ng.Base.{◌≡◌, refl, true, false, [], ◌∷◌, pos, some, arith, ℕ}
use lunatik_ng.Kernel.{Kernel, IsFresh, Returns}
use lunatik_ng.Runtime.{Value, Block, context, bytes}
use lunatik_ng.Runtime.Examples.{engine, env, registry, empty, empty-IsFresh, ctx, code, started}
use lunatik_ng.Syscall.Memory.{User}
use lunatik_ng.Syscall.Call.{finished, sys_lua, call_async, mode}
use lunatik_ng.Syscall.Call.Steps.{Refused}
use lunatik_ng.Syscall.Call.Rejects.{sys_lua-Refused}
use lunatik_ng.Syscall.Call.Async.{Clean, async_run, async_run_frees}
use lunatik_ng.Syscall.Call.Sync.{sync_run, sync_run_frees}
use lunatik_ng.Syscall.Call.Lost.{call_async_lost}

-- All bytes of the process are mapped and 0.
abbrev zeros : User
zeros p = some 0

sys_lua-Refused_example :
    Returns (sys_lua engine registry 77 true 9 100 2 0 5 6 zeros empty) (Refused empty)
unfolding mode
sys_lua-Refused_example =
    sys_lua-Refused engine registry 77 true 9 100 2 0 5 6 zeros empty (λ e. omega arith) refl
      empty-IsFresh (omega arith)

async_run_frees_example :
    Returns (async_run env 77 registry true 9 100 2 0 0 0 zeros empty) (Clean empty)
unfolding mode
async_run_frees_example =
    async_run_frees env 77 registry true 9 100 2 0 0 0 zeros empty (omega arith) refl
      (λ e. omega arith) empty-IsFresh refl refl (omega arith) (omega arith) (omega arith)

sync_run_frees_example :
    Returns (sync_run env 77 registry true 9 100 2 4 5 6 zeros empty) (λ o. Clean empty o.0)
unfolding mode
sync_run_frees_example =
    sync_run_frees env 77 registry true 9 100 2 4 5 6 zeros empty refl (λ e. omega arith)
      empty-IsFresh refl refl (omega arith) (omega arith) (omega arith) (omega arith)

abbrev short : Kernel (Block Value)
short = record started { oracle = true ∷ false ∷ [] }

short-IsFresh : IsFresh short
short-IsFresh = record { next_pos = omega arith; free = λ p h. ground arith }

call_async_lost_example : Returns (call_async 77 1 2 2 short) (λ call k'.
    (call ≡ finished (pos 0))
    × (k'.heap 1 ≡ some (context ctx))
    × (k'.heap 2 ≡ some (bytes code))
    × ((wq : ℕ) → k'.queue wq ≡ short.queue wq))
call_async_lost_example =
    call_async_lost 77 1 2 2 (context ctx) (bytes code) [] short short-IsFresh refl refl refl
