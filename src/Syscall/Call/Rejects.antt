-- ===== src/Syscall/Call/Rejects.antt =====
-- The branch of `sys_lua` of lib/lunatik/lunatik_syscall.c for a call with some of the pointers to the
-- result.
use lunatik_ng.Base.{ℕ, ◌+◌, ◌-◌, ◌^◌, ◌<◌, ◌≡◌, refl, true, Bool, length}
use lunatik_ng.Kernel.{Kernel, IsFresh, Returns}
use lunatik_ng.Runtime.{Engine, Block, einval}
use lunatik_ng.Runtime.Bindings.{Registry}
use lunatik_ng.Syscall.Memory.{User}
use lunatik_ng.Syscall.Call.{neither, mode, sys_lua, call_by_mode}
use lunatik_ng.Syscall.Call.Prepare.{sys_lua-Returns}
use lunatik_ng.Syscall.Call.Steps.{Refused, out_lc-Refused}

module _ {S : Type 0} (E : Engine S) (reg : Registry S) (cleanup : ℕ) (opens : Bool) (wq : ℕ) where
  -- If some of the pointers to the result are NULL and some are not, `sys_lua` returns an error without
  -- a fault, whatever fails before that, and has freed the code and the context: the heap is as it
  -- was, but for list nodes of active bindings, and no work is queued. At most one workqueue
  -- is left: that of the context, which nothing destroys. No address from `next` on
  -- is allocated, `next` lies two below the error pointers, and a Lua state that opens gets a
  -- workqueue.
  pub sys_lua-Refused :
      (code size r_type r_data r_size : ℕ) (u : User) (k : Kernel (Block S))
      → (opens ≡ true → 0 < wq)
      → mode r_type r_data r_size ≡ neither
      → IsFresh k
      → k.next + 1 < 2 ^ 64 - 4095
      → Returns (sys_lua E reg cleanup opens wq code size r_type r_data r_size u k) (Refused k)
  unfolding call_by_mode
  sys_lua-Refused code size r_type r_data r_size u k has_queue some_null fresh room =
      sys_lua-Returns E reg cleanup opens wq has_queue code size r_type r_data r_size u k
        (Refused k) fresh room (λ call k' h. h)
        λ lc k' ready.
          rw some_null (out_lc-Refused wq (length reg) size k lc k' einval fresh ready refl)
