-- ===== src/Syscall/Call/Lost.antt =====
-- An asynchronous `sys_lua` of lib/lunatik/lunatik_syscall.c whose submission fails.
use lunatik_ng.Base.{ℕ, ◌≡◌, true, false, some, List, ◌∷◌, pos, arith, Bool}
use lunatik_ng.Kernel.{Kernel, IsFresh, Returns}
use lunatik_ng.Runtime.{Block}
use lunatik_ng.Runtime.Loadcode.{submit}
use lunatik_ng.Runtime.Loadcode.Submit.{lunatik_loadcode_async_nores}
use lunatik_ng.Syscall.Call.{finished, call_async}

module _ {S : Type 0} where
  -- If an asynchronous `sys_lua` gets memory for its callback_info, but none for the data of its request,
  -- which is the first allocation of the submission, the call still returns 0: no work is queued that
  -- could free the context or the code, and both stay allocated. No address from `next` on is allocated.
  pub call_async_lost :
      (cleanup lc code_kern size : ℕ) (b b' : Block S) (o : List Bool) (k : Kernel (Block S))
      → IsFresh k
      → k.heap lc ≡ some b
      → k.heap code_kern ≡ some b'
      → k.oracle ≡ true ∷ false ∷ o
      → Returns (call_async cleanup lc code_kern size k) (λ call k'.
        (call ≡ finished (pos 0))
        × (k'.heap lc ≡ some b)
        × (k'.heap code_kern ≡ some b')
        × ((wq : ℕ) → k'.queue wq ≡ k.queue wq))
  unfolding call_async lunatik_loadcode_async_nores submit
  call_async_lost cleanup lc code_kern size b b' o k fresh ctx code short =
      ground (arith, fresh.free lc, fresh.free code_kern, fresh.next_pos)
