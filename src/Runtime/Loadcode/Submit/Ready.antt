-- ===== src/Runtime/Loadcode/Submit/Ready.antt =====
-- A submission of code of lib/lunatik/lunatik.c, step by step: the kernel after the submission, with
-- the work taken from the queue, and after the code has run.
use lunatik_ng.Base.{
  ℕ, ◌+◌, ◌-◌, ◌^◌, ◌≤◌, ◌<◌, ◌≡◌, false, some, List, [], ◌∷◌, ◌++◌, pos, arith, length,
}
use lunatik_ng.Kernel.{Kernel, pure, IsFresh, take_work, update}
use lunatik_ng.Runtime.{
  Context, LoadData, Work, Block, context, bytes, load_data, work, loadcode_handler,
}
use lunatik_ng.Runtime.Loadcode.{Env, submit, loadcode_internal}
use lunatik_ng.Runtime.Loadcode.Execute.{loadcode_internal_lem, after}

module _ {S : Type 0} (env : Env S) where
  -- A context that is free to use and has no pending work, and a block of code that holds the
  -- `sz_code` bytes announced. The three next addresses are free.
  pub record Ready (k : Kernel (Block S)) (lc code sz_code : ℕ) (c : Context S) (bs : List ℕ)
      : Type 0 where
    pub fresh : IsFresh k
    pub room : k.next < 2 ^ 64 - 4095
    pub is_context : k.heap lc ≡ some (context c)
    pub unlocked : c.locked ≡ false
    pub idle : k.queue c.wq ≡ []
    pub is_code : k.heap code ≡ some (bytes bs)
    pub positive : 0 < sz_code
    pub fits : sz_code ≤ length bs
    pub small : sz_code < 2 ^ 64

  -- The callbacks change nothing.
  abbrev pub quiet : Env S
  quiet = record env {
    run_callback = λ fn arg ret result. pure tt;
    run_callback_nores = λ fn arg ret. pure tt;
  }

  -- The kernel behind `submit`, with the work on its queue or taken from it.
  module _ (k : Kernel (Block S)) (lc : ℕ) (c : Context S) (ld : LoadData) where
    abbrev pub new_work : Work
    new_work = record { lc = lc; wq = c.wq; handler = loadcode_handler; work_data = k.next }

    abbrev pub submitted : Kernel (Block S)
    submitted = record k {
      heap =
          update (update k.heap k.next (some (load_data ld))) (k.next + 1) (some (work new_work));
      next = k.next + 1 + 1;
      queue = update k.queue c.wq (k.queue c.wq ++ (k.next + 1) ∷ []);
    }

    abbrev pub taken : Kernel (Block S)
    taken = record submitted { queue = update submitted.queue c.wq [] }

    module _ (bs : List ℕ) (ready : Ready k lc ld.code ld.sz_code c bs) (all : k.oracle ≡ []) where
      pub submit_lem : submit lc ld k ≡ some ((pos 0, k.next, k.next + 1), submitted)
      unfolding submit
      submit_lem =
          ground
            (arith, ready.fresh.free k.next, ready.fresh.free (k.next + 1), ready.fresh.next_pos)

      pub take_lem : take_work c.wq submitted ≡ some (some (k.next + 1), taken)
      unfolding take_work
      take_lem = ground arith

      pub at_context : taken.heap lc ≡ some (context c)
      at_context = ground (arith, ready.fresh.free k.next, ready.fresh.free (k.next + 1))

      pub at_data : taken.heap k.next ≡ some (load_data ld)
      at_data = ground arith

      pub at_code : taken.heap ld.code ≡ some (bytes bs)
      at_code = ground (arith, ready.fresh.free k.next, ready.fresh.free (k.next + 1))

      unfoldable pub done : Kernel (Block S)
      unfolding at_context at_data at_code
      done =
          after quiet taken lc k.next c ld bs at_context ready.unlocked at_data at_code
            ready.positive ready.fits ready.small

      pub executed :
          ld.need_result ≡ false → loadcode_internal quiet lc k.next taken ≡ some (tt, done)
      unfolding done
      executed no_result =
          loadcode_internal_lem quiet taken lc k.next c ld bs at_context ready.unlocked at_data
            at_code ready.positive ready.fits ready.small no_result
