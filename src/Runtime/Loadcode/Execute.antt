-- ===== src/Runtime/Loadcode/Execute.antt =====
-- `loadcode_internal` of lib/lunatik/lunatik.c, where no result is requested.
use lunatik_ng.Base.{
  ℕ, ◌+◌, ◌-◌, ◌%◌, ◌^◌, ◌≤◌, ◌<◌, ◌≡◌, true, false, some, List, ℤ, arith, length, take,
}
use lunatik_ng.Kernel.{Kernel, update}
use lunatik_ng.Runtime.{Context, LoadData, Block, context, load_data, bytes, work, Work}
use lunatik_ng.Runtime.Loadcode.{Env, run_code, loadcode_internal, handler_execute}

module _ {S : Type 0} (env : Env S) (k : Kernel (Block S)) (lc d : ℕ) (c : Context S)
    (ld : LoadData) (bs : List ℕ) (ctx : k.heap lc ≡ some (context c)) (unlocked : c.locked ≡ false)
    (request : k.heap d ≡ some (load_data ld)) (is_code : k.heap ld.code ≡ some (bytes bs))
    (positive : 0 < ld.sz_code) (fits : ld.sz_code ≤ length bs) (small : ld.sz_code < 2 ^ 64) where
  -- The status, and the Lua state before the value on its top is popped.
  abbrev pub ran : ℤ × S
  ran = run_code env c.lua (take (ld.sz_code - 1) bs)

  size : (ld.sz_code + 2 ^ 64 - 1) % 2 ^ 64 ≡ ld.sz_code - 1
  size = omega arith

  -- The kernel afterwards, with the four stores in their order.
  abbrev pub after : Kernel (Block S)
  after = record k {
    heap =
        update
          (update
            (update (update k.heap lc (some (context (record c { locked = true })))) d
              (some (load_data (record ld { ret = ran.0 }))))
            lc (some (context (record c { locked = true; lua = env.engine.pop ran.1 }))))
          lc (some (context (record c { locked = false; lua = env.engine.pop ran.1 })));
  }

  pub loadcode_internal_lem :
      ld.need_result ≡ false → loadcode_internal env lc d k ≡ some (tt, after)
  unfolding loadcode_internal
  loadcode_internal_lem none_wanted = ground (arith, size)

-- `handler_execute` where the run of the code is known.
pub handler_execute_lem :
    {S : Type 0} (env : Env S) (lw : ℕ) (k ran : Kernel (Block S)) (w : Work) (ld : LoadData)
    → k.heap lw ≡ some (work w)
    → loadcode_internal env w.lc w.work_data k ≡ some (tt, ran)
    → ran.heap w.work_data ≡ some (load_data ld)
    → handler_execute env lw k
      ≡ some (
        tt,
        record ran {
          heap =
              update ran.heap w.work_data
                (some (load_data (record ld { complete = ld.complete + 1 })));
        },
      )
unfolding handler_execute
handler_execute_lem env lw k ran w ld queued e request = ground arith
