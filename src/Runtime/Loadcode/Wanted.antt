-- ===== src/Runtime/Loadcode/Wanted.antt =====
-- The run of a work of lib/lunatik/lunatik.c whose caller wants the result.
use lunatik_ng.Base.{
  ℕ, ◌+◌, ◌-◌, ◌%◌, ◌^◌, ◌≤◌, ◌<◌, ◌≡◌, ◌≢◌, refl, sym, true, false, some, List, [], ◌∷◌, ℤ, arith,
  length, take,
}
use mathlib.Core.Path.{subst}
use lunatik_ng.Kernel.{Kernel, update, take_work, IsFresh, Returns, Returns_elim}
use lunatik_ng.Runtime.{
  Value, Context, LoadData, Block, context, load_data, bytes, work, Work, loadcode_handler, no_work,
}
use lunatik_ng.Runtime.Result.{lunatik_result_get}
use lunatik_ng.Runtime.Result.Ownership.{NameFits}
use lunatik_ng.Runtime.Result.Blocks.{Got, ResultAt, lunatik_result_get-Got, ResultAt-same}
use lunatik_ng.Runtime.Loadcode.{
  Env, run_code, loadcode_internal, handler_execute, handler_notify, run_worker,
}
use lunatik_ng.Runtime.Loadcode.Execute.{handler_execute_lem}
use lunatik_ng.Runtime.Loadcode.Turn.{handler_notify_lem}

module _ {S : Type 0} (env : Env S) (k : Kernel (Block S)) (lc d : ℕ) (c : Context S)
    (ld : LoadData) (bs : List ℕ) (ctx : k.heap lc ≡ some (context c)) (unlocked : c.locked ≡ false)
    (request : k.heap d ≡ some (load_data ld)) (is_code : k.heap ld.code ≡ some (bytes bs))
    (positive : 0 < ld.sz_code) (fits : ld.sz_code ≤ length bs) (small : ld.sz_code < 2 ^ 64) where
  -- The status, and the Lua state before the value on its top is popped.
  abbrev ran : ℤ × S
  ran = run_code env c.lua (take (ld.sz_code - 1) bs)

  abbrev locked : Kernel (Block S)
  locked = record k { heap = update k.heap lc (some (context (record c { locked = true }))) }

  size : (ld.sz_code + 2 ^ 64 - 1) % 2 ^ 64 ≡ ld.sz_code - 1
  size = omega arith

  -- The kernel afterwards, where `k₁` is that with the result taken.
  abbrev after : Kernel (Block S) → (r : ℕ) (ret : ℤ) → Kernel (Block S)
  after k₁ r ret = record k₁ {
    heap =
        update
          (update (update k₁.heap d (some (load_data (record ld { result = r; ret = ret })))) lc
            (some (context (record c { locked = true; lua = env.engine.pop ran.1 }))))
          lc (some (context (record c { locked = false; lua = env.engine.pop ran.1 })));
  }

  internal_lem :
      (k₁ : Kernel (Block S)) (r : ℕ) (ret : ℤ)
      → ld.need_result ≡ true
      → lunatik_result_get env.garbage (env.engine.top ran.1) ran.0 locked ≡ some ((r, ret), k₁)
      → k₁.heap d ≡ some (load_data ld)
      → k₁.heap lc ≡ some (context (record c { locked = true }))
      → lc ≢ d
      → loadcode_internal env lc d k ≡ some (tt, after k₁ r ret)
  unfolding loadcode_internal
  internal_lem k₁ r ret wanted got here there apart = ground (arith, size)

module _ {S : Type 0} where
  -- The worker has run the work: the result is at the first address that was free, the data hold its
  -- address and a status, the semaphore is raised, and other blocks but the context stay.
  pub record Answered (lc d : ℕ) (ld : LoadData) (k k' : Kernel (Block S)) : Type 0 where
    pub ret : ℤ
    pub answer :
        k'.heap d
        ≡ some (load_data (record ld { result = k.next; ret = ret; complete = ld.complete + 1 }))
    pub free_context : (c' : Context S) × (k'.heap lc ≡ some (context c')) × (c'.locked ≡ false)
    pub result : ResultAt k.next k'.heap
    pub others : (p : ℕ) → p < k.next → p ≢ lc → p ≢ d → k'.heap p ≡ k.heap p
    pub workqueues : k'.workqueues ≡ k.workqueues

module _ {S : Type 0} (env : Env S) (k : Kernel (Block S)) (lc d lw wq : ℕ) (c : Context S)
    (ld : LoadData) (bs : List ℕ) (fresh : IsFresh k) (all : k.oracle ≡ [])
    (pending : k.queue wq ≡ lw ∷ []) (ctx : k.heap lc ≡ some (context c))
    (unlocked : c.locked ≡ false) (request : k.heap d ≡ some (load_data ld))
    (is_code : k.heap ld.code ≡ some (bytes bs)) (positive : 0 < ld.sz_code)
    (fits : ld.sz_code ≤ length bs) (small : ld.sz_code < 2 ^ 64) (wanted : ld.need_result ≡ true)
    (none_given : ld.callback ≡ 0) (none_given_nores : ld.callback_nores ≡ 0)
    (kept : ld.callback_work ≡ no_work) where
  abbrev ready_work : Work
  ready_work = record { lc = lc; wq = wq; handler = loadcode_handler; work_data = d }

  abbrev value : Value
  value = env.engine.top (run_code env c.lua (take (ld.sz_code - 1) bs)).1

  abbrev taken : Kernel (Block S)
  taken = record k { queue = update k.queue wq [] }

  taken_lem : take_work wq k ≡ some (some lw, taken)
  unfolding take_work
  taken_lem = ground arith

  abbrev held : Kernel (Block S)
  held = locked env taken lc d c ld bs ctx unlocked request is_code positive fits small

  held-IsFresh : IsFresh held
  held-IsFresh = record {
    next_pos = fresh.next_pos;
    free = λ p h. let here = ctx in ground (arith, fresh.free p);
  }

  -- `k₁` is the kernel with the result taken.
  module _ (k₁ : Kernel (Block S)) (o : ℕ × ℤ)
      (e : lunatik_result_get env.garbage value
          (run_code env c.lua (take (ld.sz_code - 1) bs)).0
          held
        ≡ some (o, k₁))
      (got : Got held o.0 k₁) (queued : k.heap lw ≡ some (work ready_work)) where
    abbrev ran_here : Kernel (Block S)
    ran_here =
        after env taken lc d c ld bs ctx unlocked request is_code positive fits small k₁ o.0 o.1

    abbrev answered : LoadData
    answered = record ld { result = o.0; ret = o.1; complete = ld.complete + 1 }

    abbrev posted : Kernel (Block S)
    posted = record ran_here { heap = update ran_here.heap d (some (load_data answered)) }

    d_lt : d < k.next
    d_lt = let r = request in ground (arith, fresh.free d)

    lc_lt : lc < k.next
    lc_lt = let r = ctx in ground (arith, fresh.free lc)

    executed : loadcode_internal env lc d taken ≡ some (tt, ran_here)
    executed =
        let p = got.place in
        let a = ctx in
        let b = request in
        let x = lc_lt in
        let y = d_lt in
        internal_lem env taken lc d c ld bs ctx unlocked request is_code positive fits small k₁ o.0
          o.1 wanted e (ground (arith, got.below d)) (ground (arith, got.below lc))
          (λ s. ground arith)

    posted_lem : handler_execute env lw taken ≡ some (tt, posted)
    posted_lem =
        let a = ctx in
        let b = request in
        handler_execute_lem env lw taken ran_here ready_work (record ld { result = o.0; ret = o.1 })
          queued executed (ground arith)

    notified : handler_notify env lw d posted ≡ some (tt, posted)
    notified =
        handler_notify_lem env lw d posted answered (ground arith) none_given none_given_nores kept

    served_lem : run_worker env wq k ≡ some (tt, posted)
    unfolding run_worker
    served_lem = ground (arith, taken_lem, posted_lem, notified)

    posted-Answered : Answered lc d ld k posted
    posted-Answered =
        let p = got.place in
        let x = lc_lt in
        let y = d_lt in
        record {
          ret = o.1;
          answer = ground arith;
          free_context = (
            record c {
              locked = false;
              lua = env.engine.pop (run_code env c.lua (take (ld.sz_code - 1) bs)).1;
            },
            ground arith,
            refl,
          );
          result =
              subst (λ r. ResultAt r posted.heap) p
                (ResultAt-same o.0 k₁.heap posted.heap (λ q h. ground arith) got.at);
          others = λ q lt ne ne'. ground (arith, got.below q);
          workqueues = got.workqueues;
        }

  pub run_worker-Answered :
      k.heap lw ≡ some (work ready_work)
      → NameFits env.garbage value
      → Returns (run_worker env wq k) (λ _. Answered lc d ld k)
  run_worker-Answered queued named =
      let (o, k₁, e, got) =
        Returns_elim
          (lunatik_result_get env.garbage value (run_code env c.lua (take (ld.sz_code - 1) bs)).0
            held)
          (lunatik_result_get-Got held held-IsFresh all env.garbage value _ named) in
      subst (λ r. Returns r (λ _. Answered lc d ld k)) (sym (served_lem k₁ o e got queued))
        (posted-Answered k₁ o e got queued)
