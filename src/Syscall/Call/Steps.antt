-- ===== src/Syscall/Call/Steps.antt =====
-- What the parts of `sys_lua` of lib/lunatik/lunatik_syscall.c allocate and release.
use lunatik_ng.Base.{
  ℕ, List, length, is_zero, ◌+◌, ◌≤◌, ◌<◌, ◌≡◌, ◌≢◌, ◌⊎◌, inr, refl, false, none, some, [], ℤ,
  arith, sym, ◌∙◌,
}
use mathlib.Core.Path.{subst}
use lunatik_ng.Kernel.{
  Kernel, IsFresh, Returns, Returns_intro, Returns-bind, Returns-mono, is_err, kmalloc, kfree,
  update, store,
}
use lunatik_ng.Runtime.{Block, bytes}
use lunatik_ng.Runtime.Bindings.Load.{IsContext, SameOrNode, wq_of}
use lunatik_ng.Runtime.Lifetime.{lunatik_context_destroy}
use lunatik_ng.Runtime.Lifetime.Release.{lunatik_context_destroy-Destroyed}
use lunatik_ng.Syscall.Call.{Call, finished, out_code, out_lc}

module _ {S : Type 0} where
  -- What an allocation leaves at the address `p` that it returns.
  pub record Allocated (b : Block S) (k : Kernel (Block S)) (p : ℕ) (k' : Kernel (Block S))
      : Type 0 where
    pub fresh : IsFresh k'
    pub next_ge : k.next ≤ k'.next
    pub next_le : k'.next ≤ k.next + 1
    pub failed : p ≡ 0 → k'.heap k.next ≡ none
    pub here : 0 < p → (p ≡ k.next) × (k'.heap p ≡ some b) × (k.next < k'.next)
    pub others : (q : ℕ) → q ≢ k.next → k'.heap q ≡ k.heap q
    pub refs : (m : ℕ) → k'.refs m ≡ k.refs m
    pub queue : (wq : ℕ) → k'.queue wq ≡ k.queue wq
    pub workqueues : k'.workqueues ≡ k.workqueues
    pub plenty : k.oracle ≡ [] → (k'.oracle ≡ []) × (0 < p)

  pub kmalloc-Allocated :
      (b : Block S) (k : Kernel (Block S)) → IsFresh k → Returns (kmalloc b k) (Allocated b k)
  unfolding kmalloc
  kmalloc-Allocated b k fresh =
      Returns_intro (kmalloc b k) {P = Allocated b k} (λ e. ground arith)
        λ p k' e.
          let positive = fresh.next_pos in
          let free = fresh.free k.next in
          record {
            fresh = record { next_pos = ground arith; free = λ q h. ground (arith, fresh.free q) };
            next_ge = ground arith;
            next_le = ground arith;
            failed = λ z. ground arith;
            here = λ h. (ground arith, ground arith, ground arith);
            others = λ q ne. ground arith;
            refs = λ m. ground arith;
            queue = λ wq. ground arith;
            workqueues = ground arith;
            plenty = λ h. (ground arith, ground arith);
          }

  -- The call has returned `ret`, the block of the code is freed, and no other block is changed.
  pub record CodeFreed (ret : ℤ) (code_kern : ℕ) (k : Kernel (Block S)) (call : Call)
      (k' : Kernel (Block S)) : Type 0 where
    pub status : call ≡ finished ret
    pub code : k'.heap code_kern ≡ none
    pub others : (p : ℕ) → p ≢ code_kern → k'.heap p ≡ k.heap p
    pub queue : (q : ℕ) → k'.queue q ≡ k.queue q
    pub workqueues : k'.workqueues ≡ k.workqueues

  pub out_code-CodeFreed :
      (ret : ℤ) (code_kern : ℕ) (b : Block S) (k : Kernel (Block S))
      → 0 < code_kern
      → k.heap code_kern ≡ some b
      → Returns (out_code ret code_kern k) (CodeFreed ret code_kern k)
  unfolding out_code kfree
  out_code-CodeFreed ret code_kern b k nonnull here =
      Returns_intro (out_code ret code_kern k) {P = CodeFreed ret code_kern k} (λ e. ground arith)
        λ call k' e. record {
          status = ground arith;
          code = ground arith;
          others = λ p ne. ground arith;
          queue = λ q. ground arith;
          workqueues = ground arith;
        }

  -- The call has returned `ret`, the context and the code are freed, and no other block is changed.
  pub record BothFreed (ret : ℤ) (lc code_kern : ℕ) (k : Kernel (Block S)) (call : Call)
      (k' : Kernel (Block S)) : Type 0 where
    pub status : call ≡ finished ret
    pub context : k'.heap lc ≡ none
    pub code : k'.heap code_kern ≡ none
    pub others : (p : ℕ) → p ≢ lc → p ≢ code_kern → k'.heap p ≡ k.heap p
    pub queue : (q : ℕ) → k'.queue q ≡ k.queue q
    pub workqueues : k'.workqueues ≡ k.workqueues

  pub out_lc-BothFreed :
      (ret : ℤ) (lc code_kern : ℕ) (b : Block S) (k : Kernel (Block S))
      → 0 < lc
      → is_err lc ≡ false
      → IsContext (k.heap lc)
      → 0 < code_kern
      → lc ≢ code_kern
      → k.heap code_kern ≡ some b
      → Returns (out_lc ret lc code_kern k) (BothFreed ret lc code_kern k)
  unfolding out_lc
  out_lc-BothFreed ret lc code_kern b k positive valid ctx nonnull apart here =
      Returns-bind (lunatik_context_destroy lc k) _ _
        (lunatik_context_destroy-Destroyed lc k positive valid ctx)
        λ _ k₁ gone.
          Returns-mono (out_code ret code_kern k₁)
            (out_code-CodeFreed ret code_kern b k₁ nonnull
              (gone.others code_kern (λ e. apart (sym e)) ∙ here))
            λ call k₂ done. record {
              status = done.status;
              context = done.others lc apart ∙ gone.freed;
              code = done.code;
              others = λ p ne ne'. done.others p ne' ∙ gone.others p ne;
              queue = λ q. done.queue q ∙ gone.queue q;
              workqueues = done.workqueues ∙ gone.workqueues;
            }

  store_lem :
      (p : ℕ) (b b' : Block S) (k : Kernel (Block S))
      → k.heap p ≡ some b
      → store p b' k ≡ some (tt, record k { heap = update k.heap p (some b') })
  unfolding store
  store_lem p b b' k here = ground arith

  -- A store into a block that is allocated.
  pub Returns-store :
      (p : ℕ) (b b' : Block S) (k : Kernel (Block S))
      → k.heap p ≡ some b
      → Returns (store p b' k) (λ _ k'. k' ≡ record k { heap = update k.heap p (some b') })
  Returns-store p b b' k here =
      subst (λ r. Returns r (λ _ k'. k' ≡ record k { heap = update k.heap p (some b') }))
        (sym (store_lem p b b' k here)) refl

  -- No workqueue is left, or one is: that of a context which was created, since nothing destroys it.
  abbrev pub Left : (k k' : Kernel (Block S)) → Type 0
  Left k k' = (k'.workqueues ≡ k.workqueues) ⊎ (k'.workqueues ≡ k.workqueues + 1)

  -- The call has returned an error. The heap is as before except for list nodes, the pending works
  -- are as before, and a workqueue is left at most.
  pub record Refused (k : Kernel (Block S)) (call : Call) (k' : Kernel (Block S)) : Type 0 where
    pub status : (ret : ℤ) × (call ≡ finished ret) × (is_zero ret ≡ false)
    pub others : (p : ℕ) → SameOrNode (k.heap p) (k'.heap p)
    pub queue : (q : ℕ) → k'.queue q ≡ k.queue q
    pub workqueues : Left k k'

  -- The code of `size` bytes is at the first address of `k` that was free, a context with the
  -- workqueue `wq` at `lc`, and nothing else is allocated but list nodes. `n` bounds their number.
  pub record Prepared (wq n size : ℕ) (k : Kernel (Block S)) (lc : ℕ) (k' : Kernel (Block S))
      : Type 0 where
    pub fresh : IsFresh k'
    pub code : (bs : List ℕ) × (k'.heap k.next ≡ some (bytes bs)) × (length bs ≡ size)
    pub context : IsContext (k'.heap lc)
    pub workqueue : wq_of (k'.heap lc) ≡ wq
    pub valid : is_err lc ≡ false
    pub apart : k.next < lc
    pub below : lc < k'.next
    pub next_le : k'.next ≤ k.next + 2 + n
    pub others : (p : ℕ) → p ≢ lc → p ≢ k.next → SameOrNode (k.heap p) (k'.heap p)
    pub queue : (q : ℕ) → k'.queue q ≡ k.queue q
    pub workqueues : k'.workqueues ≡ k.workqueues + 1
    pub plenty : k.oracle ≡ [] → k'.oracle ≡ []

  -- All that is prepared is freed again.
  pub out_lc-Refused :
      (wq n size : ℕ) (k : Kernel (Block S)) (lc : ℕ) (k' : Kernel (Block S)) (ret : ℤ)
      → IsFresh k
      → Prepared wq n size k lc k'
      → is_zero ret ≡ false
      → Returns (out_lc ret lc k.next k') (Refused k)
  out_lc-Refused wq n size k lc k' ret fresh prepared bad =
      let (bs, here, _) = prepared.code in
      let positive = fresh.next_pos in
      let apart = prepared.apart in
      Returns-mono (out_lc ret lc k.next k')
        (out_lc-BothFreed ret lc k.next (bytes bs) k' (omega arith) prepared.valid prepared.context
          positive (λ e. omega arith) here)
        λ call k₂ done. record {
          status = (ret, done.status, bad);
          others = λ p. ground (
            arith,
            prepared.others p,
            done.context,
            done.code,
            done.others p,
            fresh.free lc,
            fresh.free k.next,
          );
          queue = λ q. done.queue q ∙ prepared.queue q;
          workqueues = inr (done.workqueues ∙ prepared.workqueues);
        }
