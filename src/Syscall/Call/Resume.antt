-- ===== src/Syscall/Call/Resume.antt =====
-- `sys_lua` of lib/lunatik/lunatik_syscall.c from its wait on, where the worker has run the code.
use lunatik_ng.Base.{
  ℕ, ◌-◌, ◌≤◌, ◌<◌, ◌≡◌, ◌≢◌, refl, sym, ◌∙◌, true, false, none, some, ℤ, arith, Bool-cases,
  Option-cases, inl, inr, ◌==◌, is_zero,
}
use mathlib.Core.Path.{subst}
use lunatik_ng.Base.Bytes.{le_bytes}
use lunatik_ng.Kernel.{Kernel, Returns, Returns-bind, Returns-mono, update, is_err}
use lunatik_ng.Runtime.{
  Block, LoadData, load_data, work, Work, LunatikResult, Payload, zeroed, load_result, load_bytes,
}
use lunatik_ng.Runtime.Bindings.Load.{IsContext}
use lunatik_ng.Runtime.Result.{lunatik_result_free}
use lunatik_ng.Runtime.Result.Blocks.{
  ResultAt, Parts, ResultAt-same, Freed, lunatik_result_free-Freed,
}
use lunatik_ng.Runtime.Loadcode.Submit.{returned, loadcode_sync_wait}
use lunatik_ng.Syscall.{copy_payload, put_size, copy_lunatik_result_to_user}
use lunatik_ng.Syscall.Memory.{User, get_user, put_user}
use lunatik_ng.Syscall.Call.{Call, finished, put_result, out_lc, sys_lua_resume}
use lunatik_ng.Syscall.Call.Steps.{out_lc-BothFreed}

module _ {S : Type 0} where
  copy_payload-same :
      (payload : Payload) (r type r_data size : ℕ) (u : User) (k : Kernel (Block S))
      → Parts k.heap r type payload
      → Returns (copy_payload type payload r_data size u k) (λ _ k'. k' ≡ k)
  unfolding copy_payload load_bytes
  copy_payload-same zeroed r type r_data size u k parts = ground arith
  copy_payload-same other r type r_data size u k parts = ground arith

  -- The copy changes nothing in the kernel.
  copy-same :
      (res : LunatikResult) (r r_type r_data r_size : ℕ) (u : User) (k : Kernel (Block S))
      → Parts k.heap r res.r_type res.payload
      → Returns (copy_lunatik_result_to_user res r_type r_data r_size u k) (λ _ k'. k' ≡ k)
  unfolding copy_lunatik_result_to_user put_size
  copy-same res r r_type r_data r_size u k parts = elim (Option-cases (get_user 8 r_size u)) [
    | inl unread ↦ rw (unread, Returns) refl
    | inr (size, read) ↦
        let u₁ : User = (put_user r_type (le_bytes 4 res.r_type) u).1 in
        rw (read, Returns)
          (elim (Bool-cases (is_zero (put_user r_type (le_bytes 4 res.r_type) u).0)) [
            | inl typed ↦ rw typed (
                Returns-bind (copy_payload res.r_type res.payload r_data size u₁ k)
                  (put_size r_size) _
                  (copy_payload-same res.payload r res.r_type r_data size u₁ k parts) λ c k' e. e)
            | inr untyped ↦ rw untyped refl
          ])
  ]

  -- The call has returned: the context, the code, the request and the result are freed, and other blocks
  -- stay.
  pub record Ended (lc code d lw r : ℕ) (k : Kernel (Block S)) (call : Call) (k' : Kernel (Block S))
      : Type 0 where
    pub status : (ret : ℤ) × (call ≡ finished ret)
    pub freed :
        (k'.heap lc ≡ none) × (k'.heap code ≡ none) × (k'.heap d ≡ none) × (k'.heap lw ≡ none)
    pub gone : (q : ℕ) → r ≤ q → k'.heap q ≡ none
    pub others : (q : ℕ) → q < r → q ≢ lc → q ≢ code → q ≢ d → q ≢ lw → k'.heap q ≡ k.heap q
    pub workqueues : k'.workqueues ≡ k.workqueues

  module _ (k : Kernel (Block S)) (lc code d lw r : ℕ) (ld : LoadData) (w : Work) (b : Block S)
      (request : k.heap d ≡ some (load_data ld)) (queued : k.heap lw ≡ some (work w))
      (raised : ld.complete ≡ 1) (answer : ld.result ≡ r) (at : ResultAt r k.heap)
      (ctx : IsContext (k.heap lc)) (valid : is_err lc ≡ false) (is_code : k.heap code ≡ some b)
      (p₁ : 0 < code) (p₂ : code < lc) (p₃ : lc < d) (p₄ : d < lw) (p₅ : lw < r) where
    abbrev waited : Kernel (Block S)
    waited = record k {
      heap =
          update
            (update (update k.heap d (some (load_data (record ld { complete = ld.complete - 1 }))))
              lw none)
            d none;
    }

    waited_lem : loadcode_sync_wait d lw true false k ≡ some (returned ld.ret r, waited)
    unfolding loadcode_sync_wait
    waited_lem = ground arith

    waited-ResultAt : ResultAt r waited.heap
    waited-ResultAt = ResultAt-same r k.heap waited.heap (λ q h. ground arith) at

    loaded_lem : load_result r waited ≡ some (waited-ResultAt.res, waited)
    unfolding load_result
    loaded_lem = let h = waited-ResultAt.here in ground arith

    put-Freed :
        (ret : ℤ) (r_type r_data r_size : ℕ) (u : User)
        → Returns (put_result ret r r_type r_data r_size u waited) (λ _. Freed r waited)
    unfolding put_result
    put-Freed ret r_type r_data r_size u =
        let given : (r == 0) ≡ false = ground arith in
        let res = waited-ResultAt.res in
        rw (given, Returns)
          (Returns-bind (load_result r waited) _ _
            (subst (λ x. Returns x (λ v k'. (v ≡ res) × (k' ≡ waited))) (sym loaded_lem)
              (refl, refl))
            λ v k₁ (is_res, same₁).
              rw (is_res, same₁)
                (Returns-bind (copy_lunatik_result_to_user res r_type r_data r_size u waited) _ _
                  (copy-same res r r_type r_data r_size u waited waited-ResultAt.parts)
                  λ o k₂ same₂. rw same₂ (
                    Returns-bind (lunatik_result_free r waited) _ _
                      (lunatik_result_free-Freed r waited (omega arith) waited-ResultAt)
                      λ _ k₃ freed. freed)))

    -- `k₂` is the kernel behind the copy of the result.
    ended :
        (ret : ℤ) (k₂ : Kernel (Block S))
        → Freed r waited k₂
        → Returns (out_lc ret lc code k₂) (Ended lc code d lw r k)
    ended ret k₂ done =
        let at_lc : k₂.heap lc ≡ k.heap lc = done.below lc (omega arith) ∙ ground arith in
        let at_code : k₂.heap code ≡ k.heap code = done.below code (omega arith) ∙ ground arith in
        Returns-mono (out_lc ret lc code k₂)
          (out_lc-BothFreed ret lc code b k₂ (omega arith) valid (subst IsContext (sym at_lc) ctx)
            p₁ (λ e. omega arith) (at_code ∙ is_code))
          λ call k₃ both. record {
            status = (ret, both.status);
            freed = (
              both.context,
              both.code,
              both.others d (λ e. omega arith) (λ e. omega arith)
                  ∙ done.below d (omega arith)
                  ∙ ground arith,
              both.others lw (λ e. omega arith) (λ e. omega arith)
                  ∙ done.below lw p₅
                  ∙ ground arith,
            );
            gone = λ q h. both.others q (λ e. omega arith) (λ e. omega arith) ∙ done.gone q h;
            others = λ q h n₁ n₂ n₃ n₄. both.others q n₁ n₂ ∙ done.below q h ∙ ground arith;
            workqueues = both.workqueues ∙ done.workqueues;
          }

    pub sys_lua_resume-Ended :
        (r_type r_data r_size : ℕ) (u : User)
        → Returns
            (sys_lua_resume lc code d lw r_type r_data r_size false u k)
            (λ o. Ended lc code d lw r k o.0)
    unfolding sys_lua_resume
    sys_lua_resume-Ended r_type r_data r_size u =
        Returns-bind (loadcode_sync_wait d lw true false k) _ _
          (subst (λ x. Returns x (λ o k'. (o ≡ returned ld.ret r) × (k' ≡ waited))) (sym waited_lem)
            (refl, refl))
          λ o k₁ (is_out, same).
            rw (is_out, same)
              (Returns-bind (put_result ld.ret r r_type r_data r_size u waited) _ _
                (put-Freed ld.ret r_type r_data r_size u)
                λ o₂ k₂ done.
                  Returns-bind (out_lc o₂.0 lc code k₂) _ _ (ended o₂.0 k₂ done) λ call k₃ h. h)
