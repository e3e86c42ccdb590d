-- ===== src/Runtime/Loadcode/Interleaving/Runs.antt =====
-- The steps of the worker for `lunatik_loadcode_sync` of lib/lunatik/lunatik.c keep the invariant.
use lunatik_ng.Base.{
  ℕ, ◌≡◌, ◌≢◌, refl, sym, ◌∙◌, false, none, some, List, ◌∷◌, arith, Bool-cases, inl, inr, ◌==◌,
}
use mathlib.Core.Path.{subst}
use lunatik_ng.Kernel.{Kernel, IsFresh, Returns}
use lunatik_ng.Runtime.{Context, LoadData, Work, Block, context, work, load_data}
use lunatik_ng.Runtime.Loadcode.{Env, handler_execute, handler_notify}
use lunatik_ng.Runtime.Loadcode.Turn.{
  Heap, Waiting, Evolves, Evolves-Waiting, posted, posted_lem, posted-Evolves, posted_context,
  posted_elsewhere, posted_answer, posted_same, handler_notify_lem,
}
use lunatik_ng.Runtime.Loadcode.Interleaving.{posting}
use lunatik_ng.Runtime.Loadcode.Interleaving.Invariant.{
  Pending, IsUnheld, IsSound, IsHeld, All-zip, In, In-tail,
}

module _ {S : Type 0} (env : Env S) (lc wq : ℕ) (heap₀ : Heap S) (k : Kernel (Block S)) (lw : ℕ)
    (lws : List ℕ) (sound : IsSound lc wq heap₀ k (lw ∷ lws)) where
  first : Pending k.heap lw
  first = sound.pending.0

  now : Waiting lc k.heap lw
  now = sound.requests lw first.w first.queued

  abbrev ran : Kernel (Block S)
  ran = posted env lc k sound.c lw sound.is_context sound.unlocked now

  evolves : Evolves k.heap ran.heap
  evolves = posted-Evolves env lc k sound.c lw sound.is_context sound.unlocked now

  elsewhere : (p : ℕ) → p ≢ lc → p ≢ now.w.work_data → ran.heap p ≡ k.heap p
  elsewhere = posted_elsewhere env lc k sound.c lw sound.is_context sound.unlocked now

  same : (ran.oracle ≡ k.oracle) × (ran.next ≡ k.next) × (ran.queue ≡ k.queue)
  same = posted_same env lc k sound.c lw sound.is_context sound.unlocked now

  again :
      (c' : Context S) × (ran.heap lc ≡ some (context c'))
      × (c'.locked ≡ false)
      × (c'.wq ≡ sound.c.wq)
  again = posted_context env lc k sound.c lw sound.is_context sound.unlocked now

  -- The works are the same.
  ran_works : (p : ℕ) (w : Work) → ran.heap p ≡ some (work w) → k.heap p ≡ some (work w)
  ran_works p w e = elim (Bool-cases (p == lc)) [
    | inl at ↦ let (_, here, _, _) = again in absurd (ground arith)
    | inr apart ↦ elim (Bool-cases (p == now.w.work_data)) [
      | inl at ↦
          let a = posted_answer env lc k sound.c lw sound.is_context sound.unlocked now in
          absurd (ground arith)
      | inr apart' ↦ sym (elsewhere p (ground arith) (ground arith)) ∙ e
    ]
  ]

  ran-IsFresh : IsFresh ran
  ran-IsFresh =
      let (_, next, _) = same in
      let pos = sound.fresh.next_pos in
      let here = sound.is_context in
      let there = now.request in
      record {
        next_pos = omega arith;
        free = λ p h.
            let none_there = sound.fresh.free p (omega arith) in
            elsewhere p (λ e. ground arith) (λ e. ground arith) ∙ none_there;
      }

  ran_null : ran.heap 0 ≡ none
  ran_null =
      let z = sound.null in
      let here = sound.is_context in
      let there = now.request in elsewhere 0 (λ e. ground arith) (λ e. ground arith) ∙ z

  ran-Pending : (q : ℕ) → lw ≢ q → Pending k.heap q → Pending ran.heap q
  ran-Pending q other p =
      let here = sound.is_context in
      let there = now.request in
      let queued = p.queued in
      let request = p.request in
      record {
        w = p.w;
        ld = p.ld;
        queued = evolves.works q p.w p.queued;
        request =
            elsewhere p.w.work_data (λ e. ground arith)
              (λ e. other (sym (sound.own q lw p.w now.w p.queued now.queued e)))
            ∙ p.request;
        down = p.down;
      }

  -- The semaphore of the work that has run is up.
  ran_waits :
      (p : ℕ) (w : Work) (ld : LoadData)
      → ran.heap p ≡ some (work w)
      → ran.heap w.work_data ≡ some (load_data ld)
      → ld.complete ≡ 0
      → In p lws
  ran_waits p w ld e at down = elim (Bool-cases (w.work_data == now.w.work_data)) [
    | inl mine ↦
        let a = posted_answer env lc k sound.c lw sound.is_context sound.unlocked now in
        absurd (ground arith)
    | inr other ↦
        let e' = ran_works p w e in
        let r = (sound.requests p w e').request in
        let q = (sound.requests p w e').queued in
        let c = sound.is_context in
        let n = now.queued in
        In-tail p lw lws (λ same. ground arith)
          (sound.waits p w ld e'
            (sym (elsewhere w.work_data (λ s. ground arith) (ground arith)) ∙ at) down)
  ]

  ran_rest : (p : ℕ) → p ≢ lc → IsUnheld ran.heap p → ran.heap p ≡ heap₀ p
  ran_rest p ne unheld =
      let (_, not_data) = unheld lw now.w (evolves.works lw now.w now.queued) in
      elsewhere p ne (λ e. not_data (sym e))
      ∙ sound.rest p ne λ q w e. unheld q w (evolves.works q w e)

  ran-IsSound : IsSound lc wq heap₀ ran lws
  ran-IsSound =
      let (c', here, unlocked, same_wq) = again in
      let (oracle, _, _) = same in
      record {
        c = c';
        is_context = here;
        unlocked = unlocked;
        same_wq = same_wq ∙ sound.same_wq;
        plenty = oracle ∙ sound.plenty;
        fresh = ran-IsFresh;
        null = ran_null;
        requests = λ p w e.
            Evolves-Waiting lc k.heap ran.heap p evolves (sound.requests p w (ran_works p w e));
        own = λ p q v w e d. sound.own p q v w (ran_works p v e) (ran_works q w d);
        new = λ p w e. sound.new p w (ran_works p w e);
        pending = All-zip lws ran-Pending sound.distinct.0 sound.pending.1;
        waits = ran_waits;
        distinct = sound.distinct.1;
        rest = ran_rest;
      }

  -- The handler runs up to the semaphore without a fault. Its work is not one of those that wait to run
  -- any more, and it is still there.
  pub record Ran (d : ℕ) (k' : Kernel (Block S)) : Type 0 where
    pub sound' : IsSound lc wq heap₀ k' lws
    pub queue : k'.queue ≡ k.queue
    pub held : IsHeld k'.heap (posting lw d)
    pub works : (p : ℕ) (w : Work) → k.heap p ≡ some (work w) → k'.heap p ≡ some (work w)

  pub handler_execute-Ran :
      (w : Work)
      → k.heap lw ≡ some (work w)
      → Returns (handler_execute env lw k) (λ _. Ran w.work_data)
  handler_execute-Ran w e =
      subst (λ r. Returns r (λ _. Ran w.work_data))
        (sym (posted_lem env lc k sound.c lw sound.is_context sound.unlocked now))
        (record {
          sound' = ran-IsSound;
          queue = let (_, _, q) = same in q;
          held = (w, evolves.works lw w e, refl);
          works = evolves.works;
        })

module _ {S : Type 0} (env : Env S) (lc wq : ℕ) (heap₀ : Heap S) (k : Kernel (Block S))
    (lws : List ℕ) (sound : IsSound lc wq heap₀ k lws) where
  -- Behind the semaphore the handler changes nothing.
  pub handler_notify-same :
      (lw d : ℕ)
      → IsHeld k.heap (posting lw d)
      → Returns (handler_notify env lw d k) (λ _ k'. k' ≡ k)
  handler_notify-same lw d (w, there, at_d) =
      let now = sound.requests lw w there in
      let q = now.queued in
      let same : now.w.work_data ≡ d = ground arith in
      subst (λ r. Returns r (λ _ k'. k' ≡ k))
        (sym (
          handler_notify_lem env lw d k now.ld
            (subst (λ p. k.heap p ≡ some (load_data now.ld)) same now.request)
            now.is_request.no_callback now.is_request.no_callback_nores now.is_request.kept))
        refl
