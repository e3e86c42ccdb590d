-- ===== src/Runtime/Loadcode/Interleaving/Resumes.antt =====
-- A caller of `lunatik_loadcode_sync` of lib/lunatik/lunatik.c that goes on keeps the invariant.
use lunatik_ng.Base.{
  ℕ, ◌-◌, ◌≡◌, ◌≢◌, refl, sym, ◌∙◌, false, none, some, List, [], arith, Bool-cases, inl, inr, ◌==◌,
}
use mathlib.Core.Path.{subst}
use lunatik_ng.Kernel.{Kernel, Returns, update}
use lunatik_ng.Runtime.{LoadData, Work, Block, work, load_data}
use lunatik_ng.Runtime.Loadcode.Turn.{Heap, Waiting}
use lunatik_ng.Runtime.Loadcode.Submit.{blocked, returned, loadcode_sync_wait}
use lunatik_ng.Runtime.Loadcode.Interleaving.Invariant.{Pending, IsUnheld, IsSound, All-map, In}

module _ {S : Type 0} (lc wq : ℕ) (heap₀ : Heap S) (k : Kernel (Block S)) (lws : List ℕ)
    (sound : IsSound lc wq heap₀ k lws) (lw : ℕ) (w : Work)
    (there : k.heap lw ≡ some (work w)) where
  abbrev now : Waiting lc k.heap lw
  now = sound.requests lw w there

  abbrev d : ℕ
  d = w.work_data

  request : k.heap d ≡ some (load_data now.ld)
  request = let q = now.queued in let r = now.request in ground arith

  -- The work and its data are freed.
  abbrev freed : Kernel (Block S)
  freed = record k {
    heap =
        update
          (update
            (update k.heap d (some (load_data (record now.ld { complete = now.ld.complete - 1 }))))
            lw none)
          d none;
  }

  blocked_lem : now.ld.complete ≡ 0 → loadcode_sync_wait d lw false false k ≡ some (blocked, k)
  unfolding loadcode_sync_wait
  blocked_lem down = let r = request in ground arith

  freed_lem :
      now.ld.complete ≢ 0
      → loadcode_sync_wait d lw false false k ≡ some (returned now.ld.ret 0, freed)
  unfolding loadcode_sync_wait
  freed_lem up = let r = request in let z = sound.null in ground arith

  elsewhere : (p : ℕ) → p ≢ lw → p ≢ d → freed.heap p ≡ k.heap p
  elsewhere p a b = ground arith

  gone : (freed.heap lw ≡ none) × (freed.heap d ≡ none)
  gone = ground arith

  freed_works :
      (q : ℕ) (v : Work) → freed.heap q ≡ some (work v) → (k.heap q ≡ some (work v)) × (q ≢ lw)
  freed_works q v e = ground arith

  -- Another work and its request stay.
  apart :
      (q : ℕ) (v : Work)
      → k.heap q ≡ some (work v)
      → q ≢ lw
      → (freed.heap q ≡ some (work v)) × (v.work_data ≢ d)
  apart q v e ne =
      let r = request in
      (elsewhere q ne (λ same. ground arith) ∙ e, λ same. ne (sound.own q lw v w e there same))

  spared :
      (q : ℕ) (v : Work) (b : LoadData)
      → k.heap q ≡ some (work v)
      → q ≢ lw
      → k.heap v.work_data ≡ some (load_data b)
      → freed.heap v.work_data ≡ some (load_data b)
  spared q v b e ne data_there =
      let (_, other) = apart q v e ne in
      elsewhere v.work_data (λ s. ground arith) other ∙ data_there

  freed-Waiting : (q : ℕ) → q ≢ lw → Waiting lc k.heap q → Waiting lc freed.heap q
  freed-Waiting q ne r =
      let a = request in
      let c = r.code in
      let (queued, _) = apart q r.w r.queued ne in
      record {
        w = r.w;
        ld = r.ld;
        bs = r.bs;
        queued = queued;
        to_context = r.to_context;
        runs_code = r.runs_code;
        request = spared q r.w r.ld r.queued ne r.request;
        is_request = record {
          no_result = r.is_request.no_result;
          no_callback = r.is_request.no_callback;
          no_callback_nores = r.is_request.no_callback_nores;
          kept = r.is_request.kept;
          positive = r.is_request.positive;
          small = r.is_request.small;
        };
        code = elsewhere r.ld.code (λ s. ground arith) (λ s. ground arith) ∙ c;
        fits = r.fits;
      }

  -- A work whose semaphore is down is not that of this caller.
  freed-Pending : now.ld.complete ≢ 0 → (q : ℕ) → Pending k.heap q → Pending freed.heap q
  freed-Pending up q p =
      let r = request in
      let a = p.queued in
      let b = p.request in
      let c = p.down in
      let ne : q ≢ lw = λ s. ground arith in
      let (queued, _) = apart q p.w p.queued ne in
      record {
        w = p.w;
        ld = p.ld;
        queued = queued;
        request = spared q p.w p.ld p.queued ne p.request;
        down = p.down;
      }

  freed_rest : (p : ℕ) → p ≢ lc → IsUnheld freed.heap p → freed.heap p ≡ heap₀ p
  freed_rest p ne unheld =
      let (new_lw, new_d) = sound.new lw w there in
      let (gone_lw, gone_d) = gone in
      elim (Bool-cases (p == lw)) [
        | inl at ↦
            let e : lw ≡ p = ground arith in
            subst (λ x. freed.heap x ≡ heap₀ x) e (gone_lw ∙ sym new_lw)
        | inr off ↦ elim (Bool-cases (p == d)) [
          | inl at ↦
              let e : d ≡ p = ground arith in
              subst (λ x. freed.heap x ≡ heap₀ x) e (gone_d ∙ sym new_d)
          | inr off' ↦
              elsewhere p (ground arith) (ground arith)
              ∙ sound.rest p ne λ q v e. elim (Bool-cases (q == lw)) [
                | inl mine ↦ let t = there in ((λ s. ground arith), (λ s. ground arith))
                | inr other ↦ let (f, _) = apart q v e (ground arith) in unheld q v f
              ]
        ]
      ]

  freed-IsSound : now.ld.complete ≢ 0 → IsSound lc wq heap₀ freed lws
  freed-IsSound up =
      let r = request in
      let c = sound.is_context in
      record {
        c = sound.c;
        is_context = elsewhere lc (λ s. ground arith) (λ s. ground arith) ∙ c;
        unlocked = sound.unlocked;
        same_wq = sound.same_wq;
        plenty = sound.plenty;
        fresh = record {
          next_pos = sound.fresh.next_pos;
          free = λ p h. ground (arith, sound.fresh.free p);
        };
        null = let z = sound.null in ground arith;
        requests = λ q v e.
            let (old, ne) = freed_works q v e in freed-Waiting q ne (sound.requests q v old);
        own = λ p q v v' e e'. sound.own p q v v' (freed_works p v e).0 (freed_works q v' e').0;
        new = λ q v e. sound.new q v (freed_works q v e).0;
        pending = All-map lws (freed-Pending up) sound.pending;
        waits = λ q v ld e at down.
            let (old, ne) = freed_works q v e in
            let (_, other) = apart q v old ne in
            let s = sound.requests q v old in
            let a = s.queued in
            let b = s.request in
            sound.waits q v ld old (sym (elsewhere v.work_data (λ s. ground arith) other) ∙ at)
              down;
        distinct = sound.distinct;
        rest = freed_rest;
      }

  -- The caller goes on without a fault: it still waits, or its blocks are freed and those of the others
  -- stay.
  pub record Resumed (k' : Kernel (Block S)) : Type 0 where
    pub sound' : IsSound lc wq heap₀ k' lws
    pub queue : k'.queue ≡ k.queue
    pub spares : (q : ℕ) (v : Work) → k.heap q ≡ some (work v) → q ≢ lw → k'.heap q ≡ some (work v)

  pub loadcode_sync_wait-Resumed :
      Returns (loadcode_sync_wait w.work_data lw false false k) (λ _. Resumed)
  loadcode_sync_wait-Resumed = elim (Bool-cases (now.ld.complete == 0)) [
    | inl down ↦
        subst (λ r. Returns r (λ _. Resumed)) (sym (blocked_lem (ground arith)))
          (record { sound' = sound; queue = refl; spares = λ q v e _. e })
    | inr up ↦
        subst (λ r. Returns r (λ _. Resumed)) (sym (freed_lem (ground arith)))
          (record {
            sound' = freed-IsSound (ground arith);
            queue = refl;
            spares = λ q v e ne. (apart q v e ne).0;
          })
  ]

  -- If all works have run, the wait ends.
  pub drained_lem :
      lws ≡ [] → Returns (loadcode_sync_wait w.work_data lw false false k) (λ out _. out ≢ blocked)
  drained_lem none_left =
      subst (λ r. Returns r (λ out _. out ≢ blocked))
        (sym
          (freed_lem λ down. subst (In lw) none_left (sound.waits lw w now.ld there request down)))
        λ e. cc
