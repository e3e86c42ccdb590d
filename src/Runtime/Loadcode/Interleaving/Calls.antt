-- ===== src/Runtime/Loadcode/Interleaving/Calls.antt =====
-- A call of `lunatik_loadcode_sync` of lib/lunatik/lunatik.c keeps the invariant.
use lunatik_ng.Base.{
  ℕ, ◌+◌, ◌-◌, ◌^◌, ◌<◌, ◌≡◌, ◌≢◌, refl, sym, ◌∙◌, false, none, some, List, [], ◌∷◌, ◌++◌, pos,
  arith, Bool-cases, inl, inr, ◌==◌,
}
use mathlib.Core.Path.{subst}
use lunatik_ng.Kernel.{Kernel, IsFresh, Returns}
use lunatik_ng.Runtime.{LoadData, Work, Block, context, load_data, work, bytes, loadcode_handler}
use lunatik_ng.Runtime.Loadcode.{Env, new_load_data, submit}
use lunatik_ng.Runtime.Loadcode.Turn.{Heap, Waiting, Evolves, Evolves-Waiting}
use lunatik_ng.Runtime.Loadcode.Submit.{loadcode_sync_submit}
use lunatik_ng.Runtime.Loadcode.Submit.Ready.{submitted}
use lunatik_ng.Runtime.Loadcode.Interleaving.{Code}
use lunatik_ng.Runtime.Loadcode.Interleaving.Invariant.{
  Pending, IsUnheld, IsSound, All-map, All-snoc, Distinct-snoc, In, In-snoc, In-last,
}

module _ {S : Type 0} (env : Env S) (lc wq : ℕ) (heap₀ : Heap S) (k : Kernel (Block S))
    (lws : List ℕ) (sound : IsSound lc wq heap₀ k lws) (code sz_code : ℕ)
    (room : k.next < 2 ^ 64 - 4095) (given : Code k.heap code sz_code) where
  abbrev request : LoadData
  request = record (new_load_data code sz_code) { need_result = false }

  abbrev called : Kernel (Block S)
  called = submitted env k lc sound.c request

  n_free : k.heap k.next ≡ none
  n_free = sound.fresh.free k.next (omega arith)

  next_free : k.heap (k.next + 1) ≡ none
  next_free = sound.fresh.free (k.next + 1) (omega arith)

  called_lem :
      loadcode_sync_submit lc code sz_code false k ≡ some ((pos 0, k.next, k.next + 1), called)
  unfolding loadcode_sync_submit submit
  called_lem =
      let p = sound.plenty in
      let c = sound.is_context in ground (arith, n_free, next_free, sound.fresh.next_pos)

  -- What was allocated stays.
  called_keeps : (p : ℕ) (b : Block S) → k.heap p ≡ some b → called.heap p ≡ some b
  called_keeps p b e = ground (arith, n_free, next_free)

  called_works :
      (p : ℕ) (w : Work) → called.heap p ≡ some (work w) → p ≢ k.next + 1 → k.heap p ≡ some (work w)
  called_works p w e ne = ground (arith, n_free, next_free)

  called-Evolves : Evolves k.heap called.heap
  called-Evolves = record {
    works = λ p w e. called_keeps p (work w) e;
    codes = λ p bs e. called_keeps p (bytes bs) e;
    requests = λ p ld e. (ld.ret, ld.complete, called_keeps p (load_data ld) e, omega arith);
  }

  called-Waiting : Waiting lc called.heap (k.next + 1)
  called-Waiting = record {
    w = record { lc = lc; wq = sound.c.wq; handler = loadcode_handler; work_data = k.next };
    ld = request;
    bs = given.content;
    queued = ground arith;
    to_context = refl;
    runs_code = refl;
    request = ground arith;
    is_request = record {
      no_result = refl;
      no_callback = refl;
      no_callback_nores = refl;
      kept = refl;
      positive = given.positive;
      small = given.small;
    };
    code = called_keeps code (bytes given.content) given.is_code;
    fits = given.fits;
  }

  called-Pending : (q : ℕ) → Pending k.heap q → Pending called.heap q
  called-Pending q now = record {
    w = now.w;
    ld = now.ld;
    queued = called_keeps q (work now.w) now.queued;
    request = called_keeps now.w.work_data (load_data now.ld) now.request;
    down = now.down;
  }

  abbrev new_work : Work
  new_work = record { lc = lc; wq = sound.c.wq; handler = loadcode_handler; work_data = k.next }

  -- A work that was there has other data.
  data_differs : (p : ℕ) (w : Work) → k.heap p ≡ some (work w) → w.work_data ≢ k.next
  data_differs p w e same =
      let r = sound.requests p w e in
      let q = r.queued in let d = r.request in ground (arith, n_free)

  called_own :
      (p q : ℕ) (v w : Work)
      → called.heap p ≡ some (work v)
      → called.heap q ≡ some (work w)
      → v.work_data ≡ w.work_data
      → p ≡ q
  called_own p q v w e d same = elim (Bool-cases (p == k.next + 1)) [
    | inl is_new ↦ elim (Bool-cases (q == k.next + 1)) [
      | inl too ↦ ground arith
      | inr old ↦ absurd (data_differs q w (called_works q w d (ground arith)) (ground arith))
    ]
    | inr old ↦ elim (Bool-cases (q == k.next + 1)) [
      | inl is_new ↦ absurd (data_differs p v (called_works p v e (ground arith)) (ground arith))
      | inr old' ↦
          sound.own p q v w (called_works p v e (ground arith)) (called_works q w d (ground arith))
            same
    ]
  ]

  called_requests : (p : ℕ) (w : Work) → called.heap p ≡ some (work w) → Waiting lc called.heap p
  called_requests p w e = elim (Bool-cases (p == k.next + 1)) [
    | inl is_new ↦
        let at : k.next + 1 ≡ p = ground arith in subst (Waiting lc called.heap) at called-Waiting
    | inr old ↦
        Evolves-Waiting lc k.heap called.heap p called-Evolves
          (sound.requests p w (called_works p w e (ground arith)))
  ]

  called_rest : (p : ℕ) → p ≢ lc → IsUnheld called.heap p → called.heap p ≡ heap₀ p
  called_rest p ne unheld =
      let (not_work, not_data) = unheld (k.next + 1) new_work (ground arith) in
      let same : called.heap p ≡ k.heap p = ground arith in
      same ∙ sound.rest p ne λ q w e. unheld q w (called_keeps q (work w) e)

  -- An address that is not allocated was none at the beginning.
  new_at : (p : ℕ) → k.heap p ≡ none → heap₀ p ≡ none
  new_at p e =
      let c = sound.is_context in
      sym (
        sound.rest p (λ s. ground arith)
          λ q w h.
            let r = sound.requests q w h in
            let q' = r.queued in let d = r.request in ((λ s. ground arith), (λ s. ground arith)))
      ∙ e

  called_new :
      (p : ℕ) (w : Work)
      → called.heap p ≡ some (work w)
      → (heap₀ p ≡ none) × (heap₀ w.work_data ≡ none)
  called_new p w e = elim (Bool-cases (p == k.next + 1)) [
    | inl is_new ↦
        let a = new_at (k.next + 1) next_free in
        let b = new_at k.next n_free in
        let at : p ≡ k.next + 1 = ground arith in
        let data_at : w.work_data ≡ k.next = ground arith in
        (subst (λ x. heap₀ x ≡ none) (sym at) a, subst (λ x. heap₀ x ≡ none) (sym data_at) b)
    | inr old ↦ sound.new p w (called_works p w e (ground arith))
  ]

  called_waits :
      (p : ℕ) (w : Work) (ld : LoadData)
      → called.heap p ≡ some (work w)
      → called.heap w.work_data ≡ some (load_data ld)
      → ld.complete ≡ 0
      → In p (lws ++ (k.next + 1) ∷ [])
  called_waits p w ld e at down = elim (Bool-cases (p == k.next + 1)) [
    | inl is_new ↦
        let same : k.next + 1 ≡ p = ground arith in
        subst (λ x. In x (lws ++ (k.next + 1) ∷ [])) same (In-last lws (k.next + 1))
    | inr old ↦
        let e' = called_works p w e (ground arith) in
        let ne = data_differs p w e' in
        let r = sound.requests p w e' in
        let q = r.queued in
        In-snoc p lws (k.next + 1)
          (sound.waits p w ld e' (ground (arith, r.request, next_free)) down)
  ]

  called-IsFresh : IsFresh called
  called-IsFresh = record {
    next_pos = omega arith;
    free = λ p h. ground (arith, sound.fresh.free p);
  }

  new-Pending : Pending called.heap (k.next + 1)
  new-Pending = record {
    w = new_work;
    ld = request;
    queued = ground arith;
    request = ground arith;
    down = refl;
  }

  called-IsSound : IsSound lc wq heap₀ called (lws ++ (k.next + 1) ∷ [])
  called-IsSound = record {
    c = sound.c;
    is_context = called_keeps lc (context sound.c) sound.is_context;
    unlocked = sound.unlocked;
    same_wq = sound.same_wq;
    plenty = sound.plenty;
    fresh = called-IsFresh;
    null = let z = sound.null in ground (arith, sound.fresh.next_pos);
    requests = called_requests;
    own = called_own;
    new = called_new;
    pending =
        All-snoc (Pending called.heap) lws (k.next + 1) (All-map lws called-Pending sound.pending)
          new-Pending;
    waits = called_waits;
    distinct = Distinct-snoc lws (k.next + 1) sound.distinct (
        All-map {P = Pending k.heap} lws
          (λ q now same. let e = now.queued in ground (arith, next_free)) sound.pending);
    rest = called_rest;
  }

  called_queue : called.queue wq ≡ k.queue wq ++ (k.next + 1) ∷ []
  called_queue = let e = sound.same_wq in ground arith

  -- The call returns to its wait without a fault. Its work is the last of those that wait to run, and
  -- all that was allocated stays.
  pub record Called (k' : Kernel (Block S)) : Type 0 where
    pub lw : ℕ
    pub sound' : IsSound lc wq heap₀ k' (lws ++ lw ∷ [])
    pub queue : k'.queue wq ≡ k.queue wq ++ lw ∷ []
    pub keeps : (p : ℕ) (b : Block S) → k.heap p ≡ some b → k'.heap p ≡ some b

  pub loadcode_sync_submit-Called :
      Returns (loadcode_sync_submit lc code sz_code false k) (λ _. Called)
  loadcode_sync_submit-Called =
      subst (λ r. Returns r (λ _. Called)) (sym called_lem)
        (record {
          lw = k.next + 1;
          sound' = called-IsSound;
          queue = called_queue;
          keeps = called_keeps;
        })
