-- ===== src/Runtime/Loadcode/Examples.antt =====
-- Two callers on one context of lib/lunatik/lunatik.c.
use lunatik_ng.Base.{ℕ, ◌≡◌, refl, [], ◌∷◌, some, arith, All}
use lunatik_ng.Kernel.{Kernel, Returns, update}
use lunatik_ng.Runtime.{Value, Block, LoadData, load_data, work, loadcode_handler}
use lunatik_ng.Runtime.Examples.{env, ctx, code, started}
use lunatik_ng.Runtime.Loadcode.{new_load_data}
use lunatik_ng.Runtime.Loadcode.Turn.{Waiting}
use lunatik_ng.Runtime.Loadcode.Released.{run_workers, WaitEnds, sync_callers-WaitEnds}

abbrev sync_request : LoadData
sync_request = new_load_data 2 2

-- Two callers have submitted the code; their works are at 4 and 6.
abbrev two_callers : Kernel (Block Value)
two_callers = record started {
  heap =
      update
        (update
          (update (update started.heap 3 (some (load_data sync_request))) 4
            (some (work (record { lc = 1; wq = 9; handler = loadcode_handler; work_data = 3 }))))
          5 (some (load_data sync_request)))
        6 (some (work (record { lc = 1; wq = 9; handler = loadcode_handler; work_data = 5 })));
  next = 7;
  queue = update (λ wq. []) 9 (4 ∷ 6 ∷ []);
}

waits :
    (lw d : ℕ)
    → two_callers.heap lw
      ≡ some (work (record { lc = 1; wq = 9; handler = loadcode_handler; work_data = d }))
    → two_callers.heap d ≡ some (load_data sync_request)
    → Waiting 1 two_callers.heap lw
waits lw d queued request = record {
  w = record { lc = 1; wq = 9; handler = loadcode_handler; work_data = d };
  ld = sync_request;
  bs = code;
  queued = queued;
  to_context = refl;
  runs_code = refl;
  request = request;
  is_request = record {
    no_result = refl;
    no_callback = refl;
    no_callback_nores = refl;
    kept = refl;
    positive = omega arith;
    small = omega arith;
  };
  code = refl;
  fits = omega arith;
}

two_callers_end :
    Returns
      (run_workers env 9 2 two_callers)
      (λ _ k'. (k'.queue 9 ≡ []) × All (WaitEnds k') (4 ∷ 6 ∷ []))
two_callers_end =
    sync_callers-WaitEnds env 1 (4 ∷ 6 ∷ []) two_callers ctx refl refl refl
      (waits 4 3 refl refl, (waits 6 5 refl refl, tt))
