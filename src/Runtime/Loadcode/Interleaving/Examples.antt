-- ===== src/Runtime/Loadcode/Interleaving/Examples.antt =====
-- Two callers of `lunatik_loadcode_sync` of lib/lunatik/lunatik.c and the worker, with their steps
-- mixed.
use lunatik_ng.Base.{ℕ, ◌≡◌, ◌≢◌, refl, false, Option, none, some, arith, pos}
use lunatik_ng.Kernel.{Kernel, take_work, Returns}
use lunatik_ng.Runtime.{Value, Block, bytes, Work, work, loadcode_handler}
use lunatik_ng.Runtime.Loadcode.{submit, handler_execute, handler_notify, loadcode_internal}
use lunatik_ng.Runtime.Loadcode.Submit.{blocked, returned, loadcode_sync_submit, loadcode_sync_wait}
use lunatik_ng.Runtime.Loadcode.Interleaving.{
  World, idle, fetched, posting, Code, call, take, execute, notify, resume, Reach, here, next,
}
use lunatik_ng.Runtime.Loadcode.Interleaving.Keeps.{IsStart}
use lunatik_ng.Runtime.Loadcode.Interleaving.Safe.{IsSafe, Reach-IsSafe, Reach-returned}
use lunatik_ng.Runtime.Loadcode.Interleaving.Drained.{Reach-released}
use lunatik_ng.Runtime.Examples.{env, started, ctx, code}

abbrev start : World Value
start = record { kernel = started; worker = idle }

is_start : IsStart 1 9 start
is_start = record {
  c = ctx;
  is_context = refl;
  unlocked = refl;
  same_wq = refl;
  plenty = refl;
  fresh = record { next_pos = omega arith; free = λ p h. ground arith };
  null = refl;
  no_works = λ p w. ground arith;
  no_queue = refl;
  waits = refl;
}

abbrev code_at : (heap : ℕ → Option (Block Value)) → heap 2 ≡ some (bytes code) → Code heap 2 2
code_at heap e = record {
  content = code;
  is_code = e;
  positive = omega arith;
  fits = omega arith;
  small = omega arith;
}

-- The kernel that a command leaves.
abbrev left_by : {A : Type 0} → Option (A × Kernel (Block Value)) → Kernel (Block Value)
left_by none = started
left_by (some (a, k)) = k

-- Both call, the second while the worker has the work of the first; each goes on when its work is done.
abbrev k1 : Kernel (Block Value)
k1 = left_by (loadcode_sync_submit 1 2 2 false started)

abbrev k2 : Kernel (Block Value)
k2 = left_by (take_work 9 k1)

abbrev k3 : Kernel (Block Value)
k3 = left_by (loadcode_sync_submit 1 2 2 false k2)

abbrev k4 : Kernel (Block Value)
k4 = left_by (handler_execute env 4 k3)

abbrev k5 : Kernel (Block Value)
k5 = left_by (handler_notify env 4 3 k4)

abbrev k6 : Kernel (Block Value)
k6 = left_by (loadcode_sync_wait 3 4 false false k5)

abbrev work_of : ℕ → Work
work_of d = record { lc = 1; wq = 9; handler = loadcode_handler; work_data = d }

abbrev one_left : World Value
one_left = record { kernel = k6; worker = idle }

reach_one_left : Reach env 1 9 start one_left
unfolding loadcode_sync_submit submit take_work handler_execute handler_notify loadcode_sync_wait
    loadcode_internal
reach_one_left =
    next
      (next
        (next
          (next
            (next
              (next here
                (call start 2 2 3 4 (pos 0) k1 (omega arith) (code_at started.heap refl) refl))
              (take (record { kernel = k1; worker = idle }) 4 k2 refl refl))
            (call (record { kernel = k2; worker = fetched 4 }) 2 2 5 6 (pos 0) k3 (omega arith)
              (code_at k2.heap refl) refl))
          (execute (record { kernel = k3; worker = fetched 4 }) 4 (work_of 3) k4 refl refl refl
            refl))
        (notify (record { kernel = k4; worker = posting 4 3 }) 4 3 k5 refl refl))
      (resume (record { kernel = k5; worker = idle }) 4 (work_of 3) (returned (pos 0) 0) k6 refl
        (λ e. cc) refl)

-- The first caller alone.
abbrev alone_ran : Kernel (Block Value)
alone_ran = left_by (handler_execute env 4 k2)

abbrev alone_notified : Kernel (Block Value)
alone_notified = left_by (handler_notify env 4 3 alone_ran)

abbrev alone_back : Kernel (Block Value)
alone_back = left_by (loadcode_sync_wait 3 4 false false alone_notified)

abbrev none_left : World Value
none_left = record { kernel = alone_back; worker = idle }

reach_none_left : Reach env 1 9 start none_left
unfolding loadcode_sync_submit submit take_work handler_execute handler_notify loadcode_sync_wait
    loadcode_internal
reach_none_left =
    next
      (next
        (next
          (next
            (next here
              (call start 2 2 3 4 (pos 0) k1 (omega arith) (code_at started.heap refl) refl))
            (take (record { kernel = k1; worker = idle }) 4 k2 refl refl))
          (execute (record { kernel = k2; worker = fetched 4 }) 4 (work_of 3) alone_ran refl refl
            refl refl))
        (notify (record { kernel = alone_ran; worker = posting 4 3 }) 4 3 alone_notified refl refl))
      (resume (record { kernel = alone_notified; worker = idle }) 4 (work_of 3) (returned (pos 0) 0)
        alone_back refl (λ e. cc) refl)

Reach-IsSafe_example : IsSafe env 1 9 one_left
Reach-IsSafe_example = Reach-IsSafe env 1 9 is_start reach_one_left

all_returned : (q : ℕ) (w : Work) → none_left.kernel.heap q ≢ some (work w)
unfolding loadcode_sync_submit submit take_work handler_execute handler_notify loadcode_sync_wait
    loadcode_internal
all_returned q w = ground arith

Reach-returned_example : none_left.kernel.heap 4 ≡ none
Reach-returned_example =
    Reach-returned env 1 9 4 is_start reach_none_left all_returned (omega arith)

Reach-released_example :
    (u : World Value) × Reach env 1 9 one_left u
    × ((lw : ℕ) (w : Work)
        → one_left.kernel.heap lw ≡ some (work w)
        → (u.kernel.heap lw ≡ some (work w))
          × Returns
              (loadcode_sync_wait w.work_data lw false false u.kernel)
              (λ out _. out ≢ blocked))
Reach-released_example = Reach-released env 1 9 is_start reach_one_left

-- One of them still waits.
still_there : one_left.kernel.heap 6 ≡ some (work (work_of 5))
unfolding loadcode_sync_submit submit take_work handler_execute handler_notify loadcode_sync_wait
    loadcode_internal
still_there = refl
