-- ===== src/Runtime/Examples.antt =====
-- Runs of the model of lib/lunatik/lunatik.c, and its theorems at concrete inputs.
use lunatik_ng.Base.{◌≢◌, ℕ, ◌≡◌, refl, true, false, List, [], ◌∷◌, pos, none, some, arith}
use lunatik_ng.Kernel.{Kernel, IsFresh, Returns, update}
use lunatik_ng.Runtime.{
  Value, nil, boolean, number, userdata, Engine, Context, Block, context, bytes, LoadData,
  load_data,
}
use lunatik_ng.Runtime.Result.Ownership.{get_then_free, lunatik_result_free-get}
use lunatik_ng.Runtime.Result.Contents.{get_then_read, read_back-lunatik_result_get}
use lunatik_ng.Runtime.Bindings.{Registry, lunatik_bindings_load, load_binding}
use lunatik_ng.Runtime.Bindings.Load.{Loaded}
use lunatik_ng.Runtime.Bindings.Load.Loop.{lunatik_bindings_load-Loaded}
use lunatik_ng.Runtime.Lifetime.{lunatik_context_create, lunatik_context_destroy}
use lunatik_ng.Runtime.Lifetime.Release.{Destroyed, lunatik_context_destroy-Destroyed}
use lunatik_ng.Runtime.Lifetime.Session.{
  Created, session, Balanced, lunatik_context_create-Created, session-Balanced,
}
use lunatik_ng.Runtime.Loadcode.{Env, new_load_data, loadcode_internal}
use lunatik_ng.Runtime.Loadcode.Submit.{returned, loadcode_sync_submit}
use lunatik_ng.Runtime.Loadcode.Submit.Ready.{Ready}
use lunatik_ng.Runtime.Loadcode.Submit.Freed.{
  async_nores_run, sync_run, status, async_nores_frees, sync_frees,
}
use lunatik_ng.Runtime.Loadcode.Submit.Races.{
  interrupted_run, overtaken_run, interrupted_run-eq-none, overtaken_run-eq-none,
  submit_failed-eq-none,
}

-- A Lua state that holds one value. Code of more than two bytes does not load.
abbrev pub engine : Engine Value
engine = record {
  lua_open = nil;
  loadbuffer = λ lua bs. (pos (elim bs [ _ ∷ _ ∷ _ ∷ _ ↦ 3 | _ ↦ 0 ]), lua);
  pcall = λ lua. (pos 0, number (pos 7));
  top = λ lua. lua;
  pop = λ lua. nil;
  call_c = λ fn lua. lua;
}

abbrev pub env : Env Value
env = record {
  engine = engine;
  garbage = 0;
  reads_on = λ lua bs. false;
  run_callback = λ fn arg ret result k. some (tt, k);
  run_callback_nores = λ fn arg ret k. some (tt, k);
}

abbrev pub empty : Kernel (Block Value)
empty = record {
  heap = λ p. none;
  next = 1;
  oracle = [];
  refs = λ m. 0;
  going = λ m. false;
  queue = λ wq. [];
  workqueues = 0;
}

pub empty-IsFresh : IsFresh empty
empty-IsFresh = record { next_pos = omega arith; free = λ p h. refl }

abbrev pub ctx : Context Value
ctx = record { lua = nil; locked = false; wq = 9; active = [] }

abbrev pub code : List ℕ
code = 59 ∷ 0 ∷ []

-- A context at address 1 and code at address 2.
abbrev pub started : Kernel (Block Value)
started = record empty {
  heap = update (update (λ p. none) 1 (some (context ctx))) 2 (some (bytes code));
  next = 3;
}

pub started-IsFresh : IsFresh started
started-IsFresh = record { next_pos = omega arith; free = λ p h. ground arith }

started-Ready : Ready env started 1 2 2 ctx code
started-Ready = record {
  fresh = started-IsFresh;
  room = omega arith;
  is_context = refl;
  unlocked = refl;
  idle = refl;
  is_code = refl;
  positive = omega arith;
  fits = omega arith;
  small = omega arith;
}

-- The binding of module 5, whose registration succeeds.
abbrev pub registry : Registry Value
registry = record { at = 40; owner = 5; regfunc = λ lua. (pos 0, boolean true) } ∷ []

lunatik_result_free-get_example :
    Returns
      (get_then_free 0 (userdata (1 ∷ 2 ∷ []) (some (98 ∷ []))) (pos 0) empty)
      (λ _ k'. k'.heap 2 ≡ none)
lunatik_result_free-get_example =
    lunatik_result_free-get empty 0 (userdata (1 ∷ 2 ∷ []) (some (98 ∷ []))) (pos 0) 2 empty-IsFresh
      tt

-- A name with a zero inside.
read_back-lunatik_result_get_example :
    Returns
      (get_then_read 0 (userdata (1 ∷ 2 ∷ []) (some (98 ∷ 0 ∷ 99 ∷ []))) (pos 0) empty)
      (λ (w, e') _. (w ≡ userdata (1 ∷ 2 ∷ []) (some (98 ∷ []))) × (e' ≡ pos 0))
read_back-lunatik_result_get_example =
    read_back-lunatik_result_get empty 0 (userdata (1 ∷ 2 ∷ []) (some (98 ∷ 0 ∷ 99 ∷ []))) (pos 0)
      empty-IsFresh refl tt

lunatik_bindings_load-Loaded_example :
    Returns (lunatik_bindings_load registry 1 started) (Loaded 1 registry started)
lunatik_bindings_load-Loaded_example =
    lunatik_bindings_load-Loaded 1 registry started started-IsFresh refl

lunatik_context_destroy-Destroyed_example :
    Returns (lunatik_context_destroy 1 started) (λ _ k'. Destroyed 1 started k')
lunatik_context_destroy-Destroyed_example =
    lunatik_context_destroy-Destroyed 1 started (omega arith) refl refl

lunatik_context_create-Created_example :
    Returns (lunatik_context_create engine true 9 empty) (Created engine true 9 empty)
lunatik_context_create-Created_example =
    lunatik_context_create-Created engine true 9 empty empty-IsFresh (omega arith)

session-Balanced_example :
    Returns (session engine true 9 registry empty) (Balanced engine true 9 empty)
session-Balanced_example = session-Balanced engine true 9 registry empty empty-IsFresh (omega arith)

async_nores_frees_example :
    Returns (async_nores_run env 9 1 2 2 0 0 started) (λ ret k'. (ret ≡ pos 0) × (k'.heap 3 ≡ none))
async_nores_frees_example =
    async_nores_frees env started 1 2 2 ctx code 0 0 3 started-Ready refl (λ e. omega arith)

sync_frees_example :
    Returns
      (sync_run env 9 1 2 2 started)
      (λ ret k'. (ret ≡ returned (status env started 1 2 2 ctx code) 0) × (k'.heap 3 ≡ none))
sync_frees_example = sync_frees env started 1 2 2 ctx code 3 started-Ready refl (λ e. omega arith)

interrupted_run-eq-none_example : interrupted_run env 9 1 2 2 true started ≡ none
interrupted_run-eq-none_example =
    interrupted_run-eq-none env started 1 2 2 ctx code true started-Ready refl

overtaken_run-eq-none_example : overtaken_run env 9 1 2 2 started ≡ none
overtaken_run-eq-none_example = overtaken_run-eq-none env started 1 2 2 ctx code started-Ready refl

abbrev short : Kernel (Block Value)
short = record started { oracle = true ∷ false ∷ [] }

short-IsFresh : IsFresh short
short-IsFresh = record { next_pos = omega arith; free = λ p h. ground arith }

submit_failed-eq-none_example : loadcode_sync_submit 1 2 2 true short ≡ none
submit_failed-eq-none_example =
    submit_failed-eq-none env short 1 2 2 ctx code true [] short-IsFresh (omega arith) refl refl

-- One reference is kept for each binding that becomes active.
load_keeps_reference :
    Returns (lunatik_bindings_load registry 1 started) (λ ret k'. (ret ≡ pos 0) × (k'.refs 5 ≡ 1))
unfolding lunatik_bindings_load load_binding
load_keeps_reference = (refl, refl)

abbrev empty_request : LoadData
empty_request = new_load_data 2 0

abbrev asked : Kernel (Block Value)
asked = record started { heap = update started.heap 3 (some (load_data empty_request)); next = 4 }

-- The size of the code is 0: an engine that does not stop inside of the block reads behind it.
empty_code_read : loadcode_internal (record env { reads_on = λ lua bs. true }) 1 3 asked ≡ none
unfolding loadcode_internal
empty_code_read = refl

-- One that stops at the zero does not.
empty_code_stopped : loadcode_internal env 1 3 asked ≢ none
unfolding loadcode_internal
empty_code_stopped e = ground arith
