-- ===== src/Runtime/Result/Ownership.antt =====
-- The memory and the contents of a result of lib/lunatik/lunatik.c: `lunatik_result_free` frees what
-- `lunatik_result_get` has allocated, and a result holds a copy of the Lua value.
use lunatik_ng.Base.{ℕ, ◌+◌, ◌≡◌, true, Bool, Option, none, some, List, ◌∷◌, ℤ, arith, ◌≤◌}
use lunatik_ng.Kernel.{Kernel, M, pure, ◌>>=◌, ◌>>◌, IsFresh, Returns}
use lunatik_ng.Runtime.{Value, nil, string, userdata, Block}
use lunatik_ng.Runtime.Result.{lunatik_result_get, lunatik_result_free}

-- The type's name is read within its bounds: a userdata with no `__name` has the name "", and the
-- size that is read is not initialised.
abbrev pub NameFits : ℕ → Value → Type 0
NameFits garbage (userdata bs none) = garbage ≤ 1
NameFits garbage _ = Unit

module _ {S : Type 0} where
  unfoldable pub get_then_free : (garbage : ℕ) → Value → ℤ → M (Block S) ℤ
  unfolding lunatik_result_get lunatik_result_free
  get_then_free g v e = do (r, e') ← lunatik_result_get g v e; lunatik_result_free r; pure e'

  -- The next three addresses are free.
  abbrev pub Room : Kernel (Block S) → Type 0
  Room k =
      (k.heap k.next ≡ none)
      × (k.heap (k.next + 1) ≡ none)
      × (k.heap (k.next + 2) ≡ none)
      × (1 ≤ k.next)

  pub IsFresh-Room : {k : Kernel (Block S)} → IsFresh k → Room k
  IsFresh-Room {k} f = (
    f.free k.next (omega arith),
    f.free (k.next + 1) (omega arith),
    f.free (k.next + 2) (omega arith),
    f.next_pos,
  )

  module _ (k : Kernel (Block S)) (room : Room k) where
    abbrev Restores : ℕ → ℕ → Value → ℤ → List Bool → Type 0
    Restores p g v e o =
        Returns (get_then_free g v e (record k { oracle = o })) (λ _ k'. k'.heap p ≡ k.heap p)

    userdata_Restores :
        (p g : ℕ) (bs : List ℕ) (name : Option (List ℕ)) (e : ℤ) (o : List Bool)
        → NameFits g (userdata bs name)
        → Restores p g (userdata bs name) e o
    unfolding get_then_free
    userdata_Restores p g bs none e (true ∷ true ∷ true ∷ o) fits = ground arith
    userdata_Restores p g bs none e _ fits = ground arith
    userdata_Restores p g bs (some name) e (true ∷ true ∷ true ∷ o) fits = ground arith
    userdata_Restores p g bs (some name) e _ fits = ground arith

    get_then_free-Restores :
        (p g : ℕ) (v : Value) (e : ℤ) (o : List Bool) → NameFits g v → Restores p g v e o
    unfolding get_then_free
    get_then_free-Restores p g (userdata bs name) e o fits = userdata_Restores p g bs name e o fits
    get_then_free-Restores p g (string s) e (true ∷ true ∷ o) fits = ground arith
    get_then_free-Restores p g (string s) e _ fits = ground arith
    get_then_free-Restores p g nil e o fits = ground arith
    get_then_free-Restores p g _ e o fits = ground arith

  -- For every value, whatever the outcomes of the allocations, `lunatik_result_get` followed by
  -- `lunatik_result_free` runs without a fault and leaves the heap as it was, if no address from
  -- `next` on is allocated and a userdata with no `__name` meets an indeterminate size of at most 1.
  pub lunatik_result_free-get :
      (k : Kernel (Block S)) (g : ℕ) (v : Value) (e : ℤ) (p : ℕ)
      → IsFresh k
      → NameFits g v
      → Returns (get_then_free g v e k) (λ _ k'. k'.heap p ≡ k.heap p)
  lunatik_result_free-get k g v e p fresh fits =
      get_then_free-Restores k (IsFresh-Room fresh) p g v e k.oracle fits
