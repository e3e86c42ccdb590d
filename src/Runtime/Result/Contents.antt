-- ===== src/Runtime/Result/Contents.antt =====
-- What a result of lib/lunatik/lunatik.c holds, read the way include/linux/lunatik.h documents it.
use lunatik_ng.Base.{
  ℕ, ◌≡◌, refl, Bool, none, some, List, [], ◌∷◌, ◌++◌, ℤ, length, take, take-append, arith, ◌==◌,
  if◌then◌else◌,
}
use mathlib.Core.Path.{subst, sym}
use lunatik_ng.Kernel.{Kernel, M, pure, fault, ◌>>=◌, IsFresh, Returns}
use lunatik_ng.Runtime.{
  Value, nil, boolean, light_userdata, number, string, table, function, thread, userdata, Block,
  zeroed, r_number, r_boolean, r_string, r_userdata, r_lightuserdata, LunatikResult, load_result,
  load_bytes,
}
use lunatik_ng.Runtime.Result.{lunatik_result_get}
use lunatik_ng.Runtime.Result.Ownership.{Room, IsFresh-Room}

-- A C string: the bytes before the first zero.
abbrev c_string : List ℕ → List ℕ
c_string [] = []
c_string (c ∷ cs) = if c == 0 then [] else c ∷ c_string cs

c_string-append :
    (name : List ℕ) → c_string (take (length name) (name ++ 0 ∷ []) ++ 0 ∷ []) ≡ c_string name
c_string-append [] = refl
c_string-append (c ∷ cs) = ground (arith, c_string-append cs)

take-length : (xs : List ℕ) → take (length xs) xs ≡ xs
take-length [] = refl
take-length (x ∷ xs) = rw (take-length xs)

-- What a reader of a result gets: the name of a userdata's type is a C string, so that it ends before its
-- first zero.
abbrev as_read : Value → Value
as_read (userdata bs (some name)) = userdata bs (some (c_string name))
as_read v = v

-- The values whose copy does not use the size that is not initialised, as it does for a userdata whose
-- metatable has no name, and that have a field in the union.
abbrev Supported : Value → Type 0
Supported table = ⊥
Supported function = ⊥
Supported thread = ⊥
Supported (userdata bs none) = ⊥
Supported _ = Unit

module _ {S : Type 0} where
  -- The fields of the union that stand for the type `r_type`.
  value_of : LunatikResult → M (Block S) Value
  unfolding load_bytes
  value_of r = elim r.payload [
    | zeroed ↦ if r.r_type == 0 then pure nil else fault
    | r_number n ↦ if r.r_type == 3 then pure (number n) else fault
    | r_boolean b ↦ if r.r_type == 1 then pure (boolean b) else fault
    | r_string p size ↦
        if r.r_type == 4 then (do bs ← load_bytes p; pure (string (take size bs))) else fault
    | r_userdata p size t ↦
        if r.r_type == 7
        then (do
          bs ← load_bytes p
          name ← load_bytes t
          pure (userdata (take size bs) (some (c_string name))))
        else fault
    | r_lightuserdata p ↦ if r.r_type == 2 then pure (light_userdata p) else fault
  ]

  -- What a caller reads from the result at `p`.
  unfoldable pub read_back : ℕ → M (Block S) Value
  unfolding load_result value_of
  read_back p = do r ← load_result p; value_of r

  unfoldable pub get_then_read : (garbage : ℕ) → Value → ℤ → M (Block S) (Value × ℤ)
  unfolding lunatik_result_get read_back
  get_then_read g v e = do (r, e') ← lunatik_result_get g v e; w ← read_back r; pure (w, e')

  abbrev ReadsBack : Kernel (Block S) → ℕ → Value → ℤ → List Bool → Type 0
  ReadsBack k g v e o =
      Returns (get_then_read g v e (record k { oracle = o }))
        (λ (w, e') _. (w ≡ as_read v) × (e' ≡ e))

  get_then_read-ReadsBack :
      (k : Kernel (Block S)) (room : Room k) (g : ℕ) (v : Value) (e : ℤ)
      → Supported v
      → ReadsBack k g v e []
  unfolding get_then_read
  get_then_read-ReadsBack k room g (userdata bs (some name)) e sup =
      ground (arith, take-length bs, c_string-append name)
  get_then_read-ReadsBack k room g (string s) e sup = ground (arith, take-append s (0 ∷ []))
  get_then_read-ReadsBack k room g nil e sup = ground arith
  get_then_read-ReadsBack k room g _ e sup = ground arith

  -- Where every allocation succeeds, a result of nil, a Boolean, a number, a string, a light userdata, or a
  -- userdata whose metatable has a name reads back as that value, its name up to the first zero, and the
  -- error that was passed in is left as it was. Not covered are a userdata without a name, though it has a
  -- type that is supported, and tables, functions and threads. No address from `next` on is allocated.
  pub read_back-lunatik_result_get :
      (k : Kernel (Block S)) (g : ℕ) (v : Value) (e : ℤ)
      → IsFresh k
      → k.oracle ≡ []
      → Supported v
      → Returns (get_then_read g v e k) (λ (w, e') _. (w ≡ as_read v) × (e' ≡ e))
  read_back-lunatik_result_get k g v e fresh all sup =
      subst (λ o. ReadsBack k g v e o) (sym all)
        (get_then_read-ReadsBack k (IsFresh-Room fresh) g v e sup)
