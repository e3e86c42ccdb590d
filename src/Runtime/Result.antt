-- ===== src/Runtime/Result.antt =====
-- `lunatik_result_get` and `lunatik_result_free` of lib/lunatik/lunatik.c.
pub mod Ownership
pub mod Contents
pub mod Blocks
use lunatik_ng.Base.{
  ℕ, ◌+◌, Option, none, some, List, [], ◌∷◌, ◌++◌, ℤ, ◌==◌, ltb, length, take, if◌then◌else◌,
}
use lunatik_ng.Kernel.{M, pure, fault, ◌>>=◌, ◌>>◌, kmalloc, kfree, store}
use lunatik_ng.Runtime.{
  Value, nil, boolean, light_userdata, number, string, table, function, thread, userdata, lua_type,
  Payload, zeroed, r_number, r_boolean, r_string, r_userdata, r_lightuserdata, LunatikResult, Block,
  result, bytes, enomem, einval, load_result,
}

abbrev C : Type 0 → Type 0 → Type 0
C S A = M (Block S) A

module _ {S : Type 0} where
  -- The union is written into the block that `r` points to.
  set_payload : ℕ → Value → Payload → C S (Unit {0})
  unfolding store
  set_payload r v p = store r (result (record { r_type = lua_type v; payload = p }))

  -- `memcpy(r->r_userdata_type, r_userdata_type, size)` and the final zero. The source string has
  -- `length name + 1` bytes: a read beyond them is a fault.
  copy_type_name : (ptr size : ℕ) → List ℕ → C S (Unit {0})
  unfolding store
  copy_type_name ptr size name =
      if ltb (length name + 1) size
      then fault
      else store ptr (bytes (take size (name ++ 0 ∷ []) ++ 0 ∷ []))

  get_string : ℕ → List ℕ → ℤ → C S (ℕ × ℤ)
  unfolding set_payload kmalloc
  get_string r s error = do
    p ← kmalloc (bytes (s ++ 0 ∷ []))
    if p == 0
        then pure (r, enomem)
        else do set_payload r (string s) (r_string p (length s)); pure (r, error)

  -- The failure path of the allocation for the type's name.
  no_type_name : (r p : ℕ) → List ℕ → Option (List ℕ) → C S (ℕ × ℤ)
  unfolding set_payload kfree
  no_type_name r p bs field = do
    kfree p
    set_payload r (userdata bs field) (r_userdata 0 (length bs) 0)
    pure (r, enomem)

  -- `size` is the value of `r_userdata_type_size`.
  get_userdata : ℕ → List ℕ → Option (List ℕ) → (size : ℕ) → List ℕ → ℤ → C S (ℕ × ℤ)
  unfolding set_payload kmalloc no_type_name copy_type_name
  get_userdata r bs field size name error = do
    p ← kmalloc (bytes bs)
    if p == 0 then pure (r, enomem) else do
      t ← kmalloc (bytes [])
      if t == 0 then no_type_name r p bs field else do
        copy_type_name t size name
        set_payload r (userdata bs field) (r_userdata p (length bs) t)
        pure (r, error)

  -- The switch over `r->r_type`. Where the metatable has no `__name`, the size of the type's name
  -- is not initialised: it is `garbage`.
  get_value : ℕ → ℕ → Value → ℤ → C S (ℕ × ℤ)
  unfolding get_string get_userdata
  get_value garbage r nil error = pure (r, error)
  get_value garbage r (number n) error = do set_payload r (number n) (r_number n); pure (r, error)
  get_value garbage r (boolean b) error = do
    set_payload r (boolean b) (r_boolean b)
    pure (r, error)
  get_value garbage r (string s) error = get_string r s error
  get_value garbage r (userdata bs (some name)) error =
      get_userdata r bs (some name) (length name) name error
  get_value garbage r (userdata bs none) error = get_userdata r bs none garbage [] error
  get_value garbage r (light_userdata p) error = do
    set_payload r (light_userdata p) (r_lightuserdata p)
    pure (r, error)
  get_value garbage r table error = pure (r, einval)
  get_value garbage r function error = pure (r, einval)
  get_value garbage r thread error = pure (r, einval)

  -- The result's address, 0 for NULL, and what `*perror` holds afterwards.
  unfoldable pub lunatik_result_get : (garbage : ℕ) → Value → (error : ℤ) → C S (ℕ × ℤ)
  unfolding get_value kmalloc set_payload
  lunatik_result_get garbage v error = do
    r ← kmalloc (result (record { r_type = 0; payload = zeroed }))
    if r == 0 then pure (0, enomem) else do set_payload r v zeroed; get_value garbage r v error

  -- What the switch of `lunatik_result_free` frees.
  free_payload : LunatikResult → C S (Unit {0})
  unfolding kfree
  free_payload r = elim r.payload [
    | r_string p _ ↦ kfree p
    | r_userdata p _ t ↦ kfree p >> kfree t
    | _ ↦ pure tt
  ]

  unfoldable pub lunatik_result_free : ℕ → C S (Unit {0})
  unfolding load_result kfree free_payload
  lunatik_result_free p = if p == 0 then pure tt else do r ← load_result p; free_payload r; kfree p
