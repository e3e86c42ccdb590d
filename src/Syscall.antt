-- ===== src/Syscall.antt =====
-- `copy_lunatik_result_to_user` of lib/lunatik/lunatik_syscall.c: the result of a run goes to the
-- memory of the process that called `sys_lua`.
pub mod Memory
pub mod Bounds
pub mod Call
mod Examples
use lunatik_ng.Base.{
  ℕ, ◌+◌, ◌-◌, ◌%◌, ◌^◌, Bool, true, false, not, ◌&&◌, ◌||◌, Option, none, some, List, [], ◌∷◌,
  ◌++◌, ℤ, pos, negsuc, ◌==◌, ltb, leb, is_zero, length, take, min, if◌then◌else◌,
}
use lunatik_ng.Base.Bytes.{le_bytes, to_word}
use lunatik_ng.Kernel.{M, pure, fault, ◌>>=◌, ◌>>◌}
use lunatik_ng.Runtime.{
  LunatikResult, Payload, zeroed, r_number, r_boolean, r_string, r_userdata, r_lightuserdata, Block,
  load_bytes,
}
use Memory.{User, efault, copy_to_user, put_user, get_user}

-- The bytes before the first zero: what `strlen` counts.
abbrev pub c_string : List ℕ → List ℕ
c_string [] = []
c_string (c ∷ cs) = if c == 0 then [] else c ∷ c_string cs

-- What a case of the switch leaves: `ret`, `r_size_kern`, and the user's memory.
abbrev pub Copied : Type 0
Copied = ℤ × ℕ × User

-- A value of `w` bytes, if it fits.
unfoldable pub copy_word : (w : ℕ) → ℕ → (r_data size : ℕ) → User → Copied
copy_word w word r_data size u =
    if leb w size
    then (let (ret, u') = put_user r_data (le_bytes w word) u in (ret, w, u'))
    else (pos 0, 0, u)

-- `min` of the kernel, then `copy_to_user`.
unfoldable pub copy_string : List ℕ → (r_data size : ℕ) → User → Copied
copy_string bs r_data size u =
    let copy_size = min size (length bs) in
    let (n, u') = copy_to_user r_data (take copy_size bs) u in
    (if n == 0 then pos 0 else efault, copy_size - n, u')

-- The second part of a userdata: its bytes, behind the name of its type.
unfoldable pub copy_rest : (type_len : ℕ) → List ℕ → (r_data size : ℕ) → User → Copied
copy_rest type_len bs r_data size u =
    let copy_size = min (size - type_len) (length bs) in
    let (n, u') = copy_to_user (r_data + type_len) (take copy_size bs) u in
    (if n == 0 then pos 0 else efault, type_len + copy_size - n, u')

-- A userdata: the name of its type with its zero, then its bytes. The address of the zero that
-- ends a truncated name is computed in `size_t`.
unfoldable pub copy_userdata : (name bs : List ℕ) → (r_data size : ℕ) → User → Copied
copy_userdata name bs r_data size u =
    let type_len = length name in
    let copy_size = min size type_len in
    let (n, u₁) = copy_to_user r_data (take copy_size name) u in
    let u₂ : User =
      if ltb (copy_size - n) type_len
      then (put_user ((r_data + (copy_size - n) + 2 ^ 64 - 1) % 2 ^ 64) (0 ∷ []) u₁).1
      else u₁ in
    if not (n == 0)
    then (efault, copy_size - n, u₂)
    else if leb size type_len
    then (pos 0, copy_size, u₂)
    else copy_rest type_len bs r_data size u₂

module _ {S : Type 0} where
  -- The switch over `r->r_type`. A result whose string or userdata could not be allocated has a
  -- NULL pointer there; its use is a fault.
  unfoldable pub copy_payload : ℕ → Payload → (r_data size : ℕ) → User → M (Block S) Copied
  copy_payload type (r_number n) r_data size u = pure (copy_word 8 (to_word 8 n) r_data size u)
  copy_payload type (r_boolean b) r_data size u =
      pure (copy_word 4 (if b then 1 else 0) r_data size u)
  copy_payload type (r_string p n) r_data size u = do
    bs ← load_bytes p
    pure (copy_string (take (n + 1) bs) r_data size u)
  copy_payload type (r_userdata p n t) r_data size u = do
    name ← load_bytes t
    bs ← load_bytes p
    pure (copy_userdata (c_string name ++ 0 ∷ []) (take n bs) r_data size u)
  copy_payload type (r_lightuserdata a) r_data size u = pure (copy_word 8 a r_data size u)
  copy_payload type zeroed r_data size u =
      if (type == 7) || ((type == 4) && not (size == 0)) then fault else pure (pos 0, 0, u)

  -- The last `put_user` and the choice of the status.
  unfoldable pub put_size : (r_size : ℕ) → Copied → M (Block S) (ℤ × User)
  put_size r_size (ret, size, u) =
      let (ret2, u') = put_user r_size (le_bytes 8 size) u in
      pure (if is_zero ret && not (is_zero ret2) then ret2 else ret, u')

  -- `out` is reached early if `*r_size` cannot be read or the type cannot be stored.
  unfoldable pub copy_lunatik_result_to_user :
      LunatikResult → (r_type r_data r_size : ℕ) → User → M (Block S) (ℤ × User)
  copy_lunatik_result_to_user r r_type r_data r_size u = elim (get_user 8 r_size u) [
    | none ↦ pure (efault, u)
    | some size ↦
        let (ret, u') = put_user r_type (le_bytes 4 r.r_type) u in
        if not (is_zero ret)
        then pure (ret, u')
        else copy_payload r.r_type r.payload r_data size u' >>= put_size r_size
  ]
