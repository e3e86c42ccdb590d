-- ===== src/Syscall/Bounds.antt =====
-- Where `copy_lunatik_result_to_user` of lib/lunatik/lunatik_syscall.c writes, and how much.
use lunatik_ng.Base.{
  ℕ, ◌+◌, ◌-◌, ◌%◌, ◌^◌, ◌≤◌, ◌<◌, ◌≡◌, true, some, List, [], ◌∷◌, ◌++◌, length, take, length-take,
  length-append, min, arith, Bool-cases, inl, inr, ◌∙◌, is_zero,
}
use lunatik_ng.Base.Bytes.{le_bytes, length-le_bytes}
use lunatik_ng.Kernel.{Kernel, IfReturns, IfReturns-bind, IfReturns-bind_when, M, pure, ◌>>=◌}
use lunatik_ng.Runtime.{
  LunatikResult, Payload, zeroed, r_number, r_boolean, r_string, r_userdata, r_lightuserdata, Block,
  load_bytes,
}
use lunatik_ng.Syscall.{
  Copied, copy_word, copy_string, copy_rest, copy_userdata, copy_payload, c_string,
  copy_lunatik_result_to_user, put_size,
}
use lunatik_ng.Syscall.Memory.{
  User, Outside, copy_to_user, put_user, get_user, mapped, copy_to_user-Outside, copy_to_user-lt,
  put_user-Outside, put_user-mapped,
}

-- At most `size` bytes are reported, and the byte at `p` is not changed if it lies outside of the
-- `size` bytes at `r_data`.
abbrev Within : ℕ → (r_data size : ℕ) → User → Copied → Type 0
Within p r_data size u (ret, size', u') = (size' ≤ size) × (Outside p r_data size → u' p ≡ u p)

module _ (p r_data size : ℕ) (u : User) where
  copy_word-Within : (w word : ℕ) → Within p r_data size u (copy_word w word r_data size u)
  unfolding copy_word
  copy_word-Within w word = (
    ground arith,
    λ out. ground (arith, put_user-Outside r_data (le_bytes w word) u p, length-le_bytes w word),
  )

  copy_string-Within : (bs : List ℕ) → Within p r_data size u (copy_string bs r_data size u)
  unfolding copy_string
  copy_string-Within bs =
      let copied = take (min size (length bs)) bs in
      let len = length-take (min size (length bs)) bs in
      (omega arith, λ out. ground (arith, copy_to_user-Outside r_data copied u p))

  copy_rest-Within :
      (type_len : ℕ) (bs : List ℕ)
      → type_len < size
      → Within p r_data size u (copy_rest type_len bs r_data size u)
  unfolding copy_rest
  copy_rest-Within type_len bs h =
      let copied = take (min (size - type_len) (length bs)) bs in
      let len = length-take (min (size - type_len) (length bs)) bs in
      (omega arith, λ out. ground (arith, copy_to_user-Outside (r_data + type_len) copied u p))

-- The name of a userdata's type is not empty: it has its zero.
module _ (p r_data size : ℕ) (u : User) (name bs : List ℕ) (named : 0 < length name)
    (room : 0 < size) (first : mapped (u r_data) ≡ true) (fits : r_data + size ≤ 2 ^ 64) where
  abbrev copied : List ℕ
  copied = take (min size (length name)) name

  abbrev left : ℕ
  left = (copy_to_user r_data copied u).0

  abbrev with_name : User
  with_name = (copy_to_user r_data copied u).1

  abbrev end : ℕ
  end = (r_data + (min size (length name) - left) + 2 ^ 64 - 1) % 2 ^ 64

  abbrev ended : User
  ended = (put_user end (0 ∷ []) with_name).1

  length-copied : length copied ≡ min size (length name)
  length-copied = omega (arith, length-take (min size (length name)) name)

  left_lt : left < min size (length name)
  left_lt =
      omega
        (arith, copy_to_user-lt r_data copied u first (omega (arith, length-copied)), length-copied)

  with_name-Outside : Outside p r_data size → with_name p ≡ u p
  with_name-Outside out = copy_to_user-Outside r_data copied u p (omega (arith, length-copied))

  ended-Outside : Outside p r_data size → ended p ≡ u p
  ended-Outside out =
      put_user-Outside end (0 ∷ []) with_name p (omega (arith, left_lt)) ∙ with_name-Outside out

  copy_userdata-Within : Within p r_data size u (copy_userdata name bs r_data size u)
  unfolding copy_userdata
  copy_userdata-Within = (
    ground (
      arith,
      left_lt,
      copy_rest-Within p r_data size with_name (length name) bs,
      copy_rest-Within p r_data size ended (length name) bs,
    ),
    λ out. ground (
      arith,
      left_lt,
      with_name-Outside out,
      ended-Outside out,
      copy_rest-Within p r_data size with_name (length name) bs,
      copy_rest-Within p r_data size ended (length name) bs,
    ),
  )

-- What a userdata needs of the memory it goes to: room for one byte, which is mapped, below the top
-- of the address space.
abbrev HasRoom : Payload → (r_data size : ℕ) → User → Type 0
HasRoom (r_userdata _ _ _) r_data size u =
    (0 < size) × (mapped (u r_data) ≡ true) × (r_data + size ≤ 2 ^ 64)
HasRoom _ r_data size u = Unit

HasRoom-put_user :
    (payload : Payload) (r_data size : ℕ) (u : User) (dst : ℕ) (bs : List ℕ)
    → HasRoom payload r_data size u
    → HasRoom payload r_data size (put_user dst bs u).1
HasRoom-put_user (r_userdata _ _ _) r_data size u dst bs (space, first, fits) =
    (space, put_user-mapped dst bs u r_data ∙ first, fits)
HasRoom-put_user zeroed r_data size u dst bs h = tt
HasRoom-put_user _ r_data size u dst bs h = tt

module _ {S : Type 0} where
  copy_payload-Within :
      (p type : ℕ) (payload : Payload) (r_data size : ℕ) (u : User) (k : Kernel (Block S))
      → HasRoom payload r_data size u
      → IfReturns (copy_payload type payload r_data size u k) (λ out _. Within p r_data size u out)
  unfolding copy_payload
  copy_payload-Within p type (r_number n) r_data size u k room =
      copy_word-Within p r_data size u 8 _
  copy_payload-Within p type (r_boolean b) r_data size u k room =
      copy_word-Within p r_data size u 4 _
  copy_payload-Within p type (r_lightuserdata a) r_data size u k room =
      copy_word-Within p r_data size u 8 _
  copy_payload-Within p type (r_string q n) r_data size u k room =
      IfReturns-bind (load_bytes q k) (λ bs. pure (copy_string (take (n + 1) bs) r_data size u))
        (λ out _. Within p r_data size u out) λ bs k'. copy_string-Within p r_data size u _
  copy_payload-Within p type (r_userdata q n t) r_data size u k (space, first, fits) =
      IfReturns-bind (load_bytes t k) (λ name. copy_both name) (λ out _. Within p r_data size u out)
        λ name k'.
          IfReturns-bind (load_bytes q k')
            (λ bs. pure (copy_userdata (c_string name ++ 0 ∷ []) (take n bs) r_data size u))
            (λ out _. Within p r_data size u out)
            λ bs k''.
              copy_userdata-Within p r_data size u (c_string name ++ 0 ∷ []) (take n bs)
                (named name) space first fits
    where
      copy_both : List ℕ → M (Block S) Copied
      copy_both name = load_bytes q >>= λ bs.
          pure (copy_userdata (c_string name ++ 0 ∷ []) (take n bs) r_data size u)

      named : (name : List ℕ) → 0 < length (c_string name ++ 0 ∷ [])
      named name = omega (arith, length-append (c_string name) (0 ∷ []))
  copy_payload-Within p type zeroed r_data size u k room = ground arith

  -- `copy_lunatik_result_to_user` writes only into the four bytes at `r_type`, the eight bytes at `r_size` and
  -- the bytes at `r_data` whose number it has read from `r_size`, wherever it returns, on
  -- success or not. For a userdata the number is not 0, the first byte is mapped, and `r_data` and the
  -- number, which the process chooses, add up to 2 ^ 64 at most.
  pub copy_lunatik_result_to_user-Outside :
      (r : LunatikResult) (r_type r_data r_size p size : ℕ) (u : User) (k : Kernel (Block S))
      → get_user 8 r_size u ≡ some size
      → HasRoom r.payload r_data size u
      → Outside p r_type 4
      → Outside p r_size 8
      → Outside p r_data size
      → IfReturns
          (copy_lunatik_result_to_user r r_type r_data r_size u k)
          (λ (ret, u') _. u' p ≡ u p)
  unfolding copy_lunatik_result_to_user
  copy_lunatik_result_to_user-Outside r r_type r_data r_size p size u k read room o1 o2 o3 =
      let u₁ : User = (put_user r_type (le_bytes 4 r.r_type) u).1 in
      let typed : u₁ p ≡ u p = put_user-Outside r_type (le_bytes 4 r.r_type) u p o1 in
      rw (read, IfReturns)
        (elim (Bool-cases (is_zero (put_user r_type (le_bytes 4 r.r_type) u).0)) [
          | inl stored ↦ rw stored (
              IfReturns-bind_when (copy_payload r.r_type r.payload r_data size u₁ k)
                (put_size r_size) (λ (ret, u') _. u' p ≡ u p)
                (copy_payload-Within p r.r_type r.payload r_data size u₁ k
                  (HasRoom-put_user r.payload r_data size u r_type (le_bytes 4 r.r_type) room))
                λ (ret, size', u₂) k' within.
                  unfold put_size in
                  put_user-Outside r_size (le_bytes 8 size') u₂ p o2 ∙ within.1 o3 ∙ typed)
          | inr failed ↦ rw failed typed
        ])

-- If the process announces no room at all, the zero that ends the name of a userdata's type goes to
-- the byte before `r_data`, if that byte is mapped. The name has its zero.
pub copy_userdata-before :
    (name bs : List ℕ) (r_data : ℕ) (u : User)
    → 0 < length name
    → 0 < r_data
    → r_data < 2 ^ 64
    → mapped (u (r_data - 1)) ≡ true
    → (copy_userdata name bs r_data 0 u).2 (r_data - 1) ≡ some 0
unfolding copy_userdata copy_to_user put_user
copy_userdata-before (c ∷ name) bs r_data u named nonnull small there =
    let wrapped : (r_data + 2 ^ 64 - 1) % 2 ^ 64 ≡ r_data - 1 = omega arith in
    ground (arith, wrapped)
copy_userdata-before [] bs r_data u named nonnull small there = absurd (omega arith)
