-- ===== src/Buffer/Access.antt =====
-- Reads and writes of the buffers of lib/lunatik/bindings/buffer.c.
use lunatik_ng.Base.{
  ℕ, zero, suc, ◌<◌, ◌≡◌, ◌≢◌, ◌↔◌, ◌⊎◌, inl, inr, refl, ap, List, [], ◌∷◌, ℤ, pos, negsuc, length,
  get_or, set, length-set, arith, pos_part, ◌∙◌, sym,
}
use lunatik_ng.Buffer.{
  lua_error, done, index_out_of_range, bad_value, lunatik_buf_newindex, lunatik_buf_index,
}

get_or-set : (xs : List ℕ) (i v d : ℕ) → i < length xs → get_or (set xs i v) i d ≡ v
get_or-set [] i v d h = absurd (omega arith)
get_or-set (x ∷ xs) zero v d h = refl
get_or-set (x ∷ xs) (suc i) v d h = get_or-set xs i v d (omega arith)

get_or-set_other : (xs : List ℕ) (i j v d : ℕ) → i ≢ j → get_or (set xs i v) j d ≡ get_or xs j d
get_or-set_other [] i j v d h = refl
get_or-set_other (x ∷ xs) zero zero v d h = absurd (h refl)
get_or-set_other (x ∷ xs) zero (suc j) v d h = refl
get_or-set_other (x ∷ xs) (suc i) zero v d h = refl
get_or-set_other (x ∷ xs) (suc i) (suc j) v d h = get_or-set_other xs i j v d λ e. h (ap suc e)

newindex-done :
    (buf : List ℕ) (i v : ℕ)
    → i < length buf
    → v < 256
    → lunatik_buf_newindex buf (pos i) (pos v) ≡ done (set buf i v)
unfolding lunatik_buf_newindex
newindex-done buf i v inside byte = ground arith

index-done :
    (buf : List ℕ) (i : ℕ) → i < length buf → lunatik_buf_index buf (pos i) ≡ done (get_or buf i 0)
unfolding lunatik_buf_index
index-done buf i inside = ground arith

-- The index is below the size.
abbrev pub IsIndex : List ℕ → ℤ → Type 0
IsIndex buf (pos i) = i < length buf
IsIndex buf (negsuc n) = ⊥

abbrev pub IsByte : ℤ → Type 0
IsByte (pos v) = v < 256
IsByte (negsuc n) = ⊥

-- A read at an index: the error if it is negative or not below the size, else the byte there.
read_lem :
    (buf : List ℕ) (j : ℤ)
    → ((¬ IsIndex buf j) × (lunatik_buf_index buf j ≡ lua_error index_out_of_range))
      ⊎ (IsIndex buf j × (lunatik_buf_index buf j ≡ done (get_or buf (pos_part j) 0)))
unfolding lunatik_buf_index
read_lem buf (negsuc n) = inl (λ h. h, ground arith)
read_lem buf (pos j) = ground arith

set-IsIndex : (buf : List ℕ) (i v : ℕ) (j : ℤ) → IsIndex buf j ↔ IsIndex (set buf i v) j
set-IsIndex buf i v (negsuc n) = (λ h. h, λ h. h)
set-IsIndex buf i v (pos j) = let size = length-set buf i v in (λ h. omega arith, λ h. omega arith)

-- A byte that is written at an index below the size is read at that index. For each other index, negative
-- ones as well: if it is an index of the buffer, the same byte is read there before and after, and if it
-- is not, the error is raised before and after.
pub lunatik_buf_index-newindex :
    (buf : List ℕ) (i v : ℕ)
    → i < length buf
    → v < 256
    → (buf' : List ℕ) × (lunatik_buf_newindex buf (pos i) (pos v) ≡ done buf')
      × (lunatik_buf_index buf' (pos i) ≡ done v)
      × ((j : ℤ)
          → j ≢ pos i
          → ((¬ IsIndex buf j)
              × (lunatik_buf_index buf j ≡ lua_error index_out_of_range)
              × (lunatik_buf_index buf' j ≡ lua_error index_out_of_range))
            ⊎ (IsIndex buf j
                × (b : ℕ) × (lunatik_buf_index buf j ≡ done b)
                × (lunatik_buf_index buf' j ≡ done b)))
lunatik_buf_index-newindex buf i v inside byte =
    let size = length-set buf i v in
    (
      set buf i v,
      newindex-done buf i v inside byte,
      index-done (set buf i v) i (omega arith) ∙ ap done (get_or-set buf i v 0 inside),
      λ j other.
          let (there, back) = set-IsIndex buf i v j in
          elim (read_lem buf j) [
            | inl (no_index, e) ↦ elim (read_lem (set buf i v) j) [
              | inl (_, e') ↦ inl (no_index, e, e')
              | inr (is_index, _) ↦ absurd (no_index (back is_index))
            ]
            | inr (is_index, e) ↦ elim (read_lem (set buf i v) j) [
              | inl (no_index, _) ↦ absurd (no_index (there is_index))
              | inr (_, e') ↦ inr (
                is_index,
                get_or buf (pos_part j) 0,
                e,
                e' ∙ ap done (kept buf i v j is_index other),
              )
            ]
          ],
    )
  where
    kept :
        (buf : List ℕ) (i v : ℕ) (j : ℤ)
        → IsIndex buf j
        → j ≢ pos i
        → get_or (set buf i v) (pos_part j) 0 ≡ get_or buf (pos_part j) 0
    kept buf i v (negsuc n) h other = absurd h
    kept buf i v (pos j) h other = get_or-set_other buf i j v 0 (λ e. other (ap pos (sym e)))

-- A write raises the error for the index exactly if the index is negative or not below the size,
-- and the one for the value exactly if the index is good and the value is no byte.
pub lunatik_buf_newindex-errors :
    (buf : List ℕ) (idx val : ℤ)
    → ((lunatik_buf_newindex buf idx val ≡ lua_error index_out_of_range) × (¬ IsIndex buf idx))
      ⊎ ((lunatik_buf_newindex buf idx val ≡ lua_error bad_value)
          × IsIndex buf idx
          × (¬ IsByte val))
      ⊎ ((lunatik_buf_newindex buf idx val ≡ done (set buf (pos_part idx) (pos_part val)))
          × IsIndex buf idx
          × IsByte val)
unfolding lunatik_buf_newindex
lunatik_buf_newindex-errors buf (negsuc n) val = inl (ground arith, λ h. h)
lunatik_buf_newindex-errors buf (pos i) (negsuc n) = ground arith
lunatik_buf_newindex-errors buf (pos i) (pos v) = ground arith
