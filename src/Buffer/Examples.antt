-- ===== src/Buffer/Examples.antt =====
-- Runs of the buffers of lib/lunatik/bindings/buffer.c, and their theorems at concrete buffers.
use lunatik_ng.Base.{ℕ, ◌≡◌, ◌≢◌, ◌⊎◌, refl, List, [], ◌∷◌, ℤ, pos, negsuc, set, arith}
use lunatik_ng.Buffer.{
  lua_error, done, index_out_of_range, bad_value, lunatik_buf_newindex, lunatik_buf_index,
  lunatik_buf_call,
}
use lunatik_ng.Buffer.Access.{
  IsIndex, IsByte, lunatik_buf_index-newindex, lunatik_buf_newindex-errors,
}

abbrev three : List ℕ
three = 10 ∷ 20 ∷ 200 ∷ []

lunatik_buf_index-newindex_example :
    (buf' : List ℕ) × (lunatik_buf_newindex three (pos 1) (pos 255) ≡ done buf')
    × (lunatik_buf_index buf' (pos 1) ≡ done 255)
    × ((j : ℤ)
        → j ≢ pos 1
        → ((¬ IsIndex three j)
            × (lunatik_buf_index three j ≡ lua_error index_out_of_range)
            × (lunatik_buf_index buf' j ≡ lua_error index_out_of_range))
          ⊎ (IsIndex three j
              × (b : ℕ) × (lunatik_buf_index three j ≡ done b)
              × (lunatik_buf_index buf' j ≡ done b)))
lunatik_buf_index-newindex_example =
    lunatik_buf_index-newindex three 1 255 (omega arith) (omega arith)

-- The last index of a buffer of three bytes is 2.
lunatik_buf_newindex-errors_example :
    ((lunatik_buf_newindex three (pos 3) (pos 255) ≡ lua_error index_out_of_range)
      × (¬ IsIndex three (pos 3)))
    ⊎ ((lunatik_buf_newindex three (pos 3) (pos 255) ≡ lua_error bad_value)
        × IsIndex three (pos 3)
        × (¬ IsByte (pos 255)))
    ⊎ ((lunatik_buf_newindex three (pos 3) (pos 255) ≡ done (set three 3 255))
        × IsIndex three (pos 3)
        × IsByte (pos 255))
lunatik_buf_newindex-errors_example = lunatik_buf_newindex-errors three (pos 3) (pos 255)

last_refused : lunatik_buf_newindex three (pos 3) (pos 255) ≡ lua_error index_out_of_range
unfolding lunatik_buf_newindex
last_refused = refl

called : lunatik_buf_call three ≡ pos 10 ∷ pos 20 ∷ negsuc 55 ∷ []
called = refl
