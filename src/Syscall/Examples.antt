-- ===== src/Syscall/Examples.antt =====
-- Runs of the model of lib/lunatik/lunatik_syscall.c, and its theorems at concrete inputs.
use lunatik_ng.Base.{◌≡◌, refl, [], ◌∷◌, pos, negsuc, some, arith, inr}
use lunatik_ng.Kernel.{IfReturns, update}
use lunatik_ng.Runtime.{LunatikResult, r_number}
use lunatik_ng.Runtime.Examples.{empty}
use lunatik_ng.Syscall.{
  copy_lunatik_result_to_user, copy_userdata, copy_payload, put_size, copy_word,
}
use lunatik_ng.Syscall.Memory.{User, get_user, put_user}
use lunatik_ng.Syscall.Bounds.{copy_lunatik_result_to_user-Outside, copy_userdata-before}

-- The size at 200 is 16; the type is at 100 and the value at 300.
abbrev memory : User
memory = update (λ p. some 0) 200 (some 16)

abbrev seven : LunatikResult
seven = record { r_type = 3; payload = r_number (negsuc 6) }

size_read : get_user 8 200 memory ≡ some 16
unfolding get_user
size_read = refl

copy_lunatik_result_to_user-Outside_example :
    IfReturns
      (copy_lunatik_result_to_user seven 100 300 200 memory empty)
      (λ (ret, u') _. u' 400 ≡ some 0)
copy_lunatik_result_to_user-Outside_example =
    copy_lunatik_result_to_user-Outside seven 100 300 200 400 16 memory empty size_read tt
      (inr (omega arith)) (inr (omega arith)) (inr (omega arith))

copy_userdata-before_example : (copy_userdata (98 ∷ 0 ∷ []) [] 300 0 (λ p. some 1)).2 299 ≡ some 0
copy_userdata-before_example =
    copy_userdata-before (98 ∷ 0 ∷ []) [] 300 (λ p. some 1) (omega arith) (omega arith)
      (omega arith) refl

-- -7 arrives as a 64-bit word, with its size.
minus_seven :
    IfReturns
      (copy_lunatik_result_to_user seven 100 300 200 memory empty)
      (λ (ret, u') _. (ret ≡ pos 0) × (u' 300 ≡ some 249) × (u' 307 ≡ some 255) × (u' 200 ≡ some 8))
unfolding copy_lunatik_result_to_user copy_payload put_size copy_word get_user put_user
minus_seven = (refl, refl, refl, refl)
