-- ===== src/Limits/Examples.antt =====
-- Sizes of lib/lunatik/lobject.c and lmem.c, and their theorems at concrete sizes.
use lunatik_ng.Base.{◌≡◌, refl, [], ◌∷◌, some, arith}
use lunatik_ng.Limits.{computesizes, luao_log2, sizes_loop, luao_int2fb, luao_fb2int, fb_loop}
use lunatik_ng.Limits.Logarithm.{luao_log2-eq-digits, digits}

thousand : luao_fb2int (luao_int2fb 1000) ≡ 1024
unfolding luao_fb2int luao_int2fb fb_loop
thousand = refl

sizes_of_four : computesizes (1 ∷ 1 ∷ 1 ∷ 1 ∷ []) 4 ≡ some (3, 4)
unfolding computesizes sizes_loop
sizes_of_four = refl

luao_log2-eq-digits_example : luao_log2 1000 ≡ digits 32 1000
luao_log2-eq-digits_example = luao_log2-eq-digits 1000 (omega arith)
