-- ===== src/Printk/Examples.antt =====
-- A run of `print` of lib/lunatik/bindings/printk.c.
use lunatik_ng.Base.{◌≡◌, refl, Option, none, some, List, [], ◌∷◌, ◌++◌, ℕ}
use lunatik_ng.Printk.{null_text, lunatik_printk}
use lunatik_ng.Printk.Order.{line, lunatik_printk_lem}

-- A string with a zero byte inside, a value without a text, and a string.
abbrev arguments : List (Option (List ℕ))
arguments = some (97 ∷ 0 ∷ 98 ∷ []) ∷ none ∷ some (99 ∷ []) ∷ []

abbrev itself : Option (List ℕ) → Option (List ℕ)
itself v = v

printed : lunatik_printk itself arguments ≡ some ([], 97 ∷ null_text ++ 99 ∷ 10 ∷ [])
unfolding lunatik_printk
printed = refl

nothing_printed : lunatik_printk itself [] ≡ some ([], [])
unfolding lunatik_printk
nothing_printed = refl

lunatik_printk_lem_example : lunatik_printk itself arguments ≡ some ([], line itself arguments)
lunatik_printk_lem_example = lunatik_printk_lem itself arguments
