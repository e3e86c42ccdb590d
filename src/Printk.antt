-- ===== src/Printk.antt =====
-- The function `print` of lib/lunatik/bindings/printk.c.
pub mod Order
mod Examples
use lunatik_ng.Base.{
  ℕ, zero, suc, ◌+◌, ◌-◌, Bool, true, false, Option, none, some, List, [], ◌∷◌, ◌++◌, ◌==◌, length,
  get_elem?, take, if◌then◌else◌,
}

-- `"%s"` prints a string up to its first zero byte.
abbrev pub c_string : List ℕ → List ℕ
c_string [] = []
c_string (b ∷ bs) = if b == 0 then [] else b ∷ c_string bs

-- `(null)`
abbrev pub null_text : List ℕ
null_text = 40 ∷ 110 ∷ 117 ∷ 108 ∷ 108 ∷ 41 ∷ []

-- The values of the stack, the first argument first. `tostring` is `lua_tostring`, which has no result
-- for values that are neither strings nor numbers. `none` is a read below the first argument.
module _ {V : Type 0} (tostring : V → Option (List ℕ)) where
  -- The value at the index -i.
  unfoldable pub at_negative : List V → (i : ℕ) → Option V
  at_negative stack i = if i == 0 then none else get_elem? stack (length stack - i)

  unfoldable pub print_text : Option (List ℕ) → List ℕ
  print_text none = null_text
  print_text (some s) = c_string s

  -- What the rounds from `i` down to 1 print.
  unfoldable pub print_loop : List V → (i : ℕ) → Option (List ℕ)
  unfolding at_negative print_text
  print_loop stack zero = some []
  print_loop stack (suc i) = elim (at_negative stack (suc i)) [
    | none ↦ none
    | some v ↦ elim (print_loop stack i) [
      | none ↦ none
      | some text ↦ some (print_text (tostring v) ++ text)
    ]
  ]

  -- The stack that is left and what is printed; 10 ends the line.
  unfoldable pub lunatik_printk : List V → Option (List V × List ℕ)
  unfolding print_loop
  lunatik_printk stack =
      let n = length stack in
      elim (print_loop stack n) [
        | none ↦ none
        | some text ↦ some (take (n - n) stack, if n == 0 then text else text ++ 10 ∷ [])
      ]
