-- ===== src/Printk/Order.antt =====
-- What `print` of lib/lunatik/bindings/printk.c prints.
use lunatik_ng.Base.{
  ℕ, suc, ◌-◌, ◌≡◌, ◌∙◌, sym, ap, refl, Option, some, List, [], ◌∷◌, ◌++◌, length, get_elem?,
  length-append, append_assoc, arith,
}
use lunatik_ng.Printk.{at_negative, print_text, print_loop, lunatik_printk}

module _ {V : Type 0} (tostring : V → Option (List ℕ)) where
  -- The texts of the values, one behind the other.
  abbrev pub texts : List V → List ℕ
  texts [] = []
  texts (v ∷ vs) = print_text tostring (tostring v) ++ texts vs

  abbrev pub line : List V → List ℕ
  line [] = []
  line (v ∷ vs) = texts (v ∷ vs) ++ 10 ∷ []

  get_elem?-append : (xs ys : List V) (y : V) → get_elem? (xs ++ y ∷ ys) (length xs) ≡ some y
  get_elem?-append [] ys y = refl
  get_elem?-append (x ∷ xs) ys y = get_elem?-append xs ys y

  at_negative_lem :
      (xs ys : List V) (y : V) → at_negative tostring (xs ++ y ∷ ys) (suc (length ys)) ≡ some y
  unfolding at_negative
  at_negative_lem xs ys y =
      let place : length (xs ++ y ∷ ys) - suc (length ys) ≡ length xs =
        omega (arith, length-append xs (y ∷ ys)) in
      let found : get_elem? (xs ++ y ∷ ys) (length (xs ++ y ∷ ys) - suc (length ys)) ≡ some y =
        ap (get_elem? (xs ++ y ∷ ys)) place ∙ get_elem?-append xs ys y in
      ground arith

  print_none : (stack : List V) → print_loop tostring stack 0 ≡ some []
  unfolding print_loop
  print_none stack = refl

  step :
      (xs ys : List V) (y : V)
      → at_negative tostring (xs ++ y ∷ ys) (suc (length ys)) ≡ some y
      → print_loop tostring (xs ++ y ∷ ys) (length ys) ≡ some (texts ys)
      → print_loop tostring (xs ++ y ∷ ys) (suc (length ys))
        ≡ some (print_text tostring (tostring y) ++ texts ys)
  unfolding print_loop
  step xs ys y here rest = ground arith

  print_loop_lem : (xs ys : List V) → print_loop tostring (xs ++ ys) (length ys) ≡ some (texts ys)
  print_loop_lem xs [] = print_none (xs ++ [])
  print_loop_lem xs (y ∷ ys) =
      let here = at_negative_lem xs ys y in
      let rest : print_loop tostring (xs ++ y ∷ ys) (length ys) ≡ some (texts ys) =
        ap (λ s. print_loop tostring s (length ys)) (sym (append_assoc xs (y ∷ []) ys))
        ∙ print_loop_lem (xs ++ y ∷ []) ys in
      step xs ys y here rest

  -- All arguments are printed, the first one first, each up to its first zero byte or as "(null)", with
  -- the end of the line behind them if there are any; each index is one of an argument; and the stack is
  -- empty behind it.
  pub lunatik_printk_lem : (stack : List V) → lunatik_printk tostring stack ≡ some ([], line stack)
  unfolding lunatik_printk
  lunatik_printk_lem [] = refl
  lunatik_printk_lem (v ∷ vs) =
      let printed = print_loop_lem [] (v ∷ vs) in
      let popped : length (v ∷ vs) - length (v ∷ vs) ≡ 0 = omega arith in ground arith
