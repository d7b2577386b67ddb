-- ===== src/Expr/Tests.antt =====
-- source/expr.c on short expressions.
use iosdbg.Base.{ℕ, ◌≡◌, refl, true, false, some, List, [], ◌∷◌, arith}
use iosdbg.Base.Int.{pos}
use iosdbg.Strext.{substr}
use iosdbg.Expr.{
  is_operator, precedence, is_neg_operator, is_conv_var, invalid_expr, is_end_of_number, end_loop,
  find_end_of_operand,
}
use iosdbg.Expr.Operand.{IsEnd, find_end_of_operand-IsEnd}

-- "$a-1"
abbrev difference : List ℕ
difference = 36 ∷ 97 ∷ 45 ∷ 49 ∷ []

find_end_of_operand-IsEnd_example :
    (end : ℕ) × (find_end_of_operand (some difference) (pos 0) ≡ some (pos end))
    × IsEnd difference 0 end
find_end_of_operand-IsEnd_example = find_end_of_operand-IsEnd difference 0 (omega arith)

variable_ends : find_end_of_operand (some difference) (pos 0) ≡ some (pos 2)
unfolding find_end_of_operand end_loop is_end_of_number is_neg_operator is_operator
variable_ends = refl

variable_found : is_conv_var (some difference) (pos 0) (pos 2) ≡ true
unfolding is_conv_var substr
variable_found = refl

-- "1*/2" is refused, "1*-2" is not.
operators_in_a_row :
    (invalid_expr (λ c. false) (49 ∷ 42 ∷ 47 ∷ 50 ∷ []) 47 2 ≡ true)
    × (invalid_expr (λ c. false) (49 ∷ 42 ∷ 45 ∷ 50 ∷ []) 45 2 ≡ false)
unfolding invalid_expr is_operator is_neg_operator
operators_in_a_row = (refl, refl)

multiplied_first :
    (precedence 43 ≡ 1) × (precedence 42 ≡ 2) × (precedence 78 ≡ 3) × (precedence 40 ≡ 0)
unfolding precedence
multiplied_first = (refl, refl, refl, refl)
