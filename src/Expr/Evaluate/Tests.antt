-- ===== src/Expr/Evaluate/Tests.antt =====
-- source/expr.c, evaluate, on short expressions.
use iosdbg.Base.{
  ℕ, ◌+◌, ◌-◌, ◌*◌, ◌^◌, ◌≡◌, ◌≢◌, refl, Bool, ◌&&◌, ◌||◌, List, [], ◌∷◌, leb, if◌then◌else◌, ◌==◌,
}
use iosdbg.Base.Int.{ℤ, pos, negsuc}
use iosdbg.Stack.{stack_new, push, push_at, pop, peek, stack_empty, load}
use iosdbg.Expr.{is_operator, precedence, is_neg_operator, invalid_expr}
use iosdbg.Expr.Evaluate.{
  Library, Run, ok, failed, fault, no_rounds, divide_by_zero, bad_character, unexpected_operator,
  ◌>>=◌, or_fault, long, perform_operation, process_stacks, drain, skip_blanks, scan_number,
  read_number, consume, eval_loop, check_from, evaluate,
}
use iosdbg.Expr.Evaluate.Rounds.{evaluate-ne-no_rounds}

abbrev digit : ℕ → Bool
digit c = leb 48 c && leb c 57

-- The number of decimal digits at the start.
abbrev decimal : ℕ → List ℕ → ℕ
decimal n [] = n
decimal n (c ∷ s) = let rest = decimal (n * 10 + (c - 48)) s in if digit c then rest else n

abbrev ascii : Library
ascii = record {
  isblank = λ c. (c == 32) || (c == 9);
  isdigit = digit;
  isxdigit = λ c. digit c || (leb 97 c && leb c 102);
  isnumber = digit;
  tolower = λ c. c;
  strtol = λ s base. pos (decimal 0 s);
}

abbrev run : List ℕ → Run ℤ
run s = evaluate ascii (pos 0) s

-- "2*-3 +1"
abbrev product : List ℕ
product = 50 ∷ 42 ∷ 45 ∷ 51 ∷ 32 ∷ 43 ∷ 49 ∷ []

evaluate-ne-no_rounds_example : evaluate ascii (pos 0) product ≢ no_rounds
evaluate-ne-no_rounds_example = evaluate-ne-no_rounds ascii (pos 0) product refl refl

product_value : run product ≡ ok (negsuc 4)
unfolding evaluate eval_loop check_from consume read_number scan_number skip_blanks drain
    process_stacks perform_operation long or_fault ◌>>=◌ is_operator precedence is_neg_operator
    invalid_expr push push_at pop peek load stack_empty stack_new
product_value = refl

-- "7-(2+3)", "8-4-2" and "1/0"
operations_in_order :
    (run (55 ∷ 45 ∷ 40 ∷ 50 ∷ 43 ∷ 51 ∷ 41 ∷ []) ≡ ok (pos 2))
    × (run (56 ∷ 45 ∷ 52 ∷ 45 ∷ 50 ∷ []) ≡ ok (pos 2))
    × (run (49 ∷ 47 ∷ 48 ∷ []) ≡ failed divide_by_zero)
unfolding evaluate eval_loop check_from consume read_number scan_number skip_blanks drain
    process_stacks perform_operation long or_fault ◌>>=◌ is_operator precedence is_neg_operator
    invalid_expr push push_at pop peek load stack_empty stack_new
operations_in_order = (refl, refl, refl)

-- A space at the end, `"1 "`, is refused, an empty string and `"1-"` take LONG_MIN for the operand
-- that they lack, and in `"1 2"` the first number is left behind.
odd_strings :
    (run (49 ∷ 32 ∷ []) ≡ failed (bad_character 0 2))
    × (run [] ≡ ok (negsuc (2 ^ 63 - 1)))
    × (run (49 ∷ 45 ∷ []) ≡ fault)
    × (run (49 ∷ 32 ∷ 50 ∷ []) ≡ ok (pos 2))
unfolding evaluate eval_loop check_from consume read_number scan_number skip_blanks drain
    process_stacks perform_operation long or_fault ◌>>=◌ is_operator precedence is_neg_operator
    invalid_expr push push_at pop peek load stack_empty stack_new
odd_strings = (refl, refl, refl, refl)

-- "1*/2"
operators_refused : run (49 ∷ 42 ∷ 47 ∷ 50 ∷ []) ≡ failed (unexpected_operator 2)
unfolding evaluate check_from ◌>>=◌ invalid_expr is_operator is_neg_operator
operators_refused = refl
