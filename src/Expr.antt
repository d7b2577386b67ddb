-- ===== src/Expr.antt =====
-- source/expr.c: the characters of an expression, as the checks before its evaluation and the
-- search for convenience variables read them. A string is the list of its characters before the
-- terminating NUL; a NULL pointer is `none`. An index is an `int` that is not bounded: a string has at
-- most INT_MAX characters. `isnumber` of the C library is a parameter.
pub mod Operand
pub mod Evaluate
pub mod Multiply
mod Tests
use iosdbg.Base.{
  ℕ, zero, suc, ◌+◌, ◌-◌, Bool, true, false, not, ◌&&◌, ◌||◌, Option, none, some, List, [], ◌∷◌,
  ◌==◌, ltb, if◌then◌else◌, length, get_or,
}
use iosdbg.Base.Int.{ℤ, pos, negsuc}
use iosdbg.Strext.{substr}

-- `str[idx]`, where the terminating NUL can be read.
abbrev pub char_at : List ℕ → ℕ → ℕ
char_at s i = get_or s i 0

-- '+', '-', '*' and '/'
unfoldable pub is_operator : ℕ → Bool
is_operator c = (c == 43) || ((c == 45) || ((c == 42) || (c == 47)))

-- 'N' is the unary negation.
unfoldable pub precedence : ℕ → ℕ
precedence c =
    if (c == 43) || (c == 45)
    then 1
    else if (c == 47) || (c == 42)
    then 2
    else if c == 78
    then 3
    else 0

unfoldable pub is_neg_operator : List ℕ → ℤ → Bool
unfolding is_operator
is_neg_operator s (negsuc n) = false
is_neg_operator s (pos zero) = char_at s 0 == 45
is_neg_operator s (pos (suc i)) =
    (char_at s (suc i) == 45) && ((char_at s i == 40) || is_operator (char_at s i))

-- A convenience variable starts with '$'.
unfoldable pub is_conv_var : Option (List ℕ) → (start len : ℤ) → Bool
unfolding substr
is_conv_var s start len = elim (substr s start len) [
  | none ↦ false
  | some target ↦ if length target == 0 then false else char_at target 0 == 36
]

module _ (isnumber : ℕ → Bool) where
  -- Two operators in a row that do not make sense together.
  unfoldable pub invalid_expr : List ℕ → (cur_op idx : ℕ) → Bool
  unfolding is_operator is_neg_operator
  invalid_expr s cur_op zero = false
  invalid_expr s cur_op (suc i) =
      let prev_op = char_at s i in
      if suc i == length s
      then false
      else if not (is_operator prev_op && is_operator cur_op)
      then false
      else if prev_op == cur_op
      then not (prev_op == 45)
      else is_operator prev_op && (not (isnumber cur_op) && not (is_neg_operator s (pos (suc i))))

unfoldable pub is_end_of_number : Option (List ℕ) → ℤ → Bool
unfolding is_operator is_neg_operator
is_end_of_number none idx = true
is_end_of_number (some s) (negsuc n) = true
is_end_of_number (some s) (pos i) =
    if ltb (length s) i
    then true
    else (not (is_neg_operator s (pos i)) && is_operator (char_at s i))
      || ((char_at s i == 40) || (char_at s i == 41))

-- The loop of `find_end_of_operand`; `none` is a loop that has run out of its rounds.
unfoldable pub end_loop : ℕ → List ℕ → ℕ → Option ℕ
unfolding is_end_of_number
end_loop zero s end = none
end_loop (suc rounds) s end =
    let rest = end_loop rounds s (end + 1) in
    if not (is_end_of_number (some s) (pos end)) && ltb end (length s) then rest else some end

unfoldable pub find_end_of_operand : Option (List ℕ) → ℤ → Option ℤ
unfolding end_loop
find_end_of_operand none start = some (negsuc 0)
find_end_of_operand (some s) (negsuc n) = some (negsuc 0)
find_end_of_operand (some s) (pos i) =
    if ltb (length s) i
    then some (negsuc 0)
    else elim (end_loop (length s + 1) s i) [ none ↦ none | some end ↦ some (pos end) ]
