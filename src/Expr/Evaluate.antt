-- ===== src/Expr/Evaluate.antt =====
-- source/expr.c: the evaluation of an expression with a stack of operators and one of operands. The
-- functions of the C library on characters and `strtol` are parameters. An operation whose result
-- is not a `long` is a fault, since it is not defined in C.
pub mod Settled
pub mod Rounds
pub mod Drain
mod Tests
use iosdbg.Base.{
  ℕ, zero, suc, ◌+◌, ◌-◌, ◌%◌, Bool, true, false, not, ◌&&◌, ◌||◌, Option, none, some, List, [],
  ◌∷◌, ◌==◌, ltb, leb, if◌then◌else◌, length, drop,
}
use iosdbg.Base.Int.{ℤ, pos, negsuc, eq_ℤ}
use iosdbg.Base.Arith.{neg_ℤ, ◌+ℤ◌, ◌-ℤ◌, ◌*ℤ◌, quot_ℤ, in_long}
use iosdbg.Stack.{Stack, stack_new, push, pop, peek, stack_empty}
use iosdbg.Expr.{char_at, is_operator, precedence, is_neg_operator, invalid_expr}

pub data EvalError : Type 0 where
  divide_by_zero : EvalError
  unknown_operator : ℕ → EvalError
  unexpected_operator : (idx : ℕ) → EvalError
  bad_character : (current idx : ℕ) → EvalError

-- A call returns, sets an error, does something that is not defined, or runs out of its rounds.
pub data Run (A : Type 0) : Type 0 where
  ok : A → Run A
  failed : EvalError → Run A
  fault no_rounds : Run A

infixl 30 ◌>>=◌
unfoldable pub ◌>>=◌ : {A B : Type 0} → Run A → (A → Run B) → Run B
ok a >>= f = f a
failed e >>= f = failed e
fault >>= f = fault
no_rounds >>= f = no_rounds

unfoldable pub or_fault : {A : Type 0} → Option A → Run A
or_fault none = fault
or_fault (some a) = ok a

unfoldable pub long : ℤ → Run ℤ
long z = if in_long z then ok z else fault

-- The characters of the operators.
unfoldable pub perform_operation : (left right : ℤ) → ℕ → Run ℤ
perform_operation left right operator =
    if operator == 43
    then long (left +ℤ right)
    else if operator == 45
    then long (left -ℤ right)
    else if operator == 42
    then long (left *ℤ right)
    else if operator == 47
    then (if eq_ℤ right (pos 0) then failed divide_by_zero else long (quot_ℤ left right))
    else failed (unknown_operator operator)

-- `(char)` of what is on the stack.
abbrev pub to_char : ℤ → ℕ
to_char (pos n) = n % 256
to_char (negsuc n) = 255 - n % 256

abbrev pub negation : ℕ
negation = 78

abbrev pub Stacks : Type 0
Stacks = Stack × Stack

-- `none` where a negation was carried out, which has pushed its result.
unfoldable pub process_stacks : ℤ → Stack → Stack → Run (Option ℤ × Stack × Stack)
unfolding perform_operation
process_stacks junk operators operands = or_fault (pop operators) >>= λ top.
    or_fault (pop operands) >>= λ right.
    let operator = to_char top.0 in
    if operator == negation
    then (long (right.0 *ℤ negsuc 0) >>= λ v.
        or_fault (push junk right.1 v) >>= λ xs. ok (none, top.1, xs))
    else (or_fault (pop right.1) >>= λ left.
        perform_operation left.0 right.0 operator >>= λ v. ok (some v, top.1, left.1))

-- `while(!stack_empty(operators) && test(stack_peek(operators)))`, with the result pushed.
unfoldable pub drain : ℕ → ℤ → (ℕ → Bool) → Stack → Stack → Run Stacks
unfolding process_stacks
drain zero junk test operators operands = no_rounds
drain (suc rounds) junk test operators operands =
    if stack_empty (some operators)
    then ok (operators, operands)
    else or_fault (peek operators) >>= λ top.
        if not (test (to_char top))
        then ok (operators, operands)
        else process_stacks junk operators operands >>= λ out. elim out.0 [
          | none ↦ drain rounds junk test out.1 out.2
          | some v ↦ or_fault (push junk out.2 v) >>= λ xs. drain rounds junk test out.1 xs
        ]

-- The functions of ctype.h, and `strtol`, which gives the number at the start of a string in a base.
pub record Library : Type 0 where
  pub isblank : ℕ → Bool
  pub isdigit : ℕ → Bool
  pub isxdigit : ℕ → Bool
  pub isnumber : ℕ → Bool
  pub tolower : ℕ → ℕ
  pub strtol : List ℕ → ℕ → ℤ

module _ (lib : Library) (junk : ℤ) where
  -- The index of the first character from `idx` on that is not blank.
  unfoldable pub skip_blanks : ℕ → List ℕ → ℕ → Run ℕ
  skip_blanks zero s idx = no_rounds
  skip_blanks (suc rounds) s idx =
      let rest = skip_blanks rounds s (idx + 1) in
      if lib.isblank (char_at s idx) then rest else ok idx

  -- The index behind the digits and the base.
  unfoldable pub scan_number : ℕ → List ℕ → (idx base : ℕ) → Run (ℕ × ℕ)
  scan_number zero s idx base = no_rounds
  scan_number (suc rounds) s idx base =
      let current = char_at s idx in
      let c = lib.tolower current in
      let rest = scan_number rounds s (idx + 1) (if leb 97 c && leb c 102 then 16 else base) in
      if lib.isdigit current || lib.isxdigit current then rest else ok (idx, base)

  -- `strncmp(expr + idx, "0x", 2) == 0`
  abbrev pub at_0x : List ℕ → ℕ → Bool
  at_0x s idx = (char_at s idx == 48) && (char_at s (idx + 1) == 120)

  -- The number at `idx`, and the index behind it.
  unfoldable pub read_number : List ℕ → ℕ → Run (ℤ × ℕ)
  unfolding scan_number
  read_number s idx =
      let start = if at_0x s idx then idx + 2 else idx in
      let base = if at_0x s idx then 16 else if lib.isdigit (char_at s idx) then 10 else 16 in
      scan_number (length s + 3) s start base >>= λ end. ok (lib.strtol (drop start s) end.1, end.0)

  -- One character, or one number: the stacks after it, and the index of the next.
  unfoldable pub consume : List ℕ → ℕ → Stack → Stack → Run (ℕ × Stack × Stack)
  unfolding read_number drain is_neg_operator is_operator precedence
  consume s idx operators operands =
      let current = char_at s idx in
      if is_neg_operator s (pos idx)
      then (or_fault (push junk operators (pos negation)) >>= λ ops. ok (idx + 1, ops, operands))
      else if lib.isxdigit current
      then (read_number s idx >>= λ number.
          or_fault (push junk operands number.0) >>= λ xs. ok (number.1, operators, xs))
      else if current == 40
      then (or_fault (push junk operators (pos 40)) >>= λ ops. ok (idx + 1, ops, operands))
      else if current == 41
      then (drain (length s + 2) junk (λ c. not (c == 40)) operators operands >>= λ stacks.
          or_fault (pop stacks.0) >>= λ top. ok (idx + 1, top.1, stacks.1))
      else if is_operator current
      then (drain (length s + 2) junk (λ c. leb (precedence current) (precedence c)) operators
            operands
          >>= λ stacks.
              or_fault (push junk stacks.0 (pos current)) >>= λ ops. ok (idx + 1, ops, stacks.1))
      else failed (bad_character current idx)

  unfoldable pub eval_loop : ℕ → List ℕ → ℕ → Stack → Stack → Run Stacks
  unfolding skip_blanks consume
  eval_loop zero s idx operators operands = no_rounds
  eval_loop (suc rounds) s idx operators operands =
      if leb (length s) idx
      then ok (operators, operands)
      else skip_blanks (length s + 1) s idx >>= λ at.
          consume s at operators operands >>= λ out. eval_loop rounds s out.0 out.1 out.2

  -- The check for operators in a row, from index `i` on.
  unfoldable pub check_from : ℕ → List ℕ → ℕ → Run ℕ
  unfolding invalid_expr
  check_from zero s i = ok i
  check_from (suc left) s i =
      let rest = check_from left s (i + 1) in
      if invalid_expr lib.isnumber s (char_at s i) i then failed (unexpected_operator i) else rest

  unfoldable pub evaluate : List ℕ → Run ℤ
  unfolding eval_loop drain check_from
  evaluate s = check_from (length s - 1) s 1 >>= λ checked.
      eval_loop (length s + 1) s 0 stack_new stack_new >>= λ stacks.
      drain (length s + 2) junk (λ c. true) stacks.0 stacks.1 >>= λ rest.
      or_fault (pop rest.1) >>= λ result. ok result.0
