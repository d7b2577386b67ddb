-- ===== src/Expr/Evaluate/Rounds.antt =====
-- source/expr.c, evaluate: every loop ends, whatever the expression.
use iosdbg.Base.{
  ℕ, zero, suc, ◌+◌, ◌-◌, ◌≤◌, ◌<◌, ◌≡◌, ◌≢◌, refl, Bool, true, false, not, ◌&&◌, ◌||◌, List, [],
  ◌∷◌, ltb, leb, ◌==◌, if◌then◌else◌, length, arith, Bool-cases, inl, inr,
}
use iosdbg.Base.Int.{ℤ, pos}
use iosdbg.Stack.{Stack, stack_new, push, pop}
use iosdbg.Expr.{char_at, is_operator, precedence, is_neg_operator, invalid_expr}
use iosdbg.Expr.Evaluate.{
  or_fault, Library, no_rounds, skip_blanks, scan_number, read_number, consume, eval_loop,
  check_from, evaluate, negation,
}
use iosdbg.Expr.Evaluate.Settled.{
  Settled, gives, fails, Any, Settled-imp, Settled-or_fault, Settled-next, Settled-bind, Settled-if,
  Settled-ne_no_rounds, height, height-push, height-pop_le,
}
use iosdbg.Expr.Evaluate.Drain.{drain-Below, Below}

-- The string ends at its terminator.
char_at-of_le : (s : List ℕ) (i : ℕ) → length s ≤ i → char_at s i ≡ 0
char_at-of_le [] i h = refl
char_at-of_le (c ∷ s) zero h = absurd (omega arith)
char_at-of_le (c ∷ s) (suc i) h = char_at-of_le s i (omega arith)

within : (p : ℕ → Bool) (s : List ℕ) (i : ℕ) → p 0 ≡ false → p (char_at s i) ≡ true → i < length s
within p s i none_at_end e = elim (Bool-cases (ltb i (length s))) [
  | inl less ↦ ground arith
  | inr past ↦ absurd (ground (arith, char_at-of_le s i))
]

abbrev Reaches : (low high : ℕ) → ℕ → Type 0
Reaches low high i = (low ≤ i) × (i ≤ high)

fresh : height stack_new ≡ 0
unfolding stack_new
fresh = refl

module _ (lib : Library) (junk : ℤ) where
  skip_blanks-Reaches :
      (rounds : ℕ) (s : List ℕ) (i : ℕ)
      → lib.isblank 0 ≡ false
      → i ≤ length s
      → length s < rounds + i
      → Settled (Reaches i (length s)) (skip_blanks lib junk rounds s i)
  unfolding skip_blanks
  skip_blanks-Reaches zero s i end small enough = absurd (omega arith)
  skip_blanks-Reaches (suc rounds) s i end small enough =
      Settled-if {b = lib.isblank (char_at s i)}
        (λ e.
          let less : i < length s = within lib.isblank s i end e in
          Settled-imp (λ j r. omega arith)
            (skip_blanks-Reaches rounds s (i + 1) end (omega arith) (omega arith)))
        (λ e. gives {a = i} (omega arith))

  abbrev is_digit : ℕ → Bool
  is_digit c = lib.isdigit c || lib.isxdigit c

  scan_number-ends :
      (rounds : ℕ) (s : List ℕ) (i base : ℕ)
      → is_digit 0 ≡ false
      → 0 < rounds
      → length s < rounds + i
      → Settled
          (λ end. (i ≤ end.0) × (is_digit (char_at s i) ≡ true → i < end.0))
          (scan_number lib junk rounds s i base)
  unfolding scan_number
  scan_number-ends zero s i base none_at_end some_left enough = absurd (omega arith)
  scan_number-ends (suc rounds) s i base none_at_end some_left enough =
      Settled-if {b = is_digit (char_at s i)}
        (λ e.
          let less : i < length s = within is_digit s i none_at_end e in
          Settled-imp (λ end r. (omega (arith, r.0), λ e. omega (arith, r.0)))
            (scan_number-ends rounds s (i + 1)
              (if leb 97 (lib.tolower (char_at s i)) && leb (lib.tolower (char_at s i)) 102
                then 16
                else base)
              none_at_end (omega arith) (omega arith)))
        (λ e. gives {a = (i, base)} (ground arith))

  past_start :
      (zero_x : Bool) (s : List ℕ) (i end : ℕ)
      → ((if zero_x then i + 2 else i) ≤ end)
        × (is_digit (char_at s (if zero_x then i + 2 else i)) ≡ true
            → (if zero_x then i + 2 else i) < end)
      → is_digit (char_at s i) ≡ true
      → i < end
  past_start true s i end r e = omega (arith, r.0)
  past_start false s i end r e = r.1 e

  read_number-Past :
      (s : List ℕ) (i : ℕ)
      → is_digit 0 ≡ false
      → is_digit (char_at s i) ≡ true
      → Settled (λ out. i < out.1) (read_number lib junk s i)
  unfolding read_number
  read_number-Past s i none_at_end e =
      let zero_x = (char_at s i == 48) && (char_at s (i + 1) == 120) in
      Settled-bind
        (scan_number-ends (length s + 3) s (if zero_x then i + 2 else i)
          (if zero_x then 16 else if lib.isdigit (char_at s i) then 10 else 16) none_at_end
          (omega arith) (omega arith))
        (λ end r. gives (past_start zero_x s i end.0 r e))

  -- A step of the loop goes on by at least one character, and adds at most one operator.
  abbrev Steps : ℕ → Stack → ℕ × Stack × Stack → Type 0
  Steps i operators out = (i < out.0) × (height out.1 ≤ height operators + 1)

  consume-Steps :
      (s : List ℕ) (i : ℕ) (operators operands : Stack)
      → is_digit 0 ≡ false
      → height operators ≤ length s
      → Settled (Steps i operators) (consume lib junk s i operators operands)
  unfolding consume
  consume-Steps s i operators operands none_at_end few =
      let c = char_at s i in
      let pushed : (ops : Stack) (v : ℤ)
          → height ops ≤ height operators
          → Settled (λ ops'. height ops' ≤ height operators + 1) (or_fault (push junk ops v)) =
        λ ops v h.
          Settled-or_fault (push junk ops v)
            (λ ops' e. omega (arith, height-push junk ops ops' v e)) in
      Settled-if {b = is_neg_operator s (pos i)}
        (λ e.
          Settled-bind (pushed operators (pos negation) (omega arith))
            (λ ops h. gives {a = (i + 1, ops, operands)} (omega arith, h)))
        (λ e.
          Settled-if {b = lib.isxdigit c}
            (λ e. Settled-bind (read_number-Past s i none_at_end (ground arith)) (λ number past.
              Settled-next (push junk operands number.0)
                (λ xs. gives {a = (number.1, operators, xs)} (past, omega arith))))
            (λ e.
              Settled-if {b = c == 40}
                (λ e.
                  Settled-bind (pushed operators (pos 40) (omega arith))
                    (λ ops h. gives {a = (i + 1, ops, operands)} (omega arith, h)))
                (λ e.
                  Settled-if {b = c == 41}
                    (λ e.
                      Settled-bind
                        (drain-Below (length s + 2) junk (λ c. not (c == 40)) operators operands
                          (omega arith))
                        (λ stacks below.
                          Settled-bind
                            (Settled-or_fault
                              {P = λ (top : ℤ × Stack). height top.1 ≤ height stacks.0}
                              (pop stacks.0) (λ top e. height-pop_le stacks.0 top.1 top.0 e))
                            (λ top h.
                              gives {a = (i + 1, top.1, stacks.1)}
                                (omega arith, omega (arith, h, below)))))
                    (λ e.
                      Settled-if {b = is_operator c}
                        (λ e.
                          Settled-bind
                            (drain-Below (length s + 2) junk
                              (λ d. leb (precedence c) (precedence d)) operators operands
                              (omega arith))
                            (λ stacks below.
                              Settled-bind (pushed stacks.0 (pos c) below)
                                (λ ops h. gives {a = (i + 1, ops, stacks.1)} (omega arith, h))))
                        (λ e. fails)))))

  eval_loop-Below :
      (rounds : ℕ) (s : List ℕ) (i : ℕ) (operators operands : Stack)
      → lib.isblank 0 ≡ false
      → is_digit 0 ≡ false
      → 0 < rounds
      → length s < rounds + i
      → height operators ≤ i
      → height operators ≤ length s + 1
      → Settled (Below (length s + 1)) (eval_loop lib junk rounds s i operators operands)
  unfolding eval_loop
  eval_loop-Below zero s i operators operands blank digit some_left enough h few =
      absurd (omega arith)
  eval_loop-Below (suc rounds) s i operators operands blank digit some_left enough h few =
      Settled-if {b = leb (length s) i} (λ e. gives {a = (operators, operands)} few)
        (λ e.
          let less : i < length s = ground arith in
          Settled-bind (skip_blanks-Reaches (length s + 1) s i blank (omega arith) (omega arith))
            (λ at r.
              Settled-bind (consume-Steps s at operators operands digit (omega arith)) (λ out step.
                eval_loop-Below rounds s out.0 out.1 out.2 blank digit (omega arith)
                  (omega (arith, step.0, r.0)) (omega (arith, step.0, step.1, r.0))
                  (omega (arith, step.1)))))

  check_from-Any : (n : ℕ) (s : List ℕ) (i : ℕ) → Settled Any (check_from lib junk n s i)
  unfolding check_from
  check_from-Any zero s i = gives tt
  check_from-Any (suc n) s i =
      Settled-if {b = invalid_expr lib.isnumber s (char_at s i) i} (λ e. fails)
        (λ e. check_from-Any n s (i + 1))

  -- Every loop of `evaluate` ends within the rounds that it is given, whatever the string is and
  -- whether or not it is an expression, if the terminator of a string is neither a blank nor a
  -- digit.
  pub evaluate-ne-no_rounds :
      (s : List ℕ)
      → lib.isblank 0 ≡ false
      → (lib.isdigit 0 || lib.isxdigit 0) ≡ false
      → evaluate lib junk s ≢ no_rounds
  unfolding evaluate
  evaluate-ne-no_rounds s blank digit = Settled-ne_no_rounds {P = Any} (
      Settled-bind (check_from-Any (length s - 1) s 1) (λ checked t.
        Settled-bind
          (eval_loop-Below (length s + 1) s 0 stack_new stack_new blank digit (omega arith)
            (omega arith) (omega (arith, fresh)) (omega (arith, fresh)))
          (λ stacks below.
            Settled-bind
              (drain-Below (length s + 2) junk (λ c. true) stacks.0 stacks.1 (omega arith))
              (λ rest t. Settled-next (pop rest.1) (λ result. gives tt)))))
