-- ===== src/Expr/Evaluate/Drain.antt =====
-- source/expr.c, process_stacks and the loops of evaluate that call it: each round takes an operator.
use iosdbg.Base.{
  ℕ, zero, suc, ◌+◌, ◌≤◌, ◌<◌, ◌≡◌, Bool, false, not, Option, none, some, ◌==◌, arith,
}
use iosdbg.Base.Int.{ℤ, negsuc}
use iosdbg.Base.Arith.{◌*ℤ◌}
use iosdbg.Stack.{Stack, push, pop, peek, stack_empty}
use iosdbg.Expr.Evaluate.{
  ◌>>=◌, or_fault, long, perform_operation, process_stacks, drain, to_char, negation,
}
use iosdbg.Expr.Evaluate.Settled.{
  Settled, gives, fails, faults, Any, Settled-imp, Settled-or_fault, Settled-next, Settled-bind,
  Settled-if, height, height-pop,
}

ruleset rules = (Settled-if, gives, fails, faults, Settled-next, Settled-bind)

long-Settled : (z : ℤ) → Settled Any (long z)
unfolding long
long-Settled z = search rules

perform_operation-Settled : (left right : ℤ) (c : ℕ) → Settled Any (perform_operation left right c)
unfolding perform_operation
perform_operation-Settled left right c = search (rules, long-Settled) depth 15 fits 2000

pop-height :
    (operators : Stack)
    → stack_empty (some operators) ≡ false
    → Settled (λ top. height top.1 + 1 ≡ height operators) (or_fault (pop operators))
pop-height operators full =
    Settled-or_fault (pop operators) (λ top e. height-pop operators top.1 top.0 e full)

-- One operation takes one operator.
abbrev Lower : Stack → Option ℤ × Stack × Stack → Type 0
Lower operators out = height out.1 + 1 ≡ height operators

process_stacks-Lower :
    (junk : ℤ) (operators operands : Stack)
    → stack_empty (some operators) ≡ false
    → Settled (Lower operators) (process_stacks junk operators operands)
unfolding process_stacks
process_stacks-Lower junk operators operands full =
    Settled-bind (pop-height operators full) (λ top lower. Settled-next (pop operands) (λ right.
      Settled-if {b = to_char top.0 == negation}
        (λ e.
          Settled-bind (long-Settled (right.0 *ℤ negsuc 0))
            (λ v t. Settled-next (push junk right.1 v) (λ xs. gives lower)))
        (λ e. Settled-next (pop right.1) (λ left.
          Settled-bind (perform_operation-Settled left.0 right.0 (to_char top.0))
            (λ v t. gives lower)))))

abbrev pub Below : ℕ → Stack × Stack → Type 0
Below n stacks = height stacks.0 ≤ n

pub drain-Below :
    (rounds : ℕ) (junk : ℤ) (test : ℕ → Bool) (operators operands : Stack)
    → height operators < rounds
    → Settled (Below (height operators)) (drain rounds junk test operators operands)
unfolding drain
drain-Below zero junk test operators operands h = absurd (omega arith)
drain-Below (suc rounds) junk test operators operands h =
    let back : (ops xs : Stack)
        → height ops + 1 ≡ height operators
        → Settled (Below (height operators)) (drain rounds junk test ops xs) =
      λ ops xs lower.
        Settled-imp (λ a b. omega arith) (drain-Below rounds junk test ops xs (omega arith)) in
    Settled-if {b = stack_empty (some operators)}
      (λ e. gives {a = (operators, operands)} (omega arith))
      (λ full. Settled-next (peek operators) (λ top.
        Settled-if {b = not (test (to_char top))}
          (λ e. gives {a = (operators, operands)} (omega arith))
          (λ e. Settled-bind (process_stacks-Lower junk operators operands full) (again back))))
  where
    again :
        ((ops xs : Stack)
          → height ops + 1 ≡ height operators
          → Settled (Below (height operators)) (drain rounds junk test ops xs))
        → (out : Option ℤ × Stack × Stack) → Lower operators out
        → Settled (Below (height operators)) (elim out.0 [
          | none ↦ drain rounds junk test out.1 out.2
          | some v ↦ or_fault (push junk out.2 v) >>= λ xs. drain rounds junk test out.1 xs
        ])
    again back (none, ops, xs) lower = back ops xs lower
    again back (some v, ops, xs) lower = Settled-next (push junk xs v) (λ xs'. back ops xs' lower)
