-- ===== src/Expr/Evaluate/Settled.antt =====
-- source/expr.c, evaluate: calls that do not run out of rounds, with what holds of their results,
-- and the number of items on a stack.
use iosdbg.Base.{
  ℕ, zero, suc, ◌+◌, ◌≤◌, ◌≡◌, ◌≢◌, refl, Bool, true, false, Option, none, some, List,
  if◌then◌else◌, arith,
}
use iosdbg.Base.Int.{ℤ, pos, negsuc, incr, decr}
use iosdbg.Stack.{Stack, push, push_at, pop, load, stack_empty}
use iosdbg.Expr.Evaluate.{EvalError, Run, ok, failed, fault, no_rounds, ◌>>=◌, or_fault}

-- A call that has not run out of its rounds, and whose result is as `P` says where there is one.
pub data Settled {A : Type 0} (P : A → Type 0) : Run A → Type 0 where
  gives : {a : A} → P a → Settled P (ok a)
  fails : {e : EvalError} → Settled P (failed e)
  faults : Settled P fault

-- Nothing is said of the result.
abbrev pub Any : {A : Type 0} → A → Type 0
Any a = Unit

pub Settled-gives : {A : Type 0} {P : A → Type 0} {a : A} → Settled P (ok a) → P a
Settled-gives (gives p) = p

pub Settled-ne_no_rounds : {A : Type 0} {P : A → Type 0} {r : Run A} → Settled P r → r ≢ no_rounds
Settled-ne_no_rounds (gives p) e = cc
Settled-ne_no_rounds fails e = cc
Settled-ne_no_rounds faults e = cc

pub Settled-imp :
    {A : Type 0} {P Q : A → Type 0} {r : Run A} → ((a : A) → P a → Q a) → Settled P r → Settled Q r
Settled-imp f (gives p) = gives (f _ p)
Settled-imp f fails = fails
Settled-imp f faults = faults

pub Settled-or_fault :
    {A : Type 0} {P : A → Type 0} (o : Option A)
    → ((a : A) → o ≡ some a → P a)
    → Settled P (or_fault o)
unfolding or_fault
Settled-or_fault none f = faults
Settled-or_fault (some a) f = gives (f a refl)

pub Settled-bind :
    {A B : Type 0} {P : A → Type 0} {Q : B → Type 0} {r : Run A} {f : A → Run B}
    → Settled P r
    → ((a : A) → P a → Settled Q (f a))
    → Settled Q (r >>= f)
unfolding ◌>>=◌
Settled-bind (gives p) k = k _ p
Settled-bind fails k = fails
Settled-bind faults k = faults

-- The next step where nothing is needed of what a call on a stack gives.
pub Settled-next :
    {A B : Type 0} {Q : B → Type 0} (o : Option A) {f : A → Run B}
    → ((a : A) → Settled Q (f a))
    → Settled Q (or_fault o >>= f)
unfolding ◌>>=◌ or_fault
Settled-next none k = faults
Settled-next (some a) k = k a

pub Settled-if :
    {A : Type 0} {P : A → Type 0} {b : Bool} {r s : Run A}
    → (b ≡ true → Settled P r)
    → (b ≡ false → Settled P s)
    → Settled P (if b then r else s)
Settled-if {b = true} f g = f refl
Settled-if {b = false} f g = g refl

-- The number of items that the index of the top stands for.
abbrev pub above : ℤ → ℕ
above (pos n) = suc n
above (negsuc n) = 0

abbrev pub height : Stack → ℕ
height s = above s.top

above-push_at :
    (junk : ℤ) (s s' : Stack) (z v : ℤ) → push_at junk s z v ≡ some s' → height s' ≡ above z
unfolding push_at
above-push_at junk s s' (negsuc n) v e = cc
above-push_at junk s s' (pos i) v e = ground arith

above-incr : (z : ℤ) → above (incr z) ≤ suc (above z)
above-incr (pos n) = omega arith
above-incr (negsuc zero) = omega arith
above-incr (negsuc (suc n)) = omega arith

pub height-push :
    (junk : ℤ) (s s' : Stack) (v : ℤ) → push junk s v ≡ some s' → height s' ≤ height s + 1
unfolding push
height-push junk s s' v e =
    omega (arith, above-push_at junk s s' (incr s.top) v e, above-incr s.top)

above-decr : (n : ℕ) → above (decr (pos n)) ≡ n
above-decr zero = refl
above-decr (suc n) = refl

above-pop :
    (b : Option (List ℤ)) (t : ℤ) (s' : Stack) (v : ℤ)
    → pop (record { buffer = b; top = t }) ≡ some (v, s')
    → (height s' ≤ above t)
      × (stack_empty (some (record { buffer = b; top = t })) ≡ false → height s' + 1 ≡ above t)
unfolding pop load stack_empty
above-pop none t s' v e = ground arith
above-pop (some b) (pos i) s' v e = ground (arith, above-decr i)
above-pop (some b) (negsuc i) s' v e = ground arith

pub height-pop_le : (s s' : Stack) (v : ℤ) → pop s ≡ some (v, s') → height s' ≤ height s
height-pop_le s s' v e = (above-pop s.buffer s.top s' v e).0

pub height-pop :
    (s s' : Stack) (v : ℤ)
    → pop s ≡ some (v, s')
    → stack_empty (some s) ≡ false
    → height s' + 1 ≡ height s
height-pop s s' v e full = (above-pop s.buffer s.top s' v e).1 full
