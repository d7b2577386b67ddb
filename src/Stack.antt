-- ===== src/Stack.antt =====
-- source/stack.c: a stack of `void *` in a block that `realloc` resizes, with the index of its
-- top. `none` is a fault: an access outside the block, or an `int` that leaves its range.
-- An item is kept as the integer that the callers cast it to. `realloc` is taken to succeed; a
-- slot that it adds holds `junk`.
pub mod Refine
mod Tests
use iosdbg.Base.{
  ℕ, zero, suc, ◌+◌, ◌-◌, ◌^◌, Bool, true, false, Option, none, some, List, ◌==◌, leb,
  if◌then◌else◌, get_elem?,
}
use iosdbg.Buffer.{realloc, store}
use iosdbg.Base.Int.{ℤ, pos, negsuc, incr, decr}

-- `struct stack`; the member `data` is `buffer`, and NULL is `none`.
pub record Stack : Type 0 where
  pub buffer : Option (List ℤ)
  pub top : ℤ

-- (void *)LONG_MIN
abbrev pub stack_err : ℤ
stack_err = negsuc (2 ^ 63 - 1)

abbrev pub int_max : ℕ
int_max = 2 ^ 31 - 1

unfoldable pub stack_new : Stack
stack_new = record { buffer = none; top = negsuc 0 }

-- `++stack->top`, then the block has one slot more than the index: the `int` that is one more than
-- the index overflows at INT_MAX.
unfoldable pub push_at : ℤ → Stack → ℤ → ℤ → Option Stack
push_at junk s (negsuc n) v = none
push_at junk s (pos i) v =
    if leb int_max i then none else elim (store (realloc junk (i + 1) s.buffer) i v) [
      | none ↦ none
      | some b ↦ some (record { buffer = some b; top = pos i })
    ]

unfoldable pub push : ℤ → Stack → ℤ → Option Stack
unfolding push_at
push junk s v = push_at junk s (incr s.top) v

-- The stack may be NULL, `none`.
pub stack_push : ℤ → Option Stack → ℤ → Option (Option Stack)
stack_push junk none v = some none
stack_push junk (some s) v = elim (push junk s v) [ none ↦ none | some s' ↦ some (some s') ]

abbrev pub is_minus_one : ℤ → Bool
is_minus_one (pos n) = false
is_minus_one (negsuc n) = n == 0

unfoldable pub stack_empty : Option Stack → Bool
stack_empty none = true
stack_empty (some s) = elim s.buffer [ none ↦ true | some b ↦ is_minus_one s.top ]

-- `stack->data[i]`
unfoldable pub load : Option (List ℤ) → ℤ → Option ℤ
load none i = none
load (some b) (pos i) = get_elem? b i
load (some b) (negsuc i) = none

unfoldable pub pop : Stack → Option (ℤ × Stack)
unfolding stack_empty load
pop s = if stack_empty (some s) then some (stack_err, s) else elim (load s.buffer s.top) [
  | none ↦ none
  | some v ↦ some (v, record s { top = decr s.top })
]

pub stack_pop : Option Stack → Option (ℤ × Option Stack)
stack_pop none = some (stack_err, none)
stack_pop (some s) = elim (pop s) [ none ↦ none | some (v, s') ↦ some (v, some s') ]

unfoldable pub peek : Stack → Option ℤ
unfolding stack_empty load
peek s = if stack_empty (some s) then some stack_err else load s.buffer s.top

pub stack_peek : Option Stack → Option ℤ
stack_peek none = some stack_err
stack_peek (some s) = peek s
