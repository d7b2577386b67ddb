-- ===== src/Stack/Tests.antt =====
-- source/stack.c on a few calls.
use iosdbg.Base.{◌≡◌, refl, none, some, List, [], ◌∷◌, arith}
use iosdbg.Base.Int.{pos}
use iosdbg.Stack.{stack_new, stack_err, stack_push, stack_pop, stack_peek, push, push_at}
use iosdbg.Stack.Refine.{
  Op, push_op, pop_op, peek_op, empty_op, run_stack, run_list, stack_new-IsStack,
  run_stack-run_list,
}

-- A pop too many, then a peek.
abbrev calls : List Op
calls = push_op (pos 7) ∷ push_op (pos 8) ∷ pop_op ∷ pop_op ∷ pop_op ∷ empty_op ∷ peek_op ∷ []

run_stack-run_list_example : run_stack (pos 0) stack_new calls ≡ some (run_list [] calls)
run_stack-run_list_example =
    run_stack-run_list (pos 0) calls stack_new [] stack_new-IsStack (omega arith)

-- The calls take a NULL stack.
null_stack :
    (stack_push (pos 0) none (pos 7) ≡ some none)
    × (stack_pop none ≡ some (stack_err, none))
    × (stack_peek none ≡ some stack_err)
unfolding stack_push stack_pop stack_peek
null_stack = (refl, refl, refl)

push_then_pop :
    stack_push (pos 0) (some stack_new) (pos 7)
    ≡ some (some (record { buffer = some (pos 7 ∷ []); top = pos 0 }))
unfolding stack_push push push_at stack_new
push_then_pop = refl
