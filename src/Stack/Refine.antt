-- ===== src/Stack/Refine.antt =====
-- source/stack.c against a list: the stack that a client sees, its newest item first.
use iosdbg.Base.{
  ◌+◌, ◌-◌, ◌^◌, ◌≤◌, ◌<◌, ◌≡◌, refl, Bool, true, false, Option, none, some, List, [], ◌∷◌, ◌++◌,
  leb, length, length-append, set, arith, sym,
}
use iosdbg.Base.Int.{ℤ, pos, negsuc, incr, decr}
use iosdbg.Buffer.{
  realloc, Starts, Starts-resize, Starts-append_left, get_elem?-Starts, length-realloc,
  store-Starts,
}
use iosdbg.Stack.{
  Stack, stack_err, int_max, stack_new, push, pop, peek, stack_empty, is_minus_one, load,
}

-- The items in the order of the block.
abbrev pub bottom_up : List ℤ → List ℤ
bottom_up [] = []
bottom_up (v ∷ xs) = bottom_up xs ++ (v ∷ [])

abbrev pub InBlock : Option (List ℤ) → List ℤ → Type 0
InBlock none xs = xs ≡ []
InBlock (some b) xs = Starts b (bottom_up xs)

abbrev pub top_of : List ℤ → ℤ
top_of [] = negsuc 0
top_of (v ∷ xs) = pos (length xs)

pub record IsStack (s : Stack) (xs : List ℤ) : Type 0 where
  pub top : s.top ≡ top_of xs
  pub block : InBlock s.buffer xs

pub stack_new-IsStack : IsStack stack_new []
unfolding stack_new
stack_new-IsStack = record { top = refl; block = refl }

length-bottom_up : (xs : List ℤ) → length (bottom_up xs) ≡ length xs
length-bottom_up [] = refl
length-bottom_up (v ∷ xs) =
    omega (arith, length-append (bottom_up xs) (v ∷ []), length-bottom_up xs)

incr-top_of : (xs : List ℤ) → incr (top_of xs) ≡ pos (length xs)
incr-top_of [] = refl
incr-top_of (v ∷ xs) = refl

decr-top_of : (v : ℤ) (xs : List ℤ) → decr (top_of (v ∷ xs)) ≡ top_of xs
decr-top_of v [] = refl
decr-top_of v (x ∷ xs) = refl

Starts-realloc :
    (junk : ℤ) (b : Option (List ℤ)) (xs : List ℤ)
    → InBlock b xs
    → Starts (realloc junk (length xs + 1) b) (bottom_up xs)
Starts-realloc junk none xs e = rw e tt
Starts-realloc junk (some b) xs s =
    Starts-resize junk (length xs + 1) b (bottom_up xs) s (omega (arith, length-bottom_up xs))

module _ (junk : ℤ) where
  push-cons :
      (s : Stack) (xs : List ℤ) (v : ℤ)
      → IsStack s xs
      → length xs < int_max
      → (s' : Stack) × (push junk s v ≡ some s') × IsStack s' (v ∷ xs)
  unfolding push
  push-cons s xs v is small =
      let b = realloc junk (length xs + 1) s.buffer in
      let (stored, starts) =
        store-Starts b (bottom_up xs) (length xs) v (Starts-realloc junk s.buffer xs is.block)
          (sym (length-bottom_up xs))
          (omega (arith, length-realloc junk (length xs + 1) s.buffer)) in
      let room : leb int_max (length xs) ≡ false = ground arith in
      rw (is.top, incr-top_of xs, room, stored)
        (
          record { buffer = some (set b (length xs) v); top = pos (length xs) },
          refl,
          record { top = refl; block = starts },
        )

abbrev PopPost : List ℤ → Option (ℤ × Stack) → Type 0
PopPost [] r = (s' : Stack) × (r ≡ some (stack_err, s')) × IsStack s' []
PopPost (v ∷ xs) r = (s' : Stack) × (r ≡ some (v, s')) × IsStack s' xs

stack_empty-nil : (s : Stack) → IsStack s [] → stack_empty (some s) ≡ true
unfolding stack_empty
stack_empty-nil s is = go s.buffer
  where
    go : (b : Option (List ℤ)) → elim b [ none ↦ true | some c ↦ is_minus_one s.top ] ≡ true
    go none = refl
    go (some b) = rw is.top refl

stack_empty-cons :
    (s : Stack) (v : ℤ) (xs : List ℤ)
    → IsStack s (v ∷ xs)
    → (stack_empty (some s) ≡ false) × (load s.buffer s.top ≡ some v)
unfolding stack_empty load
stack_empty-cons s v xs is = go s.buffer s.top is.top is.block
  where
    go :
        (b : Option (List ℤ)) (t : ℤ)
        → t ≡ pos (length xs)
        → InBlock b (v ∷ xs)
        → (stack_empty (some (record { buffer = b; top = t })) ≡ false) × (load b t ≡ some v)
    go none t e held = cc
    go (some b) t e held =
        (rw e refl, rw (e, ← length-bottom_up xs) (get_elem?-Starts b (bottom_up xs) v [] held))

InBlock-tail : (b : Option (List ℤ)) (v : ℤ) (xs : List ℤ) → InBlock b (v ∷ xs) → InBlock b xs
InBlock-tail none v xs e = cc
InBlock-tail (some b) v xs e = Starts-append_left b (bottom_up xs) (v ∷ []) e

pop-PopPost : (s : Stack) (xs : List ℤ) → IsStack s xs → PopPost xs (pop s)
unfolding pop
pop-PopPost s [] is = rw (stack_empty-nil s is) (s, refl, is)
pop-PopPost s (v ∷ xs) is =
    let (full, got) = stack_empty-cons s v xs is in
    rw (full, got)
      (
        record s { top = decr s.top },
        refl,
        record { top = rw is.top (decr-top_of v xs); block = InBlock-tail s.buffer v xs is.block },
      )

abbrev head_or_err : List ℤ → ℤ
head_or_err [] = stack_err
head_or_err (v ∷ xs) = v

peek-head : (s : Stack) (xs : List ℤ) → IsStack s xs → peek s ≡ some (head_or_err xs)
unfolding peek
peek-head s [] is = rw (stack_empty-nil s is) refl
peek-head s (v ∷ xs) is = let (full, got) = stack_empty-cons s v xs is in rw (full, got) refl

abbrev is_nil : List ℤ → Bool
is_nil [] = true
is_nil (v ∷ xs) = false

stack_empty-is_nil : (s : Stack) (xs : List ℤ) → IsStack s xs → stack_empty (some s) ≡ is_nil xs
stack_empty-is_nil s [] is = stack_empty-nil s is
stack_empty-is_nil s (v ∷ xs) is = (stack_empty-cons s v xs is).0

abbrev prepend : {A : Type 0} → A → Option (List A) → Option (List A)
prepend a none = none
prepend a (some rest) = some (a ∷ rest)

-- What a client can ask of a stack, and the answers.
pub data Op : Type 0 where
  push_op : ℤ → Op
  pop_op peek_op empty_op : Op

pub data Reply : Type 0 where
  done : Reply
  value : ℤ → Reply
  test : Bool → Reply

-- The calls in order on a stack that is not NULL; `none` if one of them faults.
unfoldable pub run_stack : ℤ → Stack → List Op → Option (List Reply)
run_stack junk s [] = some []
run_stack junk s (push_op v ∷ ops) = elim (push junk s v) [
  | none ↦ none
  | some s' ↦ prepend done (run_stack junk s' ops)
]
run_stack junk s (pop_op ∷ ops) = elim (pop s) [
  | none ↦ none
  | some (v, s') ↦ prepend (value v) (run_stack junk s' ops)
]
run_stack junk s (peek_op ∷ ops) = elim (peek s) [
  | none ↦ none
  | some v ↦ prepend (value v) (run_stack junk s ops)
]
run_stack junk s (empty_op ∷ ops) = prepend (test (stack_empty (some s))) (run_stack junk s ops)

-- The same calls on a list.
unfoldable pub run_list : List ℤ → List Op → List Reply
run_list xs [] = []
run_list xs (push_op v ∷ ops) = done ∷ run_list (v ∷ xs) ops
run_list [] (pop_op ∷ ops) = value stack_err ∷ run_list [] ops
run_list (v ∷ xs) (pop_op ∷ ops) = value v ∷ run_list xs ops
run_list xs (peek_op ∷ ops) = value (head_or_err xs) ∷ run_list xs ops
run_list xs (empty_op ∷ ops) = test (is_nil xs) ∷ run_list xs ops

-- A stack that holds `xs` never faults, and answers every sequence of calls as the list does,
-- while the items and the calls together are at most INT_MAX, 2 ^ 31 - 1. A pop or a peek of an
-- empty stack gives LONG_MIN.
pub run_stack-run_list :
    (junk : ℤ) (ops : List Op) (s : Stack) (xs : List ℤ)
    → IsStack s xs
    → length xs + length ops ≤ 2 ^ 31 - 1
    → run_stack junk s ops ≡ some (run_list xs ops)
unfolding run_stack run_list
run_stack-run_list junk [] s xs is small = refl
run_stack-run_list junk (push_op v ∷ ops) s xs is small =
    let (s', e, is') = push-cons junk s xs v is (omega arith) in
    rw (e, run_stack) (rw (run_stack-run_list junk ops s' (v ∷ xs) is' (omega arith)) refl)
run_stack-run_list junk (pop_op ∷ ops) s [] is small =
    let (s', e, is') = pop-PopPost s [] is in
    rw (e, run_stack) (rw (run_stack-run_list junk ops s' [] is' (omega arith)) refl)
run_stack-run_list junk (pop_op ∷ ops) s (v ∷ xs) is small =
    let (s', e, is') = pop-PopPost s (v ∷ xs) is in
    rw (e, run_stack) (rw (run_stack-run_list junk ops s' xs is' (omega arith)) refl)
run_stack-run_list junk (peek_op ∷ ops) s xs is small =
    rw (peek-head s xs is, run_stack) (rw (run_stack-run_list junk ops s xs is (omega arith)) refl)
run_stack-run_list junk (empty_op ∷ ops) s xs is small =
    rw (stack_empty-is_nil s xs is, run_stack)
      (rw (run_stack-run_list junk ops s xs is (omega arith)) refl)
