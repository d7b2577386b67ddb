-- ===== src/Queue/Refine.antt =====
-- source/queue.c against a list: the queue that a client sees, its oldest item first.
use iosdbg.Base.{
  ◌+◌, ◌-◌, ◌^◌, ◌≤◌, ◌<◌, ◌≡◌, refl, false, Option, none, some, List, [], ◌∷◌, ◌++◌, leb, length,
  length-append, set, arith, ap, sym,
}
use iosdbg.Base.Int.{ℤ, pos, negsuc, incr, decr}
use iosdbg.Buffer.{realloc, Starts, Starts-resize, length-realloc, store-Starts, memmove-tail}
use iosdbg.Queue.{
  Ptr, Queue, int_max, queue_new, enqueue_on, dequeue_from, dequeue_on, peek_at, queue_peek,
}

abbrev pub InBlock : Option (List Ptr) → List Ptr → Type 0
InBlock none xs = xs ≡ []
InBlock (some b) xs = Starts b xs

-- The index of the last item.
abbrev pub last_index : List Ptr → ℤ
last_index [] = negsuc 0
last_index (v ∷ xs) = pos (length xs)

pub record IsQueue (q : Queue) (xs : List Ptr) : Type 0 where
  pub capacity : q.capacity ≡ last_index xs
  pub block : InBlock q.buffer xs

pub queue_new-IsQueue : IsQueue queue_new []
unfolding queue_new
queue_new-IsQueue = record { capacity = refl; block = refl }

incr-last_index : (xs : List Ptr) → incr (last_index xs) ≡ pos (length xs)
incr-last_index [] = refl
incr-last_index (v ∷ xs) = refl

last_index-append_one : (v : Ptr) (xs : List Ptr) → last_index (xs ++ (v ∷ [])) ≡ pos (length xs)
last_index-append_one v [] = refl
last_index-append_one v (x ∷ xs) = ap pos (omega (arith, length-append xs (v ∷ [])))

decr-last_index : (xs : List Ptr) → decr (pos (length xs)) ≡ last_index xs
decr-last_index [] = refl
decr-last_index (x ∷ xs) = refl

Starts-realloc :
    (junk : Ptr) (b : Option (List Ptr)) (xs : List Ptr)
    → InBlock b xs
    → Starts (realloc junk (length xs + 1) b) xs
Starts-realloc junk none xs e = rw e tt
Starts-realloc junk (some b) xs s = Starts-resize junk (length xs + 1) b xs s (omega arith)

-- An item is put behind the others.
pub enqueue_on-append :
    (junk : Ptr) (q : Queue) (xs : List Ptr) (v : Ptr)
    → IsQueue q xs
    → length xs < int_max
    → (q' : Queue) × (enqueue_on junk q v ≡ some q') × IsQueue q' (xs ++ (v ∷ []))
unfolding enqueue_on
enqueue_on-append junk q xs v is small =
    let b = realloc junk (length xs + 1) q.buffer in
    let (stored, starts) =
      store-Starts b xs (length xs) v (Starts-realloc junk q.buffer xs is.block) refl
        (omega (arith, length-realloc junk (length xs + 1) q.buffer)) in
    let room : leb int_max (length xs) ≡ false = ground arith in
    rw (is.capacity, incr-last_index xs, room, stored)
      (
        record { buffer = some (set b (length xs) v); capacity = pos (length xs) },
        refl,
        record { capacity = sym (last_index-append_one v xs); block = starts },
      )

abbrev pub DequeuePost : List Ptr → Option (Ptr × Queue) → Type 0
DequeuePost [] r = (q' : Queue) × (r ≡ some (0, q')) × IsQueue q' []
DequeuePost (v ∷ xs) r = (q' : Queue) × (r ≡ some (v, q')) × IsQueue q' xs

dequeue_block :
    (q : Queue) (b : Option (List Ptr)) (c : ℤ) (xs : List Ptr)
    → c ≡ last_index xs
    → InBlock b xs
    → DequeuePost xs (dequeue_on (record { buffer = b; capacity = c }))
unfolding dequeue_on
dequeue_block q none c [] e held = (_, refl, record { capacity = e; block = refl })
dequeue_block q none c (v ∷ xs) e held = cc
dequeue_block q (some b) c [] e held =
    rw (e, dequeue_from)
      (record { buffer = some b; capacity = c }, refl, record { capacity = e; block = tt })
dequeue_block q (some []) c (v ∷ xs) e held = absurd held
dequeue_block q (some (x ∷ b)) c (v ∷ xs) e held =
    let (moved, ran, starts) = memmove-tail x b v xs held in
    rw (e, dequeue_from)
      (rw ran (
        record { buffer = some moved; capacity = decr (pos (length xs)) },
        ap
            (λ (w : Ptr).
              some (w, record { buffer = some moved; capacity = decr (pos (length xs)) }))
            held.0,
        record { capacity = decr-last_index xs; block = starts },
      ))

-- The oldest item is given out; NULL on an empty queue.
pub dequeue_on-DequeuePost :
    (q : Queue) (xs : List Ptr) → IsQueue q xs → DequeuePost xs (dequeue_on q)
dequeue_on-DequeuePost q xs is = dequeue_block q q.buffer q.capacity xs is.capacity is.block

abbrev head_or_null : List Ptr → Ptr
head_or_null [] = 0
head_or_null (v ∷ xs) = v

peek_block :
    (b : Option (List Ptr)) (c : ℤ) (xs : List Ptr)
    → c ≡ last_index xs
    → InBlock b xs
    → queue_peek (some (record { buffer = b; capacity = c })) ≡ some (head_or_null xs)
unfolding queue_peek
peek_block none c [] e held = refl
peek_block none c (v ∷ xs) e held = cc
peek_block (some b) c [] e held = rw (e, peek_at) refl
peek_block (some []) c (v ∷ xs) e held = absurd held
peek_block (some (x ∷ b)) c (v ∷ xs) e held = rw (e, peek_at) (ap some held.0)

pub queue_peek-head :
    (q : Queue) (xs : List Ptr) → IsQueue q xs → queue_peek (some q) ≡ some (head_or_null xs)
queue_peek-head q xs is = peek_block q.buffer q.capacity xs is.capacity is.block

-- What a client can ask of a queue.
pub data Op : Type 0 where
  enqueue_op : Ptr → Op
  dequeue_op peek_op : Op

abbrev prepend : Option Ptr → Option (List (Option Ptr)) → Option (List (Option Ptr))
prepend a none = none
prepend a (some rest) = some (a ∷ rest)

-- The calls in order on a queue that is not NULL, with the pointers they return; `none` if one of
-- them faults.
unfoldable pub run_queue : Ptr → Queue → List Op → Option (List (Option Ptr))
run_queue junk q [] = some []
run_queue junk q (enqueue_op v ∷ ops) = elim (enqueue_on junk q v) [
  | none ↦ none
  | some q' ↦ prepend none (run_queue junk q' ops)
]
run_queue junk q (dequeue_op ∷ ops) = elim (dequeue_on q) [
  | none ↦ none
  | some (v, q') ↦ prepend (some v) (run_queue junk q' ops)
]
run_queue junk q (peek_op ∷ ops) = elim (queue_peek (some q)) [
  | none ↦ none
  | some v ↦ prepend (some v) (run_queue junk q ops)
]

-- The same calls on a list.
unfoldable pub run_list : List Ptr → List Op → List (Option Ptr)
run_list xs [] = []
run_list xs (enqueue_op v ∷ ops) = none ∷ run_list (xs ++ (v ∷ [])) ops
run_list [] (dequeue_op ∷ ops) = some 0 ∷ run_list [] ops
run_list (v ∷ xs) (dequeue_op ∷ ops) = some v ∷ run_list xs ops
run_list xs (peek_op ∷ ops) = some (head_or_null xs) ∷ run_list xs ops

-- A queue that holds `xs` never faults, and answers every sequence of calls as the list does,
-- while the items and the calls together are at most INT_MAX, 2 ^ 31 - 1. A call on an empty queue
-- gives NULL.
pub run_queue-run_list :
    (junk : Ptr) (ops : List Op) (q : Queue) (xs : List Ptr)
    → IsQueue q xs
    → length xs + length ops ≤ 2 ^ 31 - 1
    → run_queue junk q ops ≡ some (run_list xs ops)
unfolding run_queue run_list
run_queue-run_list junk [] q xs is small = refl
run_queue-run_list junk (enqueue_op v ∷ ops) q xs is small =
    let (q', e, is') = enqueue_on-append junk q xs v is (omega arith) in
    rw (e, run_queue)
      (rw
        (run_queue-run_list junk ops q' (xs ++ (v ∷ [])) is'
          (omega (arith, length-append xs (v ∷ []))))
        refl)
run_queue-run_list junk (dequeue_op ∷ ops) q [] is small =
    let (q', e, is') = dequeue_on-DequeuePost q [] is in
    rw (e, run_queue) (rw (run_queue-run_list junk ops q' [] is' (omega arith)) refl)
run_queue-run_list junk (dequeue_op ∷ ops) q (v ∷ xs) is small =
    let (q', e, is') = dequeue_on-DequeuePost q (v ∷ xs) is in
    rw (e, run_queue) (rw (run_queue-run_list junk ops q' xs is' (omega arith)) refl)
run_queue-run_list junk (peek_op ∷ ops) q xs is small =
    rw (queue_peek-head q xs is, run_queue)
      (rw (run_queue-run_list junk ops q xs is (omega arith)) refl)
