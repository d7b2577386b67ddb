-- ===== src/Queue.antt =====
-- source/queue.c: a queue of `void *` in a block that `realloc` resizes. `capacity` is the index
-- of the last item. `none` is a fault: an access outside the block, or an `int` that leaves its
-- range. `realloc` is taken to succeed; a slot that it adds holds `junk`.
pub mod Refine
mod Tests
use iosdbg.Base.{
  ℕ, zero, suc, ◌+◌, ◌-◌, ◌^◌, Option, none, some, List, [], ◌∷◌, leb, if◌then◌else◌, get_elem?,
}
use iosdbg.Buffer.{realloc, store, memmove}
use iosdbg.Base.Int.{ℤ, pos, negsuc, incr, decr}

abbrev pub Ptr : Type 0
Ptr = ℕ

abbrev pub int_max : ℕ
int_max = 2 ^ 31 - 1

-- `queue_t`; the member `data` is `buffer`, and NULL is `none`.
pub record Queue : Type 0 where
  pub buffer : Option (List Ptr)
  pub capacity : ℤ

pub queue_new : Queue
queue_new = record { buffer = none; capacity = negsuc 0 }

-- The `int` that is one more than the index overflows at INT_MAX.
unfoldable pub enqueue_at : Ptr → Queue → ℤ → Ptr → Option Queue
enqueue_at junk q (negsuc n) v = none
enqueue_at junk q (pos i) v =
    if leb int_max i then none else elim (store (realloc junk (i + 1) q.buffer) i v) [
      | none ↦ none
      | some b ↦ some (record { buffer = some b; capacity = pos i })
    ]

pub enqueue_on : Ptr → Queue → Ptr → Option Queue
unfolding enqueue_at
enqueue_on junk q v = enqueue_at junk q (incr q.capacity) v

-- The queue may be NULL, `none`.
pub enqueue : Ptr → Option Queue → Ptr → Option (Option Queue)
enqueue junk none v = some none
enqueue junk (some q) v = elim (enqueue_on junk q v) [ none ↦ none | some q' ↦ some (some q') ]

-- `memmove` counts `capacity` slots, the value before the decrement.
unfoldable pub dequeue_from : Queue → List Ptr → ℤ → Option (Ptr × Queue)
dequeue_from q b (negsuc zero) = some (0, q)
dequeue_from q b (negsuc (suc n)) = none
dequeue_from q [] (pos n) = none
dequeue_from q (x ∷ xs) (pos n) = elim (memmove 0 1 n (x ∷ xs)) [
  | none ↦ none
  | some b ↦ some (x, record { buffer = some b; capacity = decr (pos n) })
]

pub dequeue_on : Queue → Option (Ptr × Queue)
unfolding dequeue_from
dequeue_on q = elim q.buffer [ none ↦ some (0, q) | some b ↦ dequeue_from q b q.capacity ]

pub dequeue : Option Queue → Option (Ptr × Option Queue)
dequeue none = some (0, none)
dequeue (some q) = elim (dequeue_on q) [ none ↦ none | some (v, q') ↦ some (v, some q') ]

unfoldable pub peek_at : List Ptr → ℤ → Option Ptr
peek_at b (negsuc zero) = some 0
peek_at b (negsuc (suc n)) = get_elem? b 0
peek_at b (pos n) = get_elem? b 0

pub queue_peek : Option Queue → Option Ptr
unfolding peek_at
queue_peek none = some 0
queue_peek (some q) = elim q.buffer [ none ↦ some 0 | some b ↦ peek_at b q.capacity ]
