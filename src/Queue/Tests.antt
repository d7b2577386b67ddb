-- ===== src/Queue/Tests.antt =====
-- source/queue.c on a few calls.
use iosdbg.Base.{◌≡◌, refl, none, some, List, [], ◌∷◌, arith}
use iosdbg.Queue.{queue_new, enqueue, dequeue}
use iosdbg.Queue.Refine.{
  Op, enqueue_op, dequeue_op, peek_op, run_queue, run_list, queue_new-IsQueue, run_queue-run_list,
}

abbrev calls : List Op
calls = enqueue_op 7 ∷ enqueue_op 8 ∷ peek_op ∷ dequeue_op ∷ dequeue_op ∷ dequeue_op ∷ []

run_queue-run_list_example : run_queue 0 queue_new calls ≡ some (run_list [] calls)
run_queue-run_list_example = run_queue-run_list 0 calls queue_new [] queue_new-IsQueue (omega arith)

-- The calls take a NULL queue.
null_queue : (enqueue 0 none 7 ≡ some none) × (dequeue none ≡ some (0, none))
unfolding enqueue dequeue
null_queue = (refl, refl)
