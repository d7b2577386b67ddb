-- ===== src/LinkedList.antt =====
-- source/linkedlist.c: a singly linked list of `void *`, over an explicit heap of nodes.
-- An operation that updates `list->front` returns the new `struct linkedlist`. A pointer that
-- `malloc` returns is the argument `fresh`. `none` is a fault: a read or a write through a pointer
-- that is NULL or dangling, or a loop that has run out of its rounds.
pub mod Items
pub mod Chain
pub mod Add
pub mod Delete
pub mod Contains
mod Tests
use iosdbg.Base.{ℕ, zero, suc, Bool, true, false, Option, none, some, ◌==◌, if◌then◌else◌}

abbrev pub Ptr : Type 0
Ptr = ℕ

abbrev pub null : Ptr
null = 0

-- `struct node`; the member `data` is `item`.
pub record Node : Type 0 where
  pub item : Ptr
  pub next : Ptr

abbrev pub Heap : Type 0
Heap = Ptr → Option Node

-- `struct linkedlist`
pub record LinkedList : Type 0 where
  pub front : Ptr

unfoldable pub write : Heap → Ptr → Option Node → Heap
write h p c a = if a == p then c else h a

infixl 5 ◌>>=◌
abbrev pub ◌>>=◌ {ℓ κ} : {A : Type ℓ} {B : Type κ} → Option A → (A → Option B) → Option B
none >>= f = none
some a >>= f = f a

-- `p->next = q`
pub set_next : Heap → Ptr → Ptr → Option Heap
set_next h p q = do n ← h p; some (write h p (some (record n { next = q })))

pub linkedlist_new : LinkedList
linkedlist_new = record { front = null }

pub linkedlist_add_front : (fresh : Ptr) → LinkedList → Ptr → Heap → LinkedList × Heap
linkedlist_add_front fresh list item h =
    if list.front == null
    then (record { front = fresh }, write h fresh (some (record { item = item; next = null })))
    else (
      record { front = fresh },
      write h fresh (some (record { item = item; next = list.front })),
    )

-- `while(current->next) current = current->next;`
pub last_node : ℕ → Heap → Ptr → Option Ptr
last_node zero h current = none
last_node (suc k) h current = do
  n ← h current
  let rest = last_node k h n.next
  if n.next == null then some current else rest

pub linkedlist_add : ℕ → (fresh : Ptr) → LinkedList → Ptr → Heap → Option (LinkedList × Heap)
linkedlist_add rounds fresh list item h =
    if list.front == null
    then some (linkedlist_add_front fresh list item h)
    else if item == null
    then some (list, h)
    else (do
      current ← last_node rounds h list.front
      let h₁ = write h fresh (some (record { item = item; next = null }))
      h₂ ← set_next h₁ current fresh
      some (list, h₂))

pub contains_loop : ℕ → Heap → Ptr → Ptr → Option Bool
contains_loop zero h item current = none
contains_loop (suc k) h item current = do
  n ← h current
  let rest = contains_loop k h item n.next
  if n.next == null then some false else if n.item == item then some true else rest

pub linkedlist_contains : ℕ → LinkedList → Ptr → Heap → Option Bool
linkedlist_contains rounds list item h =
    if list.front == null then some false else contains_loop rounds h item list.front

-- The loop of `linkedlist_delete`: `previous` is the `current` of the round before.
pub delete_loop : ℕ → Heap → Ptr → Ptr → Option Heap
delete_loop zero h item current = none
delete_loop (suc k) h item current = do
  n ← h current
  let more = (do
    m ← h n.next
    let rest = delete_loop k h item n.next
    if m.item == item then set_next h current m.next else rest)
  if n.next == null then some h else more

pub linkedlist_delete : ℕ → LinkedList → Ptr → Heap → Option (LinkedList × Heap)
linkedlist_delete rounds list item h =
    if list.front == null then some (list, h) else if item == null then some (list, h) else (do
      n ← h list.front
      if n.item == item
          then some (record { front = n.next }, h)
          else (do h' ← delete_loop rounds h item list.front; some (list, h')))
