-- ===== src/LinkedList/Chain.antt =====
-- What it means that a list in the heap holds a sequence of items.
use iosdbg.Base.{
  Bool, if◌then◌else◌, Bool-cases, inl, inr, ◌≡◌, ◌≢◌, refl, Bool, false, Option, none, some, List,
  [], ◌∷◌, if◌then◌else◌, arith,
}
use iosdbg.LinkedList.{Ptr, null, Node, Heap, LinkedList, write}
use iosdbg.LinkedList.Items.{has_key}

-- The address of each node with its item, in order.
abbrev pub Cells : Type 0
Cells = List (Ptr × Ptr)

abbrev pub item_of : Ptr × Ptr → Ptr
item_of (a, d) = d

abbrev pub node_of : Ptr × Ptr → Ptr
node_of (a, d) = a

abbrev pub start : Cells → Ptr
start [] = null
start ((a, d) ∷ xs) = a

abbrev pub node : Ptr → Ptr → Node
node d q = record { item = d; next = q }

abbrev pub Chain : Heap → Cells → Type 0
Chain h [] = Unit {0}
Chain h ((a, d) ∷ xs) =
    (a ≢ 0) × (h a ≡ some (node d (start xs))) × (has_key node_of a xs ≡ false) × Chain h xs

pub record Holds (h : Heap) (list : LinkedList) (xs : Cells) : Type 0 where
  pub front : list.front ≡ start xs
  pub chain : Chain h xs

-- A write beside the nodes of a chain leaves it alone.
pub Chain-write :
    (h : Heap) (p : Ptr) (c : Option Node) (xs : Cells)
    → Chain h xs
    → has_key node_of p xs ≡ false
    → Chain (write h p c) xs
unfolding write
Chain-write h p c [] ch out = tt
Chain-write h p c ((a, d) ∷ xs) ch out =
    (ch.0, ground arith, ch.2, Chain-write h p c xs ch.3 (ground arith))

-- An address that holds no node is that of no node of a chain.
pub Chain-fresh :
    (h : Heap) (p : Ptr) (xs : Cells) → Chain h xs → h p ≡ none → has_key node_of p xs ≡ false
Chain-fresh h p [] ch e = refl
Chain-fresh h p ((a, d) ∷ xs) ch e = ground (arith, Chain-fresh h p xs ch.3)

-- `h'` is `h` but at the addresses that `touched` accepts.
abbrev pub SameBut : (Ptr → Bool) → Heap → Heap → Type 0
SameBut touched h h' = (p : Ptr) → h' p ≡ (if touched p then h' p else h p)

pub SameBut-intro :
    (touched : Ptr → Bool) (h h' : Heap)
    → ((p : Ptr) → touched p ≡ false → h' p ≡ h p)
    → SameBut touched h h'
SameBut-intro touched h h' same p = elim (Bool-cases (touched p)) [
  | inl e ↦ rw e refl
  | inr e ↦ rw e (same p e)
]
