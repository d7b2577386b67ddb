-- ===== src/LinkedList/Delete.antt =====
-- `linkedlist_delete` of source/linkedlist.c against `Items.delete_item`.
use iosdbg.Base.{
  ℕ, zero, suc, ◌<◌, ◌≡◌, refl, true, false, Option, some, [], ◌∷◌, ◌==◌, arith, length, inl, inr,
  Bool-cases, ap, map,
}
use iosdbg.LinkedList.{Ptr, Heap, LinkedList, write, set_next, delete_loop, linkedlist_delete}
use iosdbg.LinkedList.Items.{has_key, drop_key, delete_item}
use iosdbg.LinkedList.Chain.{
  Cells, Chain, Holds, start, node, node_of, item_of, Chain-write, SameBut, SameBut-intro,
}

-- Cells that are dropped by their items lose addresses only.
has_node-drop_key :
    (item p : Ptr) (xs : Cells)
    → has_key node_of p xs ≡ false
    → has_key node_of p (drop_key item_of item xs) ≡ false
has_node-drop_key item p [] h = refl
has_node-drop_key item p ((a, d) ∷ xs) h = ground (arith, has_node-drop_key item p xs)

abbrev SameBeside : Cells → Heap → Heap → Type 0
SameBeside xs h h' = (p : Ptr) → has_key node_of p xs ≡ false → h' p ≡ h p

-- `previous->next = current->next`
skip_node :
    (h : Heap) (a d b e : Ptr) (xs : Cells)
    → Chain h ((a, d) ∷ (b, e) ∷ xs)
    → (h' : Heap) × (set_next h a (start xs) ≡ some h')
      × Chain h' ((a, d) ∷ xs)
      × SameBeside ((a, d) ∷ (b, e) ∷ xs) h h'
unfolding set_next write
skip_node h a d b e xs ch = rw ch.1 (
  write h a (some (node d (start xs))),
  refl,
  (ch.0, ground arith, ground (arith, ch.2), Chain-write h a _ xs ch.3.3 (ground (arith, ch.2))),
  λ p out. ground (arith, out),
)

delete_loop-drop_key :
    (k : ℕ) (h : Heap) (item a d : Ptr) (xs : Cells)
    → Chain h ((a, d) ∷ xs)
    → length xs < k
    → (h' : Heap) × (delete_loop k h item a ≡ some h')
      × Chain h' ((a, d) ∷ drop_key item_of item xs)
      × SameBeside ((a, d) ∷ xs) h h'
unfolding delete_loop
delete_loop-drop_key zero h item a d xs ch fuel = absurd (omega arith)
delete_loop-drop_key (suc k) h item a d [] ch fuel = (h, rw ch.1 refl, ch, λ p _. refl)
delete_loop-drop_key (suc k) h item a d ((b, e) ∷ xs) ch fuel =
    let more : (b == 0) ≡ false = ground (arith, ch.3.0) in
    elim (Bool-cases (e == item)) [
      | inl hit ↦ rw (ch.1, more, ch.3.1, hit) (skip_node h a d b e xs ch)
      | inr miss ↦
          rw (ch.1, more, ch.3.1, miss)
            (let (h', ran, chain, same) = delete_loop-drop_key k h item b e xs ch.3 (omega arith) in
              (
                h',
                ran,
                (
                  ch.0,
                  ground (arith, same a ch.2, ch.1),
                  ground (arith, has_node-drop_key item a xs),
                  chain,
                ),
                λ p out. same p (ground arith),
              ))
    ]

abbrev pub DeletePost : Heap → Ptr → Cells → Option (LinkedList × Heap) → Type 0
DeletePost h item xs r =
    (out : LinkedList × Heap) × (r ≡ some out)
    × ((cells : Cells) × (map item_of cells ≡ delete_item (λ (p : Ptr). p) (map item_of xs) item)
        × Holds out.1 out.0 cells)
    × SameBut (λ p. has_key node_of p xs) h out.1

map-drop_key :
    (item : Ptr) (xs : Cells)
    → map item_of (drop_key item_of item xs) ≡ drop_key (λ (p : Ptr). p) item (map item_of xs)
map-drop_key item [] = refl
map-drop_key item ((a, d) ∷ xs) = elim (Bool-cases (d == item)) [
  | inl e ↦ rw e refl
  | inr e ↦ rw e (ap (λ ys. d ∷ ys) (map-drop_key item xs))
]

SameBut-refl : (xs : Cells) (h : Heap) → SameBut (λ p. has_key node_of p xs) h h
SameBut-refl xs h = SameBut-intro (λ p. has_key node_of p xs) h h (λ p _. refl)

-- On a list that holds `xs`, with more rounds than nodes, `linkedlist_delete` returns; the list
-- then holds the items of `xs` less the first one that is the given pointer (all of them, if the
-- pointer is NULL), and no address but those of its nodes is written.
pub linkedlist_delete-delete_item :
    (rounds : ℕ) (list : LinkedList) (item : Ptr) (h : Heap) (xs : Cells)
    → Holds h list xs
    → length xs < rounds
    → DeletePost h item xs (linkedlist_delete rounds list item h)
unfolding linkedlist_delete
linkedlist_delete-delete_item rounds list item h [] is fuel =
    let e : (list.front == 0) ≡ true = ground (arith, is.front) in
    elim (Bool-cases (item == 0)) [
      | inl z ↦ rw (e, z) ((list, h), refl, ([], refl, is), SameBut-refl [] h)
      | inr s ↦ rw (e, s) ((list, h), refl, ([], refl, is), SameBut-refl [] h)
    ]
linkedlist_delete-delete_item rounds list item h ((a, d) ∷ xs) is fuel =
    let e : (list.front == 0) ≡ false = ground (arith, is.front, is.chain.0) in
    elim (Bool-cases (item == 0)) [
      | inl z ↦ rw (e, z) ((list, h), refl, ((a, d) ∷ xs, refl, is), SameBut-refl ((a, d) ∷ xs) h)
      | inr s ↦ elim (Bool-cases (d == item)) [
        | inl hit ↦
            rw (e, s, is.front, is.chain.1, hit)
              (
                (record { front = start xs }, h),
                refl,
                (xs, refl, record { front = refl; chain = is.chain.3 }),
                SameBut-refl ((a, d) ∷ xs) h,
              )
        | inr miss ↦
            rw (e, s, is.front, is.chain.1, miss)
              (let (h', ran, chain, same) =
                  delete_loop-drop_key rounds h item a d xs is.chain (omega arith) in
                (
                  (record { front = a }, h'),
                  rw ran refl,
                  (
                    (a, d) ∷ drop_key item_of item xs,
                    ap (λ ys. d ∷ ys) (map-drop_key item xs),
                    record { front = refl; chain = chain },
                  ),
                  SameBut-intro (λ p. has_key node_of p ((a, d) ∷ xs)) h h' same,
                ))
      ]
    ]
