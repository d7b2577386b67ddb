-- ===== src/LinkedList/Contains.antt =====
-- `linkedlist_contains` of source/linkedlist.c.
use iosdbg.Base.{
  ℕ, zero, suc, ◌<◌, ◌≡◌, refl, true, false, some, List, [], ◌∷◌, ◌==◌, arith, length, inl, inr,
  Bool-cases,
}
use iosdbg.LinkedList.{Ptr, Heap, LinkedList, contains_loop, linkedlist_contains}
use iosdbg.LinkedList.Items.{has_key}
use iosdbg.LinkedList.Chain.{Cells, Chain, Holds, item_of}

-- All items but the last one.
abbrev pub but_last {ℓ} : {A : Type ℓ} → List A → List A
but_last [] = []
but_last (x ∷ []) = []
but_last (x ∷ y ∷ ys) = x ∷ but_last (y ∷ ys)

contains_loop-has_key :
    (k : ℕ) (h : Heap) (item a d : Ptr) (xs : Cells)
    → Chain h ((a, d) ∷ xs)
    → length xs < k
    → contains_loop k h item a ≡ some (has_key item_of item (but_last ((a, d) ∷ xs)))
unfolding contains_loop
contains_loop-has_key zero h item a d xs ch fuel = absurd (omega arith)
contains_loop-has_key (suc k) h item a d [] ch fuel = rw ch.1 refl
contains_loop-has_key (suc k) h item a d ((b, e) ∷ xs) ch fuel =
    let more : (b == 0) ≡ false = ground (arith, ch.3.0) in
    elim (Bool-cases (d == item)) [
      | inl hit ↦ rw (ch.1, more, hit) refl
      | inr miss ↦ rw (ch.1, more, miss) (contains_loop-has_key k h item b e xs ch.3 (omega arith))
    ]

-- On a list that holds `xs`, with more rounds than nodes, `linkedlist_contains` returns, and says
-- whether the pointer is an item of `xs` other than the last: the loop ends before the last node
-- is compared.
pub linkedlist_contains-but_last :
    (rounds : ℕ) (list : LinkedList) (item : Ptr) (h : Heap) (xs : Cells)
    → Holds h list xs
    → length xs < rounds
    → linkedlist_contains rounds list item h ≡ some (has_key item_of item (but_last xs))
unfolding linkedlist_contains
linkedlist_contains-but_last rounds list item h [] is fuel =
    let e : (list.front == 0) ≡ true = ground (arith, is.front) in rw e refl
linkedlist_contains-but_last rounds list item h ((a, d) ∷ xs) is fuel =
    let e : (list.front == 0) ≡ false = ground (arith, is.front, is.chain.0) in
    rw (e, is.front) (contains_loop-has_key rounds h item a d xs is.chain (omega arith))
