-- ===== src/LinkedList/Add.antt =====
-- `linkedlist_add_front` and `linkedlist_add` of source/linkedlist.c against `Items.add_item`.
use iosdbg.Base.{
  ℕ, zero, suc, ◌<◌, ◌≡◌, ◌≢◌, refl, true, false, Option, none, some, [], ◌∷◌, ◌++◌, ◌||◌, ◌==◌,
  arith, length, inl, inr, Bool-cases,
}
use iosdbg.LinkedList.{
  Ptr, null, Node, Heap, LinkedList, write, set_next, last_node, linkedlist_add_front,
  linkedlist_add, ◌>>=◌,
}
use iosdbg.LinkedList.Items.{has_key, has_key-append_one, ne_of_has_key, add_item}
use iosdbg.LinkedList.Chain.{
  Cells, Chain, Holds, node, node_of, item_of, Chain-write, Chain-fresh, SameBut, SameBut-intro,
}

last_of : Ptr → Cells → Ptr
last_of a [] = a
last_of a ((b, e) ∷ xs) = last_of b xs

last_item : Ptr → Cells → Ptr
last_item d [] = d
last_item d ((b, e) ∷ xs) = last_item e xs

last_of-mem : (a d : Ptr) (xs : Cells) → has_key node_of (last_of a xs) ((a, d) ∷ xs) ≡ true
unfolding last_of
last_of-mem a d [] = ground arith
last_of-mem a d ((b, e) ∷ xs) = ground (arith, last_of-mem b e xs)

load-last :
    (h : Heap) (a d : Ptr) (xs : Cells)
    → Chain h ((a, d) ∷ xs)
    → h (last_of a xs) ≡ some (node (last_item d xs) null)
unfolding last_of last_item
load-last h a d [] ch = ch.1
load-last h a d ((b, e) ∷ xs) ch = load-last h b e xs ch.3

last_node-eq :
    (k : ℕ) (h : Heap) (a d : Ptr) (xs : Cells)
    → Chain h ((a, d) ∷ xs)
    → length xs < k
    → last_node k h a ≡ some (last_of a xs)
unfolding last_node last_of
last_node-eq zero h a d xs ch fuel = absurd (omega arith)
last_node-eq (suc k) h a d [] ch fuel = rw ch.1 refl
last_node-eq (suc k) h a d ((b, e) ∷ xs) ch fuel =
    let more : (b == 0) ≡ false = ground (arith, ch.3.0) in
    rw (ch.1, more) (last_node-eq k h b e xs ch.3 (omega arith))

write_ne :
    (h : Heap) {a : Ptr} (p : Ptr) (c : Option Node) {v : Option Node}
    → a ≢ p
    → h a ≡ v
    → write h p c a ≡ v
unfolding write
write_ne h p c ne e = ground (arith, ne, e)

written : (h : Heap) (p : Ptr) (c : Option Node) → write h p c p ≡ c
unfolding write
written h p c = ground arith

-- The new node is linked behind the last one.
Chain-link :
    (h : Heap) (a d f i : Ptr) (xs : Cells)
    → Chain h ((a, d) ∷ xs)
    → f ≢ 0
    → h f ≡ some (node i null)
    → has_key node_of f ((a, d) ∷ xs) ≡ false
    → Chain
        (write h (last_of a xs) (some (node (last_item d xs) f)))
        ((a, d) ∷ (xs ++ ((f, i) ∷ [])))
unfolding last_of last_item write
Chain-link h a d f i [] ch ne e out =
    (ch.0, ground arith, ground arith, (ne, ground arith, refl, tt))
Chain-link h a d f i ((b, c) ∷ xs) ch ne e out = (
  ch.0,
  write_ne h _ _ (ne_of_has_key node_of a _ ((b, c) ∷ xs) ch.2 (last_of-mem b c xs)) ch.1,
  has_key-append_one node_of a (f, i) ((b, c) ∷ xs) ch.2 (ground (arith, out)),
  Chain-link h b c f i xs ch.3 ne e (ground arith),
)

abbrev pub AddPost : Heap → Ptr → Ptr → Cells → Option (LinkedList × Heap) → Type 0
AddPost h fresh item xs r =
    (out : LinkedList × Heap) × (r ≡ some out)
    × Holds out.1 out.0 (add_item item_of xs (fresh, item))
    × SameBut (λ p. (p == fresh) || has_key node_of p xs) h out.1

-- The last branch of `linkedlist_add`, from the first node on.
add_behind :
    (rounds : ℕ) (fresh item : Ptr) (h : Heap) (a d : Ptr) (xs : Cells)
    → Chain h ((a, d) ∷ xs)
    → fresh ≢ null
    → h fresh ≡ none
    → length xs < rounds
    → (out : LinkedList × Heap) × ((do
      current ← last_node rounds h a
      let h₁ = write h fresh (some (record { item = item; next = null }))
      h₂ ← set_next h₁ current fresh
      some (record { front = a }, h₂))
        ≡ some out)
      × Holds out.1 out.0 ((a, d) ∷ (xs ++ ((fresh, item) ∷ [])))
      × ((p : Ptr) → p ≢ fresh → has_key node_of p ((a, d) ∷ xs) ≡ false → out.1 p ≡ h p)
unfolding set_next
add_behind rounds fresh item h a d xs ch ne new fuel =
    rw (last_node-eq rounds h a d xs ch fuel, load-last h₁ a d xs ch₁)
      (
        (record { front = a }, write h₁ (last_of a xs) (some (node (last_item d xs) fresh))),
        refl,
        record {
          front = refl;
          chain = Chain-link h₁ a d fresh item xs ch₁ ne (written h fresh _) out;
        },
        λ p away other.
            write_ne h₁ _ _ (ne_of_has_key node_of p _ ((a, d) ∷ xs) other (last_of-mem a d xs))
              (write_ne h _ _ away refl),
      )
  where
    h₁ : Heap
    h₁ = write h fresh (some (node item null))

    out : has_key node_of fresh ((a, d) ∷ xs) ≡ false
    out = Chain-fresh h fresh ((a, d) ∷ xs) ch new

    ch₁ : Chain h₁ ((a, d) ∷ xs)
    ch₁ = Chain-write h fresh _ ((a, d) ∷ xs) ch out

-- On a list that holds `xs`, with an unused address from `malloc` and more rounds than nodes,
-- `linkedlist_add` returns; the list then holds `xs` with the item behind it (unless the item is
-- NULL and the list is not empty: then it holds `xs`), and no address but those of the new node
-- and of the nodes of the list is written.
pub linkedlist_add-add_item :
    (rounds : ℕ) (fresh : Ptr) (list : LinkedList) (item : Ptr) (h : Heap) (xs : Cells)
    → Holds h list xs
    → fresh ≢ null
    → h fresh ≡ none
    → length xs < rounds
    → AddPost h fresh item xs (linkedlist_add rounds fresh list item h)
unfolding linkedlist_add linkedlist_add_front write
linkedlist_add-add_item rounds fresh list item h [] is ne new fuel =
    let e : (list.front == 0) ≡ true = ground (arith, is.front) in
    rw e (
      (record { front = fresh }, write h fresh (some (node item null))),
      refl,
      record { front = refl; chain = (ne, ground arith, refl, tt) },
      SameBut-intro (λ p. (p == fresh) || false) h _ (λ p away. ground (arith, away)),
    )
linkedlist_add-add_item rounds fresh list item h ((a, d) ∷ xs) is ne new fuel =
    let e : (list.front == 0) ≡ false = ground (arith, is.front, is.chain.0) in
    elim (Bool-cases (item == 0)) [
      | inl z ↦
          rw (e, z)
            (
              (list, h),
              refl,
              is,
              SameBut-intro (λ p. (p == fresh) || has_key node_of p ((a, d) ∷ xs)) h h
                  (λ p _. refl),
            )
      | inr s ↦
          rw (e, s, is.front)
            (let (out, ran, held, same) =
                add_behind rounds fresh item h a d xs is.chain ne new (omega arith) in
              (
                out,
                ran,
                held,
                SameBut-intro (λ p. (p == fresh) || has_key node_of p ((a, d) ∷ xs)) h out.1
                    (λ p away. same p (ground (arith, away)) (ground (arith, away))),
              ))
    ]
