-- ===== src/Array/Shrink.antt =====
-- `array_insert` after `array_shrink_to_fit` of source/array.c.
use iosdbg.Base.{
  ℕ, ◌^◌, ◌<◌, ◌≡◌, ◌≢◌, refl, Option, none, some, List, [], ◌∷◌, ◌++◌, length, arith,
}
use iosdbg.Buffer.{realloc, Starts, Starts-resize, length-realloc}
use iosdbg.Array.{Ptr, Array, array_ok, slots, array_insert, array_shrink_to_fit}
use iosdbg.Array.Grow.{InBlock, IsArray, slots_lem, array_insert-append}

Starts-realloc :
    (junk : Ptr) (m : Option (List Ptr)) (c : ℕ) (ys : List Ptr)
    → InBlock m c ys
    → Starts (realloc junk (length ys) m) ys
Starts-realloc junk none c ys e = rw e tt
Starts-realloc junk (some b) c ys h = Starts-resize junk (length ys) b ys h.0 (omega arith)

shrunk-IsArray :
    (junk : Ptr) (a : Array) (ys : List Ptr)
    → IsArray a ys
    → 0 < length ys
    → IsArray
        (record {
          items = some (realloc junk (slots a.len) a.items);
          len = a.len;
          capacity = a.len;
        })
        ys
shrunk-IsArray junk a ys is full = rw (slots_lem a.len (omega arith)) record {
  len = is.len;
  fits = omega arith;
  pos_capacity = omega arith;
  small = omega arith;
  block = (
    rw is.len (Starts-realloc junk a.items a.capacity ys is.block),
    length-realloc junk a.len a.items,
  );
}

insert_into_nothing :
    (junk : Ptr) (m : Option (List Ptr)) (len c : ℕ) (elem : Ptr)
    → len ≡ 0
    → array_insert junk
        (array_shrink_to_fit junk (some (record { items = m; len = len; capacity = c }))).1
        elem
      ≡ none
unfolding array_shrink_to_fit array_insert
insert_into_nothing junk none len c elem e = rw e refl
insert_into_nothing junk (some b) len c elem e = rw e refl

pos_length : {A : Type 0} (xs : List A) → xs ≢ [] → 0 < length xs
pos_length [] ne = absurd (ne refl)
pos_length (x ∷ xs) ne = omega arith

-- An array that holds elements, with a capacity below 2 ^ 60, can be shrunk and inserted into: it
-- then holds them with the new element behind them.
pub array_insert-shrink_to_fit :
    (junk : Ptr) (a : Array) (ys : List Ptr) (elem : Ptr)
    → IsArray a ys
    → a.capacity < 2 ^ 60
    → ys ≢ []
    → (a' : Array) × (array_insert junk (array_shrink_to_fit junk (some a)).1 elem
        ≡ some (array_ok, some a'))
      × IsArray a' (ys ++ (elem ∷ []))
unfolding array_shrink_to_fit
array_insert-shrink_to_fit junk a ys elem is small ne =
    array_insert-append junk _ ys elem (shrunk-IsArray junk a ys is (pos_length ys ne))
      (omega arith)

-- If an array that holds no element is shrunk, the next `array_insert` writes outside its block,
-- which has no slot: the capacity is 0, and the test for growth computes 0 - 1.
pub array_insert-shrink_empty :
    (junk : Ptr) (a : Array) (elem : Ptr)
    → IsArray a []
    → array_insert junk (array_shrink_to_fit junk (some a)).1 elem ≡ none
array_insert-shrink_empty junk a elem is =
    insert_into_nothing junk a.items a.len a.capacity elem is.len
