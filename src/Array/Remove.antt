-- ===== src/Array/Remove.antt =====
-- `array_remove` and `array_remove_elem` of source/array.c, and when they leave the block.
use iosdbg.Base.{
  ℕ, ◌+◌, ◌-◌, ◌≤◌, ◌<◌, ◌≡◌, refl, false, Option, none, some, List, ◌++◌, leb, length,
  length-append, take, drop, arith, ap, ◌∙◌, length-take, length-drop,
}
use iosdbg.Base.Int.{pos}
use iosdbg.Buffer.{Starts, memmove, Starts-take_append, Starts-append, Starts-take, Starts-drop}
use iosdbg.Array.{Ptr, Array, array_ok, remove_at, array_remove, array_empty}
use iosdbg.Array.Grow.{IsArray, InBlock}

-- The elements less the one at the index.
abbrev pub erase_at : ℕ → List Ptr → List Ptr
erase_at idx ys = take idx ys ++ drop (idx + 1) ys

length-erase_at :
    (idx : ℕ) (ys : List Ptr) → idx < length ys → length (erase_at idx ys) ≡ length ys - 1
length-erase_at idx ys h = omega (
  arith,
  length-append (take idx ys) (drop (idx + 1) ys),
  length-take idx ys,
  length-drop (idx + 1) ys,
)

abbrev moved : ℕ → ℕ → List Ptr → List Ptr
moved idx n b = take idx b ++ (take n (drop (idx + 1) b) ++ drop (idx + n) b)

-- Where the move stays inside the block it takes out the element.
Starts-moved :
    (idx : ℕ) (b ys : List Ptr)
    → Starts b ys
    → idx < length ys
    → Starts (moved idx (length ys) b) (erase_at idx ys)
Starts-moved idx b ys s h =
    Starts-take_append idx b (take (length ys) (drop (idx + 1) b) ++ drop (idx + length ys) b) ys
      (drop (idx + 1) ys) s (omega arith)
      (Starts-append (take (length ys) (drop (idx + 1) b)) (drop (idx + length ys) b)
        (drop (idx + 1) ys)
        (Starts-take (length ys) (drop (idx + 1) b) (drop (idx + 1) ys)
          (Starts-drop (idx + 1) b ys s) (omega (arith, length-drop (idx + 1) ys))))

length-moved :
    (idx n : ℕ) (b : List Ptr) → idx + 1 + n ≤ length b → length (moved idx n b) ≡ length b
length-moved idx n b h = omega (
  arith,
  length-append (take idx b) (take n (drop (idx + 1) b) ++ drop (idx + n) b),
  length-append (take n (drop (idx + 1) b)) (drop (idx + n) b),
  length-take idx b,
  length-take n (drop (idx + 1) b),
  length-drop (idx + 1) b,
  length-drop (idx + n) b,
)

module _ (a : Array) (ys : List Ptr) (idx : ℕ) (is : IsArray a ys) (inside : idx < length ys) where
  -- Where the block has as many slots as are moved, `array_remove` takes the element out.
  remove_block :
      (m : Option (List Ptr))
      → InBlock m a.capacity ys
      → idx + 1 + length ys ≤ a.capacity
      → (a' : Array) × (remove_at (record a { items = m }) idx ≡ some (array_ok, a'))
        × IsArray a' (erase_at idx ys)
  unfolding remove_at
  remove_block none e room = absurd (omega (arith, ap length e))
  remove_block (some b) (s, size) room =
      let out : leb a.len idx ≡ false = ground (arith, is.len) in
      let ran : memmove idx (idx + 1) a.len b ≡ some (moved idx a.len b) = ground (arith, is.len) in
      rw (out, ran)
        (
          record { items = some (moved idx a.len b); len = a.len - 1; capacity = a.capacity },
          refl,
          record {
            len = omega (arith, length-erase_at idx ys inside, is.len);
            fits = omega (arith, length-erase_at idx ys inside, is.fits);
            pos_capacity = is.pos_capacity;
            small = is.small;
            block = (
              rw is.len (Starts-moved idx b ys s inside),
              length-moved idx a.len b (omega (arith, is.len)) ∙ size,
            );
          },
        )

  overrun_block :
      (m : Option (List Ptr))
      → InBlock m a.capacity ys
      → a.capacity < idx + 1 + length ys
      → remove_at (record a { items = m }) idx ≡ none
  unfolding remove_at
  overrun_block none e short = absurd (omega (arith, ap length e))
  overrun_block (some b) (s, size) short =
      let out : leb a.len idx ≡ false = ground (arith, is.len) in
      let ran : memmove idx (idx + 1) a.len b ≡ none = ground (arith, is.len) in rw (out, ran) refl

  not_empty : array_empty (some a) ≡ false
  unfolding array_empty
  not_empty = ground (arith, is.len)

  -- On an array that holds `ys`, at an index inside it, and with a capacity of at least `idx + 1`
  -- slots beyond its length, `array_remove` returns ARRAY_OK, and the array holds `ys` less the
  -- element at the index.
  pub array_remove-erase_at :
      idx + 1 + length ys ≤ a.capacity
      → (a' : Array) × (array_remove (some a) (pos idx) ≡ some (array_ok, some a'))
        × IsArray a' (erase_at idx ys)
  unfolding array_remove
  array_remove-erase_at room =
      let (a', ran, held) = remove_block a.items is.block room in
      (a', rw (not_empty, ran) refl, held)

  -- On an array that holds `ys`, at an index `idx` inside it, and with a capacity of fewer than
  -- `idx + 1` slots beyond its length,
  -- `array_remove` reads past the end of its block: it moves `len` slots where `len - 1 - idx` are
  -- left behind the index.
  pub array_remove-overrun :
      a.capacity < idx + 1 + length ys → array_remove (some a) (pos idx) ≡ none
  unfolding array_remove
  array_remove-overrun short = rw (not_empty, overrun_block a.items is.block short) refl
