-- ===== src/Array/Grow.antt =====
-- The block of source/array.c as it grows: `array_new`, `array_clear` and `array_insert` against
-- the list of the elements.
use iosdbg.Base.{
  ℕ, ◌+◌, ◌-◌, ◌*◌, ◌%◌, ◌^◌, ◌≤◌, ◌<◌, ◌≡◌, refl, Option, none, some, List, [], ◌∷◌, ◌++◌, leb,
  length, length-append, set, arith, ◌∙◌, Bool-cases, inl, inr, length-set,
}
use iosdbg.Buffer.{resize, Starts, Starts-resize, length-resize, store, store-Starts}
use iosdbg.Array.{
  Ptr, Array, array_ok, u64_mod, slots, array_new, array_clear, with_block, grown, insert_at,
  array_insert,
}

abbrev pub InBlock : Option (List Ptr) → ℕ → List Ptr → Type 0
InBlock none capacity ys = ys ≡ []
InBlock (some b) capacity ys = Starts b ys × (length b ≡ capacity)

-- The array holds `ys`, in a block of as many slots as its capacity says, which is not 0.
pub record IsArray (a : Array) (ys : List Ptr) : Type 0 where
  pub len : a.len ≡ length ys
  pub fits : length ys ≤ a.capacity
  pub pos_capacity : 0 < a.capacity
  pub small : a.capacity < 2 ^ 61
  pub block : InBlock a.items a.capacity ys

pub array_new-IsArray : IsArray array_new []
unfolding array_new
array_new-IsArray = record {
  len = refl;
  fits = omega arith;
  pos_capacity = omega arith;
  small = omega arith;
  block = refl;
}

pub array_clear-IsArray : (a : Array) → IsArray (array_clear a).1 []
unfolding array_clear
array_clear-IsArray a = record {
  len = refl;
  fits = omega arith;
  pos_capacity = omega arith;
  small = omega arith;
  block = refl;
}

-- Below 2 ^ 61 slots the product does not wrap.
pub slots_lem : (n : ℕ) → n < 2 ^ 61 → slots n ≡ n
slots_lem n h = omega arith

with_block-Starts :
    (junk : Ptr) (a : Array) (ys : List Ptr)
    → IsArray a ys
    → Starts (with_block junk a) ys × (length (with_block junk a) ≡ a.capacity)
unfolding with_block
with_block-Starts junk a ys is = go a.items is.block
  where
    go :
        (m : Option (List Ptr))
        → InBlock m a.capacity ys
        → Starts (elim m [ none ↦ resize junk (slots a.capacity) [] | some b ↦ b ]) ys
          × (length (elim m [ none ↦ resize junk (slots a.capacity) [] | some b ↦ b ]) ≡ a.capacity)
    go none e =
        let whole : slots a.capacity ≡ a.capacity = slots_lem a.capacity is.small in
        rw whole (rw e tt, length-resize junk a.capacity [])
    go (some b) h = h

-- After the growth step there is room for one more element.
grown_lem :
    (junk : Ptr) (a : Array) (ys : List Ptr)
    → IsArray a ys
    → a.capacity < 2 ^ 60
    → Starts (grown junk a).0 ys
      × (length (grown junk a).0 ≡ (grown junk a).1)
      × (length ys < (grown junk a).1)
      × ((grown junk a).1 ≤ 2 * a.capacity)
      × (a.capacity ≤ (grown junk a).1)
unfolding grown
grown_lem junk a ys is below =
    let (starts, size) = with_block-Starts junk a ys is in
    elim (Bool-cases (leb ((a.capacity + u64_mod - 1) % u64_mod) a.len)) [
      | inl full ↦ rw full (
          let double : a.capacity * 2 % u64_mod ≡ a.capacity * 2 = omega arith in
          rw (double, slots_lem (a.capacity * 2) (omega arith))
            (
              Starts-resize junk (a.capacity * 2) (with_block junk a) ys starts (omega arith),
              length-resize junk (a.capacity * 2) (with_block junk a),
              omega arith,
              omega arith,
              omega arith,
            ))
      | inr room ↦ rw room (starts, size, ground arith, omega arith, omega arith)
    ]

insert_at-some :
    (p : List Ptr × ℕ) (n : ℕ) (elem : Ptr) {b : List Ptr}
    → store p.0 n elem ≡ some b
    → insert_at p n elem ≡ some (record { items = some b; len = (n + 1) % u64_mod; capacity = p.1 })
unfolding insert_at
insert_at-some (b, c) n elem e = rw (e, insert_at) refl

-- On an array that holds `ys`, with a capacity below 2 ^ 60, `array_insert` returns ARRAY_OK; the
-- array then holds `ys` with the element behind it, in a block as long as its new capacity.
pub array_insert-append :
    (junk : Ptr) (a : Array) (ys : List Ptr) (elem : Ptr)
    → IsArray a ys
    → a.capacity < 2 ^ 60
    → (a' : Array) × (array_insert junk (some a) elem ≡ some (array_ok, some a'))
      × IsArray a' (ys ++ (elem ∷ []))
unfolding array_insert
array_insert-append junk a ys elem is small =
    let (starts, size, room, most, least) = grown_lem junk a ys is small in
    let b = (grown junk a).0 in
    let c = (grown junk a).1 in
    let (stored, held) = store-Starts b ys a.len elem starts is.len (omega arith) in
    rw (insert_at-some (grown junk a) a.len elem stored, array_insert)
      (
        record { items = some (set b a.len elem); len = (a.len + 1) % u64_mod; capacity = c },
        refl,
        record {
          len = omega (arith, length-append ys (elem ∷ []));
          fits = omega (arith, length-append ys (elem ∷ []));
          pos_capacity = omega arith;
          small = omega arith;
          block = (held, length-set b a.len elem ∙ size);
        },
      )
