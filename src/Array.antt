-- ===== src/Array.antt =====
-- source/array.c: an array of `void *` that grows by doubling. An operation returns its status and
-- the new array; `none` is a fault: an access outside the block. A NULL array is `none` of
-- `Option Array`. `malloc` and `realloc` are taken to succeed; a slot that they add holds `junk`,
-- and a block of no slots is not NULL. `qsort` and `bsearch` of the C library are parameters.
pub mod Grow
pub mod Get
pub mod Shrink
pub mod Remove
mod Tests
use iosdbg.Base.{
  ℕ, zero, suc, ◌+◌, ◌-◌, ◌*◌, ◌/◌, ◌%◌, ◌^◌, Bool, true, false, not, ◌&&◌, Option, none, some,
  List, [], ◌==◌, ltb, leb, if◌then◌else◌, get_elem?, take, drop, ◌++◌,
}
use iosdbg.Base.Int.{ℤ, pos, negsuc}
use iosdbg.Buffer.{realloc, resize, store, memmove}

abbrev pub Ptr : Type 0
Ptr = ℕ

pub data Status : Type 0 where
  array_ok array_null array_oob array_key_not_found : Status

-- `struct array`
pub record Array : Type 0 where
  pub items : Option (List Ptr)
  pub len : ℕ
  pub capacity : ℕ

-- `unsigned long`
abbrev pub u64_mod : ℕ
u64_mod = 2 ^ 64

-- The slots of a block of `n * sizeof(void *)` bytes, a product in `unsigned long`.
abbrev pub slots : ℕ → ℕ
slots n = n * 8 % u64_mod / 8

abbrev pub starting_capacity : ℕ
starting_capacity = 1

pub array_new : Array
array_new = record { items = none; len = 0; capacity = starting_capacity }

pub array_clear : Array → Status × Array
array_clear a = (array_ok, record { items = none; len = 0; capacity = starting_capacity })

pub array_empty : Option Array → Bool
array_empty none = true
array_empty (some a) = a.len == 0

-- `if(!a->items) a->items = malloc(a->capacity * sizeof(void *));`
unfoldable pub with_block : Ptr → Array → List Ptr
with_block junk a = elim a.items [ none ↦ resize junk (slots a.capacity) [] | some b ↦ b ]

-- `if(a->len >= a->capacity - 1) ...`, in `unsigned long`.
unfoldable pub grown : Ptr → Array → List Ptr × ℕ
grown junk a =
    if leb ((a.capacity + u64_mod - 1) % u64_mod) a.len
    then (let c = a.capacity * 2 % u64_mod in (resize junk (slots c) (with_block junk a), c))
    else (with_block junk a, a.capacity)

-- `a->items[a->len++] = elem;`
unfoldable pub insert_at : List Ptr × ℕ → ℕ → Ptr → Option Array
insert_at (b, c) n elem = elim (store b n elem) [
  | none ↦ none
  | some b' ↦ some (record { items = some b'; len = (n + 1) % u64_mod; capacity = c })
]

pub array_insert : Ptr → Option Array → Ptr → Option (Status × Option Array)
unfolding with_block grown insert_at
array_insert junk none elem = some (array_null, none)
array_insert junk (some a) elem = elim (insert_at (grown junk a) a.len elem) [
  | none ↦ none
  | some a' ↦ some (array_ok, some a')
]

-- `memmove` counts `len` slots, the value before the decrement.
unfoldable pub remove_at : Array → ℕ → Option (Status × Array)
remove_at a idx = if leb a.len idx then some (array_oob, a) else elim a.items [
  | none ↦ none
  | some b ↦ elim (memmove idx (idx + 1) a.len b) [
    | none ↦ none
    | some b' ↦ some (array_ok, record a { items = some b'; len = a.len - 1 })
  ]
]

-- `_array_remove`
unfoldable pub array_remove_idx : Array → ℤ → Option (Status × Array)
unfolding remove_at
array_remove_idx a (negsuc n) = some (array_oob, a)
array_remove_idx a (pos idx) = remove_at a idx

pub array_remove : Option Array → ℤ → Option (Status × Option Array)
unfolding array_remove_idx array_empty
array_remove none idx = some (array_null, none)
array_remove (some a) idx =
    if array_empty (some a)
    then some (array_ok, some a)
    else elim (array_remove_idx a idx) [ none ↦ none | some (s, a') ↦ some (s, some a') ]

-- `while(a->items[elemidx] != elem && elemidx < a->len) elemidx++;` over the slots from `elemidx`
-- on: the slot is read before the index is tested.
unfoldable pub find_elem : List Ptr → ℕ → ℕ → Ptr → Option ℕ
find_elem b zero i elem = elim (get_elem? b i) [ none ↦ none | some x ↦ some i ]
find_elem b (suc left) i elem =
    let rest = find_elem b left (i + 1) elem in
    elim (get_elem? b i) [ none ↦ none | some x ↦ if x == elem then some i else rest ]

pub array_remove_elem : Option Array → Ptr → Option (Status × Option Array)
unfolding array_remove_idx array_empty find_elem
array_remove_elem none elem = some (array_null, none)
array_remove_elem (some a) elem =
    if array_empty (some a) then some (array_ok, some a) else elim a.items [
      | none ↦ none
      | some b ↦ elim (find_elem b a.len 0 elem) [
        | none ↦ none
        | some i ↦ elim (remove_at a i) [ none ↦ none | some (s, a') ↦ some (s, some a') ]
      ]
    ]

unfoldable pub get_at : Array → ℤ → Option (Status × Option Ptr)
get_at a (negsuc n) = some (array_oob, none)
get_at a (pos i) = if leb a.len i then some (array_oob, none) else elim a.items [
  | none ↦ none
  | some b ↦ elim (get_elem? b i) [ none ↦ none | some x ↦ some (array_ok, some x) ]
]

-- The option is what is written through `itemout`.
pub array_safe_get : Option Array → ℤ → Option (Status × Option Ptr)
unfolding get_at
array_safe_get none idx = some (array_null, none)
array_safe_get (some a) idx = get_at a idx

pub array_shrink_to_fit : Ptr → Option Array → Status × Option Array
array_shrink_to_fit junk none = (array_null, none)
array_shrink_to_fit junk (some a) = (
  array_ok,
  some (record a { items = some (realloc junk (slots a.len) a.items); capacity = a.len }),
)

module _ (qsort : List Ptr → List Ptr) (bsearch : Ptr → List Ptr → Option Ptr) where
  -- `qsort` orders the first `len` slots.
  pub array_qsort : Option Array → Status × Option Array
  array_qsort none = (array_null, none)
  array_qsort (some a) = elim a.items [
    | none ↦ (array_ok, some a)
    | some b ↦ (array_ok, some (record a { items = some (qsort (take a.len b) ++ drop a.len b) }))
  ]

  -- The option is what is written through `result`.
  pub array_bsearch : Option Array → Ptr → Status × Option Ptr
  unfolding array_empty
  array_bsearch none key = (array_null, none)
  array_bsearch (some a) key = if array_empty (some a) then (array_ok, none) else elim a.items [
    | none ↦ (array_key_not_found, none)
    | some b ↦ elim (bsearch key (take a.len b)) [
      | none ↦ (array_key_not_found, none)
      | some x ↦ (array_ok, some x)
    ]
  ]
