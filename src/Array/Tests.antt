-- ===== src/Array/Tests.antt =====
-- source/array.c on concrete arrays.
use iosdbg.Base.{◌≡◌, refl, none, some, [], ◌∷◌, ◌++◌, arith, get_elem?}
use iosdbg.Base.Int.{pos, negsuc}
use iosdbg.Array.{
  Array, array_ok, array_oob, array_insert, array_remove, array_safe_get, array_shrink_to_fit,
  array_new, array_remove_elem, find_elem, array_empty, remove_at, array_qsort, array_bsearch,
  array_key_not_found,
}
use iosdbg.Array.Grow.{IsArray, array_new-IsArray, array_insert-append}
use iosdbg.Array.Get.{array_safe_get-get_elem?, safe_get_of}
use iosdbg.Array.Shrink.{array_insert-shrink_to_fit, array_insert-shrink_empty}
use iosdbg.Array.Remove.{erase_at, array_remove-erase_at, array_remove-overrun}

-- Two elements in a block of four slots.
abbrev pair : Array
pair = record { items = some (7 ∷ 8 ∷ 0 ∷ 0 ∷ []); len = 2; capacity = 4 }

pair-IsArray : IsArray pair (7 ∷ 8 ∷ [])
pair-IsArray = record {
  len = refl;
  fits = omega arith;
  pos_capacity = omega arith;
  small = omega arith;
  block = ((refl, (refl, tt)), refl);
}

array_insert-append_example :
    (a' : Array) × (array_insert 0 (some pair) 9 ≡ some (array_ok, some a'))
    × IsArray a' ((7 ∷ 8 ∷ []) ++ (9 ∷ []))
array_insert-append_example = array_insert-append 0 pair (7 ∷ 8 ∷ []) 9 pair-IsArray (omega arith)

array_safe_get-get_elem?_at_sample :
    (array_safe_get (some pair) (pos 1) ≡ some (safe_get_of (get_elem? (7 ∷ 8 ∷ []) 1)))
    × (array_safe_get (some pair) (negsuc 1) ≡ some (array_oob, none))
array_safe_get-get_elem?_at_sample = array_safe_get-get_elem? pair (7 ∷ 8 ∷ []) 1 pair-IsArray

array_insert-shrink_to_fit_at_sample :
    (a' : Array) × (array_insert 0 (array_shrink_to_fit 0 (some pair)).1 9
      ≡ some (array_ok, some a'))
    × IsArray a' ((7 ∷ 8 ∷ []) ++ (9 ∷ []))
array_insert-shrink_to_fit_at_sample =
    array_insert-shrink_to_fit 0 pair (7 ∷ 8 ∷ []) 9 pair-IsArray (omega arith) (λ e. cc)

array_insert-shrink_empty_example :
    array_insert 0 (array_shrink_to_fit 0 (some array_new)).1 9 ≡ none
array_insert-shrink_empty_example = array_insert-shrink_empty 0 array_new 9 array_new-IsArray

array_remove-erase_at_example :
    (a' : Array) × (array_remove (some pair) (pos 1) ≡ some (array_ok, some a'))
    × IsArray a' (erase_at 1 (7 ∷ 8 ∷ []))
array_remove-erase_at_example =
    array_remove-erase_at pair (7 ∷ 8 ∷ []) 1 pair-IsArray (omega arith) (omega arith)

-- Three elements in a block of four slots: the last one cannot be taken out.
abbrev triple : Array
triple = record { items = some (7 ∷ 8 ∷ 9 ∷ 0 ∷ []); len = 3; capacity = 4 }

triple-IsArray : IsArray triple (7 ∷ 8 ∷ 9 ∷ [])
triple-IsArray = record {
  len = refl;
  fits = omega arith;
  pos_capacity = omega arith;
  small = omega arith;
  block = ((refl, (refl, (refl, tt))), refl);
}

array_remove-overrun_example : array_remove (some triple) (pos 2) ≡ none
array_remove-overrun_example =
    array_remove-overrun triple (7 ∷ 8 ∷ 9 ∷ []) 2 triple-IsArray (omega arith) (omega arith)

-- The element 7 is taken out; an element that is not there is looked for past the last slot.
remove_elem :
    (array_remove_elem (some pair) 7
      ≡ some (array_ok, some (record { items = some (8 ∷ 0 ∷ 0 ∷ 0 ∷ []); len = 1; capacity = 4 })))
    × (array_remove_elem (some (record { items = some (7 ∷ []); len = 1; capacity = 1 })) 5 ≡ none)
unfolding array_remove_elem find_elem array_empty remove_at
remove_elem = (refl, refl)

-- `qsort` and `bsearch` as the identity and as a search that fails.
sort_and_search :
    (array_qsort (λ xs. xs) (λ key xs. none) (some pair) ≡ (array_ok, some pair))
    × (array_bsearch (λ xs. xs) (λ key xs. none) (some pair) 7 ≡ (array_key_not_found, none))
unfolding array_qsort array_bsearch array_empty
sort_and_search = (refl, refl)
