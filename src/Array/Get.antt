-- ===== src/Array/Get.antt =====
-- `array_safe_get` of source/array.c against the list of the elements.
use iosdbg.Base.{
  ℕ, zero, suc, ◌<◌, ◌≡◌, refl, Option, none, some, List, [], ◌∷◌, leb, length, get_elem?, arith,
  ap, Bool-cases, inl, inr,
}
use iosdbg.Base.Slices.{get_elem?-of_le, get_elem?-of_lt}
use iosdbg.Base.Int.{pos, negsuc}
use iosdbg.Buffer.{Starts}
use iosdbg.Array.{Ptr, Array, Status, array_ok, array_oob, get_at, array_safe_get}
use iosdbg.Array.Grow.{InBlock, IsArray}

-- An index inside the array gives its element, another one ARRAY_OOB.
abbrev pub safe_get_of : Option Ptr → Status × Option Ptr
safe_get_of none = (array_oob, none)
safe_get_of (some x) = (array_ok, some x)

get_elem?-Starts_lem :
    (b ys : List Ptr) (i : ℕ) → Starts b ys → i < length ys → get_elem? b i ≡ get_elem? ys i
get_elem?-Starts_lem b [] i s h = absurd (omega arith)
get_elem?-Starts_lem [] (y ∷ ys) i s h = absurd s
get_elem?-Starts_lem (x ∷ b) (y ∷ ys) zero s h = ap some s.0
get_elem?-Starts_lem (x ∷ b) (y ∷ ys) (suc i) s h = get_elem?-Starts_lem b ys i s.1 (omega arith)

get_block :
    (m : Option (List Ptr)) (len capacity i : ℕ) (ys : List Ptr)
    → InBlock m capacity ys
    → len ≡ length ys
    → get_at (record { items = m; len = len; capacity = capacity }) (pos i)
      ≡ some (safe_get_of (get_elem? ys i))
unfolding get_at
get_block m len capacity i ys held e = elim (Bool-cases (leb len i)) [
  | inl out ↦ rw (out, get_elem?-of_le ys i (ground arith)) refl
  | inr inside ↦ rw inside (read m held (ground arith))
]
  where
    read :
        (m : Option (List Ptr))
        → InBlock m capacity ys
        → i < length ys
        → elim m [
          | none ↦ none
          | some b ↦ elim (get_elem? b i) [ none ↦ none | some x ↦ some (array_ok, some x) ]
        ]
          ≡ some (safe_get_of (get_elem? ys i))
    read none h inside = absurd (omega (arith, ap length h))
    read (some b) h inside =
        let (x, got) = get_elem?-of_lt ys i inside in
        rw (get_elem?-Starts_lem b ys i h.0 inside, got) refl

-- On an array that holds `ys`, `array_safe_get` never faults: a negative index and one past the end
-- give ARRAY_OOB, any other the element with ARRAY_OK.
pub array_safe_get-get_elem? :
    (a : Array) (ys : List Ptr) (i : ℕ)
    → IsArray a ys
    → (array_safe_get (some a) (pos i) ≡ some (safe_get_of (get_elem? ys i)))
      × (array_safe_get (some a) (negsuc i) ≡ some (array_oob, none))
unfolding array_safe_get
array_safe_get-get_elem? a ys i is = (get_block a.items a.len a.capacity i ys is.block is.len, refl)
