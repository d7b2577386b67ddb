-- ===== src/Strext.antt =====
-- source/strext.c: the functions that edit and search a string. A string is the list of its
-- characters before the terminating NUL, so a character is not 0; a NULL pointer is `none`. An
-- `int` is an integer that is not bounded.
pub mod Edit
pub mod Search
mod Tests
use iosdbg.Base.{
  ℕ, zero, suc, ◌+◌, ◌-◌, Bool, true, false, ◌&&◌, ◌||◌, Option, none, some, List, [], ◌∷◌, ◌++◌,
  ◌==◌, ltb, leb, if◌then◌else◌, length, take, drop, replicate,
}
use iosdbg.Base.Int.{ℤ, pos, negsuc}
use iosdbg.Memory.{put_bytes}

-- `realloc` adds room for `str`, whose slots hold `junk`; `saved` is what lies from `where` on.
unfoldable pub strins_at : ℕ → (target str : List ℕ) → ℕ → List ℕ
unfolding put_bytes
strins_at junk target str i =
    let room = target ++ replicate (length str) junk in
    let saved = drop i target in put_bytes (put_bytes room i str) (length str + i) saved

unfoldable pub strins : ℕ → (target str : Option (List ℕ)) → ℤ → Option (List ℕ)
unfolding strins_at
strins junk none str where_ = none
strins junk (some target) none where_ = some target
strins junk (some target) (some str) (negsuc n) = some target
strins junk (some target) (some str) (pos i) =
    if ltb (length target) i || (length str == 0)
    then some target
    else some (strins_at junk target str i)

-- From `char *saved` on: the NUL goes behind what was saved.
unfoldable pub strcut_at : List ℕ → (start endidx : ℕ) → List ℕ
unfolding put_bytes
strcut_at target start endidx =
    let saved = drop endidx target in take (start + length saved) (put_bytes target start saved)

unfoldable pub strcut : Option (List ℕ) → (start bytes : ℤ) → Option (List ℕ)
unfolding strcut_at
strcut none start bytes = none
strcut (some target) (negsuc n) bytes = some target
strcut (some target) (pos i) (negsuc n) = some target
strcut (some target) (pos i) (pos n) =
    if ltb (length target) i
    then some target
    else if (i == 0) && (i + n == 0)
    then some []
    else if (n == 0) || ltb (length target) (i + n)
    then some target
    else some (strcut_at target i (i + n))

unfoldable pub substr : Option (List ℕ) → (start len : ℤ) → Option (List ℕ)
substr none start len = none
substr (some str) (negsuc n) len = none
substr (some str) (pos i) (negsuc n) = none
substr (some str) (pos i) (pos n) =
    if ltb (length str) i || ((n == 0) || ltb (length str) (i + n))
    then none
    else some (take n (drop i str))

-- The inner loop of `strrstr`: the NUL at the end of `s1` differs from every character of `s2`.
unfoldable pub matches : (s1 s2 : List ℕ) → Bool
matches s1 [] = true
matches [] (d ∷ s2) = false
matches (c ∷ s1) (d ∷ s2) = (c == d) && matches s1 s2

-- The outer loop, with the offset of `s1cpy` in `s1`.
unfoldable pub search_down : ℕ → (s1 s2 : List ℕ) → Option ℕ
unfolding matches
search_down zero s1 s2 = none
search_down (suc i) s1 s2 =
    let rest = search_down i s1 s2 in if matches (drop i s1) s2 then some i else rest

-- The pointer that is returned, as its offset in `s1`.
unfoldable pub strrstr : (s1 s2 : List ℕ) → Option ℕ
unfolding search_down
strrstr s1 [] = some 0
strrstr s1 (d ∷ s2) = search_down (length s1) s1 (d ∷ s2)

module _ (isalnum : ℕ → Bool) where
  -- The loop begins at the terminating NUL.
  unfoldable pub only_others : List ℕ → Bool
  only_others [] = if isalnum 0 then false else true
  only_others (c ∷ s) = if isalnum c then false else only_others s

  unfoldable pub is_whitespace : Option (List ℕ) → Bool
  unfolding only_others
  is_whitespace none = false
  is_whitespace (some s) = only_others s

-- `strtol` with base 0 gives the number and what it leaves of the string.
module _ (strtol : List ℕ → ℤ × List ℕ) where
  -- The result, and whether an error was set.
  unfoldable pub strtol_err : Option (List ℕ) → ℤ × Bool
  strtol_err none = (negsuc 0, true)
  strtol_err (some s) =
      let (number, rest) = strtol s in
      elim rest [ [] ↦ (number, false) | c ∷ cs ↦ (negsuc 0, true) ]

  unfoldable pub is_number_fast : Option (List ℕ) → Bool
  unfolding strtol_err
  is_number_fast none = false
  is_number_fast (some s) = if (strtol_err (some s)).1 then false else true
