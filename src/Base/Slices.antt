-- ===== src/Base/Slices.antt =====
-- What `take` and `drop` do to a list that is put together.
use Prim.Native.Nat.{ℕ, zero, suc, ◌+◌}
use Prim.Native.Nat.add
use mathlib.Core.Path.{◌≡◌, refl, ap}
use mathlib.Core.List.{List, [], ◌∷◌, ◌++◌}
use mathlib.Core.Option.{none, some}
use Prim.Native.Nat.{◌≤◌, ◌<◌}
use native.Mathlib.Omega.{arith}
use iosdbg.Base.Lists.{take, drop, length, get_elem?}

module _ {A : Type 0} where
  pub take-append_length : (xs ys : List A) → take (length xs) (xs ++ ys) ≡ xs
  take-append_length [] ys = refl
  take-append_length (x ∷ xs) ys = ap (λ r. x ∷ r) (take-append_length xs ys)

  pub take-append_exact : (n : ℕ) (xs ys : List A) → length xs ≡ n → take n (xs ++ ys) ≡ xs
  take-append_exact n xs ys e = rw (← e) (take-append_length xs ys)

  pub drop-append_length : (xs ys : List A) (c : ℕ) → drop (length xs + c) (xs ++ ys) ≡ drop c ys
  drop-append_length [] ys c = rw add.zero refl
  drop-append_length (x ∷ xs) ys c = rw add.suc (drop-append_length xs ys c)

  pub drop-append_exact :
      (n c : ℕ) (xs ys : List A) → length xs ≡ n → drop (n + c) (xs ++ ys) ≡ drop c ys
  drop-append_exact n c xs ys e = rw (← e) (drop-append_length xs ys c)

  pub drop-drop : (i c : ℕ) (xs : List A) → drop c (drop i xs) ≡ drop (i + c) xs
  drop-drop zero c xs = rw add.zero refl
  drop-drop (suc i) zero [] = rw add.suc refl
  drop-drop (suc i) (suc c) [] = rw add.suc refl
  drop-drop (suc i) c (x ∷ xs) = rw add.suc (drop-drop i c xs)

  pub get_elem?-of_le : (xs : List A) (i : ℕ) → length xs ≤ i → get_elem? xs i ≡ none
  get_elem?-of_le [] i h = refl
  get_elem?-of_le (x ∷ xs) zero h = absurd (omega arith)
  get_elem?-of_le (x ∷ xs) (suc i) h = get_elem?-of_le xs i (omega arith)

  pub get_elem?-of_lt : (xs : List A) (i : ℕ) → i < length xs → (x : A) × (get_elem? xs i ≡ some x)
  get_elem?-of_lt [] i h = absurd (omega arith)
  get_elem?-of_lt (x ∷ xs) zero h = (x, refl)
  get_elem?-of_lt (x ∷ xs) (suc i) h = get_elem?-of_lt xs i (omega arith)
