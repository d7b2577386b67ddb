-- ===== src/LinkedList/Items.antt =====
-- What source/linkedlist.c promises, on the sequence of the items: the clients of the list are
-- modelled over these. An item is anything that has an address, `key`.
use iosdbg.Base.{
  ℕ, suc, ◌≡◌, ◌≢◌, refl, Bool, true, false, ◌||◌, List, [], ◌∷◌, ◌++◌, ◌==◌, if◌then◌else◌, arith,
  length, ap,
}

module _ {ℓ} {A : Type ℓ} (key : A → ℕ) where
  -- The first item is taken as it comes, a later one unless it is NULL.
  abbrev pub add_item : List A → A → List A
  add_item [] x = x ∷ []
  add_item (y ∷ ys) x = if key x == 0 then y ∷ ys else y ∷ (ys ++ (x ∷ []))

  -- The first item at the address is dropped.
  abbrev pub drop_key : ℕ → List A → List A
  drop_key p [] = []
  drop_key p (x ∷ xs) = if key x == p then xs else x ∷ drop_key p xs

  abbrev pub delete_item : List A → ℕ → List A
  delete_item xs p = if p == 0 then xs else drop_key p xs

  abbrev pub has_key : ℕ → List A → Bool
  has_key p [] = false
  has_key p (x ∷ xs) = (key x == p) || has_key p xs

  -- No two items have one address.
  abbrev pub Distinct : List A → Type 0
  Distinct [] = Unit {0}
  Distinct (x ∷ xs) = (has_key (key x) xs ≡ false) × Distinct xs

  pub has_key-append :
      (p : ℕ) (xs ys : List A) → has_key p (xs ++ ys) ≡ (has_key p xs || has_key p ys)
  has_key-append p [] ys = refl
  has_key-append p (x ∷ xs) ys = ground (arith, has_key-append p xs ys)

  pub ne_of_has_key : (p q : ℕ) (xs : List A) → has_key p xs ≡ false → has_key q xs ≡ true → p ≢ q
  ne_of_has_key p q xs out in_ e = cc (ap (λ r. has_key r xs) e)

  -- An item that is put behind the others is new if its address is.
  pub has_key-append_one :
      (p : ℕ) (x : A) (xs : List A)
      → has_key p xs ≡ false
      → p ≢ key x
      → has_key p (xs ++ (x ∷ [])) ≡ false
  has_key-append_one p x xs out ne = rw (has_key-append p xs (x ∷ []), out) (ground arith)

  pub Distinct-append_one :
      (x : A) (xs : List A) → Distinct xs → has_key (key x) xs ≡ false → Distinct (xs ++ (x ∷ []))
  Distinct-append_one x [] d new = (refl, tt)
  Distinct-append_one x (y ∷ ys) d new = (
    ground (arith, has_key-append (key y) ys (x ∷ [])),
    Distinct-append_one x ys d.1 (ground arith),
  )

  pub has_key-drop_key_ne :
      (p q : ℕ) (xs : List A) → has_key q xs ≡ false → has_key q (drop_key p xs) ≡ false
  has_key-drop_key_ne p q [] h = refl
  has_key-drop_key_ne p q (x ∷ xs) h = ground (arith, has_key-drop_key_ne p q xs)

  -- Another item stays.
  pub has_key-drop_key_other :
      (p q : ℕ) (xs : List A) → q ≢ p → has_key q xs ≡ true → has_key q (drop_key p xs) ≡ true
  has_key-drop_key_other p q [] ne h = h
  has_key-drop_key_other p q (x ∷ xs) ne h = ground (arith, ne, has_key-drop_key_other p q xs)

  pub Distinct-drop_key : (p : ℕ) (xs : List A) → Distinct xs → Distinct (drop_key p xs)
  Distinct-drop_key p [] d = d
  Distinct-drop_key p (x ∷ xs) d =
      ground (arith, has_key-drop_key_ne p (key x) xs, Distinct-drop_key p xs)

  -- In a list of distinct items nothing with the address is left.
  pub has_key-drop_key_self :
      (p : ℕ) (xs : List A) → Distinct xs → has_key p (drop_key p xs) ≡ false
  has_key-drop_key_self p [] d = refl
  has_key-drop_key_self p (x ∷ xs) d = ground (arith, has_key-drop_key_self p xs)

  pub length-drop_key :
      (p : ℕ) (xs : List A) → has_key p xs ≡ true → suc (length (drop_key p xs)) ≡ length xs
  length-drop_key p [] h = ground arith
  length-drop_key p (x ∷ xs) h = ground (arith, length-drop_key p xs)
