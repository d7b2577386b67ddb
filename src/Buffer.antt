-- ===== src/Buffer.antt =====
-- Blocks of memory that hold pointers, as source/stack.c, source/queue.c and source/array.c use
-- them: `realloc`, an indexed store, `memmove` within one block, each with its bounds.
-- `none` of `Option (List A)` is a NULL pointer where a block is meant, and a fault in a result.
use iosdbg.Base.{
  ℕ, zero, suc, ◌+◌, ◌≤◌, ◌<◌, ◌≡◌, refl, ◌&&◌, Option, none, some, List, [], ◌∷◌, ◌++◌, ltb, leb,
  if◌then◌else◌, length, get_elem?, set, take, drop, arith, ap,
}
use native.Mathlib.Nat.{zero-add}

module _ {A : Type 0} where
  -- A block of `n` slots that keeps what it held; a new slot holds `junk`.
  abbrev pub resize : A → ℕ → List A → List A
  resize junk zero b = []
  resize junk (suc n) [] = junk ∷ resize junk n []
  resize junk (suc n) (x ∷ b) = x ∷ resize junk n b

  abbrev pub realloc : A → ℕ → Option (List A) → List A
  realloc junk n none = resize junk n []
  realloc junk n (some b) = resize junk n b

  abbrev pub store : List A → ℕ → A → Option (List A)
  store b i v = if ltb i (length b) then some (set b i v) else none

  -- `n` slots from `src` on are moved to `dst`.
  abbrev pub memmove : (dst src n : ℕ) → List A → Option (List A)
  memmove dst src n b =
      if leb (src + n) (length b) && leb (dst + n) (length b)
      then some (take dst b ++ (take n (drop src b) ++ drop (dst + n) b))
      else none

  -- The block begins with the items `ys`.
  abbrev pub Starts : List A → List A → Type 0
  Starts b [] = Unit {0}
  Starts [] (y ∷ ys) = ⊥
  Starts (x ∷ b) (y ∷ ys) = (x ≡ y) × Starts b ys

  pub length-resize : (junk : A) (n : ℕ) (b : List A) → length (resize junk n b) ≡ n
  length-resize junk zero b = refl
  length-resize junk (suc n) [] = ap suc (length-resize junk n [])
  length-resize junk (suc n) (x ∷ b) = ap suc (length-resize junk n b)

  pub length-realloc : (junk : A) (n : ℕ) (b : Option (List A)) → length (realloc junk n b) ≡ n
  length-realloc junk n none = length-resize junk n []
  length-realloc junk n (some b) = length-resize junk n b

  pub length-le_of_Starts : (b ys : List A) → Starts b ys → length ys ≤ length b
  length-le_of_Starts b [] s = omega arith
  length-le_of_Starts [] (y ∷ ys) s = absurd s
  length-le_of_Starts (x ∷ b) (y ∷ ys) s = omega (arith, length-le_of_Starts b ys s.1)

  pub Starts-resize :
      (junk : A) (n : ℕ) (b ys : List A) → Starts b ys → length ys ≤ n → Starts (resize junk n b) ys
  Starts-resize junk n b [] s h = tt
  Starts-resize junk n [] (y ∷ ys) s h = absurd s
  Starts-resize junk zero (x ∷ b) (y ∷ ys) s h = absurd (omega arith)
  Starts-resize junk (suc n) (x ∷ b) (y ∷ ys) s h =
      (s.0, Starts-resize junk n b ys s.1 (omega arith))

  -- A store just behind the items extends them.
  pub Starts-set :
      (b ys : List A) (v : A)
      → Starts b ys
      → length ys < length b
      → Starts (set b (length ys) v) (ys ++ (v ∷ []))
  Starts-set [] ys v s h = absurd (omega arith)
  Starts-set (x ∷ b) [] v s h = (refl, tt)
  Starts-set (x ∷ b) (y ∷ ys) v s h = (s.0, Starts-set b ys v s.1 (omega arith))

  pub get_elem?-Starts :
      (b ys : List A) (v : A) (zs : List A)
      → Starts b (ys ++ (v ∷ zs))
      → get_elem? b (length ys) ≡ some v
  get_elem?-Starts [] [] v zs s = absurd s
  get_elem?-Starts (x ∷ b) [] v zs s = ap some s.0
  get_elem?-Starts [] (y ∷ ys) v zs s = absurd s
  get_elem?-Starts (x ∷ b) (y ∷ ys) v zs s = get_elem?-Starts b ys v zs s.1

  pub Starts-append_left : (b ys zs : List A) → Starts b (ys ++ zs) → Starts b ys
  Starts-append_left b [] zs s = tt
  Starts-append_left [] (y ∷ ys) zs s = absurd s
  Starts-append_left (x ∷ b) (y ∷ ys) zs s = (s.0, Starts-append_left b ys zs s.1)

  pub Starts-append : (b c ys : List A) → Starts b ys → Starts (b ++ c) ys
  Starts-append b c [] s = tt
  Starts-append [] c (y ∷ ys) s = absurd s
  Starts-append (x ∷ b) c (y ∷ ys) s = (s.0, Starts-append b c ys s.1)

  pub Starts-take : (n : ℕ) (b ys : List A) → Starts b ys → length ys ≤ n → Starts (take n b) ys
  Starts-take n b [] s h = tt
  Starts-take n [] (y ∷ ys) s h = absurd s
  Starts-take zero (x ∷ b) (y ∷ ys) s h = absurd (omega arith)
  Starts-take (suc n) (x ∷ b) (y ∷ ys) s h = (s.0, Starts-take n b ys s.1 (omega arith))

  pub Starts-drop : (n : ℕ) (b ys : List A) → Starts b ys → Starts (drop n b) (drop n ys)
  Starts-drop zero b ys s = s
  Starts-drop (suc n) b [] s = tt
  Starts-drop (suc n) [] (y ∷ ys) s = absurd s
  Starts-drop (suc n) (x ∷ b) (y ∷ ys) s = Starts-drop n b ys s.1

  pub Starts-take_append :
      (n : ℕ) (b c ys zs : List A)
      → Starts b ys
      → n ≤ length ys
      → Starts c zs
      → Starts (take n b ++ c) (take n ys ++ zs)
  Starts-take_append zero b c ys zs s h t = t
  Starts-take_append (suc n) b c [] zs s h t = absurd (omega arith)
  Starts-take_append (suc n) [] c (y ∷ ys) zs s h t = absurd s
  Starts-take_append (suc n) (x ∷ b) c (y ∷ ys) zs s h t =
      (s.0, Starts-take_append n b c ys zs s.1 (omega arith) t)

  -- A store just behind the items is inside the block, if a slot is left.
  pub store-Starts :
      (b ys : List A) (n : ℕ) (v : A)
      → Starts b ys
      → n ≡ length ys
      → n < length b
      → (store b n v ≡ some (set b n v)) × Starts (set b n v) (ys ++ (v ∷ []))
  store-Starts b ys n v s e h = (ground arith, rw e (Starts-set b ys v s (omega arith)))

  Starts-take_exact : (b ys : List A) → Starts b ys → Starts (take (length ys) b) ys
  Starts-take_exact b ys s = Starts-take (length ys) b ys s (omega arith)

  -- The items behind the first are moved to the front of the block.
  pub memmove-tail :
      (x : A) (b : List A) (y : A) (ys : List A)
      → Starts (x ∷ b) (y ∷ ys)
      → (c : List A) × (memmove 0 1 (length ys) (x ∷ b) ≡ some c) × Starts c ys
  memmove-tail x b y ys s = (
    take (length ys) b ++ drop (length ys) (x ∷ b),
    moved,
    Starts-append (take (length ys) b) (drop (length ys) (x ∷ b)) ys (Starts-take_exact b ys s.1),
  )
    where
      moved :
          memmove 0 1 (length ys) (x ∷ b) ≡ some (take (length ys) b ++ drop (length ys) (x ∷ b))
      moved = ground (arith, length-le_of_Starts b ys s.1, zero-add (length ys))
