-- ===== src/Breakpoint/Registers.antt =====
-- Which hardware register `find_ready_bp_reg` of source/breakpoint.c gives out.
use iosdbg.Base.{
  ℕ, zero, suc, ◌+◌, ◌≤◌, ◌<◌, ◌≡◌, refl, Bool, true, false, not, ◌&&◌, ◌||◌, List, [], ◌∷◌, ◌==◌,
  ltb, if◌then◌else◌, set, get_or, replicate, arith, Bool-cases, inl, inr, ◌∙◌,
}
use iosdbg.Base.Int.{ℤ, pos, negsuc, eq_ℤ}
use iosdbg.Debuggee.{Breakpoint}
use iosdbg.Breakpoint.{mark, mark_used, first_spot, find_ready_bp_reg}

-- Some hardware breakpoint of the list has the register.
abbrev pub uses : ℤ → List Breakpoint → Bool
uses r [] = false
uses r (bp ∷ bps) = (bp.hw && eq_ℤ bp.hw_bp_reg r) || uses r bps

pub get_or-set :
    (xs : List Bool) (r i : ℕ)
    → get_or (set xs r false) i false ≡ (get_or xs i false && not (r == i))
get_or-set [] r i = refl
get_or-set (x ∷ xs) zero zero = ground arith
get_or-set (x ∷ xs) zero (suc i) = ground arith
get_or-set (x ∷ xs) (suc r) zero = ground arith
get_or-set (x ∷ xs) (suc r) (suc i) = ground (arith, get_or-set xs r i)

get_or-mark :
    (xs : List Bool) (r : ℤ) (i : ℕ)
    → get_or (mark xs r) i false ≡ (get_or xs i false && not (eq_ℤ r (pos i)))
unfolding mark
get_or-mark xs (pos r) i = get_or-set xs r i
get_or-mark xs (negsuc r) i = ground arith

get_or-mark_used :
    (bps : List Breakpoint) (xs : List Bool) (i : ℕ)
    → get_or (mark_used xs bps) i false ≡ (get_or xs i false && not (uses (pos i) bps))
unfolding mark_used
get_or-mark_used [] xs i = ground arith
get_or-mark_used (bp ∷ bps) xs i = elim (Bool-cases bp.hw) [
  | inl e ↦
      get_or-mark_used bps (if bp.hw then mark xs bp.hw_bp_reg else xs) i
      ∙ rw e (rw (get_or-mark xs bp.hw_bp_reg i) (ground arith))
  | inr e ↦ get_or-mark_used bps (if bp.hw then mark xs bp.hw_bp_reg else xs) i ∙ rw e refl
]

pub get_or-replicate : (n i : ℕ) → get_or (replicate n true) i false ≡ ltb i n
get_or-replicate zero i = ground arith
get_or-replicate (suc n) zero = ground arith
get_or-replicate (suc n) (suc i) = ground (arith, get_or-replicate n i)

pub first_spot-pos :
    (j : ℕ) (xs : List Bool) (r : ℕ)
    → first_spot j xs ≡ pos r
    → (i : ℕ) × (r ≡ j + i) × (get_or xs i false ≡ true)
unfolding first_spot
first_spot-pos j [] r e = absurd (cc)
first_spot-pos j (true ∷ xs) r e = (0, ground arith, refl)
first_spot-pos j (false ∷ xs) r e =
    let (i, at, free) = first_spot-pos (suc j) xs r e in (suc i, omega arith, free)

pub first_spot-le :
    (j : ℕ) (xs : List Bool) (i : ℕ)
    → get_or xs i false ≡ true
    → (r : ℕ) × (first_spot j xs ≡ pos r) × (r ≤ j + i)
unfolding first_spot
first_spot-le j [] i e = absurd (cc)
first_spot-le j (true ∷ xs) i e = (j, refl, omega arith)
first_spot-le j (false ∷ xs) zero e = absurd (cc)
first_spot-le j (false ∷ xs) (suc i) e =
    let (r, at, le) = first_spot-le (suc j) xs i e in (r, at, omega arith)

-- A register that `find_ready_bp_reg` gives out exists, and no hardware breakpoint of the list has
-- it.
pub find_ready_bp_reg-unused :
    (n : ℕ) (bps : List Breakpoint) (r : ℕ)
    → find_ready_bp_reg n bps ≡ pos r
    → (r < n) × (uses (pos r) bps ≡ false)
unfolding find_ready_bp_reg
find_ready_bp_reg-unused n bps r e =
    let (i, at, free) = first_spot-pos 0 (mark_used (replicate n true) bps) r e in
    let same : r ≡ i = omega arith in
    rw same (
      ground (arith, get_or-mark_used bps (replicate n true) i, get_or-replicate n i, free),
      ground (arith, get_or-mark_used bps (replicate n true) i, get_or-replicate n i, free),
    )

-- If a register is not used by a hardware breakpoint of the list, `find_ready_bp_reg` gives one
-- out that no hardware breakpoint of the list uses either, and none that is higher.
pub find_ready_bp_reg-le :
    (n : ℕ) (bps : List Breakpoint) (i : ℕ)
    → i < n
    → uses (pos i) bps ≡ false
    → (r : ℕ) × (find_ready_bp_reg n bps ≡ pos r) × (r ≤ i) × (uses (pos r) bps ≡ false)
unfolding find_ready_bp_reg
find_ready_bp_reg-le n bps i h free =
    let spot : get_or (mark_used (replicate n true) bps) i false ≡ true =
      get_or-mark_used bps (replicate n true) i ∙ ground (arith, get_or-replicate n i, free) in
    let (r, at, le) = first_spot-le 0 (mark_used (replicate n true) bps) i spot in
    (r, at, omega arith, (find_ready_bp_reg-unused n bps r at).1)

first_spot-negsuc : (j : ℕ) (xs : List Bool) (n : ℕ) → first_spot j xs ≡ negsuc n → n ≡ 0
unfolding first_spot
first_spot-negsuc j [] n e = ground arith
first_spot-negsuc j (true ∷ xs) n e = absurd (cc)
first_spot-negsuc j (false ∷ xs) n e = first_spot-negsuc (suc j) xs n e

-- Where no register is given out the result is -1.
pub find_ready_bp_reg-negsuc :
    (n : ℕ) (bps : List Breakpoint) (m : ℕ) → find_ready_bp_reg n bps ≡ negsuc m → m ≡ 0
unfolding find_ready_bp_reg
find_ready_bp_reg-negsuc n bps m e = first_spot-negsuc 0 (mark_used (replicate n true) bps) m e
