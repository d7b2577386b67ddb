-- ===== src/Breakpoint/Inv.antt =====
-- The invariant of the list of breakpoints of source/breakpoint.c.
use iosdbg.Base.{
  ℕ, ◌+◌, ◌≡◌, ◌≢◌, refl, Bool, true, false, not, ◌&&◌, ◌||◌, List, [], ◌∷◌, ◌++◌, ◌==◌, ltb,
  if◌then◌else◌, length, arith,
}
use iosdbg.Base.Int.{ℤ, pos, negsuc, eq_ℤ}
use iosdbg.LinkedList.Items.{add_item, has_key, Distinct, Distinct-append_one}
use iosdbg.Debuggee.{Breakpoint, Debuggee}
use iosdbg.Breakpoint.{self_of}
use iosdbg.Breakpoint.Registers.{uses}

abbrev pub in_range : ℕ → ℤ → Bool
in_range n (pos r) = ltb r n
in_range n (negsuc r) = false

-- Each hardware breakpoint has a register of the device, and no two have one.
abbrev pub regs_ok : ℕ → List Breakpoint → Bool
regs_ok n [] = true
regs_ok n (bp ∷ bps) =
    (not bp.hw || (in_range n bp.hw_bp_reg && not (uses bp.hw_bp_reg bps))) && regs_ok n bps

abbrev pub has_id : ℕ → List Breakpoint → Bool
has_id i [] = false
has_id i (bp ∷ bps) = (not bp.temporary && (bp.id == i)) || has_id i bps

-- Each breakpoint that is not temporary has an id that was given out, and no two have one.
abbrev pub ids_ok : ℕ → List Breakpoint → Bool
ids_ok next [] = true
ids_ok next (bp ∷ bps) =
    (bp.temporary || (ltb bp.id next && not (has_id bp.id bps))) && ids_ok next bps

abbrev pub none_null : List Breakpoint → Bool
none_null [] = true
none_null (bp ∷ bps) = not (bp.self == 0) && none_null bps

pub record Consistent (n next : ℕ) (bps : List Breakpoint) : Type 0 where
  pub distinct : Distinct self_of bps
  pub null_free : none_null bps ≡ true
  pub regs : regs_ok n bps ≡ true
  pub ids : ids_ok next bps ≡ true

pub record IsValid {W : Type 0} (d : Debuggee W) : Type 0 where
  pub count : d.num_breakpoints ≡ pos (length d.breakpoints)
  pub consistent : Consistent d.num_hw_bps d.current_breakpoint_id d.breakpoints

-- A breakpoint that goes behind the others.
uses-append_one :
    (r : ℤ) (bps : List Breakpoint) (bp : Breakpoint)
    → uses r (bps ++ (bp ∷ [])) ≡ (uses r bps || (bp.hw && eq_ℤ bp.hw_bp_reg r))
uses-append_one r [] bp = ground arith
uses-append_one r (b ∷ bps) bp = ground (arith, uses-append_one r bps bp)

eq_ℤ_sym : (a b : ℤ) → eq_ℤ a b ≡ eq_ℤ b a
eq_ℤ_sym (pos a) (pos b) = ground arith
eq_ℤ_sym (pos a) (negsuc b) = refl
eq_ℤ_sym (negsuc a) (pos b) = refl
eq_ℤ_sym (negsuc a) (negsuc b) = ground arith

-- What the new breakpoint must meet.
abbrev pub new_reg_ok : ℕ → List Breakpoint → Breakpoint → Bool
new_reg_ok n bps bp = not bp.hw || (in_range n bp.hw_bp_reg && not (uses bp.hw_bp_reg bps))

regs_ok-append_one :
    (n : ℕ) (bps : List Breakpoint) (bp : Breakpoint)
    → regs_ok n bps ≡ true
    → new_reg_ok n bps bp ≡ true
    → regs_ok n (bps ++ (bp ∷ [])) ≡ true
regs_ok-append_one n [] bp h new = ground arith
regs_ok-append_one n (b ∷ bps) bp h new = ground (
  arith,
  regs_ok-append_one n bps bp,
  uses-append_one b.hw_bp_reg bps bp,
  eq_ℤ_sym b.hw_bp_reg bp.hw_bp_reg,
)

has_id-append_one :
    (i : ℕ) (bps : List Breakpoint) (bp : Breakpoint)
    → has_id i (bps ++ (bp ∷ [])) ≡ (has_id i bps || (not bp.temporary && (bp.id == i)))
has_id-append_one i [] bp = ground arith
has_id-append_one i (b ∷ bps) bp = ground (arith, has_id-append_one i bps bp)

ids_ok-append_one :
    (next : ℕ) (bps : List Breakpoint) (bp : Breakpoint)
    → ids_ok next bps ≡ true
    → bp.id ≡ next
    → ids_ok (if bp.temporary then next else next + 1) (bps ++ (bp ∷ [])) ≡ true
ids_ok-append_one next [] bp h e = ground arith
ids_ok-append_one next (b ∷ bps) bp h e =
    ground (arith, ids_ok-append_one next bps bp, has_id-append_one b.id bps bp)

none_null-append_one :
    (bps : List Breakpoint) (bp : Breakpoint)
    → none_null bps ≡ true
    → bp.self ≢ 0
    → none_null (bps ++ (bp ∷ [])) ≡ true
none_null-append_one [] bp h ne = ground (arith, ne)
none_null-append_one (b ∷ bps) bp h ne = ground (arith, none_null-append_one bps bp, ne)

pub add_item-append :
    (bps : List Breakpoint) (bp : Breakpoint)
    → bp.self ≢ 0
    → add_item self_of bps bp ≡ bps ++ (bp ∷ [])
add_item-append [] bp ne = refl
add_item-append (b ∷ bps) bp ne = let e : (bp.self == 0) ≡ false = ground (arith, ne) in rw e refl

pub Consistent-append_one :
    {n next : ℕ} {bps : List Breakpoint} (bp : Breakpoint)
    → Consistent n next bps
    → bp.self ≢ 0
    → has_key self_of bp.self bps ≡ false
    → bp.id ≡ next
    → new_reg_ok n bps bp ≡ true
    → Consistent n (if bp.temporary then next else next + 1) (bps ++ (bp ∷ []))
Consistent-append_one {n} {next} {bps} bp c ne fresh id reg = record {
  distinct = Distinct-append_one self_of bp bps c.distinct fresh;
  null_free = none_null-append_one bps bp c.null_free ne;
  regs = regs_ok-append_one n bps bp c.regs reg;
  ids = ids_ok-append_one next bps bp c.ids id;
}
