-- ===== src/Breakpoint/Shape.antt =====
-- Changes of the list of breakpoints that keep it consistent: to leave some out, and to write
-- members that the invariant does not speak of.
use iosdbg.Base.{
  ℕ, ◌≡◌, refl, false, List, [], ◌∷◌, ◌==◌, if◌then◌else◌, arith, Bool-cases, inl, inr, length, ◌∙◌,
}
use iosdbg.Base.Int.{ℤ}
use iosdbg.LinkedList.Items.{drop_key, has_key, Distinct}
use iosdbg.Debuggee.{Ptr, Breakpoint}
use iosdbg.Breakpoint.{self_of}
use iosdbg.Breakpoint.Registers.{uses}
use iosdbg.Breakpoint.State.{update_bp}
use iosdbg.Breakpoint.Inv.{regs_ok, has_id, ids_ok, none_null, Consistent}

-- The first list is the second with some left out.
pub data Sub : List Breakpoint → List Breakpoint → Type 0 where
  nil : Sub [] []
  keep : (b : Breakpoint) {xs ys : List Breakpoint} → Sub xs ys → Sub (b ∷ xs) (b ∷ ys)
  skip : (b : Breakpoint) {xs ys : List Breakpoint} → Sub xs ys → Sub xs (b ∷ ys)

pub Sub-refl : (bps : List Breakpoint) → Sub bps bps
Sub-refl [] = nil
Sub-refl (b ∷ bps) = keep b (Sub-refl bps)

has_key-Sub :
    (p : Ptr) {xs ys : List Breakpoint}
    → Sub xs ys
    → has_key self_of p ys ≡ false
    → has_key self_of p xs ≡ false
has_key-Sub p nil h = refl
has_key-Sub p (keep b s) h = ground (arith, has_key-Sub p s)
has_key-Sub p (skip b s) h = has_key-Sub p s (ground arith)

uses-Sub : (r : ℤ) {xs ys : List Breakpoint} → Sub xs ys → uses r ys ≡ false → uses r xs ≡ false
uses-Sub r nil h = refl
uses-Sub r (keep b s) h = ground (arith, uses-Sub r s)
uses-Sub r (skip b s) h = uses-Sub r s (ground arith)

has_id-Sub :
    (i : ℕ) {xs ys : List Breakpoint} → Sub xs ys → has_id i ys ≡ false → has_id i xs ≡ false
has_id-Sub i nil h = refl
has_id-Sub i (keep b s) h = ground (arith, has_id-Sub i s)
has_id-Sub i (skip b s) h = has_id-Sub i s (ground arith)

module _ {n next : ℕ} where
  pub Consistent-Sub :
      {xs ys : List Breakpoint} → Sub xs ys → Consistent n next ys → Consistent n next xs
  Consistent-Sub nil c = c
  Consistent-Sub (skip b s) c = Consistent-Sub s (record {
    distinct = c.distinct.1;
    null_free = ground (arith, c.null_free);
    regs = ground (arith, c.regs);
    ids = ground (arith, c.ids);
  })
  Consistent-Sub (keep b {ys} s) c =
      let rest : Consistent n next ys = record {
        distinct = c.distinct.1;
        null_free = ground (arith, c.null_free);
        regs = ground (arith, c.regs);
        ids = ground (arith, c.ids);
      } in
      let sub = Consistent-Sub s rest in
      record {
        distinct = (has_key-Sub b.self s c.distinct.0, sub.distinct);
        null_free = ground (arith, c.null_free, sub.null_free);
        regs = ground (arith, c.regs, sub.regs, uses-Sub b.hw_bp_reg s);
        ids = ground (arith, c.ids, sub.ids, has_id-Sub b.id s);
      }

pub drop_key-Sub : (p : Ptr) (bps : List Breakpoint) → Sub (drop_key self_of p bps) bps
drop_key-Sub p [] = nil
drop_key-Sub p (b ∷ bps) = elim (Bool-cases (b.self == p)) [
  | inl e ↦ rw e (skip b (Sub-refl bps))
  | inr e ↦ rw e (keep b (drop_key-Sub p bps))
]

-- The members that the invariant speaks of.
pub record SameShape (b c : Breakpoint) : Type 0 where
  pub self : c.self ≡ b.self
  pub id : c.id ≡ b.id
  pub temporary : c.temporary ≡ b.temporary
  pub hw : c.hw ≡ b.hw
  pub hw_bp_reg : c.hw_bp_reg ≡ b.hw_bp_reg

-- A change of each breakpoint by itself.
abbrev pub each : (Breakpoint → Breakpoint) → List Breakpoint → List Breakpoint
each f [] = []
each f (b ∷ bps) = f b ∷ each f bps

module _ (f : Breakpoint → Breakpoint) (same : (b : Breakpoint) → SameShape b (f b)) where
  has_key-each :
      (q : Ptr) (bps : List Breakpoint) → has_key self_of q (each f bps) ≡ has_key self_of q bps
  has_key-each q [] = refl
  has_key-each q (b ∷ bps) = let s = same b in rw (s.self, has_key-each q bps) refl

  uses-each : (r : ℤ) (bps : List Breakpoint) → uses r (each f bps) ≡ uses r bps
  uses-each r [] = refl
  uses-each r (b ∷ bps) = let s = same b in rw (s.hw, s.hw_bp_reg, uses-each r bps) refl

  has_id-each : (i : ℕ) (bps : List Breakpoint) → has_id i (each f bps) ≡ has_id i bps
  has_id-each i [] = refl
  has_id-each i (b ∷ bps) = let s = same b in rw (s.temporary, s.id, has_id-each i bps) refl

  Distinct-each : (bps : List Breakpoint) → Distinct self_of bps → Distinct self_of (each f bps)
  Distinct-each [] d = d
  Distinct-each (b ∷ bps) d =
      let s = same b in (rw (s.self, has_key-each b.self bps) d.0, Distinct-each bps d.1)

  regs_ok-each : (n : ℕ) (bps : List Breakpoint) → regs_ok n (each f bps) ≡ regs_ok n bps
  regs_ok-each n [] = refl
  regs_ok-each n (b ∷ bps) =
      let s = same b in rw (s.hw, s.hw_bp_reg, uses-each b.hw_bp_reg bps, regs_ok-each n bps) refl

  ids_ok-each : (n : ℕ) (bps : List Breakpoint) → ids_ok n (each f bps) ≡ ids_ok n bps
  ids_ok-each n [] = refl
  ids_ok-each n (b ∷ bps) =
      let s = same b in rw (s.temporary, s.id, has_id-each b.id bps, ids_ok-each n bps) refl

  none_null-each : (bps : List Breakpoint) → none_null (each f bps) ≡ none_null bps
  none_null-each [] = refl
  none_null-each (b ∷ bps) = let s = same b in rw (s.self, none_null-each bps) refl

  pub length-each : (bps : List Breakpoint) → length (each f bps) ≡ length bps
  length-each [] = refl
  length-each (b ∷ bps) = rw (length-each bps) refl

  pub Consistent-each :
      {n next : ℕ} (bps : List Breakpoint) → Consistent n next bps → Consistent n next (each f bps)
  Consistent-each {n} {next} bps c = record {
    distinct = Distinct-each bps c.distinct;
    null_free = none_null-each bps ∙ c.null_free;
    regs = regs_ok-each n bps ∙ c.regs;
    ids = ids_ok-each next bps ∙ c.ids;
  }

-- A write to one breakpoint keeps the shape of each.
pub updated-SameShape :
    (p : Ptr) (f : Breakpoint → Breakpoint)
    → ((b : Breakpoint) → SameShape b (f b))
    → (b : Breakpoint) → SameShape b (if b.self == p then f b else b)
updated-SameShape p f same b = elim (Bool-cases (b.self == p)) [
  | inl e ↦ rw e (same b)
  | inr e ↦ rw e (record { self = refl; id = refl; temporary = refl; hw = refl; hw_bp_reg = refl })
]

pub update_bp-each :
    (p : Ptr) (f : Breakpoint → Breakpoint) (bps : List Breakpoint)
    → update_bp p f bps ≡ each (λ b. if b.self == p then f b else b) bps
unfolding update_bp
update_bp-each p f [] = refl
update_bp-each p f (b ∷ bps) = rw (update_bp-each p f bps) refl

module _ (p : Ptr) (f : Breakpoint → Breakpoint) (same : (b : Breakpoint) → SameShape b (f b)) where
  pub length-update_bp : (bps : List Breakpoint) → length (update_bp p f bps) ≡ length bps
  length-update_bp bps =
      rw (update_bp-each p f bps) (length-each _ (updated-SameShape p f same) bps)

  pub Consistent-update_bp :
      {n next : ℕ} (bps : List Breakpoint)
      → Consistent n next bps
      → Consistent n next (update_bp p f bps)
  Consistent-update_bp bps c =
      rw (update_bp-each p f bps) (Consistent-each _ (updated-SameShape p f same) bps c)
