-- ===== src/Breakpoint/Middle.antt =====
-- The breakpoint at hand in a loop of source/breakpoint.c: what lies before and behind it.
use iosdbg.Base.{ℕ, suc, ◌≡◌, refl, true, false, List, [], ◌∷◌, ◌++◌, ◌==◌, arith}
use iosdbg.Base.Int.{pos, decr}
use iosdbg.LinkedList.Items.{drop_key, has_key, has_key-append, Distinct}
use iosdbg.Debuggee.{Breakpoint}
use iosdbg.Breakpoint.{self_of}
use iosdbg.Breakpoint.State.{update_bp}
use iosdbg.Breakpoint.Frame.{update_bp-absent}

-- In a list without repetition the item at hand is not among those before or behind it.
pub Distinct-middle :
    (kept rest : List Breakpoint) (b : Breakpoint)
    → Distinct self_of (kept ++ (b ∷ rest))
    → (has_key self_of b.self kept ≡ false) × (has_key self_of b.self rest ≡ false)
Distinct-middle [] rest b d = (refl, d.0)
Distinct-middle (c ∷ kept) rest b d =
    let (before, behind) = Distinct-middle kept rest b d.1 in
    (ground (arith, d.0, has_key-append self_of c.self kept (b ∷ rest)), behind)

pub update_bp-middle :
    (kept rest : List Breakpoint) (b : Breakpoint) (f : Breakpoint → Breakpoint)
    → has_key self_of b.self kept ≡ false
    → has_key self_of b.self rest ≡ false
    → update_bp b.self f (kept ++ (b ∷ rest)) ≡ kept ++ (f b ∷ rest)
unfolding update_bp
update_bp-middle [] rest b f before behind =
    let e : (b.self == b.self) ≡ true = ground arith in
    rw (e, update_bp-absent b.self f rest behind) refl
update_bp-middle (c ∷ kept) rest b f before behind =
    let e : (c.self == b.self) ≡ false = ground arith in
    rw (e, update_bp-middle kept rest b f (ground arith) behind) refl

pub drop_key-middle :
    (kept rest : List Breakpoint) (b : Breakpoint)
    → has_key self_of b.self kept ≡ false
    → drop_key self_of b.self (kept ++ (b ∷ rest)) ≡ kept ++ rest
drop_key-middle [] rest b before = let e : (b.self == b.self) ≡ true = ground arith in rw e refl
drop_key-middle (c ∷ kept) rest b before =
    let e : (c.self == b.self) ≡ false = ground arith in
    rw (e, drop_key-middle kept rest b (ground arith)) refl

-- A list with one item in place of another of the same address.
pub Distinct-swap :
    (kept rest : List Breakpoint) (b c : Breakpoint)
    → c.self ≡ b.self
    → Distinct self_of (kept ++ (b ∷ rest))
    → Distinct self_of (kept ++ (c ∷ rest))
Distinct-swap [] rest b c e d = (rw e d.0, d.1)
Distinct-swap (a ∷ kept) rest b c e d = (
  rw (has_key-append self_of a.self kept (c ∷ rest), e)
      (rw (has_key-append self_of a.self kept (b ∷ rest)) at d.0),
  Distinct-swap kept rest b c e d.1,
)

pub Distinct-drop :
    (kept rest : List Breakpoint) (b : Breakpoint)
    → Distinct self_of (kept ++ (b ∷ rest))
    → Distinct self_of (kept ++ rest)
Distinct-drop [] rest b d = d.1
Distinct-drop (a ∷ kept) rest b d = (
  ground (
    arith,
    d.0,
    has_key-append self_of a.self kept (b ∷ rest),
    has_key-append self_of a.self kept rest,
  ),
  Distinct-drop kept rest b d.1,
)

pub decr-pos : {n m : ℕ} → n ≡ suc m → decr (pos n) ≡ pos m
decr-pos e = rw e refl
