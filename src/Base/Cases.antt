-- ===== src/Base/Cases.antt =====
-- A statement about each number below a bound, by its cases.
use Prim.Native.Nat.{ℕ, zero, suc, ◌<◌}
use iosdbg.Base.Tests.{if◌then◌else◌}
use mathlib.Core.Path.{◌≡◌, sym, subst, ap}
use mathlib.Core.Bool.{Bool, true, false}
use native.Mathlib.Omega.{arith}
use native.Mathlib.Decide.{ℕ_discrete}

abbrev pub AllBelow : ℕ → (ℕ → Type 0) → Type 0
AllBelow zero P = Unit {0}
AllBelow (suc n) P = P n × AllBelow n P

pub cases_below : (n : ℕ) (P : ℕ → Type 0) → AllBelow n P → (c : ℕ) → c < n → P c
cases_below zero P all c h = absurd (omega arith)
cases_below (suc n) P all c h = elim (ℕ_discrete c n) [
  | yes e ↦ subst P (sym e) all.0
  | no ne ↦ cases_below n P all.1 c (omega arith)
]

-- A test that comes out true for each number below a bound.
unfoldable pub passes : (ℕ → Bool) → ℕ → Bool
passes test zero = true
passes test (suc bound) = if test bound then passes test bound else false

pub passes_lem :
    (test : ℕ → Bool) (bound c : ℕ) → c < bound → passes test bound ≡ true → test c ≡ true
unfolding passes
passes_lem test zero c lt ok = absurd (omega arith)
passes_lem test (suc bound) c lt ok = elim (ℕ_discrete c bound) [
  | yes here ↦ ground (arith, ap test here)
  | no away ↦ passes_lem test bound c (omega arith) (ground arith)
]
