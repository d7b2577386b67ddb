-- ===== src/Watchpoint/Shape.antt =====
-- source/watchpoint.c: a watchpoint is taken out of the list, or counted as hit.
use iosdbg.Base.{
  ℕ, suc, ◌≡◌, ◌≢◌, refl, Bool, true, false, ◌&&◌, List, [], ◌∷◌, ◌==◌, length, arith, ap,
  Bool-cases, inl, inr,
}
use iosdbg.LinkedList.Items.{drop_key, has_key, Distinct, Distinct-drop_key}
use iosdbg.Debuggee.{Ptr, Watchpoint}
use iosdbg.Watchpoint.{self_of, update_wp}
use iosdbg.Watchpoint.Registers.{uses}
use iosdbg.Watchpoint.Inv.{Consistent, regs_ok, has_id, ids_ok, shaped, all_shaped, none_null}

uses-drop_key :
    (r p : ℕ) (wps : List Watchpoint) → uses r wps ≡ false → uses r (drop_key self_of p wps) ≡ false
uses-drop_key r p [] h = h
uses-drop_key r p (w ∷ wps) h = ground (arith, uses-drop_key r p wps)

regs_ok-drop_key :
    (n p : ℕ) (wps : List Watchpoint)
    → regs_ok n wps ≡ true
    → regs_ok n (drop_key self_of p wps) ≡ true
regs_ok-drop_key n p [] h = h
regs_ok-drop_key n p (w ∷ wps) h =
    ground (arith, regs_ok-drop_key n p wps, uses-drop_key w.hw_wp_reg p wps)

has_id-drop_key :
    (i p : ℕ) (wps : List Watchpoint)
    → has_id i wps ≡ false
    → has_id i (drop_key self_of p wps) ≡ false
has_id-drop_key i p [] h = h
has_id-drop_key i p (w ∷ wps) h = ground (arith, has_id-drop_key i p wps)

ids_ok-drop_key :
    (next p : ℕ) (wps : List Watchpoint)
    → ids_ok next wps ≡ true
    → ids_ok next (drop_key self_of p wps) ≡ true
ids_ok-drop_key next p [] h = h
ids_ok-drop_key next p (w ∷ wps) h =
    ground (arith, ids_ok-drop_key next p wps, has_id-drop_key w.id p wps)

none_null-drop_key :
    (p : ℕ) (wps : List Watchpoint)
    → none_null wps ≡ true
    → none_null (drop_key self_of p wps) ≡ true
none_null-drop_key p [] h = h
none_null-drop_key p (w ∷ wps) h = ground (arith, none_null-drop_key p wps)

and_parts : (a b : Bool) → (a && b) ≡ true → (a ≡ true) × (b ≡ true)
and_parts true b h = (refl, h)
and_parts false b h = absurd cc

all_shaped-drop_key :
    (p : ℕ) (wps : List Watchpoint)
    → all_shaped wps ≡ true
    → all_shaped (drop_key self_of p wps) ≡ true
all_shaped-drop_key p [] h = h
all_shaped-drop_key p (w ∷ wps) h =
    let (first, rest) = and_parts (shaped w) (all_shaped wps) h in
    elim (Bool-cases (w.self == p)) [
      | inl e ↦ rw e rest
      | inr e ↦ rw (e, all_shaped-drop_key p wps rest) (and_true first)
    ]
  where
    and_true : {a : Bool} → a ≡ true → (a && true) ≡ true
    and_true e = rw e refl

pub Consistent-drop_key :
    {n next : ℕ} {wps : List Watchpoint} (p : ℕ)
    → Consistent n next wps
    → Consistent n next (drop_key self_of p wps)
Consistent-drop_key {n} {next} {wps} p c = record {
  distinct = Distinct-drop_key self_of p wps c.distinct;
  null_free = none_null-drop_key p wps c.null_free;
  regs = regs_ok-drop_key n p wps c.regs;
  ids = ids_ok-drop_key next p wps c.ids;
  shapes = all_shaped-drop_key p wps c.shapes;
}

pub ne_null_of_mem :
    (p : Ptr) (wps : List Watchpoint) → none_null wps ≡ true → has_key self_of p wps ≡ true → p ≢ 0
ne_null_of_mem p [] nn h = λ e. cc
ne_null_of_mem p (w ∷ wps) nn h = λ e. ground (arith, ne_null_of_mem p wps, e)

-- A change of the hit count and of the bytes that were read.
module _ (p : Ptr) (hits : Watchpoint → ℕ) (read : Watchpoint → List ℕ) where
  abbrev pub hit : Watchpoint → Watchpoint
  hit w = record w { hit_count = hits w; bytes = read w }

  has_key-update_wp :
      (q : ℕ) (wps : List Watchpoint)
      → has_key self_of q (update_wp p hit wps) ≡ has_key self_of q wps
  unfolding update_wp
  has_key-update_wp q [] = refl
  has_key-update_wp q (w ∷ wps) = ground (arith, has_key-update_wp q wps)

  uses-update_wp : (r : ℕ) (wps : List Watchpoint) → uses r (update_wp p hit wps) ≡ uses r wps
  unfolding update_wp
  uses-update_wp r [] = refl
  uses-update_wp r (w ∷ wps) = ground (arith, uses-update_wp r wps)

  has_id-update_wp : (i : ℕ) (wps : List Watchpoint) → has_id i (update_wp p hit wps) ≡ has_id i wps
  unfolding update_wp
  has_id-update_wp i [] = refl
  has_id-update_wp i (w ∷ wps) = ground (arith, has_id-update_wp i wps)

  Distinct-update_wp :
      (wps : List Watchpoint) → Distinct self_of wps → Distinct self_of (update_wp p hit wps)
  unfolding update_wp
  Distinct-update_wp [] d = d
  Distinct-update_wp (w ∷ wps) d =
      (ground (arith, has_key-update_wp w.self wps), Distinct-update_wp wps d.1)

  none_null-update_wp : (wps : List Watchpoint) → none_null (update_wp p hit wps) ≡ none_null wps
  unfolding update_wp
  none_null-update_wp [] = refl
  none_null-update_wp (w ∷ wps) = ground (arith, none_null-update_wp wps)

  regs_ok-update_wp :
      (n : ℕ) (wps : List Watchpoint) → regs_ok n (update_wp p hit wps) ≡ regs_ok n wps
  unfolding update_wp
  regs_ok-update_wp n [] = refl
  regs_ok-update_wp n (w ∷ wps) =
      ground (arith, regs_ok-update_wp n wps, uses-update_wp w.hw_wp_reg wps)

  ids_ok-update_wp :
      (next : ℕ) (wps : List Watchpoint) → ids_ok next (update_wp p hit wps) ≡ ids_ok next wps
  unfolding update_wp
  ids_ok-update_wp next [] = refl
  ids_ok-update_wp next (w ∷ wps) =
      ground (arith, ids_ok-update_wp next wps, has_id-update_wp w.id wps)

  all_shaped-update_wp : (wps : List Watchpoint) → all_shaped (update_wp p hit wps) ≡ all_shaped wps
  unfolding update_wp
  all_shaped-update_wp [] = refl
  all_shaped-update_wp (w ∷ wps) = elim (Bool-cases (w.self == p)) [
    | inl e ↦ rw (e, all_shaped-update_wp wps) refl
    | inr e ↦ rw (e, all_shaped-update_wp wps) refl
  ]

  pub length-update_wp : (wps : List Watchpoint) → length (update_wp p hit wps) ≡ length wps
  unfolding update_wp
  length-update_wp [] = refl
  length-update_wp (w ∷ wps) = ap suc (length-update_wp wps)

  pub Consistent-update_wp :
      {n next : ℕ} {wps : List Watchpoint}
      → Consistent n next wps
      → Consistent n next (update_wp p hit wps)
  Consistent-update_wp {n} {next} {wps} c = record {
    distinct = Distinct-update_wp wps c.distinct;
    null_free = rw (none_null-update_wp wps) c.null_free;
    regs = rw (regs_ok-update_wp n wps) c.regs;
    ids = rw (ids_ok-update_wp next wps) c.ids;
    shapes = rw (all_shaped-update_wp wps) c.shapes;
  }
