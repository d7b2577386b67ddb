-- ===== src/Watchpoint/Inv.antt =====
-- The invariant of the list of watchpoints of source/watchpoint.c.
use iosdbg.Base.{
  ℕ, ◌+◌, ◌-◌, ◌%◌, ◌≡◌, ◌≢◌, refl, Bool, true, false, not, ◌&&◌, ◌||◌, List, [], ◌∷◌, ◌++◌, ◌==◌,
  ltb, leb, length, arith,
}
use iosdbg.Base.Int.{pos}
use iosdbg.LinkedList.Items.{add_item, has_key, Distinct, Distinct-append_one}
use iosdbg.Debuggee.{Watchpoint, Debuggee}
use iosdbg.Watchpoint.{self_of}
use iosdbg.Watchpoint.Control.{user_watch}
use iosdbg.Watchpoint.Registers.{uses}

-- Each watchpoint has a register of the device, and no two have one.
abbrev pub regs_ok : ℕ → List Watchpoint → Bool
regs_ok n [] = true
regs_ok n (wp ∷ wps) = (ltb wp.hw_wp_reg n && not (uses wp.hw_wp_reg wps)) && regs_ok n wps

abbrev pub has_id : ℕ → List Watchpoint → Bool
has_id i [] = false
has_id i (wp ∷ wps) = (wp.id == i) || has_id i wps

-- Each watchpoint has an id that was given out, and no two have one.
abbrev pub ids_ok : ℕ → List Watchpoint → Bool
ids_ok next [] = true
ids_ok next (wp ∷ wps) = (ltb wp.id next && not (has_id wp.id wps)) && ids_ok next wps

-- The values for the registers are those for the bytes and the access that the user asked for.
abbrev pub shaped : Watchpoint → Bool
shaped wp =
    (wp.aligned_location == wp.user_location - wp.user_location % 8)
    && ((wp.wvr == wp.user_location - wp.user_location % 8)
        && (leb wp.data_len 8 && (wp.wcr == user_watch wp.user_location wp.data_len wp.type)))

abbrev pub all_shaped : List Watchpoint → Bool
all_shaped [] = true
all_shaped (wp ∷ wps) = shaped wp && all_shaped wps

abbrev pub none_null : List Watchpoint → Bool
none_null [] = true
none_null (wp ∷ wps) = not (wp.self == 0) && none_null wps

pub record Consistent (n next : ℕ) (wps : List Watchpoint) : Type 0 where
  pub distinct : Distinct self_of wps
  pub null_free : none_null wps ≡ true
  pub regs : regs_ok n wps ≡ true
  pub ids : ids_ok next wps ≡ true
  pub shapes : all_shaped wps ≡ true

pub record AllValid {W : Type 0} (d : Debuggee W) : Type 0 where
  pub count : d.num_watchpoints ≡ pos (length d.watchpoints)
  pub consistent : Consistent d.num_hw_wps d.current_watchpoint_id d.watchpoints

-- A watchpoint that goes behind the others.
uses-append_one :
    (r : ℕ) (wps : List Watchpoint) (wp : Watchpoint)
    → uses r (wps ++ (wp ∷ [])) ≡ (uses r wps || (wp.hw_wp_reg == r))
uses-append_one r [] wp = ground arith
uses-append_one r (w ∷ wps) wp = ground (arith, uses-append_one r wps wp)

regs_ok-append_one :
    (n : ℕ) (wps : List Watchpoint) (wp : Watchpoint)
    → regs_ok n wps ≡ true
    → ltb wp.hw_wp_reg n ≡ true
    → uses wp.hw_wp_reg wps ≡ false
    → regs_ok n (wps ++ (wp ∷ [])) ≡ true
regs_ok-append_one n [] wp h small fresh = ground arith
regs_ok-append_one n (w ∷ wps) wp h small fresh =
    ground (arith, regs_ok-append_one n wps wp, uses-append_one w.hw_wp_reg wps wp)

has_id-append_one :
    (i : ℕ) (wps : List Watchpoint) (wp : Watchpoint)
    → has_id i (wps ++ (wp ∷ [])) ≡ (has_id i wps || (wp.id == i))
has_id-append_one i [] wp = ground arith
has_id-append_one i (w ∷ wps) wp = ground (arith, has_id-append_one i wps wp)

ids_ok-append_one :
    (next : ℕ) (wps : List Watchpoint) (wp : Watchpoint)
    → ids_ok next wps ≡ true
    → wp.id ≡ next
    → ids_ok (next + 1) (wps ++ (wp ∷ [])) ≡ true
ids_ok-append_one next [] wp h e = ground arith
ids_ok-append_one next (w ∷ wps) wp h e =
    ground (arith, ids_ok-append_one next wps wp, has_id-append_one w.id wps wp)

all_shaped-append_one :
    (wps : List Watchpoint) (wp : Watchpoint)
    → all_shaped wps ≡ true
    → shaped wp ≡ true
    → all_shaped (wps ++ (wp ∷ [])) ≡ true
all_shaped-append_one [] wp h new = simp new refl
all_shaped-append_one (w ∷ wps) wp h new =
    go (shaped w) (all_shaped wps) h (all_shaped-append_one wps wp)
  where
    go :
        (a b : Bool)
        → (a && b) ≡ true
        → (b ≡ true → shaped wp ≡ true → all_shaped (wps ++ (wp ∷ [])) ≡ true)
        → (a && all_shaped (wps ++ (wp ∷ []))) ≡ true
    go true true h ih = ih refl new
    go true false h ih = absurd cc
    go false b h ih = absurd cc

none_null-append_one :
    (wps : List Watchpoint) (wp : Watchpoint)
    → none_null wps ≡ true
    → wp.self ≢ 0
    → none_null (wps ++ (wp ∷ [])) ≡ true
none_null-append_one [] wp h ne = ground (arith, ne)
none_null-append_one (w ∷ wps) wp h ne = ground (arith, none_null-append_one wps wp, ne)

pub add_item-append :
    (wps : List Watchpoint) (wp : Watchpoint)
    → wp.self ≢ 0
    → add_item self_of wps wp ≡ wps ++ (wp ∷ [])
add_item-append [] wp ne = refl
add_item-append (w ∷ wps) wp ne = let e : (wp.self == 0) ≡ false = ground (arith, ne) in rw e refl

pub Consistent-append_one :
    {n next : ℕ} {wps : List Watchpoint} (wp : Watchpoint)
    → Consistent n next wps
    → wp.self ≢ 0
    → has_key self_of wp.self wps ≡ false
    → wp.id ≡ next
    → ltb wp.hw_wp_reg n ≡ true
    → uses wp.hw_wp_reg wps ≡ false
    → shaped wp ≡ true
    → Consistent n (next + 1) (wps ++ (wp ∷ []))
Consistent-append_one {n} {next} {wps} wp c ne fresh id small unused shape = record {
  distinct = Distinct-append_one self_of wp wps c.distinct fresh;
  null_free = none_null-append_one wps wp c.null_free ne;
  regs = regs_ok-append_one n wps wp c.regs small unused;
  ids = ids_ok-append_one next wps wp c.ids id;
  shapes = all_shaped-append_one wps wp c.shapes shape;
}
