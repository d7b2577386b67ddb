-- ===== src/Breakpoint/Frame.antt =====
-- What each operation of source/breakpoint.c does to the list, its count and the ids.
use iosdbg.Base.{
  ◌≡◌, ◌≢◌, refl, Bool, true, false, Option, none, some, List, [], ◌∷◌, ◌==◌, if◌then◌else◌, arith,
  Bool-cases, inl, inr, ap,
}
use iosdbg.Base.Int.{decr}
use iosdbg.LinkedList.Items.{drop_key, has_key, Distinct}
use iosdbg.Debuggee.{Ptr, DebugState, ThreadInfo, Breakpoint, Kernel, Debuggee}
use iosdbg.Breakpoint.{self_of, edit_for}
use iosdbg.Breakpoint.State.{
  update_bp, try_edit, enable_hw_bp, disable_hw_bp, poke, switch, bp_set_state_internal,
  bp_delete_internal,
}

pub record SameLists {W : Type 0} (d d' : Debuggee W) : Type 0 where
  pub breakpoints : d'.breakpoints ≡ d.breakpoints
  pub num : d'.num_breakpoints ≡ d.num_breakpoints
  pub num_hw : d'.num_hw_bps ≡ d.num_hw_bps
  pub next : d'.current_breakpoint_id ≡ d.current_breakpoint_id

-- The flag is set in the breakpoint, and nothing else of the list changes.
pub record Flagged {W : Type 0} (bp : Breakpoint) (off : Bool) (d d' : Debuggee W) : Type 0 where
  pub breakpoints :
      d'.breakpoints ≡ update_bp bp.self (λ b. record b { disabled = off }) d.breakpoints
  pub num : d'.num_breakpoints ≡ d.num_breakpoints
  pub num_hw : d'.num_hw_bps ≡ d.num_hw_bps
  pub next : d'.current_breakpoint_id ≡ d.current_breakpoint_id

module _ {W : Type 0} (k : Kernel W) where
  SameLists-refl : (d : Debuggee W) → SameLists d d
  SameLists-refl d = record { breakpoints = refl; num = refl; num_hw = refl; next = refl }

  pub edit_for-SameLists :
      (f : DebugState → DebugState) (info : ThreadInfo) (d d' : Debuggee W)
      → edit_for k f info d ≡ some d'
      → SameLists d d'
  unfolding edit_for
  edit_for-SameLists f info d d' e = ground arith

  try_edit-SameLists :
      (f : DebugState → DebugState) (info : ThreadInfo) (d : Debuggee W)
      → SameLists d (try_edit k f info d)
  unfolding try_edit
  try_edit-SameLists f info d = go (edit_for k f info d) refl
    where
      go :
          (r : Option (Debuggee W))
          → edit_for k f info d ≡ r
          → SameLists d (elim r [ none ↦ d | some d' ↦ d' ])
      go none e = SameLists-refl d
      go (some d') e = edit_for-SameLists f info d d' e

  switch-SameLists :
      (bp : Breakpoint) (off : Bool) (d : Debuggee W) → SameLists d (switch k bp off d)
  unfolding switch enable_hw_bp disable_hw_bp poke
  switch-SameLists bp off d = elim (Bool-cases bp.hw) [
    | inl h ↦ rw h (by_flag off)
    | inr s ↦ rw s (record { breakpoints = refl; num = refl; num_hw = refl; next = refl })
  ]
    where
      by_flag : (o : Bool) → SameLists d (if o then disable_hw_bp k bp d else enable_hw_bp k bp d)
      by_flag true = try_edit-SameLists _ bp.threadinfo d
      by_flag false = try_edit-SameLists _ bp.threadinfo d

  pub set_state-Flagged :
      (bp : Breakpoint) (off : Bool) (d : Debuggee W)
      → Flagged bp off d (bp_set_state_internal k bp off d)
  unfolding bp_set_state_internal
  set_state-Flagged bp off d =
      let s = switch-SameLists bp off d in
      record {
        breakpoints = ap (update_bp bp.self (λ b. record b { disabled = off })) s.breakpoints;
        num = s.num;
        num_hw = s.num_hw;
        next = s.next;
      }

pub update_bp-absent :
    (p : Ptr) (f : Breakpoint → Breakpoint) (bps : List Breakpoint)
    → has_key self_of p bps ≡ false
    → update_bp p f bps ≡ bps
unfolding update_bp
update_bp-absent p f [] out = refl
update_bp-absent p f (bp ∷ bps) out =
    let e : (bp.self == p) ≡ false = ground arith in
    rw e (ap (λ r. bp ∷ r) (update_bp-absent p f bps (ground arith)))

-- The flag of the breakpoint that is taken out does not matter.
drop_key-update_bp :
    (p : Ptr) (off : Bool) (bps : List Breakpoint)
    → Distinct self_of bps
    → drop_key self_of p (update_bp p (λ b. record b { disabled = off }) bps)
      ≡ drop_key self_of p bps
unfolding update_bp
drop_key-update_bp p off [] d = refl
drop_key-update_bp p off (bp ∷ bps) d = elim (Bool-cases (bp.self == p)) [
  | inl e ↦ rw e (rw e (update_bp-absent p _ bps (ground (arith, d.0))))
  | inr e ↦ rw e (rw e (ap (λ r. bp ∷ r) (drop_key-update_bp p off bps d.1)))
]

-- The breakpoint is taken out, and the count falls.
pub record Deleted {W : Type 0} (bp : Breakpoint) (d d' : Debuggee W) : Type 0 where
  pub breakpoints : d'.breakpoints ≡ drop_key self_of bp.self d.breakpoints
  pub num : d'.num_breakpoints ≡ decr d.num_breakpoints
  pub num_hw : d'.num_hw_bps ≡ d.num_hw_bps
  pub next : d'.current_breakpoint_id ≡ d.current_breakpoint_id

pub delete-Deleted :
    {W : Type 0} (k : Kernel W) (bp : Breakpoint) (d : Debuggee W)
    → bp.self ≢ 0
    → Distinct self_of d.breakpoints
    → Deleted bp d (bp_delete_internal k bp d)
unfolding bp_delete_internal
delete-Deleted k bp d ne distinct =
    let s = set_state-Flagged k bp true d in
    let e : (bp.self == 0) ≡ false = ground (arith, ne) in
    record {
      breakpoints = rw (e, s.breakpoints) (drop_key-update_bp bp.self true d.breakpoints distinct);
      num = ap decr s.num;
      num_hw = s.num_hw;
      next = s.next;
    }
