-- ===== src/Breakpoint/State.antt =====
-- The operations of source/breakpoint.c that change the list of breakpoints. A loop over the list
-- visits the breakpoints that it held when the loop began: a node that is taken out keeps its
-- `next`, and no round changes what a later round reads of its breakpoint.
use iosdbg.Base.{
  ℕ, Bool, true, false, not, Option, none, some, List, [], ◌∷◌, ◌==◌, if◌then◌else◌, ◌+◌, inl, inr,
}
use iosdbg.Base.Int.{ℤ, incr, decr}
use iosdbg.LinkedList.Items.{add_item, delete_item}
use iosdbg.Debuggee.{Ptr, DebugState, ThreadInfo, Breakpoint, Kernel, Debuggee}
use iosdbg.Memory.{write_memory_to_location}
use iosdbg.Breakpoint.{
  self_of, brk, Error, not_found, Cond, normal, temp, stepping, meets, write_bp, clear_bp, edit_for,
  Made, breakpoint_new,
}

-- A write through the pointer to a breakpoint of the list.
unfoldable pub update_bp : Ptr → (Breakpoint → Breakpoint) → List Breakpoint → List Breakpoint
update_bp p f [] = []
update_bp p f (bp ∷ bps) = (if bp.self == p then f bp else bp) ∷ update_bp p f bps

unfoldable pub find_id : ℕ → List Breakpoint → Option Breakpoint
find_id id [] = none
find_id id (bp ∷ bps) = if bp.id == id then some bp else find_id id bps

unfoldable pub needs_disable : Cond → Breakpoint → Bool
needs_disable normal bp = true
needs_disable temp bp = false
needs_disable stepping bp = not bp.for_stepping

module _ {W : Type 0} (k : Kernel W) where
  -- A thread that is gone is passed over.
  unfoldable pub try_edit : (DebugState → DebugState) → ThreadInfo → Debuggee W → Debuggee W
  try_edit f info d = elim (edit_for k f info d) [ none ↦ d | some d' ↦ d' ]

  unfoldable pub enable_hw_bp : Breakpoint → Debuggee W → Debuggee W
  unfolding try_edit
  enable_hw_bp bp d = try_edit (write_bp bp.hw_bp_reg bp.bcr bp.bvr) bp.threadinfo d

  unfoldable pub disable_hw_bp : Breakpoint → Debuggee W → Debuggee W
  unfolding try_edit
  disable_hw_bp bp d = try_edit (clear_bp bp.hw_bp_reg) bp.threadinfo d

  -- The status of the write is not looked at.
  unfoldable pub poke : ℕ → ℕ → Debuggee W → Debuggee W
  poke location value d = record d {
    world = (write_memory_to_location k d.world location value 4).1;
  }

  -- The registers or the instruction, before the flag is set.
  unfoldable pub switch : Breakpoint → Bool → Debuggee W → Debuggee W
  unfolding enable_hw_bp disable_hw_bp poke
  switch bp disabled d =
      if bp.hw
      then (if disabled then disable_hw_bp bp d else enable_hw_bp bp d)
      else poke bp.location (if disabled then bp.old_instruction else brk) d

  unfoldable pub bp_set_state_internal : Breakpoint → Bool → Debuggee W → Debuggee W
  unfolding switch update_bp
  bp_set_state_internal bp disabled d =
      let d' = switch bp disabled d in
      record d' {
        breakpoints = update_bp bp.self (λ b. record b { disabled = disabled }) d'.breakpoints;
      }

  unfoldable pub bp_delete_internal : Breakpoint → Debuggee W → Debuggee W
  unfolding bp_set_state_internal
  bp_delete_internal bp d =
      let d' = bp_set_state_internal bp true d in
      record d' {
        breakpoints = delete_item self_of d'.breakpoints bp.self;
        num_breakpoints = decr d'.num_breakpoints;
      }

  -- `linkedlist_add`, the BRK of a software breakpoint, and the count.
  unfoldable pub install : Breakpoint → Debuggee W → Debuggee W
  unfolding poke
  install bp d =
      let d₁ : Debuggee W = record d { breakpoints = add_item self_of d.breakpoints bp } in
      let d₂ : Debuggee W = if bp.hw then d₁ else poke bp.location brk d₁ in
      record d₂ { num_breakpoints = incr d₂.num_breakpoints }

  unfoldable pub install_made : Bool → Made k → Made k
  unfolding install
  install_made for_stepping (inl e, d) = (inl e, d)
  install_made for_stepping (inr (bp, ws), d) =
      let bp' : Breakpoint = record bp { for_stepping = for_stepping } in
      (inr (bp', ws), install bp' d)

  unfoldable pub breakpoint_at_address :
      Ptr → (address : ℕ) (temporary : Bool) (thread : ℤ) → Debuggee W → Made k
  unfolding breakpoint_new install_made
  breakpoint_at_address self address temporary thread d =
      install_made false (breakpoint_new k self address temporary thread d)

  unfoldable pub set_stepping_breakpoint : Ptr → (address : ℕ) (thread : ℤ) → Debuggee W → Made k
  unfolding breakpoint_new install_made
  set_stepping_breakpoint self address thread d =
      install_made true (breakpoint_new k self address true thread d)

  -- A NULL breakpoint is `none`.
  unfoldable pub breakpoint_delete_specific : Option Breakpoint → Debuggee W → Debuggee W
  breakpoint_delete_specific none d = d
  breakpoint_delete_specific (some bp) d = bp_delete_internal bp d

  unfoldable pub breakpoint_hit : Option Breakpoint → Debuggee W → Debuggee W
  unfolding update_bp breakpoint_delete_specific
  breakpoint_hit none d = d
  breakpoint_hit (some bp) d =
      if bp.temporary then breakpoint_delete_specific (some bp) d else record d {
        breakpoints =
            update_bp bp.self (λ b. record b { hit_count = b.hit_count + 1 }) d.breakpoints;
      }

  -- An operation on the first breakpoint with the id.
  unfoldable pub on_id :
      ℕ → (Breakpoint → Debuggee W → Debuggee W) → Debuggee W → Option Error × Debuggee W
  unfolding find_id
  on_id id op d = elim (find_id id d.breakpoints) [
    | none ↦ (some (not_found id), d)
    | some bp ↦ (none, op bp d)
  ]

  unfoldable pub breakpoint_delete : ℕ → Debuggee W → Option Error × Debuggee W
  unfolding on_id
  breakpoint_delete id d = on_id id bp_delete_internal d

  unfoldable pub breakpoint_disable : ℕ → Debuggee W → Option Error × Debuggee W
  unfolding on_id
  breakpoint_disable id d = on_id id (λ bp. bp_set_state_internal bp true) d

  unfoldable pub breakpoint_enable : ℕ → Debuggee W → Option Error × Debuggee W
  unfolding on_id
  breakpoint_enable id d = on_id id (λ bp. bp_set_state_internal bp false) d

  -- BP_LOCKED_FOREACH: an operation on each breakpoint that a test selects.
  unfoldable pub foreach :
      (Breakpoint → Bool)
      → (Breakpoint → Debuggee W → Debuggee W)
      → List Breakpoint
      → Debuggee W
      → Debuggee W
  foreach test op [] d = d
  foreach test op (bp ∷ bps) d = foreach test op bps (if test bp then op bp d else d)

  unfoldable pub breakpoint_disable_all : Debuggee W → Debuggee W
  unfolding foreach
  breakpoint_disable_all d =
      foreach (λ _. true) (λ bp. bp_set_state_internal bp true) d.breakpoints d

  unfoldable pub breakpoint_enable_all : Debuggee W → Debuggee W
  unfolding foreach
  breakpoint_enable_all d =
      foreach (λ _. true) (λ bp. bp_set_state_internal bp false) d.breakpoints d

  unfoldable pub breakpoint_enable_all_specific : Cond → Debuggee W → Debuggee W
  unfolding foreach meets
  breakpoint_enable_all_specific way d =
      foreach (meets way) (λ bp. bp_set_state_internal bp false) d.breakpoints d

  unfoldable pub breakpoint_delete_all : Debuggee W → Debuggee W
  unfolding foreach
  breakpoint_delete_all d = foreach (λ _. true) bp_delete_internal d.breakpoints d

  unfoldable pub breakpoint_delete_all_specific : Cond → Debuggee W → Debuggee W
  unfolding foreach meets
  breakpoint_delete_all_specific way d = foreach (meets way) bp_delete_internal d.breakpoints d

  unfoldable pub breakpoint_disable_all_except : Cond → Debuggee W → Debuggee W
  unfolding foreach needs_disable
  breakpoint_disable_all_except except d =
      foreach (needs_disable except) (λ bp. bp_set_state_internal bp true) d.breakpoints d
