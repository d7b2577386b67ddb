-- ===== src/Breakpoint/Steps.antt =====
-- Every operation of source/breakpoint.c as a step, and the invariant along the steps.
use iosdbg.Base.{
  ℕ, zero, suc, ◌+◌, ◌-◌, ◌%◌, ◌≤◌, ◌≡◌, refl, Bool, true, false, not, ◌&&◌, Option, none, some,
  if◌then◌else◌, arith, inl, inr, ap,
}
use iosdbg.Base.Int.{ℤ, pos, negsuc, eq_ℤ}
use iosdbg.Debuggee.{Ptr, ThreadInfo, Breakpoint, Kernel, Debuggee}
use iosdbg.Breakpoint.{
  bcr_value, could_not_read, no_such_thread, thread_gone, Made, warnings, finish_new, blank,
  breakpoint_new, make_info, find_bp_with_address, old_instruction_at, find_ready_bp_reg, edit_for,
  write_bp,
}
use iosdbg.Breakpoint.Registers.{find_ready_bp_reg-unused, find_ready_bp_reg-negsuc, uses}
use iosdbg.Breakpoint.Inv.{new_reg_ok, in_range}
use iosdbg.Breakpoint.Frame.{SameLists, edit_for-SameLists}

-- What `breakpoint_new` may return for an object at an address, on both outcomes.
abbrev pub NewPost : {W : Type 0} (k : Kernel W) → Ptr → Debuggee W → Made k → Type 0
NewPost k self d (inl e, d') =
    (d'.breakpoints ≡ d.breakpoints)
    × (d'.num_breakpoints ≡ d.num_breakpoints)
    × (d'.num_hw_bps ≡ d.num_hw_bps)
    × (d.current_breakpoint_id ≤ d'.current_breakpoint_id)
NewPost k self d (inr (bp, ws), d') =
    (d'.breakpoints ≡ d.breakpoints)
    × (d'.num_breakpoints ≡ d.num_breakpoints)
    × (d'.num_hw_bps ≡ d.num_hw_bps)
    × (d'.current_breakpoint_id
        ≡ (if bp.temporary then d.current_breakpoint_id else d.current_breakpoint_id + 1))
    × (bp.self ≡ self)
    × (bp.id ≡ d.current_breakpoint_id)
    × (new_reg_ok d.num_hw_bps d.breakpoints bp ≡ true)

module _ {W : Type 0} (k : Kernel W) where
  finish-NewPost :
      (self : Ptr) (bp : Breakpoint) (d d' : Debuggee W)
      → SameLists d d'
      → bp.self ≡ self
      → bp.id ≡ d.current_breakpoint_id
      → new_reg_ok d.num_hw_bps d.breakpoints bp ≡ true
      → NewPost k self d (finish_new k bp d')
  unfolding finish_new
  finish-NewPost self bp d d' s at id reg =
      go (old_instruction_at k d'.world bp.location dup) bp.temporary refl
    where
      dup : Option Breakpoint
      dup = find_bp_with_address bp.location d'.breakpoints

      after : Bool → Debuggee W
      after t = if t then d' else record d' { current_breakpoint_id = d'.current_breakpoint_id + 1 }

      go :
          (old : Option ℕ) (t : Bool)
          → bp.temporary ≡ t
          → NewPost k self d (elim old [
            | none ↦ (inl (could_not_read bp.location), after t)
            | some o ↦ (inr (record bp { old_instruction = o }, warnings dup bp), after t)
          ])
      go none true e = (s.breakpoints, s.num, s.num_hw, omega (arith, s.next))
      go none false e = (s.breakpoints, s.num, s.num_hw, omega (arith, s.next))
      go (some o) true e = (s.breakpoints, s.num, s.num_hw, rw e s.next, at, id, reg)
      go (some o) false e =
          (s.breakpoints, s.num, s.num_hw, rw e (ap (λ (n : ℕ). n + 1) s.next), at, id, reg)

  -- The branch with a hardware register.
  hardware-NewPost :
      (self : Ptr) (bp : Breakpoint) (info : ThreadInfo) (r : ℤ) (bvr : ℕ) (d : Debuggee W)
      → bp.self ≡ self
      → bp.id ≡ d.current_breakpoint_id
      → (in_range d.num_hw_bps r && not (uses r d.breakpoints)) ≡ true
      → NewPost k self d (elim (edit_for k (write_bp r bcr_value bvr) info d) [
        | none ↦ (inl thread_gone, d)
        | some d' ↦
            finish_new k (record bp { hw = true; hw_bp_reg = r; bcr = bcr_value; bvr = bvr }) d'
      ])
  hardware-NewPost self bp info r bvr d at id reg =
      go (edit_for k (write_bp r bcr_value bvr) info d) refl
    where
      hw_bp : Breakpoint
      hw_bp = record bp { hw = true; hw_bp_reg = r; bcr = bcr_value; bvr = bvr }

      go :
          (m : Option (Debuggee W))
          → edit_for k (write_bp r bcr_value bvr) info d ≡ m
          → NewPost k self d
              (elim m [ none ↦ (inl thread_gone, d) | some d' ↦ finish_new k hw_bp d' ])
      go none e = (refl, refl, refl, omega arith)
      go (some d') e =
          finish-NewPost self hw_bp d d'
            (edit_for-SameLists k (write_bp r bcr_value bvr) info d d' e) at id reg

  pub breakpoint_new-NewPost :
      (self : Ptr) (location : ℕ) (temporary : Bool) (thread : ℤ) (d : Debuggee W)
      → NewPost k self d (breakpoint_new k self location temporary thread d)
  unfolding breakpoint_new blank
  breakpoint_new-NewPost self location temporary thread d = by_info (make_info thread d.threads)
    where
      bvr : ℕ
      bvr = location - location % 4

      fresh_bp : ThreadInfo → Breakpoint
      fresh_bp info = blank self location temporary info d.current_breakpoint_id

      hw_bp : ThreadInfo → ℤ → Breakpoint
      hw_bp info r = record (fresh_bp info) { hw = true; hw_bp_reg = r; bcr = bcr_value; bvr = bvr }

      by_reg :
          (info : ThreadInfo) (r : ℤ)
          → find_ready_bp_reg d.num_hw_bps d.breakpoints ≡ r
          → NewPost k self d (
              if eq_ℤ r (negsuc 0)
              then finish_new k (fresh_bp info) d
              else elim (edit_for k (write_bp r bcr_value bvr) info d) [
                | none ↦ (inl thread_gone, d)
                | some d' ↦ finish_new k (hw_bp info r) d'
              ])
      by_reg info (negsuc zero) e =
          finish-NewPost self (fresh_bp info) d d
            (record { breakpoints = refl; num = refl; num_hw = refl; next = refl }) refl refl refl
      by_reg info (negsuc (suc n)) e =
          absurd (omega (arith, find_ready_bp_reg-negsuc d.num_hw_bps d.breakpoints (suc n) e))
      by_reg info (pos r) e =
          hardware-NewPost self (fresh_bp info) info (pos r) bvr d refl refl
            (ground (arith, find_ready_bp_reg-unused d.num_hw_bps d.breakpoints r e))

      by_info :
          (i : Option ThreadInfo)
          → NewPost k self d (elim i [
            | none ↦ (inl (no_such_thread thread), d)
            | some info ↦
                (let r = find_ready_bp_reg d.num_hw_bps d.breakpoints in
                  if eq_ℤ r (negsuc 0)
                  then finish_new k (fresh_bp info) d
                  else elim (edit_for k (write_bp r bcr_value bvr) info d) [
                    | none ↦ (inl thread_gone, d)
                    | some d' ↦ finish_new k (hw_bp info r) d'
                  ])
          ])
      by_info none = (refl, refl, refl, omega arith)
      by_info (some info) = by_reg info (find_ready_bp_reg d.num_hw_bps d.breakpoints) refl
