-- ===== src/Exception/Enabled.antt =====
-- The software step in source/exception.c: the flags of the breakpoints of the user.
use iosdbg.Base.{
  ℕ, ◌≡◌, refl, Bool, true, false, not, ◌&&◌, ◌||◌, Option, none, some, List, [], ◌∷◌,
  if◌then◌else◌, arith, Bool-cases, inl, inr,
}
use iosdbg.Debuggee.{Ptr, MachThread, Breakpoint, Kernel, Debuggee}
use iosdbg.Breakpoint.{normal, meets, find_bp_with_cond, Error, not_found}
use iosdbg.Breakpoint.State.{
  update_bp, bp_set_state_internal, breakpoint_enable, breakpoint_enable_all_specific, on_id,
  find_id,
}
use iosdbg.Breakpoint.Inv.{IsValid}
use iosdbg.Breakpoint.Frame.{set_state-Flagged}
use iosdbg.Breakpoint.Loops.{flagged, loops-flagged}
use iosdbg.Exception.Valid.{announce_step-IsValid}
use iosdbg.Exception.{
  announce_step, stepped, Outcome, write_thread, with_debuggee, past_breakpoint, handle_single_step,
  is_over,
}

-- Every breakpoint that is neither temporary nor for a step is enabled.
abbrev pub all_enabled : List Breakpoint → Bool
all_enabled [] = true
all_enabled (b ∷ bps) = (not (meets normal b) || not b.disabled) && all_enabled bps

flagged-all_enabled :
    (bps : List Breakpoint) → all_enabled (flagged (meets normal) false bps) ≡ true
unfolding meets
flagged-all_enabled [] = refl
flagged-all_enabled (b ∷ bps) = ground (arith, flagged-all_enabled bps)

update_bp-all_enabled :
    (p : Ptr) (bps : List Breakpoint)
    → all_enabled bps ≡ true
    → all_enabled (update_bp p (λ b. record b { disabled = false }) bps) ≡ true
unfolding meets update_bp
update_bp-all_enabled p [] h = refl
update_bp-all_enabled p (b ∷ bps) h = ground (arith, update_bp-all_enabled p bps)

module _ {W : Type 0} (k : Kernel W) where
  enable_one :
      (id : ℕ) (d : Debuggee W)
      → all_enabled d.breakpoints ≡ true
      → all_enabled (breakpoint_enable k id d).1.breakpoints ≡ true
  unfolding breakpoint_enable on_id
  enable_one id d h = go (find_id id d.breakpoints)
    where
      go :
          (r : Option Breakpoint)
          → all_enabled
              (let out : Option Error × Debuggee W = elim r [
                | none ↦ (some (not_found id), d)
                | some bp ↦ (none, bp_set_state_internal k bp false d)
              ] in
                out).1.breakpoints
            ≡ true
      go none = h
      go (some bp) =
          rw (set_state-Flagged k bp false d).breakpoints
            (update_bp-all_enabled bp.self d.breakpoints h)

  past_breakpoint-all_enabled :
      (i : ℕ) (t : MachThread) (o : Outcome W)
      → all_enabled o.debuggee.breakpoints ≡ true
      → all_enabled (past_breakpoint k i t o).debuggee.breakpoints ≡ true
  unfolding past_breakpoint
  past_breakpoint-all_enabled i t o h =
      let h₁ = enable_if t.just_hit_sw_breakpoint in
      elim (Bool-cases t.is_stepping) [
        | inl e ↦ simp e h₁
        | inr e ↦ elim (Bool-cases (is_over t.step_kind)) [
          | inl e' ↦ simp (e, e') h₁
          | inr e' ↦ simp (e, e') h₁
        ]
      ]
    where
      enable_if :
          (sw : Bool)
          → all_enabled
              (if sw
                then write_thread i
                    (λ u. record u { just_hit_sw_breakpoint = false })
                    (breakpoint_enable k t.last_hit_bkpt_id o.debuggee).1
                else o.debuggee).breakpoints
            ≡ true
      enable_if true = enable_one t.last_hit_bkpt_id o.debuggee h
      enable_if false = h

  handle_single_step-all_enabled :
      (i : ℕ) (t : MachThread) (o : Outcome W)
      → IsValid o.debuggee
      → all_enabled (handle_single_step k i t o).debuggee.breakpoints ≡ true
  unfolding handle_single_step
  handle_single_step-all_enabled i t o v =
      let d₁ = breakpoint_enable_all_specific k normal o.debuggee in
      let h : all_enabled d₁.breakpoints ≡ true =
        rw (loops-flagged k o.debuggee v normal).2 (flagged-all_enabled o.debuggee.breakpoints) in
      elim (Bool-cases t.just_hit_breakpoint) [
        | inl e ↦ simp e (past_breakpoint-all_enabled i t (with_debuggee d₁ o) h)
        | inr e ↦ elim (Bool-cases (is_over t.step_kind && t.set_temp_ss_breakpoint)) [
          | inl e' ↦ simp (e, e') h
          | inr e' ↦ simp (e, e') h
        ]
      ]

  pub stepped-all_enabled :
      (i : ℕ) (t : MachThread) (o : Outcome W)
      → IsValid o.debuggee
      → all_enabled (stepped k i t o).debuggee.breakpoints ≡ true
  unfolding stepped
  stepped-all_enabled i t o v = handle_single_step-all_enabled i t _ (first t.is_stepping)
    where
      first :
          (b : Bool)
          → IsValid
              (if b
                then announce_step k t o (find_bp_with_cond t.pc normal o.debuggee.breakpoints)
                else o).debuggee
      first true = announce_step-IsValid k t.pc t o _ refl v
      first false = v
