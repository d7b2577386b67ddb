-- ===== src/Exception/Restored.antt =====
-- The software step in source/exception.c: the flags of the breakpoints of the user, and their
-- instructions in the memory of the debuggee.
use iosdbg.Base.{
  ℕ, ◌+◌, ◌≡◌, refl, Bool, true, false, ◌&&◌, Option, none, some, List, [], ◌∷◌, if◌then◌else◌,
  arith, Bool-cases, inl, inr,
}
use iosdbg.Debuggee.{Ptr, MachThread, Breakpoint, Kernel, Debuggee}
use iosdbg.Breakpoint.{normal, meets, find_bp_with_cond, Error, not_found}
use iosdbg.Breakpoint.State.{
  update_bp, bp_set_state_internal, breakpoint_enable, breakpoint_enable_all_specific, on_id,
  find_id, breakpoint_hit,
}
use iosdbg.Breakpoint.Inv.{IsValid}
use iosdbg.Breakpoint.Frame.{set_state-Flagged}
use iosdbg.Breakpoint.Loops.{flagged, loops-flagged}
use iosdbg.Exception.{
  Outcome, write_thread, with_debuggee, past_breakpoint, handle_single_step, announce_step, stepped,
  on_step, is_over,
}
use iosdbg.Exception.Valid.{announce_step-IsValid}
use iosdbg.Breakpoint.Written.{HasMemory}
use iosdbg.Exception.Trapped.{
  placed, all_placed, all_trapped, enabled_each-all_trapped, enable-all_trapped,
}
use iosdbg.Exception.Enabled.{all_enabled, stepped-all_enabled}

find_bp_with_cond-lasting :
    (addr : ℕ) (bps : List Breakpoint) (bp : Breakpoint)
    → find_bp_with_cond addr normal bps ≡ some bp
    → bp.temporary ≡ false
unfolding find_bp_with_cond meets
find_bp_with_cond-lasting addr [] bp e = absurd cc
find_bp_with_cond-lasting addr (b ∷ bps) bp e =
    ground (arith, find_bp_with_cond-lasting addr bps bp)

module _ {W : Type 0} (k : Kernel W) (word : W → ℕ → ℕ) (writable : W → ℕ → Bool)
    (mapped : ℕ → Bool) (law : HasMemory k word writable mapped) where
  abbrev Placed : List Breakpoint → Type 0
  Placed bps = all_placed mapped bps ≡ true

  abbrev Trapped : W → List Breakpoint → Type 0
  Trapped w bps = all_trapped word w bps ≡ true

  flagged-Placed :
      (test : Breakpoint → Bool) (off : Bool) (bps : List Breakpoint)
      → Placed bps
      → Placed (flagged test off bps)
  flagged-Placed test off [] h = refl
  flagged-Placed test off (b ∷ bps) h = ground (arith, flagged-Placed test off bps)

  flagged-Trapped :
      (test : Breakpoint → Bool) (off : Bool) (w : W) (bps : List Breakpoint)
      → Trapped w bps
      → Trapped w (flagged test off bps)
  unfolding meets
  flagged-Trapped test off w [] h = refl
  flagged-Trapped test off w (b ∷ bps) h = ground (arith, flagged-Trapped test off w bps)

  update_bp-Trapped :
      (p : Ptr) (w : W) (bps : List Breakpoint)
      → Trapped w bps
      → Trapped w (update_bp p (λ b. record b { disabled = false }) bps)
  unfolding meets update_bp
  update_bp-Trapped p w [] h = refl
  update_bp-Trapped p w (b ∷ bps) h = ground (arith, update_bp-Trapped p w bps)

  update_bp-Placed :
      (p : Ptr) (bps : List Breakpoint)
      → Placed bps
      → Placed (update_bp p (λ b. record b { hit_count = b.hit_count + 1 }) bps)
  unfolding update_bp
  update_bp-Placed p [] h = refl
  update_bp-Placed p (b ∷ bps) h = ground (arith, update_bp-Placed p bps)

  find_id-placed :
      (id : ℕ) (bps : List Breakpoint) (bp : Breakpoint)
      → find_id id bps ≡ some bp
      → Placed bps
      → placed mapped bp ≡ true
  unfolding find_id
  find_id-placed id [] bp e h = absurd cc
  find_id-placed id (b ∷ bps) bp e h = ground (arith, find_id-placed id bps bp)

  abbrev result : Debuggee W → ℕ → Option Breakpoint → Option Error × Debuggee W
  result d id none = (some (not_found id), d)
  result d id (some bp) = (none, bp_set_state_internal k bp false d)

  enable_one-Trapped :
      (id : ℕ) (d : Debuggee W)
      → Placed d.breakpoints
      → Trapped d.world d.breakpoints
      → Trapped (breakpoint_enable k id d).1.world (breakpoint_enable k id d).1.breakpoints
  unfolding breakpoint_enable on_id
  enable_one-Trapped id d ok h = go (find_id id d.breakpoints) refl
    where
      go :
          (r : Option Breakpoint)
          → find_id id d.breakpoints ≡ r
          → Trapped (result d id r).1.world (result d id r).1.breakpoints
      go none e = h
      go (some bp) e = rw (set_state-Flagged k bp false d).breakpoints (
          update_bp-Trapped bp.self _ d.breakpoints (
            enable-all_trapped k word writable mapped law bp d d.breakpoints
              (find_id-placed id d.breakpoints bp e ok) ok h))

  abbrev left : ℕ → MachThread → Debuggee W → Bool → Debuggee W
  left i t d sw =
      if sw
      then write_thread i (λ u. record u { just_hit_sw_breakpoint = false })
          (breakpoint_enable k t.last_hit_bkpt_id d).1
      else d

  past_breakpoint-Trapped :
      (i : ℕ) (t : MachThread) (o : Outcome W)
      → Placed o.debuggee.breakpoints
      → Trapped o.debuggee.world o.debuggee.breakpoints
      → Trapped
          (past_breakpoint k i t o).debuggee.world
          (past_breakpoint k i t o).debuggee.breakpoints
  unfolding past_breakpoint
  past_breakpoint-Trapped i t o ok h =
      let h₁ = enable_if t.just_hit_sw_breakpoint in
      elim (Bool-cases t.is_stepping) [
        | inl e ↦ simp e h₁
        | inr e ↦ elim (Bool-cases (is_over t.step_kind)) [
          | inl e' ↦ simp (e, e') h₁
          | inr e' ↦ simp (e, e') h₁
        ]
      ]
    where
      enable_if :
          (sw : Bool) → Trapped (left i t o.debuggee sw).world (left i t o.debuggee sw).breakpoints
      enable_if true = enable_one-Trapped t.last_hit_bkpt_id o.debuggee ok h
      enable_if false = h

  handle_single_step-Trapped :
      (i : ℕ) (t : MachThread) (o : Outcome W)
      → IsValid o.debuggee
      → Placed o.debuggee.breakpoints
      → Trapped
          (handle_single_step k i t o).debuggee.world
          (handle_single_step k i t o).debuggee.breakpoints
  unfolding handle_single_step breakpoint_enable_all_specific
  handle_single_step-Trapped i t o v ok =
      let d₁ = breakpoint_enable_all_specific k normal o.debuggee in
      let bps = o.debuggee.breakpoints in
      let same : d₁.breakpoints ≡ flagged (meets normal) false bps =
        (loops-flagged k o.debuggee v normal).2 in
      let ok₁ : Placed d₁.breakpoints = rw same (flagged-Placed (meets normal) false bps ok) in
      let h : Trapped d₁.world d₁.breakpoints = rw same (
        flagged-Trapped (meets normal) false d₁.world bps
          (enabled_each-all_trapped k word writable mapped law bps o.debuggee ok)) in
      elim (Bool-cases t.just_hit_breakpoint) [
        | inl e ↦ simp e (past_breakpoint-Trapped i t (with_debuggee d₁ o) ok₁ h)
        | inr e ↦ elim (Bool-cases (is_over t.step_kind && t.set_temp_ss_breakpoint)) [
          | inl e' ↦ simp (e, e') h
          | inr e' ↦ simp (e, e') h
        ]
      ]

  announce_step-Placed :
      (addr : ℕ) (t : MachThread) (o : Outcome W) (r : Option Breakpoint)
      → find_bp_with_cond addr normal o.debuggee.breakpoints ≡ r
      → Placed o.debuggee.breakpoints
      → Placed (announce_step k t o r).debuggee.breakpoints
  unfolding announce_step breakpoint_hit
  announce_step-Placed addr t o none e ok = ok
  announce_step-Placed addr t o (some hit) e ok =
      simp (find_bp_with_cond-lasting addr o.debuggee.breakpoints hit e)
        (update_bp-Placed hit.self o.debuggee.breakpoints ok)

  abbrev announced : MachThread → Outcome W → Bool → Outcome W
  announced t o b =
      if b then announce_step k t o (find_bp_with_cond t.pc normal o.debuggee.breakpoints) else o

  stepped-Trapped :
      (i : ℕ) (t : MachThread) (o : Outcome W)
      → IsValid o.debuggee
      → Placed o.debuggee.breakpoints
      → Trapped (stepped k i t o).debuggee.world (stepped k i t o).debuggee.breakpoints
  unfolding stepped
  stepped-Trapped i t o v ok =
      let (v₁, ok₁) = first t.is_stepping in handle_single_step-Trapped i t _ v₁ ok₁
    where
      first :
          (b : Bool)
          → IsValid (announced t o b).debuggee × Placed (announced t o b).debuggee.breakpoints
      first true =
          (announce_step-IsValid k t.pc t o _ refl v, announce_step-Placed t.pc t o _ refl ok)
      first false = (v, ok)

  on_step-stepped :
      (i : ℕ) (t : MachThread) (o : Outcome W)
      → t.just_hit_watchpoint ≡ false
      → on_step k i t o ≡ some (stepped k i t o)
  unfolding on_step
  on_step-stepped i t o e = simp e refl

  -- Where the memory is as the kernel documents it, from a valid list whose software breakpoints are
  -- at addresses of instructions, where the thread was not stopped by a watchpoint before: on a
  -- software step the handler returns, and in the list it leaves every breakpoint that is neither
  -- temporary nor for a step has its `disabled` flag clear and, if it is a software breakpoint, BRK at
  -- its address, whether the step led past a breakpoint or was asked for, whether it came upon a
  -- breakpoint, and whatever was disabled before.
  pub on_step-restored :
      (i : ℕ) (t : MachThread) (o : Outcome W)
      → IsValid o.debuggee
      → all_placed mapped o.debuggee.breakpoints ≡ true
      → t.just_hit_watchpoint ≡ false
      → (o' : Outcome W) × (on_step k i t o ≡ some o')
        × (all_enabled o'.debuggee.breakpoints ≡ true)
        × (all_trapped word o'.debuggee.world o'.debuggee.breakpoints ≡ true)
  on_step-restored i t o v ok e = (
    stepped k i t o,
    on_step-stepped i t o e,
    stepped-all_enabled k i t o v,
    stepped-Trapped i t o v ok,
  )
