-- ===== src/Exception.antt =====
-- source/exception.c: what happens on an exception of the debuggee. A thread of the list is meant by
-- its index, as the source means it by its pointer, and the fields that are read of it are those it
-- had when the handler began, where nothing has written them since. What is printed is returned as
-- data. `none` is a fault, or a read of memory that does not end.
mod Report
pub use Report.{
  Line, thread_line, fake_stop, signal_line, resuming, watchpoint_line, breakpoint_line, step_line,
  disassembly, stop_reason, Outcome, Request, Codes, is_over, write_thread, print, quiet, stay,
  with_debuggee,
}
unfoldable pub use Report.{update_at}
pub mod Hit
pub mod Valid
pub mod Verdict
pub mod Trapped
pub mod Enabled
pub mod Restored
mod Tests
use Prim.Native.Nat.{bit_or}
use iosdbg.Base.{
  ℕ, zero, suc, ◌+◌, ◌%◌, ◌^◌, Bool, true, false, not, ◌&&◌, ◌||◌, Option, none, some, List, [],
  ◌∷◌, ◌++◌, ◌==◌, if◌then◌else◌, get_elem?, ◌⊎◌, inl, inr,
}
use iosdbg.Base.Int.{ℤ, pos}
use iosdbg.Debuggee.{
  DebugState, MachThread, Breakpoint, Watchpoint, Kernel, Debuggee, StepKind, step_none,
  inst_step_into, inst_step_over,
}
use iosdbg.Thread.{focused, get_focused_thread, get_thread_state, edit_thread}
use iosdbg.Thread.Focus.{index_with, set_focused_thread}
use iosdbg.Memory.{read_memory_at_location}
use iosdbg.Breakpoint.{normal, stepping, find_bp_with_cond}
use iosdbg.Breakpoint.State.{
  breakpoint_hit, breakpoint_enable, breakpoint_disable, breakpoint_enable_all_specific,
}
use iosdbg.Watchpoint.{find_wp_with_address, watchpoint_hit, update_wp}
use iosdbg.Sigsupport.{Setting, sigsettings}
use iosdbg.Branch.{to_int}

-- The thread that caused the exception gets the focus, unless it has it.
unfoldable pub focus_on : ℕ → List MachThread → List MachThread
focus_on port ts = elim (get_focused_thread ts) [
  | none ↦ set_focused_thread port ts
  | some t ↦ if t.port == port then ts else set_focused_thread port ts
]

-- A software breakpoint for one thread is emulated.
unfoldable pub for_another : Option Breakpoint → MachThread → Bool
for_another none t = false
for_another (some hit) t =
    not hit.threadinfo.all && (not hit.hw && not (t.tid == hit.threadinfo.pthread_tid))

module _ {W : Type 0} (k : Kernel W) where
  -- An edit of the debug registers of the thread at an index.
  unfoldable pub edit_at : (DebugState → DebugState) → W → ℕ → List MachThread → List MachThread × W
  unfolding edit_thread
  edit_at f w i [] = ([], w)
  edit_at f w zero (t ∷ ts) = let (t', w') = edit_thread k f w t in (t' ∷ ts, w')
  edit_at f w (suc i) (t ∷ ts) = let (ts', w') = edit_at f w i ts in (t ∷ ts', w')

  unfoldable pub enable_single_step : ℕ → Debuggee W → Debuggee W
  unfolding edit_at
  enable_single_step i d =
      let (ts, w) = edit_at (λ st. record st { mdscr = bit_or st.mdscr 1 }) d.world i d.threads in
      record d { threads = ts; world = w }

  -- The number of the signal is taken to be one of `sys_signame`.
  unfoldable pub handle_soft_signal : ℕ → ℕ → Setting → Outcome W → Outcome W
  handle_soft_signal port subcode s o =
      let o₁ = print (signal_line subcode ∷ []) o in
      if s.pass
      then o₁
      else with_debuggee (record o₁.debuggee { world = k.clear_signal o₁.debuggee.world port }) o₁

  -- With the watchpoint that was found, and its bytes after the read.
  unfoldable pub report_watchpoint :
      ℕ → MachThread → Watchpoint → List ℕ → Debuggee W → Outcome W → Outcome W
  unfolding update_wp
  report_watchpoint i t hit now d o =
      let d₁ : Debuggee W = record d {
        watchpoints = update_wp hit.self (λ v. record v { bytes = now }) d.watchpoints;
      } in
      let d₂ = write_thread i (λ u. record u { last_hit_wp_loc = 0; last_hit_wp_pc = 0 }) d₁ in
      stay (
        print
          (watchpoint_line hit.id hit.user_location (hit.hit_count + 1) hit.bytes now
            ∷ disassembly ((t.last_hit_wp_pc + 4) % 2 ^ 64)
            ∷ [])
          (with_debuggee d₂ o))

  unfoldable pub handle_hit_watchpoint : ℕ → MachThread → Outcome W → Option (Outcome W)
  unfolding find_wp_with_address watchpoint_hit read_memory_at_location report_watchpoint
  handle_hit_watchpoint i t o =
      elim (find_wp_with_address t.last_hit_wp_loc o.debuggee.watchpoints) [
        | none ↦ some (quiet o)
        | some hit ↦
            let d = watchpoint_hit k (some hit) o.debuggee in
            elim (read_memory_at_location k d.world hit.user_location hit.bytes hit.data_len) [
              | none ↦ none
              | some (status, now) ↦ some (report_watchpoint i t hit now d o)
            ]
      ]

  -- A stepping breakpoint at the address is used up.
  unfoldable pub after_step : Option Breakpoint → ℕ → Debuggee W → Debuggee W
  unfolding breakpoint_hit
  after_step none i d = d
  after_step (some step) i d =
      write_thread i
        (λ u. record u { just_hit_ss_breakpoint = true; set_temp_ss_breakpoint = false })
        (breakpoint_hit k (some step) d)

  -- From `breakpoint_hit(hit)` on; without `hit` there was a stepping breakpoint.
  unfoldable pub finish_hit : Option Breakpoint → ℕ → Outcome W → Outcome W
  unfolding breakpoint_hit breakpoint_disable
  finish_hit none i o = stay (print (step_line inst_step_over ∷ []) o)
  finish_hit (some hit) i o =
      let d₁ = breakpoint_hit k (some hit) o.debuggee in
      let d₂ =
        if hit.hw
        then d₁
        else (breakpoint_disable k hit.id
            (write_thread i (λ u. record u { just_hit_sw_breakpoint = true }) d₁)).1 in
      let d₃ = write_thread i (λ u. record u { last_hit_bkpt_id = hit.id }) d₂ in
      stay
        (print (breakpoint_line hit.id hit.location (hit.hit_count + 1) ∷ []) (with_debuggee d₃ o))

  -- With the two breakpoints that were found.
  unfoldable pub on_hit :
      Option Breakpoint → Option Breakpoint → ℕ → MachThread → Outcome W → Outcome W
  unfolding after_step for_another finish_hit
  on_hit none none i t o = quiet o
  on_hit hit step i t o =
      let o₁ = with_debuggee (after_step step i o.debuggee) o in
      if for_another hit t then quiet o₁ else finish_hit hit i o₁

  unfoldable pub handle_hit_breakpoint : ℕ → MachThread → ℕ → Outcome W → Outcome W
  unfolding find_bp_with_cond on_hit
  handle_hit_breakpoint i t subcode o =
      let bps = o.debuggee.breakpoints in
      on_hit (find_bp_with_cond subcode normal bps) (find_bp_with_cond subcode stepping bps) i t o

  -- The step that leads past a breakpoint.
  unfoldable pub past_breakpoint : ℕ → MachThread → Outcome W → Outcome W
  unfolding breakpoint_enable
  past_breakpoint i t o =
      let d₁ : Debuggee W =
        if t.just_hit_sw_breakpoint
        then write_thread i (λ u. record u { just_hit_sw_breakpoint = false })
            (breakpoint_enable k t.last_hit_bkpt_id o.debuggee).1
        else o.debuggee in
      let o₁ = with_debuggee d₁ o in
      let o₂ : Outcome W =
        if t.is_stepping
        then stay (print (disassembly t.pc ∷ []) o₁)
        else quiet (
            if is_over t.step_kind
            then with_debuggee
                (write_thread i (λ u. record u { just_hit_ss_breakpoint = false }) d₁) o₁
            else o₁) in
      with_debuggee (write_thread i (λ u. record u { just_hit_breakpoint = false }) o₂.debuggee) o₂

  unfoldable pub handle_single_step : ℕ → MachThread → Outcome W → Outcome W
  unfolding breakpoint_enable_all_specific past_breakpoint
  handle_single_step i t o =
      let o₁ = with_debuggee (breakpoint_enable_all_specific k normal o.debuggee) o in
      if t.just_hit_breakpoint
      then past_breakpoint i t o₁
      else print (disassembly t.pc ∷ [])
          (if is_over t.step_kind && t.set_temp_ss_breakpoint then o₁ else stay o₁)

  -- While stepping: a breakpoint of the user at the new address counts as hit.
  unfoldable pub announce_step : MachThread → Outcome W → Option Breakpoint → Outcome W
  unfolding breakpoint_hit
  announce_step t o none = print (step_line t.step_kind ∷ []) o
  announce_step t o (some hit) =
      print (breakpoint_line hit.id hit.location (hit.hit_count + 1) ∷ [])
        (with_debuggee (breakpoint_hit k (some hit) o.debuggee) o)

  unfoldable pub stepped : ℕ → MachThread → Outcome W → Outcome W
  unfolding handle_single_step find_bp_with_cond announce_step
  stepped i t o =
      let o₁ =
        if t.is_stepping
        then announce_step t o (find_bp_with_cond t.pc normal o.debuggee.breakpoints)
        else o in
      let o₂ = handle_single_step i t o₁ in
      with_debuggee
        (write_thread i (λ u. record u { step_kind = step_none; is_stepping = false }) o₂.debuggee)
        o₂

  -- `subcode` 0: a software step.
  unfoldable pub on_step : ℕ → MachThread → Outcome W → Option (Outcome W)
  unfolding handle_hit_watchpoint stepped
  on_step i t o =
      if t.just_hit_watchpoint
      then elim (handle_hit_watchpoint i t o) [
        | none ↦ none
        | some o₁ ↦ some (
            with_debuggee
              (write_thread i (λ u. record u { just_hit_watchpoint = false }) o₁.debuggee) o₁)
      ]
      else some (stepped i t o)

  unfoldable pub on_breakpoint : ℕ → MachThread → ℕ → Outcome W → Outcome W
  unfolding handle_hit_breakpoint enable_single_step
  on_breakpoint i t subcode o =
      let d = write_thread i (λ u. record u { just_hit_breakpoint = true }) o.debuggee in
      let o₁ =
        print (disassembly t.pc ∷ []) (handle_hit_breakpoint i t subcode (with_debuggee d o)) in
      with_debuggee (enable_single_step i o₁.debuggee) o₁

  unfoldable pub on_watchpoint : ℕ → MachThread → ℕ → Outcome W → Outcome W
  unfolding enable_single_step
  on_watchpoint i t subcode o =
      let d =
        write_thread i
          (λ u. record u {
            just_hit_watchpoint = true;
            last_hit_wp_loc = subcode;
            last_hit_wp_pc = t.pc;
          })
          o.debuggee in
      quiet (with_debuggee (enable_single_step i d) o)

  -- The four cases of `notify` and `stop`.
  unfoldable pub on_signal : MachThread → ℕ → Setting → Outcome W → Outcome W
  unfolding handle_soft_signal
  on_signal t subcode s o =
      let o₁ = handle_soft_signal t.port subcode s o in
      if s.notify
      then (if s.stop then stay (print (disassembly t.pc ∷ []) o₁) else print (resuming ∷ []) o₁)
      else (if s.stop then stay (quiet o₁) else quiet o₁)

  module _ (c : Codes) (table : List Setting) where
    -- From the message about the thread on.
    unfoldable pub dispatch : ℕ → MachThread → Request → Outcome W → Option (Outcome W)
    unfolding on_signal on_watchpoint on_step on_breakpoint sigsettings
    dispatch i t r o =
        let line = disassembly t.pc in
        if r.code_cnt == 0x41414141
        then some (print (line ∷ []) (stay (print (fake_stop o.debuggee.nosigs ∷ []) o)))
        else if (r.exception == c.exc_software) && (r.code == c.exc_soft_signal)
        then elim (sigsettings (to_int (r.subcode % 2 ^ 32)) (some false) (some false) (some false)
            false table) [
              | none ↦ none
              | some (asked, table') ↦ elim asked [
                | inl e ↦ none
                | inr s ↦ some (on_signal t r.subcode s o)
              ]
            ]
        else if r.code == c.exc_arm_da_debug
        then some (on_watchpoint i t r.subcode o)
        else if (r.exception == c.exc_breakpoint) && (r.code == c.exc_arm_breakpoint)
        then (if r.subcode == 0 then on_step i t o else some (on_breakpoint i t r.subcode o))
        else some (stay (print (stop_reason r.exception r.code r.subcode ∷ line ∷ []) o))

    -- With the thread that has the focus.
    unfoldable pub on_thread : ℕ → MachThread → Request → Outcome W → Option (Outcome W)
    unfolding dispatch get_thread_state
    on_thread i t r o =
        let t' = get_thread_state k o.debuggee.world t in
        let d = write_thread i (λ _. t') o.debuggee in
        dispatch i t' r (print (thread_line t'.id t'.tid ∷ []) (with_debuggee d o))

    unfoldable pub handle_exception : Request → Outcome W → Option (Outcome W)
    unfolding focus_on index_with on_thread
    handle_exception r o =
        let ts = focus_on r.thread o.debuggee.threads in
        let o₁ = with_debuggee (record o.debuggee { threads = ts }) o in
        elim (index_with focused ts) [
          | none ↦ some (quiet o₁)
          | some i ↦ elim (get_elem? ts i) [ none ↦ none | some t ↦ on_thread i t r o₁ ]
        ]
