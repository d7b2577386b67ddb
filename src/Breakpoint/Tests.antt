-- ===== src/Breakpoint/Tests.antt =====
-- source/breakpoint.c with two breakpoints and two threads.
use iosdbg.Base.{
  ℕ, ◌-◌, ◌%◌, ◌≤◌, ◌<◌, ◌≡◌, refl, true, false, none, some, List, [], length, arith, inr,
}
use iosdbg.Base.Int.{pos}
use iosdbg.Debuggee.{Breakpoint, Debuggee}
use iosdbg.Breakpoint.{
  find_bp_with_address, find_bp_with_cond, breakpoint_disabled, bp_all_threads, find_ready_bp_reg,
  mark, mark_used, first_spot, stepping, meets, Warning,
}
use iosdbg.Breakpoint.State.{
  breakpoint_at_address, bp_set_state_internal, breakpoint_delete_all,
  breakpoint_delete_all_specific, breakpoint_enable_all, breakpoint_disable_all,
  breakpoint_enable_all_specific, breakpoint_disable_all_except, needs_disable,
}
use iosdbg.Breakpoint.Registers.{uses, find_ready_bp_reg-unused, find_ready_bp_reg-le}
use iosdbg.Breakpoint.Inv.{IsValid}
use iosdbg.Breakpoint.Loops.{
  remaining, flagged, breakpoint_delete_all_specific-remaining, breakpoint_delete_all-nil,
  loops-flagged,
}
use iosdbg.Breakpoint.Reach.{
  at_address, disable_all, delete_all_specific, here, next, Reach-IsValid,
}
use iosdbg.Breakpoint.Armed.{
  Edited, armed, disarmed, user_execution, breakpoint_at_address-Edited,
  bp_set_state_internal-Edited,
}
use iosdbg.Samples.{
  attached-IsValid, Machine, sample, all_live, sample-HasRegisters, sample_reads, attached,
  two_breakpoints, hardware_at,
}

-- A breakpoint is set, all are disabled, and the stepping breakpoint is taken out.
Reach-IsValid_example : IsValid (
    breakpoint_delete_all_specific sample stepping (
      breakpoint_disable_all sample
        (breakpoint_at_address sample 48 12288 false bp_all_threads attached).1))
Reach-IsValid_example = Reach-IsValid sample attached-IsValid (
    next
      (next (next here (at_address 48 12288 false bp_all_threads (λ e. omega (arith, e)) refl))
        disable_all)
      (delete_all_specific stepping))

third_register : find_ready_bp_reg 6 two_breakpoints ≡ pos 2
unfolding find_ready_bp_reg mark mark_used first_spot
third_register = refl

breakpoint_at_address-Edited_example :
    (bp : Breakpoint) × (ws : List Warning) × (d' : Debuggee Machine) × (breakpoint_at_address
        sample 48 12290 false bp_all_threads attached
      ≡ (inr (bp, ws), d'))
    × (bp.hw ≡ true)
    × (bp.hw_bp_reg ≡ pos 2)
    × (bp.location ≡ 12290)
    × Edited sample (armed 2 user_execution (12290 - 12290 % 4)) attached d'.world
breakpoint_at_address-Edited_example =
    breakpoint_at_address-Edited sample all_live sample-HasRegisters attached (refl, (refl, tt))
      (refl, (refl, tt)) 48 12290 false 2 third_register (λ w. sample_reads 12290 w (omega arith))

bp_set_state_internal-Edited_example :
    Edited sample
      (disarmed 0)
      attached
      (bp_set_state_internal sample (hardware_at 16 1 4096 0) true attached).world
    × Edited sample
        (armed 0 485 4096)
        attached
        (bp_set_state_internal sample (hardware_at 16 1 4096 0) false attached).world
bp_set_state_internal-Edited_example =
    bp_set_state_internal-Edited sample all_live sample-HasRegisters attached (refl, (refl, tt))
      (refl, (refl, tt)) (hardware_at 16 1 4096 0) 0 refl refl refl

breakpoint_delete_all_specific-remaining_example :
    ((breakpoint_delete_all_specific sample stepping attached).breakpoints
      ≡ remaining (meets stepping) two_breakpoints)
    × ((breakpoint_delete_all_specific sample stepping attached).num_breakpoints
        ≡ pos (length (remaining (meets stepping) two_breakpoints)))
breakpoint_delete_all_specific-remaining_example =
    breakpoint_delete_all_specific-remaining sample attached attached-IsValid stepping

breakpoint_delete_all-nil_at_sample :
    ((breakpoint_delete_all sample attached).breakpoints ≡ [])
    × ((breakpoint_delete_all sample attached).num_breakpoints ≡ pos 0)
breakpoint_delete_all-nil_at_sample = breakpoint_delete_all-nil sample attached attached-IsValid

loops-flagged_example :
    ((breakpoint_enable_all sample attached).breakpoints
      ≡ flagged (λ _. true) false two_breakpoints)
    × ((breakpoint_disable_all sample attached).breakpoints
        ≡ flagged (λ _. true) true two_breakpoints)
    × ((breakpoint_enable_all_specific sample stepping attached).breakpoints
        ≡ flagged (meets stepping) false two_breakpoints)
    × ((breakpoint_disable_all_except sample stepping attached).breakpoints
        ≡ flagged (needs_disable stepping) true two_breakpoints)
loops-flagged_example = loops-flagged sample attached attached-IsValid stepping

find_ready_bp_reg-unused_at_sample : (2 < 6) × (uses (pos 2) two_breakpoints ≡ false)
find_ready_bp_reg-unused_at_sample = find_ready_bp_reg-unused 6 two_breakpoints 2 third_register

find_ready_bp_reg-le_example :
    (r : ℕ) × (find_ready_bp_reg 6 two_breakpoints ≡ pos r)
    × (r ≤ 4)
    × (uses (pos r) two_breakpoints ≡ false)
find_ready_bp_reg-le_example = find_ready_bp_reg-le 6 two_breakpoints 4 (omega arith) refl

searches :
    (find_bp_with_address 8192 two_breakpoints
      ≡ some (record (hardware_at 32 2 8192 1) { for_stepping = true }))
    × (find_bp_with_cond 4096 stepping two_breakpoints ≡ none)
    × (breakpoint_disabled 1 two_breakpoints ≡ false)
unfolding find_bp_with_address find_bp_with_cond breakpoint_disabled meets
searches = (refl, refl, refl)
