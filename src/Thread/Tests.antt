-- ===== src/Thread/Tests.antt =====
-- The debug registers of source/thread.c on two threads.
use iosdbg.Base.{
  zero, suc, true, false, [], ◌∷◌, arith, none, ℕ, ◌≡◌, refl, some, List, ◌==◌, if◌then◌else◌,
}
use iosdbg.Base.Int.{pos}
use iosdbg.LinkedList.Items.{has_key}
use iosdbg.Debuggee.{MachThread}
use iosdbg.Breakpoint.{clear_bp}
use iosdbg.Thread.Focus.{
  index_with, set_flag, set_focused_thread, set_focused_thread_with_idx, thread_up_to, focused_at,
  set_focused_thread-only, set_focused_thread-again,
}
use iosdbg.Thread.{
  Comparison, ports, thread_from_port, find_thread_from_tid, get_focused_thread, edit_all, edit_id,
  find_thread_from_id, find_with_cond, compares,
}
use iosdbg.Thread.Registers.{port_of, map_option, edit_all-registers, edit_id-registers}
use iosdbg.Samples.{Machine, sample, all_live, sample-HasRegisters, machine, thread_at, two_threads}

edit_all-registers_at_sample :
    sample.get_debug (edit_all sample (clear_bp (pos 0)) machine two_threads).1 5 ≡ (
      if has_key port_of 5 two_threads
      then map_option (clear_bp (pos 0)) (sample.get_debug machine 5)
      else sample.get_debug machine 5)
edit_all-registers_at_sample =
    edit_all-registers sample all_live sample-HasRegisters (clear_bp (pos 0)) two_threads machine 5
      (refl, (refl, tt)) (refl, (refl, tt))

second : find_thread_from_id (pos 2) two_threads ≡ some (thread_at 5 2)
unfolding find_thread_from_id find_with_cond compares
second = refl

edit_id-registers_at_sample :
    (out : List MachThread × Machine) × (edit_id sample
        (clear_bp (pos 0))
        machine
        (pos 2)
        two_threads
      ≡ some out)
    × ((p : ℕ)
        → sample.get_debug out.1 p ≡ (
            if 5 == p
            then map_option (clear_bp (pos 0)) (sample.get_debug machine p)
            else sample.get_debug machine p))
edit_id-registers_at_sample =
    edit_id-registers sample all_live sample-HasRegisters (clear_bp (pos 0)) two_threads machine
      (pos 2) (thread_at 5 2) second refl

searches :
    (thread_from_port 0 two_threads ≡ none)
    × (thread_from_port 5 two_threads ≡ some (thread_at 5 2))
    × (find_thread_from_tid 103 two_threads ≡ some (thread_at 3 1))
    × (get_focused_thread two_threads ≡ none)
unfolding thread_from_port find_thread_from_tid get_focused_thread find_with_cond compares
searches = (refl, refl, refl, refl)

-- The first of two threads has the focus.
abbrev first_focused : List MachThread
first_focused = record (thread_at 3 1) { focused = true } ∷ thread_at 5 2 ∷ []

port_five : index_with (ports (pos 5)) first_focused ≡ some 1
unfolding index_with compares
port_five = refl

set_focused_thread-only_example : focused_at 1 (set_focused_thread 5 first_focused) ≡ (1 == 1)
set_focused_thread-only_example =
    set_focused_thread-only 5 first_focused 1 (λ e. omega (arith, e)) port_five 0
      (λ e. omega (arith, e)) only_first 1
  where
    only_first : (p : ℕ) → focused_at p first_focused ≡ (p == 0)
    only_first zero = refl
    only_first (suc zero) = refl
    only_first (suc (suc p)) = ground arith

port_three :
    (index_with (ports (pos 3)) first_focused ≡ some 0)
    × (index_with Comparison.focused first_focused ≡ some 0)
unfolding index_with compares
port_three = (refl, refl)

set_focused_thread-again_example :
    set_focused_thread 3 first_focused ≡ set_flag 0 false first_focused
set_focused_thread-again_example =
    set_focused_thread-again 3 first_focused 0 (λ e. omega (arith, e)) port_three.0 port_three.1

past_the_end :
    set_focused_thread_with_idx (pos 7) first_focused ≡ (true, set_focused_thread 5 first_focused)
unfolding set_focused_thread_with_idx thread_up_to
past_the_end = refl
