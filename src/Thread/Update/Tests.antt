-- ===== src/Thread/Update/Tests.antt =====
-- source/thread.c, update_thread_list, on two and three threads.
use iosdbg.Base.{
  ℕ, ◌+◌, ◌≡◌, refl, Bool, true, false, not, Option, none, some, List, [], ◌∷◌, ◌==◌, map, arith,
}
use iosdbg.Base.Int.{negsuc}
use iosdbg.Debuggee.{MachThread, Breakpoint}
use iosdbg.Thread.{find_with_cond, compares, get_debug_state, get_thread_state, set_debug_state}
use iosdbg.Thread.Update.{
  Calls, Listing, focused_port, carry_over, arm_breakpoints, arm_watchpoints,
  update_all_thread_states, get_thread_info, machthread_new, attach_loop, arm_new, renewed,
  renew_loop, update_thread_list,
}
use iosdbg.Thread.Update.Carried.{
  AllRenewed, update_thread_list-AllRenewed, update_thread_list-overrun,
}
use iosdbg.Samples.{Machine, sample, machine, thread_at, hardware_at, watched}

abbrev calls : Calls Machine
calls = record {
  valid = λ p. not (p == 0);
  thread_id = λ w p. some (100 + p);
  pth_name = λ w p. none;
}

-- The thread of port 3 has the focus and has hit a watchpoint.
abbrev stopped : MachThread
stopped = record (thread_at 3 1) { focused = true; just_hit_watchpoint = true }

abbrev listing : Listing Machine
listing = record {
  threads = some (stopped ∷ thread_at 5 2 ∷ []);
  thread_count = 2;
  next_id = 3;
  world = machine;
}

-- Port 5 comes first now, and 9 is new.
update_thread_list-AllRenewed_example :
    (s' : Listing Machine) × ((ts' : List MachThread) × ((update_thread_list sample calls
            (thread_at 0 0)
            (hardware_at 16 1 4096 0 ∷ [])
            (watched ∷ [])
            (some (5 ∷ 3 ∷ 9 ∷ []))
            listing
          ≡ some s')
        × (s'.threads ≡ some ts')
        × AllRenewed (stopped ∷ thread_at 5 2 ∷ []) (5 ∷ 3 ∷ 9 ∷ []) 1 ts'
        × (s'.next_id ≡ 4)))
update_thread_list-AllRenewed_example =
    update_thread_list-AllRenewed sample calls (thread_at 0 0) (hardware_at 16 1 4096 0 ∷ [])
      (watched ∷ []) (5 ∷ 3 ∷ 9 ∷ []) stopped (thread_at 5 2 ∷ []) listing refl refl refl

abbrev software : Breakpoint
software = record (hardware_at 16 1 4096 0) { hw = false; hw_bp_reg = negsuc 0 }

update_thread_list-overrun_example :
    update_thread_list sample calls
      (thread_at 0 0)
      (software ∷ [])
      []
      (some (5 ∷ 3 ∷ 9 ∷ []))
      listing
    ≡ none
update_thread_list-overrun_example =
    update_thread_list-overrun sample calls (thread_at 0 0) (software ∷ []) [] (5 ∷ 3 ∷ 9 ∷ [])
      stopped (thread_at 5 2 ∷ []) listing refl refl refl (omega arith)

abbrev flags : Option (Listing Machine) → List (ℕ × ℕ × Bool × Bool)
flags none = []
flags (some s) = elim s.threads [
  | none ↦ []
  | some ts ↦ map (λ t. (t.port, t.id, t.focused, t.just_hit_watchpoint)) ts
]

renewed_in_order :
    flags (update_thread_list sample calls (thread_at 0 0) [] [] (some (5 ∷ 3 ∷ [])) listing)
    ≡ (5, 1, false, false) ∷ (3, 2, true, true) ∷ []
unfolding update_thread_list renew_loop machthread_new get_thread_info update_all_thread_states
    arm_new renewed carry_over focused_port arm_breakpoints arm_watchpoints find_with_cond compares
    get_debug_state get_thread_state set_debug_state
renewed_in_order = refl

-- An invalid port is left out, but the ids go on without a gap.
first_threads :
    flags (
      update_thread_list sample calls
        (thread_at 0 0)
        []
        []
        (some (3 ∷ 0 ∷ 5 ∷ []))
        (record listing { threads = some []; next_id = 1 }))
    ≡ (3, 1, false, false) ∷ (5, 2, false, false) ∷ []
unfolding update_thread_list attach_loop machthread_new get_thread_info update_all_thread_states
    get_debug_state get_thread_state
first_threads = refl
