-- ===== src/Watchpoint/Tests.antt =====
-- source/watchpoint.c on concrete watchpoints.
use iosdbg.Base.{
  ℕ, ◌+◌, ◌*◌, ◌/◌, ◌%◌, ◌^◌, ◌≤◌, ◌<◌, ◌≡◌, refl, false, ◌&&◌, some, [], ◌∷◌, ◌++◌, ◌==◌, ltb, leb,
  arith,
}
use iosdbg.Base.Int.{pos}
use iosdbg.Debuggee.{Watchpoint}
use iosdbg.Thread.{edit_all, edit_thread, get_debug_state, set_debug_state}
use iosdbg.Memory.{read_memory_at_location, read_loop}
use iosdbg.Watchpoint.{
  watchpoint_delete_all, watchpoint_delete, watchpoint_delete_specific, wp_delete_internal,
  disable_wp, try_edit, edit_for, foreach, find_id, watchpoint_enable_all, watchpoint_disable_all,
  watchpoint_hit, wp_set_state_internal, enable_wp, update_wp, watchpoint_at_address,
  watchpoint_new, on_register, make_info, wp_all_threads, aligned, wcr_value, find_wp_with_address,
  find_ready_wp_reg, mark_used,
}
use iosdbg.Watchpoint.Control.{wcr_value-watches, wcr_value-fields}
use iosdbg.Watchpoint.Registers.{uses, find_ready_wp_reg-unused, find_ready_wp_reg-le}
use iosdbg.Watchpoint.Address.{find_wp_with_address-watched}
use iosdbg.Breakpoint.{first_spot}
use iosdbg.Samples.{watched, watching, sample}

wcr_value-watches_example :
    (wcr_value 4098 2 (2 * 8) / 2 ^ (5 + 3) % 2 == 1) ≡ (leb (4098 % 8) 3 && ltb 3 (4098 % 8 + 2))
wcr_value-watches_example = wcr_value-watches 4098 2 2 (omega arith) (omega arith) 3 (omega arith)

-- Eight bytes from 4098 on pass the end of the double word.
wcr_value-fields_example :
    (ltb (wcr_value 4098 8 (2 * 8)) (2 ^ 13) ≡ leb (4098 % 8 + 8) 8)
    × (wcr_value 4098 8 (2 * 8) % 2 ^ 5 ≡ 2 * 8 + 5)
wcr_value-fields_example = wcr_value-fields 4098 8 2 (omega arith) (omega arith)

find_wp_with_address-watched_at_sample :
    (found : Watchpoint) × (find_wp_with_address 4099 ([] ++ (watched ∷ [])) ≡ some found)
    × (found.aligned_location ≡ aligned 4098)
find_wp_with_address-watched_at_sample =
    find_wp_with_address-watched 4099 [] [] watched refl (omega arith) (omega arith) (omega arith)

next_register : find_ready_wp_reg 4 (watched ∷ []) ≡ pos 1
unfolding find_ready_wp_reg mark_used first_spot
next_register = refl

find_ready_wp_reg-unused_at_sample : (1 < 4) × (uses 1 (watched ∷ []) ≡ false)
find_ready_wp_reg-unused_at_sample = find_ready_wp_reg-unused 4 (watched ∷ []) 1 next_register

find_ready_wp_reg-le_at_sample : (r : ℕ) × (find_ready_wp_reg 4 (watched ∷ []) ≡ pos r) × (r ≤ 2)
find_ready_wp_reg-le_at_sample = find_ready_wp_reg-le 4 (watched ∷ []) 2 (omega arith) refl

all_taken_out :
    ((watchpoint_delete_all sample watching).watchpoints ≡ [])
    × ((watchpoint_delete sample 1 watching).1.watchpoints ≡ [])
    × ((watchpoint_delete sample 2 watching).1.watchpoints ≡ watched ∷ [])
    × ((watchpoint_delete_specific sample (some watched) watching).num_watchpoints ≡ pos 0)
unfolding watchpoint_delete_all watchpoint_delete watchpoint_delete_specific wp_delete_internal
    disable_wp try_edit edit_for foreach find_id edit_all
all_taken_out = (refl, refl, refl, refl)

switched :
    ((watchpoint_enable_all sample watching).world 5).wcr 0 ≡ 405
    × ((watchpoint_disable_all sample watching).world 5).wcr 0 ≡ 0
    × (watchpoint_hit sample (some watched) watching).watchpoints
      ≡ record watched { hit_count = 1 } ∷ []
unfolding watchpoint_enable_all watchpoint_disable_all watchpoint_hit wp_set_state_internal
    enable_wp disable_wp try_edit edit_for foreach update_wp edit_all edit_thread get_debug_state
    set_debug_state
switched = (refl, refl, refl)

-- The first free register is given to a new watchpoint, behind the others.
set_one :
    (watchpoint_at_address sample 80 0 4100 4 2 wp_all_threads watching).1.num_watchpoints ≡ pos 2
unfolding watchpoint_at_address watchpoint_new on_register find_ready_wp_reg mark_used first_spot
    make_info edit_for edit_all read_memory_at_location read_loop
set_one = refl
