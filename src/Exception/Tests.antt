-- ===== src/Exception/Tests.antt =====
-- source/exception.c with two threads, two breakpoints and a watchpoint.
use iosdbg.Base.{
  ℕ, ◌≡◌, refl, true, false, not, ◌&&◌, none, some, ◌==◌, List, [], ◌∷◌, get_elem?, if◌then◌else◌,
  arith,
}
use iosdbg.Base.Int.{pos, negsuc}
use iosdbg.Debuggee.{MachThread, Kernel, Debuggee}
use iosdbg.Breakpoint.Inv.{IsValid}
use iosdbg.Memory.{of_le_bytes, read_memory_at_location}
use iosdbg.Memory.Read.{bytes_at, read_memory_at_location-bytes_at}
use iosdbg.Watchpoint.{find_wp_with_address}
use iosdbg.Sigsupport.{Setting, initial_settings}
use iosdbg.Exception.{Outcome, Request, Codes, handle_exception, on_signal, on_watchpoint, on_step}
use iosdbg.Exception.Valid.{Kept, handle_exception-Kept}
use iosdbg.Exception.Enabled.{all_enabled}
use iosdbg.Breakpoint.Written.{HasMemory}
use iosdbg.Exception.Trapped.{all_trapped}
use iosdbg.Exception.Restored.{on_step-restored}
use iosdbg.Exception.Verdict.{counted, on_signal-verdict, on_step-on_watchpoint}
use iosdbg.Samples.{
  Machine, machine, sample, sample_bytes, attached, attached-IsValid, thread_at, watched, watching,
  hardware_at,
}

abbrev codes : Codes
codes = record {
  exc_software = 5;
  exc_soft_signal = 65539;
  exc_arm_da_debug = 258;
  exc_breakpoint = 6;
  exc_arm_breakpoint = 1;
}

abbrev start : Outcome Machine
start = record { debuggee = attached; should_auto_resume = true; should_print = true; desc = [] }

-- A breakpoint exception at 4096 on the second thread.
abbrev at_4096 : Request
at_4096 = record { thread = 5; exception = 6; code_cnt = 2; code = 1; subcode = 4096 }

handle_exception-Kept_example : Kept (handle_exception sample codes initial_settings at_4096 start)
handle_exception-Kept_example =
    handle_exception-Kept sample codes initial_settings at_4096 start attached-IsValid

-- A step that leads past the breakpoint with id 1.
abbrev past_one : MachThread
past_one = record (thread_at 3 1) {
  just_hit_breakpoint = true;
  just_hit_sw_breakpoint = true;
  last_hit_bkpt_id = 1;
}

-- A kernel that keeps the instructions by their addresses, and no registers.
abbrev Words : Type 0
Words = ℕ → ℕ

abbrev remembering : Kernel Words
remembering = record {
  get_debug = λ w p. none;
  set_debug = λ w p st. w;
  get_pc = λ w p. none;
  clear_signal = λ w p. w;
  vm_read = λ w a n. (1, []);
  vm_region = λ w a. (0, 5);
  vm_protect = λ w a n p. w;
  vm_write = λ w a bs. (0, λ b. if a == b then of_le_bytes bs else w b);
}

remembering-HasMemory : HasMemory remembering (λ w a. w a) (λ w a. true) (λ a. true)
remembering-HasMemory = record {
  region = λ w a _. refl;
  opened = λ w a _. refl;
  written = λ w a _. (let e : (a == a) ≡ true = ground arith in rw e refl);
  elsewhere = λ w a b _ _ ne. (let e : (a == b) ≡ false = ground (arith, ne) in rw e refl);
  protected = λ w a n p b. refl;
  registers = λ w p st b. refl;
}

-- A software breakpoint at 4096 that was disabled for the step.
abbrev disabled_one : Debuggee Words
disabled_one = record {
  world = λ a. 0;
  threads = past_one ∷ [];
  breakpoints =
      record (hardware_at 16 1 4096 0) { hw = false; hw_bp_reg = negsuc 0; disabled = true } ∷ [];
  num_breakpoints = pos 1;
  num_hw_bps = 6;
  current_breakpoint_id = 2;
  watchpoints = [];
  num_watchpoints = pos 0;
  num_hw_wps = 4;
  current_watchpoint_id = 1;
  nosigs = false;
}

disabled_one-IsValid : IsValid disabled_one
disabled_one-IsValid = record {
  count = refl;
  consistent = record { distinct = (refl, tt); null_free = refl; regs = refl; ids = refl };
}

abbrev disabled_start : Outcome Words
disabled_start = record {
  debuggee = disabled_one;
  should_auto_resume = true;
  should_print = true;
  desc = [];
}

on_step-restored_example :
    (o' : Outcome Words) × (on_step remembering 0 past_one disabled_start ≡ some o')
    × (all_enabled o'.debuggee.breakpoints ≡ true)
    × (all_trapped (λ w a. w a) o'.debuggee.world o'.debuggee.breakpoints ≡ true)
on_step-restored_example =
    on_step-restored remembering (λ w a. w a) (λ w a. true) (λ a. true) remembering-HasMemory 0
      past_one disabled_start disabled_one-IsValid refl refl

abbrev silent : Setting
silent = record { notify = false; pass = true; stop = false }

on_signal-verdict_example :
    ((on_signal sample (thread_at 3 1) 2 silent start).should_print ≡ (true && false))
    × ((on_signal sample (thread_at 3 1) 2 silent start).should_auto_resume ≡ (true && not false))
    × ((on_signal sample (thread_at 3 1) 2 silent start).debuggee ≡ record attached {
      world = if true then attached.world else sample.clear_signal attached.world 3;
    })
on_signal-verdict_example = on_signal-verdict sample (thread_at 3 1) 2 silent start

-- An access to 4098 by the first thread.
abbrev watched_start : Outcome Machine
watched_start = record start { debuggee = watching }

found : find_wp_with_address 4098 watching.watchpoints ≡ some watched
unfolding find_wp_with_address
found = refl

-- The two bytes at 4098.
abbrev now : List ℕ
now = bytes_at sample_bytes 4098 2

read_now : read_memory_at_location sample machine 4098 (0 ∷ 0 ∷ []) 2 ≡ some (0, now)
read_now =
    read_memory_at_location-bytes_at sample machine sample_bytes 4098 2 (λ a n _ _ _. refl)
      (omega arith) (0 ∷ 0 ∷ [])

on_step-on_watchpoint_example :
    let o₁ : Outcome Machine = record (on_watchpoint sample 0 (thread_at 3 1) 4098 watched_start) {
      debuggee = record (on_watchpoint sample 0 (thread_at 3 1) 4098 watched_start).debuggee {
        world = machine;
      };
      should_auto_resume = true;
      should_print = true;
    } in
    ((on_watchpoint sample 0 (thread_at 3 1) 4098 watched_start).should_print ≡ false)
    × (u : MachThread) × (o₂ : Outcome Machine) × (get_elem? o₁.debuggee.threads 0 ≡ some u)
    × (on_step sample 0 u o₁ ≡ some o₂)
    × (o₂.should_print ≡ true)
    × (o₂.should_auto_resume ≡ false)
    × (o₂.debuggee.watchpoints ≡ counted 4098 now watching.watchpoints)
on_step-on_watchpoint_example =
    on_step-on_watchpoint sample 0 (thread_at 3 1) 4098 watched_start watched machine now refl
      (refl, tt) found read_now
