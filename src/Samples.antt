-- ===== src/Samples.antt =====
-- A kernel and a debuggee for the witnesses: the debug registers are a map from ports, every
-- address holds the byte of its number, and every call is granted.
use iosdbg.Base.{
  ℕ, ◌+◌, ◌%◌, ◌≡◌, ◌<◌, refl, Bool, true, false, none, some, List, [], ◌∷◌, ◌==◌, if◌then◌else◌,
  arith,
}
use iosdbg.Base.Int.{pos}
use iosdbg.Debuggee.{
  step_none, DebugState, MachThread, ThreadInfo, Breakpoint, Watchpoint, Kernel, Debuggee,
}
use iosdbg.Memory.{addr_mod, read_memory_at_location}
use iosdbg.Memory.Read.{bytes_at, read_memory_at_location-bytes_at}
use iosdbg.Thread.Registers.{HasRegisters}
use iosdbg.Breakpoint.Inv.{IsValid}

abbrev pub Machine : Type 0
Machine = ℕ → DebugState

abbrev pub sample_bytes : ℕ → ℕ
sample_bytes a = a % 256

abbrev pub sample : Kernel Machine
sample = record {
  get_debug = λ w p. some (w p);
  set_debug = λ w p st q. if p == q then st else w q;
  get_pc = λ w p. some 4096;
  clear_signal = λ w p. w;
  vm_read = λ w a n. (0, bytes_at sample_bytes a n);
  vm_region = λ w a. (0, 5);
  vm_protect = λ w a n p. w;
  vm_write = λ w a bs. (0, w);
}

-- The kernel that refuses every read.
abbrev pub refusing : Kernel Machine
refusing = record sample { vm_read = λ w a n. (1, []) }

abbrev pub all_live : ℕ → Bool
all_live p = true

pub sample-HasRegisters : HasRegisters sample all_live
sample-HasRegisters = record {
  readable = λ w p _. (w p, refl);
  read_back = λ w p st _. (let e : (p == p) ≡ true = ground arith in rw e refl);
  apart = λ w p q st ne. (let e : (p == q) ≡ false = ground (arith, ne) in rw e refl);
}

pub sample_reads :
    (address : ℕ) (w : Machine)
    → address + 4 < addr_mod
    → (buf : List ℕ) × (read_memory_at_location sample w address (0 ∷ 0 ∷ 0 ∷ 0 ∷ []) 4
        ≡ some (0, buf))
sample_reads address w h = (
  _,
  read_memory_at_location-bytes_at sample w sample_bytes address 4 (λ a n _ _ _. refl) h
      (0 ∷ 0 ∷ 0 ∷ 0 ∷ []),
)

abbrev pub no_registers_set : DebugState
no_registers_set = record { bcr = λ _. 0; bvr = λ _. 0; wcr = λ _. 0; wvr = λ _. 0; mdscr = 0 }

abbrev pub machine : Machine
machine p = no_registers_set

abbrev pub thread_at : ℕ → ℕ → MachThread
thread_at port id = record {
  port = port;
  focused = false;
  tid = 100 + port;
  tname = [];
  id = id;
  pc = 4096;
  debug_state = no_registers_set;
  just_hit_watchpoint = false;
  just_hit_breakpoint = false;
  just_hit_sw_breakpoint = false;
  last_hit_wp_loc = 0;
  last_hit_wp_pc = 0;
  last_hit_bkpt_id = 0;
  is_stepping = false;
  step_kind = step_none;
  just_hit_ss_breakpoint = false;
  set_temp_ss_breakpoint = false;
}

abbrev pub two_threads : List MachThread
two_threads = thread_at 3 1 ∷ thread_at 5 2 ∷ []

abbrev pub every_thread : ThreadInfo
every_thread = record { all = true; iosdbg_tid = pos 0; pthread_tid = 0; tname = none }

-- A hardware breakpoint for all threads.
abbrev pub hardware_at : (self id location reg : ℕ) → Breakpoint
hardware_at self id location reg = record {
  self = self;
  id = id;
  location = location;
  old_instruction = 0;
  hit_count = 0;
  disabled = false;
  temporary = false;
  hw = true;
  hw_bp_reg = pos reg;
  for_stepping = false;
  threadinfo = every_thread;
  bcr = 485;
  bvr = location;
}

abbrev pub two_breakpoints : List Breakpoint
two_breakpoints =
    hardware_at 16 1 4096 0 ∷ record (hardware_at 32 2 8192 1) { for_stepping = true } ∷ []

abbrev pub attached : Debuggee Machine
attached = record {
  world = machine;
  threads = two_threads;
  breakpoints = two_breakpoints;
  num_breakpoints = pos 2;
  num_hw_bps = 6;
  current_breakpoint_id = 3;
  watchpoints = [];
  num_watchpoints = pos 0;
  num_hw_wps = 4;
  current_watchpoint_id = 1;
  nosigs = false;
}

pub attached-IsValid : IsValid attached
attached-IsValid = record {
  count = refl;
  consistent = record { distinct = (refl, (refl, tt)); null_free = refl; regs = refl; ids = refl };
}

-- Two bytes at 4098, in the first register.
abbrev pub watched : Watchpoint
watched = record {
  self = 64;
  id = 1;
  user_location = 4098;
  aligned_location = 4096;
  hit_count = 0;
  bytes = 0 ∷ 0 ∷ [];
  data_len = 2;
  hw_wp_reg = 0;
  type = 2;
  threadinfo = every_thread;
  wcr = 405;
  wvr = 4096;
}

abbrev pub watching : Debuggee Machine
watching = record attached { watchpoints = watched ∷ []; num_watchpoints = pos 1 }
