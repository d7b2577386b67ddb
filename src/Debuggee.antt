-- ===== src/Debuggee.antt =====
-- The state of the debugger: `struct debuggee` of source/debuggee.h with the threads of
-- source/thread.h, the breakpoints of source/breakpoint.h and the watchpoints of
-- source/watchpoint.h, as far as the modules below read and write them. `W` is the state of the
-- kernel, whose calls are the record `Kernel`: what they do is left to a parameter.
use iosdbg.Base.{ℕ, Bool, Option, List}
use iosdbg.Base.Int.{ℤ}

abbrev pub Ptr : Type 0
Ptr = ℕ

-- `arm_debug_state64_t`: the breakpoint and the watchpoint registers of a thread, by number, and
-- MDSCR_EL1.
pub record DebugState : Type 0 where
  pub bcr : ℕ → ℕ
  pub bvr : ℕ → ℕ
  pub wcr : ℕ → ℕ
  pub wvr : ℕ → ℕ
  pub mdscr : ℕ

-- The kinds of a step.
pub data StepKind : Type 0 where
  step_none inst_step_into inst_step_over : StepKind

-- `struct machthread`; `pc` is the part of `thread_state` that is read.
pub record MachThread : Type 0 where
  pub port : ℕ
  pub focused : Bool
  pub tid : ℕ
  pub tname : List ℕ
  pub id : ℕ
  pub pc : ℕ
  pub debug_state : DebugState
  pub just_hit_watchpoint : Bool
  pub just_hit_breakpoint : Bool
  pub just_hit_sw_breakpoint : Bool
  pub last_hit_wp_loc : ℕ
  pub last_hit_wp_pc : ℕ
  pub last_hit_bkpt_id : ℕ
  pub is_stepping : Bool
  pub step_kind : StepKind
  pub just_hit_ss_breakpoint : Bool
  pub set_temp_ss_breakpoint : Bool

-- `threadinfo` of a breakpoint or a watchpoint; a NULL `tname` is `none`.
pub record ThreadInfo : Type 0 where
  pub all : Bool
  pub iosdbg_tid : ℤ
  pub pthread_tid : ℕ
  pub tname : Option (List ℕ)

-- `struct breakpoint`, with the address of the object, `self`.
pub record Breakpoint : Type 0 where
  pub self : Ptr
  pub id : ℕ
  pub location : ℕ
  pub old_instruction : ℕ
  pub hit_count : ℕ
  pub disabled : Bool
  pub temporary : Bool
  pub hw : Bool
  pub hw_bp_reg : ℤ
  pub for_stepping : Bool
  pub threadinfo : ThreadInfo
  pub bcr : ℕ
  pub bvr : ℕ

-- `struct watchpoint`, with the address of the object; `data` is `bytes`.
pub record Watchpoint : Type 0 where
  pub self : Ptr
  pub id : ℕ
  pub user_location : ℕ
  pub aligned_location : ℕ
  pub hit_count : ℕ
  pub bytes : List ℕ
  pub data_len : ℕ
  pub hw_wp_reg : ℕ
  pub type : ℕ
  pub threadinfo : ThreadInfo
  pub wcr : ℕ
  pub wvr : ℕ

-- The calls of the Mach kernel. A status is 0 for KERN_SUCCESS.
pub record Kernel (W : Type 0) : Type 0 where
  -- `thread_get_state` and `thread_set_state` for ARM_DEBUG_STATE64, by the port of the thread.
  pub get_debug : W → ℕ → Option DebugState
  pub set_debug : W → ℕ → DebugState → W
  -- The program counter that `thread_get_state` gives for ARM_THREAD_STATE64.
  pub get_pc : W → ℕ → Option ℕ
  -- `ptrace` with PT_THUPDATE and signal 0: the pending signal of a thread is cleared.
  pub clear_signal : W → ℕ → W
  -- `vm_read_overwrite` at an address for so many bytes: the status and the bytes it stored.
  pub vm_read : W → ℕ → ℕ → ℕ × List ℕ
  -- `vm_region_64`: the status and the protection of the region.
  pub vm_region : W → ℕ → ℕ × ℕ
  pub vm_protect : W → ℕ → ℕ → ℕ → W
  pub vm_write : W → ℕ → List ℕ → ℕ × W

-- `struct debuggee`, `current_breakpoint_id` and `current_watchpoint_id`. Ids are not bounded.
pub record Debuggee (W : Type 0) : Type 0 where
  pub world : W
  pub threads : List MachThread
  pub breakpoints : List Breakpoint
  pub num_breakpoints : ℤ
  pub num_hw_bps : ℕ
  pub current_breakpoint_id : ℕ
  pub watchpoints : List Watchpoint
  pub num_watchpoints : ℤ
  pub num_hw_wps : ℕ
  pub current_watchpoint_id : ℕ
  pub nosigs : Bool
