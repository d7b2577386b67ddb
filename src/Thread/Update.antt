-- ===== src/Thread/Update.antt =====
-- source/thread.c, update_thread_list: the list of threads is made anew from the ports that the
-- kernel gives, and what is known of a thread by its port is carried over. The neon states, the
-- notifications of the death of a thread and the warnings are not modelled. `none` is a write
-- outside the array of debug registers.
pub mod Carried
mod Tests
use iosdbg.Base.{
  ℕ, ◌+◌, ◌-◌, ◌^◌, Bool, true, false, Option, none, some, List, [], ◌∷◌, ◌++◌, ◌==◌, leb,
  if◌then◌else◌, length, take,
}
use iosdbg.Base.Int.{ℤ, pos, negsuc}
use iosdbg.Debuggee.{DebugState, MachThread, Breakpoint, Watchpoint, Kernel, step_none}
use iosdbg.Thread.{ports, find_with_cond, get_thread_state, get_debug_state, set_debug_state}
use iosdbg.Breakpoint.{set_reg}

-- `MACH_PORT_VALID`, and `thread_info` for THREAD_IDENTIFIER_INFO and THREAD_EXTENDED_INFO.
pub record Calls (W : Type 0) : Type 0 where
  pub valid : ℕ → Bool
  pub thread_id : W → ℕ → Option ℕ
  pub pth_name : W → ℕ → Option (List ℕ)

-- `debuggee->threads`, where NULL is `none`, `debuggee->thread_count` and `current_machthread_id`.
pub record Listing (W : Type 0) : Type 0 where
  pub threads : Option (List MachThread)
  pub thread_count : ℕ
  pub next_id : ℕ
  pub world : W

-- -1 as an `unsigned long long`, where the call fails.
abbrev pub tid_or_error : Option ℕ → ℕ
tid_or_error none = 2 ^ 64 - 1
tid_or_error (some tid) = tid

-- MAXTHREADSIZENAME
abbrev pub name_or_empty : Option (List ℕ) → List ℕ
name_or_empty none = []
name_or_empty (some name) = take 64 name

abbrev pub append_to : Option (List MachThread) → MachThread → Option (List MachThread)
append_to none t = none
append_to (some ts) t = some (ts ++ (t ∷ []))

-- The port of the last thread that has the focus; MACH_PORT_NULL is 0.
unfoldable pub focused_port : ℕ → List MachThread → ℕ
focused_port port [] = port
focused_port port (t ∷ ts) = focused_port (if t.focused then t.port else port) ts

-- `struct th_excinfo` of the first thread that had the port.
unfoldable pub carry_over : Option MachThread → MachThread → MachThread
carry_over none t = t
carry_over (some info) t = record t {
  just_hit_watchpoint = info.just_hit_watchpoint;
  just_hit_breakpoint = info.just_hit_breakpoint;
  just_hit_sw_breakpoint = info.just_hit_sw_breakpoint;
  last_hit_wp_loc = info.last_hit_wp_loc;
  last_hit_wp_pc = info.last_hit_wp_pc;
  last_hit_bkpt_id = info.last_hit_bkpt_id;
  is_stepping = info.is_stepping;
  step_kind = info.step_kind;
  just_hit_ss_breakpoint = info.just_hit_ss_breakpoint;
  set_temp_ss_breakpoint = info.set_temp_ss_breakpoint;
}

-- The register -1 of a software breakpoint lies before the array.
unfoldable pub arm_breakpoints : List Breakpoint → DebugState → Option DebugState
arm_breakpoints [] st = some st
arm_breakpoints (b ∷ bps) st =
    if b.threadinfo.all
    then elim b.hw_bp_reg [
      | negsuc n ↦ none
      | pos r ↦
          arm_breakpoints bps
            (record st { bcr = set_reg st.bcr (pos r) b.bcr; bvr = set_reg st.bvr (pos r) b.bvr })
    ]
    else arm_breakpoints bps st

unfoldable pub arm_watchpoints : List Watchpoint → DebugState → DebugState
arm_watchpoints [] st = st
arm_watchpoints (w ∷ wps) st = arm_watchpoints wps (
    if w.threadinfo.all
    then record st {
      wcr = set_reg st.wcr (pos w.hw_wp_reg) w.wcr;
      wvr = set_reg st.wvr (pos w.hw_wp_reg) w.wvr;
    }
    else st)

module _ {W : Type 0} (k : Kernel W) (c : Calls W) where
  unfoldable pub update_all_thread_states : W → MachThread → MachThread
  unfolding get_debug_state get_thread_state
  update_all_thread_states w t =
      if t.port == 0 then t else get_debug_state k w (get_thread_state k w t)

  unfoldable pub get_thread_info : W → MachThread → MachThread
  unfolding update_all_thread_states
  get_thread_info w t = update_all_thread_states w (record t {
    tid = tid_or_error (c.thread_id w t.port);
    tname = name_or_empty (c.pth_name w t.port);
  })

  -- `junk` is what `malloc` left.
  unfoldable pub machthread_new : MachThread → W → (id port : ℕ) → Option MachThread
  unfolding get_thread_info
  machthread_new junk w id port =
      if c.valid port
      then some (record (get_thread_info w (record junk { port = port })) {
        focused = false;
        id = id;
        just_hit_watchpoint = false;
        just_hit_breakpoint = false;
        just_hit_sw_breakpoint = false;
        last_hit_wp_loc = 0;
        last_hit_wp_pc = 0;
        last_hit_bkpt_id = 0;
        is_stepping = false;
        step_kind = step_none;
        just_hit_ss_breakpoint = false;
        set_temp_ss_breakpoint = false;
      })
      else none

  module _ (junk : MachThread) where
    -- `thread_count = i + 1`, and the thread goes behind the others.
    abbrev pub add_thread : ℕ → MachThread → Listing W → Listing W
    add_thread i t s = record s {
      threads = append_to s.threads t;
      thread_count = i + 1;
      next_id = s.next_id + 1;
    }

    -- The loop where there were no threads, from index `i` on.
    unfoldable pub attach_loop : ℕ → List ℕ → Listing W → Listing W
    attach_loop i [] s = s
    attach_loop i (p ∷ ps) s = elim (machthread_new junk s.world s.next_id p) [
      | none ↦ attach_loop (i + 1) ps s
      | some t ↦
          attach_loop (i + 1) ps
            (add_thread i (get_debug_state k s.world (get_thread_state k s.world t)) s)
    ]

    module _ (bps : List Breakpoint) (wps : List Watchpoint) (old : List MachThread) where
      -- The registers of a new thread are written, those of another are not.
      unfoldable pub arm_new : ℕ → MachThread → W → Option (MachThread × W)
      unfolding arm_breakpoints arm_watchpoints set_debug_state
      arm_new i t w =
          if leb (length old) i
          then elim (arm_breakpoints bps t.debug_state) [
            | none ↦ none
            | some st ↦
                let t' : MachThread = record t { debug_state = arm_watchpoints wps st } in
                some (t', set_debug_state k w t')
          ]
          else some (t, w)

      -- A thread that was made, with what was known of its port.
      unfoldable pub renewed : W → MachThread → MachThread
      unfolding carry_over find_with_cond focused_port get_debug_state
      renewed w t =
          let t₁ : MachThread =
            if t.port == focused_port 0 old then record t { focused = true } else t in
          get_debug_state k w (carry_over (find_with_cond (ports (pos t.port)) old) t₁)

      unfoldable pub renew_loop : ℕ → List ℕ → Listing W → Option (Listing W)
      renew_loop i [] s = some s
      renew_loop i (p ∷ ps) s = elim (machthread_new junk s.world s.next_id p) [
        | none ↦ renew_loop (i + 1) ps s
        | some t ↦ elim (arm_new i (renewed s.world t) s.world) [
          | none ↦ none
          | some (t', w) ↦ renew_loop (i + 1) ps (add_thread i t' (record s { world = w }))
        ]
      ]

    unfoldable pub update_thread_list :
        List Breakpoint → List Watchpoint → Option (List ℕ) → Listing W → Option (Listing W)
    update_thread_list bps wps none s = some (record s { thread_count = 0 })
    update_thread_list bps wps (some ps) s = elim s.threads [
      | none ↦ some (record s { thread_count = 0 })
      | some [] ↦ some (attach_loop 0 ps s)
      | some (t ∷ ts) ↦
          renew_loop bps wps (t ∷ ts) 0 ps (record s { threads = some []; next_id = 1 })
    ]
