-- ===== src/Breakpoint/Armed.antt =====
-- What source/breakpoint.c does to the debug registers of the threads.
use iosdbg.Base.{
  ℕ, ◌-◌, ◌%◌, ◌+◌, ◌*◌, ◌^◌, ◌==◌, ◌≡◌, refl, Bool, true, false, Option, none, some, List, [], ◌∷◌,
  if◌then◌else◌, inr, ◌∙◌, ap,
}
use iosdbg.Base.Int.{pos}
use iosdbg.LinkedList.Items.{has_key, Distinct}
use iosdbg.Debuggee.{Ptr, DebugState, ThreadInfo, Breakpoint, Kernel, Debuggee}
use iosdbg.Memory.{read_memory_at_location, of_le_bytes}
use iosdbg.Thread.{edit_all}
use iosdbg.Thread.Registers.{port_of, HasRegisters, AllLive, map_option, edit_all-registers}
use iosdbg.Breakpoint.{
  bcr_value, bp_all_threads, find_ready_bp_reg, find_bp_with_address, make_info, write_bp, clear_bp,
  edit_for, old_instruction_at, extend_int, Warning, warnings, finish_new, blank, breakpoint_new,
}
use iosdbg.Breakpoint.State.{
  try_edit, enable_hw_bp, disable_hw_bp, switch, install, install_made, bp_set_state_internal,
  breakpoint_at_address,
}

-- The four bytes that are read into.
abbrev pub word_buffer : List ℕ
word_buffer = 0 ∷ 0 ∷ 0 ∷ 0 ∷ []

-- `threadinfo` of a breakpoint for all threads.
abbrev all_threads : ThreadInfo
all_threads = record { all = true; iosdbg_tid = pos 0; pthread_tid = 0; tname = none }

-- The registers with `control` and `value` in the `r`-th pair for breakpoints, all others as they
-- are.
abbrev pub armed : (r control value : ℕ) → DebugState → DebugState
armed r control value st = record {
  bcr = λ i. if i == r then control else st.bcr i;
  bvr = λ i. if i == r then value else st.bvr i;
  wcr = st.wcr;
  wvr = st.wvr;
  mdscr = st.mdscr;
}

-- The registers with 0 in the `r`-th control register for breakpoints, all others as they are.
abbrev pub disarmed : (r : ℕ) → DebugState → DebugState
disarmed r st = record {
  bcr = λ i. if i == r then 0 else st.bcr i;
  bvr = st.bvr;
  wcr = st.wcr;
  wvr = st.wvr;
  mdscr = st.mdscr;
}

-- E is bit 0, PMC for user mode is 0b10 in bits 1 and 2, and BAS for the four bytes of an
-- instruction is 0b1111 in bits 5 to 8.
abbrev pub user_execution : ℕ
user_execution = 1 + 2 * 2 ^ 1 + 15 * 2 ^ 5

-- The registers of the threads of a list, changed by `f`; those of any other port as they were.
abbrev pub Edited : {W : Type 0} → Kernel W → (DebugState → DebugState) → Debuggee W → W → Type 0
Edited k f d w' =
    (p : ℕ)
    → k.get_debug w' p ≡ (
        if has_key port_of p d.threads
        then map_option f (k.get_debug d.world p)
        else k.get_debug d.world p)

module _ {W : Type 0} (k : Kernel W) (live : ℕ → Bool) (law : HasRegisters k live) (d : Debuggee W)
    (alive : AllLive live d.threads) (distinct : Distinct port_of d.threads) where
  edit_for-all :
      (f : DebugState → DebugState) (info : ThreadInfo)
      → info.all ≡ true
      → edit_for k f info d
        ≡ some (record d {
          threads = (edit_all k f d.world d.threads).0;
          world = (edit_all k f d.world d.threads).1;
        })
  unfolding edit_for
  edit_for-all f info e = rw e refl

  edited : (f : DebugState → DebugState) → Edited k f d (edit_all k f d.world d.threads).1
  edited f p = edit_all-registers k live law f d.threads d.world p alive distinct

  read_old :
      (location : ℕ) (w : W) (dup : Option Breakpoint)
      → (buf : List ℕ) × (read_memory_at_location k w location word_buffer 4 ≡ some (0, buf))
      → (old : ℕ) × (old_instruction_at k w location dup ≡ some old)
  unfolding old_instruction_at
  read_old location w none (buf, e) =
      (extend_int (of_le_bytes buf), rw (e, old_instruction_at) refl)
  read_old location w (some dup) reads = (dup.old_instruction, refl)

  finish_new-some :
      (bp : Breakpoint) (d' : Debuggee W) (old : ℕ)
      → old_instruction_at k d'.world bp.location (find_bp_with_address bp.location d'.breakpoints)
        ≡ some old
      → finish_new k bp d' ≡ (
        inr (
          record bp { old_instruction = old },
          warnings (find_bp_with_address bp.location d'.breakpoints) bp,
        ),
        (if bp.temporary
            then d'
            else record d' { current_breakpoint_id = d'.current_breakpoint_id + 1 }),
      )
  unfolding finish_new
  finish_new-some bp d' old e = rw (e, finish_new) refl

  world_after :
      (t : Bool) (d' : Debuggee W) (p : ℕ)
      → k.get_debug
          (if t
            then d'
            else record d' { current_breakpoint_id = d'.current_breakpoint_id + 1 }).world
          p
        ≡ k.get_debug d'.world p
  world_after true d' p = refl
  world_after false d' p = refl

  -- Where the debug registers are as the kernel documents them and the threads of the list have
  -- live ports, no two the same: with a register at hand and a read of memory that ends,
  -- `breakpoint_at_address` for all threads sets a hardware breakpoint on that register: in each
  -- thread of the list, and no other, its control register is enabled for user mode and the four
  -- bytes of an instruction, with no other bit set, its value register is the address less its
  -- remainder by 4, and every other register is as it was.
  pub breakpoint_at_address-Edited :
      (self : Ptr) (address : ℕ) (temporary : Bool) (r : ℕ)
      → find_ready_bp_reg d.num_hw_bps d.breakpoints ≡ pos r
      → ((w : W)
          → (buf : List ℕ) × (read_memory_at_location k w address word_buffer 4 ≡ some (0, buf)))
      → (bp : Breakpoint) × (ws : List Warning) × (d' : Debuggee W) × (breakpoint_at_address k self
            address temporary bp_all_threads d
          ≡ (inr (bp, ws), d'))
        × (bp.hw ≡ true)
        × (bp.hw_bp_reg ≡ pos r)
        × (bp.location ≡ address)
        × Edited k (armed r user_execution (address - address % 4)) d d'.world
  unfolding breakpoint_at_address breakpoint_new make_info install_made install blank edit_for
  breakpoint_at_address-Edited self address temporary r free reads =
      let f = write_bp (pos r) bcr_value (address - address % 4) in
      let w' = (edit_all k f d.world d.threads).1 in
      let bp : Breakpoint =
        record (blank self address temporary all_threads d.current_breakpoint_id) {
          hw = true;
          hw_bp_reg = pos r;
          bcr = bcr_value;
          bvr = address - address % 4;
        } in
      let d₁ : Debuggee W = record d { threads = (edit_all k f d.world d.threads).0; world = w' } in
      let (old, got) =
        read_old address w' (find_bp_with_address address d.breakpoints) (reads w') in
      rw (free, finish_new-some bp d₁ old got)
        (_, _, _, refl, refl, refl, refl, λ p. world_after temporary d₁ p ∙ edited f p)

  try_edit-all :
      (f : DebugState → DebugState) (info : ThreadInfo)
      → info.all ≡ true
      → (try_edit k f info d).world ≡ (edit_all k f d.world d.threads).1
  unfolding try_edit
  try_edit-all f info e = rw (edit_for-all f info e, try_edit) refl

  disabled_world :
      (bp : Breakpoint) (r : ℕ)
      → bp.hw_bp_reg ≡ pos r
      → bp.threadinfo.all ≡ true
      → (disable_hw_bp k bp d).world ≡ (edit_all k (clear_bp (pos r)) d.world d.threads).1
  unfolding disable_hw_bp
  disabled_world bp r reg all =
      try_edit-all (clear_bp bp.hw_bp_reg) bp.threadinfo all
      ∙ ap (λ q. (edit_all k (clear_bp q) d.world d.threads).1) reg

  enabled_world :
      (bp : Breakpoint) (r : ℕ)
      → bp.hw_bp_reg ≡ pos r
      → bp.threadinfo.all ≡ true
      → (enable_hw_bp k bp d).world
        ≡ (edit_all k (write_bp (pos r) bp.bcr bp.bvr) d.world d.threads).1
  unfolding enable_hw_bp
  enabled_world bp r reg all =
      try_edit-all (write_bp bp.hw_bp_reg bp.bcr bp.bvr) bp.threadinfo all
      ∙ ap (λ q. (edit_all k (write_bp q bp.bcr bp.bvr) d.world d.threads).1) reg

  -- Where the debug registers are as the kernel documents them and the threads of the list have
  -- live ports, no two the same: for a hardware breakpoint that has the register `r` and is for all
  -- threads, to disable it sets the control register `r` of each thread of the list to 0, and to
  -- enable it sets the control and the value register `r` to what the breakpoint keeps for them; no
  -- other register and no other thread changes.
  pub bp_set_state_internal-Edited :
      (bp : Breakpoint) (r : ℕ)
      → bp.hw ≡ true
      → bp.hw_bp_reg ≡ pos r
      → bp.threadinfo.all ≡ true
      → Edited k (disarmed r) d (bp_set_state_internal k bp true d).world
        × Edited k (armed r bp.bcr bp.bvr) d (bp_set_state_internal k bp false d).world
  unfolding bp_set_state_internal switch
  bp_set_state_internal-Edited bp r hw reg all =
      let off = edited (clear_bp (pos r)) in
      let on = edited (write_bp (pos r) bp.bcr bp.bvr) in
      simp hw (simp (disabled_world bp r reg all) off, simp (enabled_world bp r reg all) on)
