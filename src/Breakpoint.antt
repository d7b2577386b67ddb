-- ===== src/Breakpoint.antt =====
-- source/breakpoint.c: setting, deleting, enabling and disabling breakpoints. The list of the
-- debuggee is the sequence of its items (LinkedList.Items); a breakpoint is found again by the
-- address of its object, which `malloc` gives as the argument `self`. The locks are not modelled.
-- What is printed is returned as data.
pub mod Registers
pub mod State
pub mod Inv
pub mod Frame
pub mod Shape
pub mod Steps
pub mod Preserve
pub mod Reach
pub mod Middle
pub mod Loops
pub mod Armed
pub mod Written
mod Tests
use iosdbg.Base.{
  ℕ, zero, suc, ◌+◌, ◌-◌, ◌*◌, ◌%◌, ◌^◌, Bool, true, false, not, ◌&&◌, ◌||◌, Option, none, some,
  List, [], ◌∷◌, ◌++◌, ◌==◌, ltb, if◌then◌else◌, set, replicate, ◌⊎◌, inl, inr,
}
use iosdbg.Base.Int.{ℤ, pos, negsuc, incr, decr, eq_ℤ}
use iosdbg.LinkedList.Items.{add_item, delete_item}
use iosdbg.Debuggee.{Ptr, DebugState, MachThread, ThreadInfo, Breakpoint, Kernel, Debuggee}
use iosdbg.Thread.{find_thread_from_id, edit_all, edit_id}
use iosdbg.Memory.{of_le_bytes, read_memory_at_location, write_memory_to_location}

abbrev pub self_of : Breakpoint → Ptr
self_of bp = bp.self

-- (BT | BAS | PMC | E)
abbrev pub bcr_value : ℕ
bcr_value = 15 * 2 ^ 5 + 2 * 2 + 1

-- BRK #0
abbrev pub brk : ℕ
brk = 0xd4200000

-- BP_ALL_THREADS
abbrev pub bp_all_threads : ℤ
bp_all_threads = negsuc 0

pub data Error : Type 0 where
  no_such_thread : ℤ → Error
  thread_gone : Error
  could_not_read : ℕ → Error
  not_found : ℕ → Error

-- The warnings of `breakpoint_new` about another breakpoint at the location: the ids of both.
pub data Warning : Type 0 where
  same_location : ℕ → ℕ → Warning
  software_beside_hardware : ℕ → ℕ → Warning

-- `bp_map[bp->hw_bp_reg] = 0`; `true` is a spot that is not used.
unfoldable pub mark : List Bool → ℤ → List Bool
mark spots (pos r) = set spots r false
mark spots (negsuc n) = spots

unfoldable pub mark_used : List Bool → List Breakpoint → List Bool
mark_used spots [] = spots
mark_used spots (bp ∷ bps) = mark_used (if bp.hw then mark spots bp.hw_bp_reg else spots) bps

-- The index of the first empty spot, from `i` on.
unfoldable pub first_spot : ℕ → List Bool → ℤ
first_spot i [] = negsuc 0
first_spot i (free ∷ spots) = if free then pos i else first_spot (suc i) spots

pub find_ready_bp_reg : ℕ → List Breakpoint → ℤ
unfolding mark_used mark first_spot
find_ready_bp_reg n bps = first_spot 0 (mark_used (replicate n true) bps)

pub find_bp_with_address : ℕ → List Breakpoint → Option Breakpoint
find_bp_with_address addr [] = none
find_bp_with_address addr (bp ∷ bps) =
    if bp.location == addr then some bp else find_bp_with_address addr bps

-- The conditions that `way` and `except` name.
pub data Cond : Type 0 where
  normal temp stepping : Cond

unfoldable pub meets : Cond → Breakpoint → Bool
meets normal bp = not bp.temporary && not bp.for_stepping
meets temp bp = false
meets stepping bp = bp.for_stepping

unfoldable pub find_bp_with_cond : ℕ → Cond → List Breakpoint → Option Breakpoint
find_bp_with_cond addr way [] = none
find_bp_with_cond addr way (bp ∷ bps) =
    if (bp.location == addr) && meets way bp then some bp else find_bp_with_cond addr way bps

-- The `disabled` flag of the first breakpoint with the id, 0 if there is none.
pub breakpoint_disabled : ℕ → List Breakpoint → Bool
breakpoint_disabled id [] = false
breakpoint_disabled id (bp ∷ bps) = if bp.id == id then bp.disabled else breakpoint_disabled id bps

-- `regs[r] = v`
abbrev pub set_reg : (ℕ → ℕ) → ℤ → ℕ → ℕ → ℕ
set_reg regs (pos r) v i = if i == r then v else regs i
set_reg regs (negsuc n) v i = regs i

abbrev pub write_bp : ℤ → (bcr bvr : ℕ) → DebugState → DebugState
write_bp r bcr bvr st = record st { bcr = set_reg st.bcr r bcr; bvr = set_reg st.bvr r bvr }

abbrev pub clear_bp : ℤ → DebugState → DebugState
clear_bp r st = record st { bcr = set_reg st.bcr r 0 }

-- `bp->old_instruction = orig_instruction`: an `int` that becomes an `unsigned long`.
abbrev pub extend_int : ℕ → ℕ
extend_int x = if ltb x (2 ^ 31) then x else x + (2 ^ 64 - 2 ^ 32)

-- `threadinfo` as `breakpoint_new` fills it; `none` if there is no thread with the id.
unfoldable pub make_info : ℤ → List MachThread → Option ThreadInfo
make_info thread ts =
    if eq_ℤ thread bp_all_threads
    then some (record { all = true; iosdbg_tid = pos 0; pthread_tid = 0; tname = none })
    else elim (find_thread_from_id thread ts) [
      | none ↦ none
      | some t ↦
          some
            (record { all = false; iosdbg_tid = thread; pthread_tid = t.tid; tname = some t.tname })
    ]

unfoldable pub warnings : Option Breakpoint → Breakpoint → List Warning
warnings none bp = []
warnings (some dup) bp =
    if dup.for_stepping
    then []
    else same_location dup.id bp.id
      ∷ (if not bp.hw && dup.hw then software_beside_hardware dup.id bp.id ∷ [] else [])

unfoldable pub blank : Ptr → ℕ → Bool → ThreadInfo → ℕ → Breakpoint
blank self location temporary info id = record {
  self = self;
  id = id;
  location = location;
  old_instruction = 0;
  hit_count = 0;
  disabled = false;
  temporary = temporary;
  hw = false;
  hw_bp_reg = negsuc 0;
  for_stepping = false;
  threadinfo = info;
  bcr = 0;
  bvr = 0;
}

module _ {W : Type 0} (k : Kernel W) where
  -- An operation on the debug registers of the threads that a breakpoint is for: all, or the one
  -- with the id. `none` if there is no thread with the id.
  unfoldable pub edit_for :
      (DebugState → DebugState) → ThreadInfo → Debuggee W → Option (Debuggee W)
  edit_for f info d =
      if info.all
      then (let (ts, w) = edit_all k f d.world d.threads in
          some (record d { threads = ts; world = w }))
      else elim (edit_id k f d.world info.iosdbg_tid d.threads) [
        | none ↦ none
        | some (ts, w) ↦ some (record d { threads = ts; world = w })
      ]

  -- The old instruction is read from memory, or taken from the breakpoint that is there already.
  -- `none` is an error of the read.
  unfoldable pub old_instruction_at : W → ℕ → Option Breakpoint → Option ℕ
  old_instruction_at w location (some dup) = some dup.old_instruction
  old_instruction_at w location none =
      elim (read_memory_at_location k w location (0 ∷ 0 ∷ 0 ∷ 0 ∷ []) 4) [
        | none ↦ none
        | some (status, buf) ↦ if status == 0 then some (extend_int (of_le_bytes buf)) else none
      ]

  -- What `breakpoint_new` returns: the breakpoint or an error, and the warnings.
  abbrev pub Made : Type 0
  Made = (Error ⊎ (Breakpoint × List Warning)) × Debuggee W

  -- From `bp->location = location` on.
  unfoldable pub finish_new : Breakpoint → Debuggee W → Made
  unfolding old_instruction_at warnings
  finish_new bp d =
      let d₁ : Debuggee W =
        if bp.temporary
        then d
        else record d { current_breakpoint_id = d.current_breakpoint_id + 1 } in
      let dup = find_bp_with_address bp.location d.breakpoints in
      elim (old_instruction_at d.world bp.location dup) [
        | none ↦ (inl (could_not_read bp.location), d₁)
        | some old ↦ (inr (record bp { old_instruction = old }, warnings dup bp), d₁)
      ]

  -- `for_stepping` is set by the callers: it is `false` until then.
  pub breakpoint_new : Ptr → (location : ℕ) (temporary : Bool) (thread : ℤ) → Debuggee W → Made
  unfolding make_info finish_new edit_for blank
  breakpoint_new self location temporary thread d = elim (make_info thread d.threads) [
    | none ↦ (inl (no_such_thread thread), d)
    | some info ↦
        let bp = blank self location temporary info d.current_breakpoint_id in
        let r = find_ready_bp_reg d.num_hw_bps d.breakpoints in
        let bvr = location - location % 4 in
        let hw_bp : Breakpoint = record bp {
          hw = true;
          hw_bp_reg = r;
          bcr = bcr_value;
          bvr = bvr;
        } in
        if eq_ℤ r (negsuc 0)
        then finish_new bp d
        else elim (edit_for (write_bp r bcr_value bvr) info d) [
          | none ↦ (inl thread_gone, d)
          | some d' ↦ finish_new hw_bp d'
        ]
  ]
