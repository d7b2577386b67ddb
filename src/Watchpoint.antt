-- ===== src/Watchpoint.antt =====
-- source/watchpoint.c: setting, deleting, enabling and disabling watchpoints, over the same state
-- as source/breakpoint.c. A watchpoint is found again by the address of its object, which `malloc`
-- gives as the argument `self`. The locks are not modelled; what is printed is left out.
pub mod Control
pub mod Registers
pub mod Address
pub mod Inv
pub mod Shape
pub mod Frame
pub mod Reach
mod Tests
use Prim.Native.Nat.{bit_or}
use iosdbg.Base.{
  ℕ, zero, suc, ◌+◌, ◌-◌, ◌*◌, ◌/◌, ◌%◌, ◌^◌, Bool, true, false, ◌||◌, Option, none, some, List, [],
  ◌∷◌, ◌==◌, ltb, if◌then◌else◌, set, replicate, ◌⊎◌, inl, inr,
}
use iosdbg.Base.Int.{ℤ, pos, negsuc, incr, decr, eq_ℤ}
use iosdbg.LinkedList.Items.{add_item, delete_item}
use iosdbg.Debuggee.{Ptr, DebugState, MachThread, ThreadInfo, Watchpoint, Kernel, Debuggee}
use iosdbg.Thread.{find_thread_from_id, edit_all, edit_id}
use iosdbg.Memory.{read_memory_at_location}
use iosdbg.Breakpoint.{set_reg, first_spot}

abbrev pub self_of : Watchpoint → Ptr
self_of wp = wp.self

-- WP_ALL_THREADS
abbrev pub wp_all_threads : ℤ
wp_all_threads = negsuc 0

pub data Error : Type 0 where
  invalid_length : ℕ → Error
  no_such_thread : ℤ → Error
  could_not_read : ℕ → Error
  no_registers : ℕ → Error
  thread_gone : Error
  not_found : ℕ → Error

-- `wp_map[wp->hw_wp_reg] = 0` for each watchpoint; `true` is a spot that is not used.
unfoldable pub mark_used : List Bool → List Watchpoint → List Bool
mark_used spots [] = spots
mark_used spots (wp ∷ wps) = mark_used (set spots wp.hw_wp_reg false) wps

pub find_ready_wp_reg : ℕ → List Watchpoint → ℤ
unfolding mark_used first_spot
find_ready_wp_reg n wps = first_spot 0 (mark_used (replicate n true) wps)

-- BAS | LSC | PAC | E, where `lsc` is already shifted.
pub wcr_value : (location data_len lsc : ℕ) → ℕ
wcr_value location data_len lsc =
    bit_or (bit_or (bit_or ((2 ^ data_len - 1) * 2 ^ (location % 8) * 2 ^ 5) lsc) 4) 1

-- location & ~0x7
abbrev pub aligned : ℕ → ℕ
aligned location = location - location % 8

-- The access that the text of the type names: "r", "w" or "rw".
abbrev pub access_of : ℕ → ℕ
access_of lsc = if lsc == 2 then 2 else if lsc == 3 then 3 else 1

abbrev pub write_wp : ℕ → (wcr wvr : ℕ) → DebugState → DebugState
write_wp r wcr wvr st = record st {
  wcr = set_reg st.wcr (pos r) wcr;
  wvr = set_reg st.wvr (pos r) wvr;
}

abbrev pub clear_wp : ℕ → DebugState → DebugState
clear_wp r st = record st { wcr = set_reg st.wcr (pos r) 0 }

unfoldable pub make_info : ℤ → List MachThread → Option ThreadInfo
make_info thread ts =
    if eq_ℤ thread wp_all_threads
    then some (record { all = true; iosdbg_tid = pos 0; pthread_tid = 0; tname = none })
    else elim (find_thread_from_id thread ts) [
      | none ↦ none
      | some t ↦
          some
            (record { all = false; iosdbg_tid = thread; pthread_tid = t.tid; tname = some t.tname })
    ]

unfoldable pub find_wp_with_address : ℕ → List Watchpoint → Option Watchpoint
find_wp_with_address addr [] = none
find_wp_with_address addr (wp ∷ wps) =
    if wp.aligned_location == aligned addr then some wp else find_wp_with_address addr wps

unfoldable pub update_wp : Ptr → (Watchpoint → Watchpoint) → List Watchpoint → List Watchpoint
update_wp p f [] = []
update_wp p f (wp ∷ wps) = (if wp.self == p then f wp else wp) ∷ update_wp p f wps

unfoldable pub find_id : ℕ → List Watchpoint → Option Watchpoint
find_id id [] = none
find_id id (wp ∷ wps) = if wp.id == id then some wp else find_id id wps

module _ {W : Type 0} (k : Kernel W) where
  -- An operation on the debug registers of the threads that a watchpoint is for.
  unfoldable pub edit_for :
      (DebugState → DebugState) → ThreadInfo → Debuggee W → Option (Debuggee W)
  edit_for f info d =
      if info.all
      then (let (ts, w) = edit_all k f d.world d.threads in
          some (record d { threads = ts; world = w }))
      else elim (edit_id k f d.world info.iosdbg_tid d.threads) [
        | none ↦ none
        | some (ts, w) ↦ some (record d { threads = ts; world = w })
      ]

  abbrev pub Made : Type 0
  Made = (Error ⊎ Watchpoint) × Debuggee W

  -- From `wp->hw_wp_reg = available_wp_reg` on; the type is written by the caller, and 0 here.
  unfoldable pub on_register :
      Ptr → (location data_len lsc : ℕ) → ThreadInfo → (bytes : List ℕ) → ℤ → Debuggee W → Made
  unfolding wcr_value edit_for
  on_register self location data_len lsc info bytes (negsuc n) d =
      (inl (no_registers d.num_hw_wps), d)
  on_register self location data_len lsc info bytes (pos r) d =
      let wcr = wcr_value location data_len lsc in
      let wp : Watchpoint = record {
        self = self;
        id = d.current_watchpoint_id;
        user_location = location;
        aligned_location = aligned location;
        hit_count = 0;
        bytes = bytes;
        data_len = data_len;
        hw_wp_reg = r;
        type = 0;
        threadinfo = info;
        wcr = wcr;
        wvr = aligned location;
      } in
      elim (edit_for (write_wp r wcr (aligned location)) info d) [
        | none ↦ (inl thread_gone, d)
        | some d' ↦ (inr wp, record d' { current_watchpoint_id = d'.current_watchpoint_id + 1 })
      ]

  -- The bytes of the block `wp->data` before the read are `junk`.
  pub watchpoint_new :
      Ptr → (junk : ℕ) → (location data_len lsc : ℕ) (thread : ℤ) → Debuggee W → Made
  unfolding make_info on_register find_ready_wp_reg
  watchpoint_new self junk location data_len lsc thread d =
      if (data_len == 0) || ltb 8 data_len
      then (inl (invalid_length data_len), d)
      else elim (make_info thread d.threads) [
        | none ↦ (inl (no_such_thread thread), d)
        | some info ↦
            elim (read_memory_at_location k d.world location (replicate data_len junk) data_len) [
              | none ↦ (inl (could_not_read location), d)
              | some (status, buf) ↦
                  if status == 0
                  then on_register self location data_len lsc info buf
                      (find_ready_wp_reg d.num_hw_wps d.watchpoints) d
                  else (inl (could_not_read location), d)
            ]
      ]

  -- A thread that is gone is passed over.
  unfoldable pub try_edit : (DebugState → DebugState) → ThreadInfo → Debuggee W → Debuggee W
  unfolding edit_for
  try_edit f info d = elim (edit_for f info d) [ none ↦ d | some d' ↦ d' ]

  pub enable_wp : Watchpoint → Debuggee W → Debuggee W
  unfolding try_edit
  enable_wp wp d = try_edit (write_wp wp.hw_wp_reg wp.wcr wp.wvr) wp.threadinfo d

  pub disable_wp : Watchpoint → Debuggee W → Debuggee W
  unfolding try_edit
  disable_wp wp d = try_edit (clear_wp wp.hw_wp_reg) wp.threadinfo d

  pub wp_set_state_internal : Watchpoint → Bool → Debuggee W → Debuggee W
  unfolding enable_wp disable_wp
  wp_set_state_internal wp disabled d = if disabled then disable_wp wp d else enable_wp wp d

  pub wp_delete_internal : Watchpoint → Debuggee W → Debuggee W
  unfolding disable_wp
  wp_delete_internal wp d =
      let d' = disable_wp wp d in
      record d' {
        watchpoints = delete_item self_of d'.watchpoints wp.self;
        num_watchpoints = decr d'.num_watchpoints;
      }

  -- `lsc` is WP_READ, WP_WRITE or WP_READ_WRITE, shifted here.
  pub watchpoint_at_address :
      Ptr → (junk : ℕ) → (location data_len lsc : ℕ) (thread : ℤ) → Debuggee W → Made
  unfolding watchpoint_new
  watchpoint_at_address self junk location data_len lsc thread d =
      let (made, d') = watchpoint_new self junk location data_len (lsc * 8) thread d in
      elim made [
        | inl e ↦ (inl e, d')
        | inr wp ↦
            let typed : Watchpoint = record wp { type = access_of lsc } in
            (
              inr typed,
              record d' {
                watchpoints = add_item self_of d'.watchpoints typed;
                num_watchpoints = incr d'.num_watchpoints;
              },
            )
      ]

  -- A NULL watchpoint is `none`.
  unfoldable pub watchpoint_hit : Option Watchpoint → Debuggee W → Debuggee W
  unfolding update_wp
  watchpoint_hit none d = d
  watchpoint_hit (some wp) d = record d {
    watchpoints = update_wp wp.self (λ v. record v { hit_count = v.hit_count + 1 }) d.watchpoints;
  }

  pub watchpoint_delete_specific : Option Watchpoint → Debuggee W → Debuggee W
  unfolding wp_delete_internal
  watchpoint_delete_specific none d = d
  watchpoint_delete_specific (some wp) d = wp_delete_internal wp d

  pub watchpoint_delete : ℕ → Debuggee W → Option Error × Debuggee W
  unfolding wp_delete_internal find_id
  watchpoint_delete id d = elim (find_id id d.watchpoints) [
    | none ↦ (some (not_found id), d)
    | some wp ↦ (none, wp_delete_internal wp d)
  ]

  unfoldable pub foreach :
      (Watchpoint → Debuggee W → Debuggee W) → List Watchpoint → Debuggee W → Debuggee W
  foreach op [] d = d
  foreach op (wp ∷ wps) d = foreach op wps (op wp d)

  pub watchpoint_enable_all : Debuggee W → Debuggee W
  unfolding foreach wp_set_state_internal
  watchpoint_enable_all d = foreach (λ wp. wp_set_state_internal wp false) d.watchpoints d

  pub watchpoint_disable_all : Debuggee W → Debuggee W
  unfolding foreach wp_set_state_internal
  watchpoint_disable_all d = foreach (λ wp. wp_set_state_internal wp true) d.watchpoints d

  pub watchpoint_delete_all : Debuggee W → Debuggee W
  unfolding foreach wp_delete_internal
  watchpoint_delete_all d = foreach wp_delete_internal d.watchpoints d
