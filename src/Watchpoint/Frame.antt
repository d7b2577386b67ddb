-- ===== src/Watchpoint/Frame.antt =====
-- source/watchpoint.c: what the operations do to the list of watchpoints, to its count and to the
-- next id; an edit of the debug registers leaves these alone.
use iosdbg.Base.{
  ℕ, ◌+◌, ◌*◌, ◌≡◌, ◌≢◌, ◌<◌, refl, Bool, true, false, ◌&&◌, ◌||◌, Option, none, some, List, ◌==◌,
  ltb, leb, if◌then◌else◌, ◌⊎◌, inl, inr, arith, Bool-cases, replicate,
}
use iosdbg.Base.Int.{ℤ, pos, negsuc, decr}
use iosdbg.LinkedList.Items.{drop_key}
use iosdbg.Debuggee.{Ptr, DebugState, MachThread, ThreadInfo, Watchpoint, Kernel, Debuggee}
use iosdbg.Thread.{edit_id}
use iosdbg.Memory.{read_memory_at_location}
use iosdbg.Watchpoint.{
  self_of, Error, thread_gone, no_such_thread, could_not_read, make_info, wcr_value, aligned,
  edit_for, try_edit, enable_wp, disable_wp, wp_set_state_internal, wp_delete_internal, write_wp,
  clear_wp, access_of, on_register, watchpoint_new, find_ready_wp_reg,
}
use iosdbg.Watchpoint.Registers.{uses, find_ready_wp_reg-unused}
use iosdbg.Watchpoint.Control.{user_watch, wcr_value-user_watch}
use iosdbg.Watchpoint.Inv.{shaped}

pub record Frame {W : Type 0} (d d' : Debuggee W) : Type 0 where
  pub watchpoints : d'.watchpoints ≡ d.watchpoints
  pub num : d'.num_watchpoints ≡ d.num_watchpoints
  pub num_hw : d'.num_hw_wps ≡ d.num_hw_wps
  pub next : d'.current_watchpoint_id ≡ d.current_watchpoint_id

pub Frame-refl : {W : Type 0} (d : Debuggee W) → Frame d d
Frame-refl d = record { watchpoints = refl; num = refl; num_hw = refl; next = refl }

-- `lsc` is what the caller asked for, before it is shifted.
abbrev pub NewPost :
    {W : Type 0} → Ptr → ℕ → Debuggee W → (Error ⊎ Watchpoint) × Debuggee W → Type 0
NewPost self lsc d (inl e, d') = d' ≡ d
NewPost self lsc d (inr wp, d') =
    (d'.watchpoints ≡ d.watchpoints)
    × (d'.num_watchpoints ≡ d.num_watchpoints)
    × (d'.num_hw_wps ≡ d.num_hw_wps)
    × (d'.current_watchpoint_id ≡ d.current_watchpoint_id + 1)
    × (wp.self ≡ self)
    × (wp.id ≡ d.current_watchpoint_id)
    × (ltb wp.hw_wp_reg d.num_hw_wps ≡ true)
    × (uses wp.hw_wp_reg d.watchpoints ≡ false)
    × (shaped (record wp { type = access_of lsc }) ≡ true)

eq_self : (n : ℕ) → (n == n) ≡ true
eq_self n = ground arith

module _ {W : Type 0} (k : Kernel W) where
  -- The edit fails, or it changes the threads and the state of the kernel only.
  abbrev Edits : Debuggee W → Option (Debuggee W) → Type 0
  Edits d r =
      (r ≡ none)
      ⊎ ((ts : List MachThread) × (w : W) × (r ≡ some (record d { threads = ts; world = w })))

  edit_for-Edits :
      (f : DebugState → DebugState) (info : ThreadInfo) (d : Debuggee W)
      → Edits d (edit_for k f info d)
  unfolding edit_for
  edit_for-Edits f info d = elim (Bool-cases info.all) [
    | inl all ↦ rw all (inr (_, _, refl))
    | inr one ↦ rw one (go (edit_id k f d.world info.iosdbg_tid d.threads))
  ]
    where
      go :
          (r : Option (List MachThread × W))
          → Edits d
              (elim r [ none ↦ none | some (ts, w) ↦ some (record d { threads = ts; world = w }) ])
      go none = inl refl
      go (some (ts, w)) = inr (ts, w, refl)

  pub try_edit-Frame :
      (f : DebugState → DebugState) (info : ThreadInfo) (d : Debuggee W)
      → Frame d (try_edit k f info d)
  unfolding try_edit edit_for
  try_edit-Frame f info d = go (edit_for k f info d) (edit_for-Edits f info d)
    where
      go : (r : Option (Debuggee W)) → Edits d r → Frame d (elim r [ none ↦ d | some d' ↦ d' ])
      go r (inl e) = rw e (Frame-refl d)
      go r (inr (ts, w, e)) =
          rw e (record { watchpoints = refl; num = refl; num_hw = refl; next = refl })

  pub set_state-Frame :
      (wp : Watchpoint) (off : Bool) (d : Debuggee W) → Frame d (wp_set_state_internal k wp off d)
  unfolding wp_set_state_internal enable_wp disable_wp
  set_state-Frame wp true d = try_edit-Frame _ wp.threadinfo d
  set_state-Frame wp false d = try_edit-Frame _ wp.threadinfo d

  pub delete-lists :
      (wp : Watchpoint) (d : Debuggee W)
      → wp.self ≢ 0
      → ((wp_delete_internal k wp d).watchpoints ≡ drop_key self_of wp.self d.watchpoints)
        × ((wp_delete_internal k wp d).num_watchpoints ≡ decr d.num_watchpoints)
        × ((wp_delete_internal k wp d).num_hw_wps ≡ d.num_hw_wps)
        × ((wp_delete_internal k wp d).current_watchpoint_id ≡ d.current_watchpoint_id)
  unfolding wp_delete_internal disable_wp
  delete-lists wp d ne =
      let f = try_edit-Frame (clear_wp wp.hw_wp_reg) wp.threadinfo d in
      let e : (wp.self == 0) ≡ false = ground (arith, ne) in
      (rw (e, f.watchpoints) refl, rw f.num refl, f.num_hw, f.next)

  on_register-NewPost :
      (self : Ptr) (location data_len lsc : ℕ) (info : ThreadInfo) (bytes : List ℕ) (r : ℤ)
      (d : Debuggee W)
      → find_ready_wp_reg d.num_hw_wps d.watchpoints ≡ r
      → ((data_len == 0) || ltb 8 data_len) ≡ false
      → 0 < lsc
      → lsc < 4
      → NewPost self lsc d (on_register k self location data_len (lsc * 8) info bytes r d)
  unfolding on_register edit_for
  on_register-NewPost self location data_len lsc info bytes (negsuc n) d e small some_access
        access =
      refl
  on_register-NewPost self location data_len lsc info bytes (pos r) d e small some_access access =
      go (edit_for k (write_wp r wcr (aligned location)) info d)
        (edit_for-Edits (write_wp r wcr (aligned location)) info d)
    where
      wcr : ℕ
      wcr = wcr_value location data_len (lsc * 8)

      wp : Watchpoint
      wp = record {
        self = self;
        id = d.current_watchpoint_id;
        user_location = location;
        aligned_location = aligned location;
        hit_count = 0;
        bytes = bytes;
        data_len = data_len;
        hw_wp_reg = r;
        type = 0;
        threadinfo = info;
        wcr = wcr;
        wvr = aligned location;
      }

      free : (r < d.num_hw_wps) × (uses r d.watchpoints ≡ false)
      free = find_ready_wp_reg-unused d.num_hw_wps d.watchpoints r e

      below : ltb r d.num_hw_wps ≡ true
      below = ground (arith, free.0)

      shape :
          ((aligned location == aligned location)
            && ((aligned location == aligned location)
                && (leb data_len 8
                    && (wcr_value location data_len (lsc * 8)
                        == user_watch location data_len (access_of lsc)))))
          ≡ true
      shape =
          let named : access_of lsc ≡ lsc = ground arith in
          let le : leb data_len 8 ≡ true = ground arith in
          rw
            (
              named,
              wcr_value-user_watch location data_len lsc (ground arith) access,
              le,
              eq_self (aligned location),
              eq_self (user_watch location data_len lsc),
            )
            refl

      go :
          (out : Option (Debuggee W))
          → Edits d out
          → NewPost self lsc d (elim out [
            | none ↦ (inl thread_gone, d)
            | some d' ↦ (inr wp, record d' { current_watchpoint_id = d'.current_watchpoint_id + 1 })
          ])
      go out (inl gone) = rw gone refl
      go out (inr (ts, w, done)) =
          rw done (refl, refl, refl, refl, refl, refl, below, free.1, shape)

  pub watchpoint_new-NewPost :
      (self : Ptr) (junk location data_len lsc : ℕ) (thread : ℤ) (d : Debuggee W)
      → 0 < lsc
      → lsc < 4
      → NewPost self lsc d (watchpoint_new k self junk location data_len (lsc * 8) thread d)
  unfolding watchpoint_new
  watchpoint_new-NewPost self junk location data_len lsc thread d some_access access =
      elim (Bool-cases ((data_len == 0) || ltb 8 data_len)) [
        | inl wrong ↦ rw wrong refl
        | inr small ↦ rw small (with_info small (make_info thread d.threads))
      ]
    where
      with_read :
          ((data_len == 0) || ltb 8 data_len) ≡ false
          → (info : ThreadInfo) (r : Option (ℕ × List ℕ))
          → NewPost self lsc d (elim r [
            | none ↦ (inl (could_not_read location), d)
            | some (status, buf) ↦
                if status == 0
                then on_register k self location data_len
                    (lsc * 8)
                    info
                    buf
                    (find_ready_wp_reg d.num_hw_wps d.watchpoints)
                    d
                else (inl (could_not_read location), d)
          ])
      with_read small info none = refl
      with_read small info (some (status, buf)) = elim (Bool-cases (status == 0)) [
        | inl e ↦ rw e (
            on_register-NewPost self location data_len lsc info buf _ d refl small some_access
              access)
        | inr e ↦ rw e refl
      ]

      with_info :
          ((data_len == 0) || ltb 8 data_len) ≡ false
          → (r : Option ThreadInfo)
          → NewPost self lsc d (elim r [
            | none ↦ (inl (no_such_thread thread), d)
            | some info ↦
                elim (read_memory_at_location k d.world location
                  (replicate data_len junk)
                  data_len) [
                    | none ↦ (inl (could_not_read location), d)
                    | some (status, buf) ↦
                        if status == 0
                        then on_register k self location data_len
                            (lsc * 8)
                            info
                            buf
                            (find_ready_wp_reg d.num_hw_wps d.watchpoints)
                            d
                        else (inl (could_not_read location), d)
                  ]
          ])
      with_info small none = refl
      with_info small (some info) =
          with_read small info
            (read_memory_at_location k d.world location (replicate data_len junk) data_len)
