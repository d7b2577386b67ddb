-- ===== src/Watchpoint/Reach.antt =====
-- Every operation of source/watchpoint.c as a step, and the invariant along the steps.
use iosdbg.Base.{ℕ, ◌≡◌, ◌≢◌, ◌<◌, true, false, some, List, ◌⊎◌, inl, inr, length}
use iosdbg.Base.Int.{ℤ, pos, incr}
use iosdbg.LinkedList.Items.{add_item, has_key}
use iosdbg.Debuggee.{Ptr, Watchpoint, Kernel, Debuggee}
use iosdbg.Watchpoint.{
  self_of, access_of, Error, watchpoint_at_address, watchpoint_hit, watchpoint_delete_specific,
  watchpoint_delete, watchpoint_enable_all, watchpoint_disable_all, watchpoint_delete_all,
}
use iosdbg.Watchpoint.Frame.{Frame}

abbrev length_pos : List Watchpoint → ℤ
length_pos wps = pos (length wps)

module _ {W : Type 0} (k : Kernel W) where
  abbrev added : ℕ → (Error ⊎ Watchpoint) × Debuggee W → Debuggee W
  added lsc (inl e, d) = d
  added lsc (inr wp, d) = record d {
    watchpoints = add_item self_of d.watchpoints (record wp { type = access_of lsc });
    num_watchpoints = incr d.num_watchpoints;
  }

  -- The calls that the other files of the program make, each from the state it finds. A watchpoint
  -- that is set gets an address that is not NULL and that no watchpoint of the list has, and the access
  -- WP_READ, WP_WRITE or WP_READ_WRITE; one that is deleted is one of the list.
  pub data Step (d : Debuggee W) : Debuggee W → Type 0 where
    at_address :
        (self : Ptr) (junk location data_len lsc : ℕ) (thread : ℤ)
        → self ≢ 0
        → has_key self_of self d.watchpoints ≡ false
        → 0 < lsc
        → lsc < 4
        → Step d (watchpoint_at_address k self junk location data_len lsc thread d).1
    hit : (wp : Watchpoint) → Step d (watchpoint_hit k (some wp) d)
    delete_specific :
        (wp : Watchpoint)
        → has_key self_of wp.self d.watchpoints ≡ true
        → Step d (watchpoint_delete_specific k (some wp) d)
    delete : (id : ℕ) → Step d (watchpoint_delete k id d).1
    enable_all : Step d (watchpoint_enable_all k d)
    disable_all : Step d (watchpoint_disable_all k d)
    delete_all : Step d (watchpoint_delete_all k d)

  pub data Reach (d : Debuggee W) : Debuggee W → Type 0 where
    here : Reach d d
    next : {d' d'' : Debuggee W} → Reach d d' → Step d' d'' → Reach d d''
