-- ===== src/Breakpoint/Reach.antt =====
-- Every operation of source/breakpoint.c as a step, and the invariant along the steps.
use iosdbg.Base.{ℕ, ◌≡◌, ◌≢◌, Bool, true, false, some}
use iosdbg.Base.Int.{ℤ}
use iosdbg.LinkedList.Items.{has_key}
use iosdbg.Debuggee.{Ptr, Breakpoint, Kernel, Debuggee}
use iosdbg.Breakpoint.{self_of, Cond, meets}
use iosdbg.Breakpoint.State.{
  bp_set_state_internal, bp_delete_internal, breakpoint_at_address, set_stepping_breakpoint,
  breakpoint_hit, breakpoint_delete_specific, breakpoint_delete, breakpoint_enable,
  breakpoint_disable, breakpoint_enable_all, breakpoint_disable_all, breakpoint_enable_all_specific,
  breakpoint_disable_all_except, breakpoint_delete_all, breakpoint_delete_all_specific,
  needs_disable,
}
use iosdbg.Breakpoint.Inv.{IsValid}
use iosdbg.Breakpoint.Loops.{set_all, delete_all}
use iosdbg.Breakpoint.Steps.{breakpoint_new-NewPost}
use iosdbg.Breakpoint.Preserve.{
  install_made-IsValid, set_state-IsValid, delete-IsValid, hit-IsValid, on_id-IsValid,
  SetAll-IsValid, DeleteAll-IsValid,
}

module _ {W : Type 0} (k : Kernel W) where
  -- The calls that the other files of the program make, each from the state it finds. A breakpoint
  -- that is set gets an address that is not NULL and that no breakpoint of the list has; one that
  -- is passed in is one of the list.
  pub data Step (d : Debuggee W) : Debuggee W → Type 0 where
    at_address :
        (self : Ptr) (address : ℕ) (temporary : Bool) (thread : ℤ)
        → self ≢ 0
        → has_key self_of self d.breakpoints ≡ false
        → Step d (breakpoint_at_address k self address temporary thread d).1
    set_stepping :
        (self : Ptr) (address : ℕ) (thread : ℤ)
        → self ≢ 0
        → has_key self_of self d.breakpoints ≡ false
        → Step d (set_stepping_breakpoint k self address thread d).1
    hit :
        (bp : Breakpoint)
        → has_key self_of bp.self d.breakpoints ≡ true
        → Step d (breakpoint_hit k (some bp) d)
    delete_specific :
        (bp : Breakpoint)
        → has_key self_of bp.self d.breakpoints ≡ true
        → Step d (breakpoint_delete_specific k (some bp) d)
    delete : (id : ℕ) → Step d (breakpoint_delete k id d).1
    enable : (id : ℕ) → Step d (breakpoint_enable k id d).1
    disable : (id : ℕ) → Step d (breakpoint_disable k id d).1
    enable_all : Step d (breakpoint_enable_all k d)
    disable_all : Step d (breakpoint_disable_all k d)
    enable_all_specific : (way : Cond) → Step d (breakpoint_enable_all_specific k way d)
    disable_all_except : (way : Cond) → Step d (breakpoint_disable_all_except k way d)
    delete_all_step : Step d (breakpoint_delete_all k d)
    delete_all_specific : (way : Cond) → Step d (breakpoint_delete_all_specific k way d)

  pub data Reach (d : Debuggee W) : Debuggee W → Type 0 where
    here : Reach d d
    next : {d' d'' : Debuggee W} → Reach d d' → Step d' d'' → Reach d d''

  Step-IsValid : {d d' : Debuggee W} → IsValid d → Step d d' → IsValid d'
  unfolding breakpoint_at_address set_stepping_breakpoint breakpoint_delete_specific
      breakpoint_delete breakpoint_enable breakpoint_disable breakpoint_enable_all
      breakpoint_disable_all breakpoint_enable_all_specific breakpoint_disable_all_except
      breakpoint_delete_all breakpoint_delete_all_specific
  Step-IsValid {d} v (at_address self address temporary thread ne fresh) =
      install_made-IsValid k false self d _ v ne fresh
        (breakpoint_new-NewPost k self address temporary thread d)
  Step-IsValid {d} v (set_stepping self address thread ne fresh) =
      install_made-IsValid k true self d _ v ne fresh
        (breakpoint_new-NewPost k self address true thread d)
  Step-IsValid {d} v (hit bp mem) = hit-IsValid k bp d v mem
  Step-IsValid {d} v (delete_specific bp mem) = delete-IsValid k bp d v mem
  Step-IsValid {d} v (delete id) =
      on_id-IsValid k id (bp_delete_internal k) d v (λ bp mem. delete-IsValid k bp d v mem)
  Step-IsValid {d} v (enable id) =
      on_id-IsValid k id (λ bp. bp_set_state_internal k bp false) d v
        (λ bp _. set_state-IsValid k bp false d v)
  Step-IsValid {d} v (disable id) =
      on_id-IsValid k id (λ bp. bp_set_state_internal k bp true) d v
        (λ bp _. set_state-IsValid k bp true d v)
  Step-IsValid {d} v enable_all = SetAll-IsValid k (λ _. true) false d _ v (set_all k _ false d v)
  Step-IsValid {d} v disable_all = SetAll-IsValid k (λ _. true) true d _ v (set_all k _ true d v)
  Step-IsValid {d} v (enable_all_specific way) =
      SetAll-IsValid k (meets way) false d _ v (set_all k _ false d v)
  Step-IsValid {d} v (disable_all_except way) =
      SetAll-IsValid k (needs_disable way) true d _ v (set_all k _ true d v)
  Step-IsValid {d} v delete_all_step = DeleteAll-IsValid k (λ _. true) d _ v (delete_all k _ d v)
  Step-IsValid {d} v (delete_all_specific way) =
      DeleteAll-IsValid k (meets way) d _ v (delete_all k _ d v)

  -- From a valid state every sequence of operations leads to a valid state: the count is the number
  -- of breakpoints; no two have one address and none is NULL; each hardware breakpoint has a
  -- register of the device that no other has; and each breakpoint that is not temporary has an id
  -- below the next one that no other such breakpoint has.
  pub Reach-IsValid : {d d' : Debuggee W} → IsValid d → Reach d d' → IsValid d'
  Reach-IsValid v here = v
  Reach-IsValid v (next r s) = Step-IsValid (Reach-IsValid v r) s
