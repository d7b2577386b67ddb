-- ===== src/Exception/Valid.antt =====
-- The list of breakpoints stays valid through every exception that source/exception.c handles.
use iosdbg.Base.{
  ℕ, ◌≡◌, refl, Bool, true, false, ◌&&◌, Option, none, some, List, [], ◌∷◌, ◌==◌, if◌then◌else◌,
  get_elem?, Bool-cases, ◌⊎◌, inl, inr,
}
use iosdbg.Debuggee.{MachThread, Breakpoint, Watchpoint, Kernel, Debuggee}
use iosdbg.Thread.{focused}
use iosdbg.Thread.Focus.{index_with}
use iosdbg.Memory.{read_memory_at_location}
use iosdbg.Breakpoint.{normal, find_bp_with_cond}
use iosdbg.Breakpoint.State.{breakpoint_enable, breakpoint_enable_all_specific}
use iosdbg.Breakpoint.Inv.{IsValid}
use iosdbg.Breakpoint.Preserve.{hit-IsValid}
use iosdbg.Breakpoint.Reach.{Reach-IsValid, here, next, enable, enable_all_specific}
use iosdbg.Watchpoint.{find_wp_with_address, watchpoint_hit}
use iosdbg.Sigsupport.{Setting, SignalError}
use iosdbg.Thread.{get_thread_state}
use iosdbg.Exception.{
  Outcome, Request, Codes, with_debuggee, write_thread, handle_soft_signal, report_watchpoint,
  handle_hit_watchpoint, handle_hit_breakpoint, past_breakpoint, handle_single_step, announce_step,
  stepped, on_step, on_breakpoint, on_watchpoint, on_signal, dispatch, on_thread, handle_exception,
  focus_on, is_over, quiet, print, stay, disassembly, resuming,
}
use iosdbg.Exception.Hit.{
  keep, thread_kept, single_step-IsValid, on_hit-IsValid, find_bp_with_cond-mem,
}

-- Where a handler returns, it leaves a valid list.
abbrev pub Kept : {W : Type 0} → Option (Outcome W) → Type 0
Kept none = Unit {0}
Kept (some o) = IsValid o.debuggee

choose :
    {W : Type 0} (b : Bool) (x y : Option (Outcome W)) → Kept x → Kept y → Kept (if b then x else y)
choose true x y p q = p
choose false x y p q = q

module _ {W : Type 0} (k : Kernel W) where
  handle_hit_breakpoint-IsValid :
      (i : ℕ) (t : MachThread) (subcode : ℕ) (o : Outcome W)
      → IsValid o.debuggee
      → IsValid (handle_hit_breakpoint k i t subcode o).debuggee
  unfolding handle_hit_breakpoint
  handle_hit_breakpoint-IsValid i t subcode o v = on_hit-IsValid k subcode i t o _ _ refl refl v

  handle_hit_watchpoint-Kept :
      (i : ℕ) (t : MachThread) (o : Outcome W)
      → IsValid o.debuggee
      → Kept (handle_hit_watchpoint k i t o)
  unfolding handle_hit_watchpoint report_watchpoint watchpoint_hit
  handle_hit_watchpoint-Kept i t o v =
      found (find_wp_with_address t.last_hit_wp_loc o.debuggee.watchpoints)
    where
      report :
          (hit : Watchpoint) (d : Debuggee W) (r : Option (ℕ × List ℕ))
          → IsValid d
          → Kept (elim r [
            | none ↦ none
            | some (status, now) ↦ some (report_watchpoint k i t hit now d o)
          ])
      report hit d none v = tt
      report hit d (some (status, now)) v =
          keep (record { breakpoints = refl; num = refl; num_hw = refl; next = refl }) v

      found :
          (r : Option Watchpoint)
          → Kept (elim r [
            | none ↦ some (quiet o)
            | some hit ↦
                let d = watchpoint_hit k (some hit) o.debuggee in
                elim (read_memory_at_location k d.world hit.user_location hit.bytes hit.data_len) [
                  | none ↦ none
                  | some (status, now) ↦ some (report_watchpoint k i t hit now d o)
                ]
          ])
      found none = v
      found (some hit) =
          report hit (watchpoint_hit k (some hit) o.debuggee) _
            (keep (record { breakpoints = refl; num = refl; num_hw = refl; next = refl }) v)

  enable_one :
      (sw : Bool) (i id : ℕ) (d : Debuggee W)
      → IsValid d
      → IsValid (
          if sw
          then write_thread i
              (λ u. record u { just_hit_sw_breakpoint = false })
              (breakpoint_enable k id d).1
          else d)
  enable_one true i id d v = thread_kept i _ _ (Reach-IsValid k v (next here (enable id)))
  enable_one false i id d v = v

  past_breakpoint-IsValid :
      (i : ℕ) (t : MachThread) (o : Outcome W)
      → IsValid o.debuggee
      → IsValid (past_breakpoint k i t o).debuggee
  unfolding past_breakpoint
  past_breakpoint-IsValid i t o v =
      let v₁ = enable_one t.just_hit_sw_breakpoint i t.last_hit_bkpt_id o.debuggee v in
      thread_kept i _ _ (elim (Bool-cases t.is_stepping) [
        | inl e ↦ simp e v₁
        | inr e ↦ elim (Bool-cases (is_over t.step_kind)) [
          | inl e' ↦ simp (e, e') (thread_kept i _ _ v₁)
          | inr e' ↦ simp (e, e') v₁
        ]
      ])

  handle_single_step-IsValid :
      (i : ℕ) (t : MachThread) (o : Outcome W)
      → IsValid o.debuggee
      → IsValid (handle_single_step k i t o).debuggee
  unfolding handle_single_step
  handle_single_step-IsValid i t o v =
      let d₁ = breakpoint_enable_all_specific k normal o.debuggee in
      let v₁ = Reach-IsValid k v (next here (enable_all_specific normal)) in
      elim (Bool-cases t.just_hit_breakpoint) [
        | inl e ↦ simp e (past_breakpoint-IsValid i t (with_debuggee d₁ o) v₁)
        | inr e ↦ elim (Bool-cases (is_over t.step_kind && t.set_temp_ss_breakpoint)) [
          | inl e' ↦ simp (e, e') v₁
          | inr e' ↦ simp (e, e') v₁
        ]
      ]

  bookkeeping :
      (i : ℕ) (f : MachThread → MachThread) (r : Option (Outcome W))
      → Kept r
      → Kept
          (elim r [ none ↦ none | some o ↦ some (with_debuggee (write_thread i f o.debuggee) o) ])
  bookkeeping i f none v = tt
  bookkeeping i f (some o) v = thread_kept i f o.debuggee v

  pub announce_step-IsValid :
      (addr : ℕ) (t : MachThread) (o : Outcome W) (r : Option Breakpoint)
      → find_bp_with_cond addr normal o.debuggee.breakpoints ≡ r
      → IsValid o.debuggee
      → IsValid (announce_step k t o r).debuggee
  unfolding announce_step
  announce_step-IsValid addr t o none e v = v
  announce_step-IsValid addr t o (some hit) e v =
      hit-IsValid k hit o.debuggee v (find_bp_with_cond-mem addr normal _ hit e)

  stepped-IsValid :
      (i : ℕ) (t : MachThread) (o : Outcome W)
      → IsValid o.debuggee
      → IsValid (stepped k i t o).debuggee
  unfolding stepped
  stepped-IsValid i t o v =
      thread_kept i _ _ (handle_single_step-IsValid i t _ (first t.is_stepping))
    where
      first :
          (b : Bool)
          → IsValid
              (if b
                then announce_step k t o (find_bp_with_cond t.pc normal o.debuggee.breakpoints)
                else o).debuggee
      first true = announce_step-IsValid t.pc t o _ refl v
      first false = v

  on_step-Kept :
      (i : ℕ) (t : MachThread) (o : Outcome W) → IsValid o.debuggee → Kept (on_step k i t o)
  unfolding on_step
  on_step-Kept i t o v =
      choose t.just_hit_watchpoint _ _
        (bookkeeping i _ (handle_hit_watchpoint k i t o) (handle_hit_watchpoint-Kept i t o v))
        (stepped-IsValid i t o v)

  on_breakpoint-IsValid :
      (i : ℕ) (t : MachThread) (subcode : ℕ) (o : Outcome W)
      → IsValid o.debuggee
      → IsValid (on_breakpoint k i t subcode o).debuggee
  unfolding on_breakpoint
  on_breakpoint-IsValid i t subcode o v =
      single_step-IsValid k i _ (handle_hit_breakpoint-IsValid i t subcode _ (thread_kept i _ _ v))

  on_watchpoint-IsValid :
      (i : ℕ) (t : MachThread) (subcode : ℕ) (o : Outcome W)
      → IsValid o.debuggee
      → IsValid (on_watchpoint k i t subcode o).debuggee
  unfolding on_watchpoint
  on_watchpoint-IsValid i t subcode o v = single_step-IsValid k i _ (thread_kept i _ _ v)

  handle_soft_signal-IsValid :
      (port subcode : ℕ) (s : Setting) (o : Outcome W)
      → IsValid o.debuggee
      → IsValid (handle_soft_signal k port subcode s o).debuggee
  unfolding handle_soft_signal
  handle_soft_signal-IsValid port subcode s o v = elim (Bool-cases s.pass) [
    | inl e ↦ rw e v
    | inr e ↦ rw e (keep (record { breakpoints = refl; num = refl; num_hw = refl; next = refl }) v)
  ]

  on_signal-IsValid :
      (t : MachThread) (subcode : ℕ) (s : Setting) (o : Outcome W)
      → IsValid o.debuggee
      → IsValid (on_signal k t subcode s o).debuggee
  unfolding on_signal
  on_signal-IsValid t subcode s o v = by_flags s.notify s.stop
    where
      w : IsValid (handle_soft_signal k t.port subcode s o).debuggee
      w = handle_soft_signal-IsValid t.port subcode s o v

      by_flags :
          (notify stop : Bool)
          → let o₁ = handle_soft_signal k t.port subcode s o in
            IsValid
              (if notify
                then (if stop
                    then stay (print (disassembly t.pc ∷ []) o₁)
                    else print (resuming ∷ []) o₁)
                else (if stop then stay (quiet o₁) else quiet o₁)).debuggee
      by_flags true true = w
      by_flags true false = w
      by_flags false true = w
      by_flags false false = w

  module _ (c : Codes) (table : List Setting) where
    signalled :
        (t : MachThread) (subcode : ℕ) (o : Outcome W)
        (r : Option ((SignalError ⊎ Setting) × List Setting))
        → IsValid o.debuggee
        → Kept (elim r [
          | none ↦ none
          | some (asked, table') ↦ elim asked [
            | inl e ↦ none
            | inr s ↦ some (on_signal k t subcode s o)
          ]
        ])
    signalled t subcode o none v = tt
    signalled t subcode o (some (inl e, table')) v = tt
    signalled t subcode o (some (inr s, table')) v = on_signal-IsValid t subcode s o v

    dispatch-Kept :
        (i : ℕ) (t : MachThread) (r : Request) (o : Outcome W)
        → IsValid o.debuggee
        → Kept (dispatch k c table i t r o)
    unfolding dispatch
    dispatch-Kept i t r o v = choose (r.code_cnt == 0x41414141) _ _ v (
        choose ((r.exception == c.exc_software) && (r.code == c.exc_soft_signal)) _ _
          (signalled t r.subcode o _ v)
          (choose (r.code == c.exc_arm_da_debug) _ _ (on_watchpoint-IsValid i t r.subcode o v) (
            choose ((r.exception == c.exc_breakpoint) && (r.code == c.exc_arm_breakpoint)) _ _
              (choose (r.subcode == 0) _ _ (on_step-Kept i t o v)
                (on_breakpoint-IsValid i t r.subcode o v))
              v)))

    on_thread-Kept :
        (i : ℕ) (t : MachThread) (r : Request) (o : Outcome W)
        → IsValid o.debuggee
        → Kept (on_thread k c table i t r o)
    unfolding on_thread
    on_thread-Kept i t r o v =
        dispatch-Kept i (get_thread_state k o.debuggee.world t) r _ (thread_kept i _ _ v)

    -- From a valid list of breakpoints, every exception that is handled leads to a valid one, whether
    -- it is a signal, a watchpoint, a breakpoint, a step or another one.
    pub handle_exception-Kept :
        (r : Request) (o : Outcome W) → IsValid o.debuggee → Kept (handle_exception k c table r o)
    unfolding handle_exception
    handle_exception-Kept r o v =
        let ts = focus_on r.thread o.debuggee.threads in
        let o₁ = with_debuggee (record o.debuggee { threads = ts }) o in
        let v₁ : IsValid o₁.debuggee =
          keep (record { breakpoints = refl; num = refl; num_hw = refl; next = refl }) v in
        with_focus ts o₁ v₁ (index_with focused ts)
      where
        on_it :
            (i : ℕ) (o₁ : Outcome W) (t : Option MachThread)
            → IsValid o₁.debuggee
            → Kept (elim t [ none ↦ none | some t ↦ on_thread k c table i t r o₁ ])
        on_it i o₁ none v₁ = tt
        on_it i o₁ (some t) v₁ = on_thread-Kept i t r o₁ v₁

        with_focus :
            (ts : List MachThread) (o₁ : Outcome W)
            → IsValid o₁.debuggee
            → (f : Option ℕ)
            → Kept (elim f [
              | none ↦ some (quiet o₁)
              | some i ↦ elim (get_elem? ts i) [
                | none ↦ none
                | some t ↦ on_thread k c table i t r o₁
              ]
            ])
        with_focus ts o₁ v₁ none = v₁
        with_focus ts o₁ v₁ (some i) = on_it i o₁ (get_elem? ts i) v₁
