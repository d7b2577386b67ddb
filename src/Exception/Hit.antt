-- ===== src/Exception/Hit.antt =====
-- What the handler of a breakpoint in source/exception.c does to the list of breakpoints.
use iosdbg.Base.{
  ℕ, ◌+◌, ◌≡◌, ◌≢◌, refl, Bool, true, false, Option, none, some, List, [], ◌∷◌, ◌==◌, if◌then◌else◌,
  arith, Bool-cases, inl, inr, ◌∙◌,
}
use iosdbg.LinkedList.Items.{has_key, Distinct, has_key-drop_key_other}
use iosdbg.Debuggee.{Ptr, MachThread, Breakpoint, Kernel, Debuggee}
use iosdbg.Breakpoint.{Cond, self_of, normal, stepping, meets, find_bp_with_cond}
use iosdbg.Breakpoint.State.{
  update_bp, bp_delete_internal, breakpoint_hit, breakpoint_delete_specific, breakpoint_disable,
}
use iosdbg.Breakpoint.Inv.{IsValid}
use iosdbg.Breakpoint.Frame.{SameLists, delete-Deleted}
use iosdbg.Breakpoint.Preserve.{hit-IsValid, ne_null_of_mem}
use iosdbg.Breakpoint.Reach.{Reach-IsValid, here, next, disable}
use iosdbg.Exception.{
  Outcome, with_debuggee, write_thread, enable_single_step, after_step, for_another, finish_hit,
  on_hit, quiet,
}

pub find_bp_with_cond-mem :
    (addr : ℕ) (way : Cond) (bps : List Breakpoint) (bp : Breakpoint)
    → find_bp_with_cond addr way bps ≡ some bp
    → has_key self_of bp.self bps ≡ true
unfolding find_bp_with_cond
find_bp_with_cond-mem addr way [] bp e = cc
find_bp_with_cond-mem addr way (b ∷ bps) bp e =
    ground (arith, find_bp_with_cond-mem addr way bps bp)

-- The breakpoint of the user and the one of the step are two.
hit_ne_step :
    (addr : ℕ) (bps : List Breakpoint) (hit step : Breakpoint)
    → Distinct self_of bps
    → find_bp_with_cond addr normal bps ≡ some hit
    → find_bp_with_cond addr stepping bps ≡ some step
    → hit.self ≢ step.self
unfolding find_bp_with_cond meets
hit_ne_step addr [] hit step d e₁ e₂ = λ e. cc
hit_ne_step addr (b ∷ bps) hit step d e₁ e₂ = λ e. ground (
  arith,
  e,
  hit_ne_step addr bps hit step d.1,
  find_bp_with_cond-mem addr normal bps hit,
  find_bp_with_cond-mem addr stepping bps step,
)

has_key-update_bp :
    (p q : Ptr) (f : Breakpoint → Breakpoint) (bps : List Breakpoint)
    → ((b : Breakpoint) → (f b).self ≡ b.self)
    → has_key self_of q (update_bp p f bps) ≡ has_key self_of q bps
unfolding update_bp
has_key-update_bp p q f [] same = refl
has_key-update_bp p q f (b ∷ bps) same = elim (Bool-cases (b.self == p)) [
  | inl e ↦ rw (e, same b, has_key-update_bp p q f bps same) refl
  | inr e ↦ rw (e, has_key-update_bp p q f bps same) refl
]

pub keep : {W : Type 0} {d d' : Debuggee W} → SameLists d d' → IsValid d → IsValid d'
keep s v = rebuild s.breakpoints s.num s.num_hw s.next v
  where
    rebuild :
        {W : Type 0} {d d' : Debuggee W}
        → d'.breakpoints ≡ d.breakpoints
        → d'.num_breakpoints ≡ d.num_breakpoints
        → d'.num_hw_bps ≡ d.num_hw_bps
        → d'.current_breakpoint_id ≡ d.current_breakpoint_id
        → IsValid d
        → IsValid d'
    rebuild e₁ e₂ e₃ e₄ v = record {
      count = rw (e₁, e₂) v.count;
      consistent = rw (e₁, e₃, e₄) v.consistent;
    }

pub thread_kept :
    {W : Type 0} (i : ℕ) (f : MachThread → MachThread) (d : Debuggee W)
    → IsValid d
    → IsValid (write_thread i f d)
thread_kept i f d v = keep (record { breakpoints = refl; num = refl; num_hw = refl; next = refl }) v

module _ {W : Type 0} (k : Kernel W) where
  still_there :
      (step : Breakpoint) (p : Ptr) (d : Debuggee W)
      → IsValid d
      → has_key self_of step.self d.breakpoints ≡ true
      → p ≢ step.self
      → has_key self_of p d.breakpoints ≡ true
      → has_key self_of p (breakpoint_hit k (some step) d).breakpoints ≡ true
  unfolding breakpoint_hit breakpoint_delete_specific bp_delete_internal
  still_there step p d v mem ne h = elim (Bool-cases step.temporary) [
    | inl e ↦
        let not_null = ne_null_of_mem step.self d.breakpoints v.consistent.null_free mem in
        let del = delete-Deleted k step d not_null v.consistent.distinct in
        rw (e, del.breakpoints) (has_key-drop_key_other self_of step.self p d.breakpoints ne h)
    | inr e ↦ rw e (
        has_key-update_bp step.self p (λ b. record b { hit_count = b.hit_count + 1 }) d.breakpoints
          (λ b. refl)
        ∙ h)
  ]

  after_step-IsValid :
      (step : Option Breakpoint) (i : ℕ) (d : Debuggee W)
      → IsValid d
      → ((s : Breakpoint) → step ≡ some s → has_key self_of s.self d.breakpoints ≡ true)
      → IsValid (after_step k step i d)
  unfolding after_step
  after_step-IsValid none i d v mem = v
  after_step-IsValid (some s) i d v mem = thread_kept i _ _ (hit-IsValid k s d v (mem s refl))

  pub single_step-IsValid :
      (i : ℕ) (d : Debuggee W) → IsValid d → IsValid (enable_single_step k i d)
  unfolding enable_single_step
  single_step-IsValid i d v =
      keep (record { breakpoints = refl; num = refl; num_hw = refl; next = refl }) v

  finish_hit-IsValid :
      (hit : Option Breakpoint) (i : ℕ) (o : Outcome W)
      → IsValid o.debuggee
      → ((h : Breakpoint) → hit ≡ some h → has_key self_of h.self o.debuggee.breakpoints ≡ true)
      → IsValid (finish_hit k hit i o).debuggee
  unfolding finish_hit
  finish_hit-IsValid none i o v mem = v
  finish_hit-IsValid (some h) i o v mem =
      let d₁ = breakpoint_hit k (some h) o.debuggee in
      let v₁ = hit-IsValid k h o.debuggee v (mem h refl) in thread_kept i _ _ (go h.hw d₁ v₁)
    where
      go :
          (hw : Bool) (d₁ : Debuggee W)
          → IsValid d₁
          → IsValid (
              if hw
              then d₁
              else (breakpoint_disable k h.id
                  (write_thread i (λ u. record u { just_hit_sw_breakpoint = true }) d₁)).1)
      go true d₁ v₁ = v₁
      go false d₁ v₁ = Reach-IsValid k (thread_kept i _ d₁ v₁) (next here (disable h.id))

  some_inj : {A : Type 0} {a b : A} → some a ≡ some b → a ≡ b
  some_inj e = cc

  still_there_after :
      (step : Breakpoint) (p : Ptr) (i : ℕ) (d : Debuggee W)
      → IsValid d
      → has_key self_of step.self d.breakpoints ≡ true
      → p ≢ step.self
      → has_key self_of p d.breakpoints ≡ true
      → has_key self_of p (after_step k (some step) i d).breakpoints ≡ true
  unfolding after_step
  still_there_after step p i d v mem ne h = still_there step p d v mem ne h

  either :
      (i : ℕ) (away : Bool) (hit : Option Breakpoint) (o : Outcome W)
      → IsValid o.debuggee
      → ((h : Breakpoint) → hit ≡ some h → has_key self_of h.self o.debuggee.breakpoints ≡ true)
      → IsValid (if away then quiet o else finish_hit k hit i o).debuggee
  either i true hit o v mem = v
  either i false hit o v mem = finish_hit-IsValid hit i o v mem

  pub on_hit-IsValid :
      (addr i : ℕ) (t : MachThread) (o : Outcome W) (hit step : Option Breakpoint)
      → find_bp_with_cond addr normal o.debuggee.breakpoints ≡ hit
      → find_bp_with_cond addr stepping o.debuggee.breakpoints ≡ step
      → IsValid o.debuggee
      → IsValid (on_hit k hit step i t o).debuggee
  unfolding on_hit
  on_hit-IsValid addr i t o none none e₁ e₂ v = v
  on_hit-IsValid addr i t o (some h) none e₁ e₂ v =
      either i (for_another (some h) t) (some h) (with_debuggee (after_step k none i o.debuggee) o)
        (after_step-IsValid none i o.debuggee v (λ s e. absurd (cc)))
        (λ h' e. rw (← some_inj e) (find_bp_with_cond-mem addr normal _ h e₁))
  on_hit-IsValid addr i t o none (some s) e₁ e₂ v =
      either i (for_another none t) none (with_debuggee (after_step k (some s) i o.debuggee) o)
        (after_step-IsValid (some s) i o.debuggee v
          (λ s' e. rw (← some_inj e) (find_bp_with_cond-mem addr stepping _ s e₂)))
        (λ h' e. absurd (cc))
  on_hit-IsValid addr i t o (some h) (some s) e₁ e₂ v =
      let mem_s = find_bp_with_cond-mem addr stepping _ s e₂ in
      let mem_h = find_bp_with_cond-mem addr normal _ h e₁ in
      let apart = hit_ne_step addr _ h s v.consistent.distinct e₁ e₂ in
      either i (for_another (some h) t) (some h)
        (with_debuggee (after_step k (some s) i o.debuggee) o)
        (after_step-IsValid (some s) i o.debuggee v (λ s' e. rw (← some_inj e) mem_s))
        (λ h' e. rw (← some_inj e) (still_there_after s h.self i o.debuggee v mem_s apart mem_h))
