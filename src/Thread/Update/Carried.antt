-- ===== src/Thread/Update/Carried.antt =====
-- source/thread.c, update_thread_list: what the new list of threads has of the old one.
use iosdbg.Base.{
  ℕ, ◌+◌, ◌≤◌, ◌<◌, ◌≡◌, refl, sym, ap, ◌∙◌, Bool, true, false, not, ◌&&◌, ◌||◌, Option, none, some,
  List, [], ◌∷◌, ◌++◌, ◌==◌, leb, if◌then◌else◌, length, arith, Bool-cases, inl, inr,
}
use mathlib.Core.List.{append_assoc, append-nil}
use iosdbg.Base.Int.{ℤ, pos, negsuc}
use iosdbg.Debuggee.{DebugState, MachThread, Breakpoint, Watchpoint, Kernel, StepKind, step_none}
use iosdbg.Thread.{ports, compares, find_with_cond, get_debug_state, get_thread_state}
use iosdbg.Breakpoint.{set_reg}
use iosdbg.Thread.Update.{
  Calls, Listing, focused_port, carry_over, arm_breakpoints, update_all_thread_states,
  get_thread_info, machthread_new, add_thread, arm_new, renewed, renew_loop, update_thread_list,
}

-- What a thread was stopped by, and how it steps.
abbrev pub Stops : Type 0
Stops = Bool × Bool × Bool × ℕ × ℕ × ℕ × Bool × StepKind × Bool × Bool

abbrev pub stops : MachThread → Stops
stops t = (
  t.just_hit_watchpoint, t.just_hit_breakpoint, t.just_hit_sw_breakpoint, t.last_hit_wp_loc,
  t.last_hit_wp_pc, t.last_hit_bkpt_id, t.is_stepping, t.step_kind, t.just_hit_ss_breakpoint,
  t.set_temp_ss_breakpoint,
)

abbrev pub stops_of : Option MachThread → Stops
stops_of none = (false, false, false, 0, 0, 0, false, step_none, false, false)
stops_of (some t) = stops t

abbrev any_focused : List MachThread → Bool
any_focused [] = false
any_focused (t ∷ ts) = t.focused || any_focused ts

-- The port of the thread that has the focus with none that has it behind it; 0 if there is none.
abbrev pub last_focused : List MachThread → ℕ
last_focused [] = 0
last_focused (t ∷ ts) =
    let later = last_focused ts in
    if any_focused ts then later else (if t.focused then t.port else 0)

abbrev pub first_at : ℕ → List MachThread → Option MachThread
first_at port [] = none
first_at port (t ∷ ts) = let later = first_at port ts in if t.port == port then some t else later

focused_port-last_focused :
    (port : ℕ) (ts : List MachThread)
    → focused_port port ts ≡ (if any_focused ts then last_focused ts else port)
unfolding focused_port
focused_port-last_focused port [] = refl
focused_port-last_focused port (t ∷ ts) =
    focused_port-last_focused (if t.focused then t.port else port) ts ∙ ground arith

focused_port-zero : (ts : List MachThread) → focused_port 0 ts ≡ last_focused ts
focused_port-zero [] = focused_port-last_focused 0 []
focused_port-zero (t ∷ ts) = focused_port-last_focused 0 (t ∷ ts) ∙ ground arith

find_with_cond-first_at :
    (port : ℕ) (ts : List MachThread) → find_with_cond (ports (pos port)) ts ≡ first_at port ts
unfolding find_with_cond compares
find_with_cond-first_at port [] = refl
find_with_cond-first_at port (t ∷ ts) = ground (arith, find_with_cond-first_at port ts)

-- The thread for a port, with an id: it has the focus if the port had it, and its stops are those
-- of the first thread that had the port, or none.
abbrev pub RenewedAs : List MachThread → (port id : ℕ) → MachThread → Type 0
RenewedAs old port id t =
    (t.port ≡ port)
    × (t.id ≡ id)
    × (t.focused ≡ (port == last_focused old))
    × (stops t ≡ stops_of (first_at port old))

abbrev pub AllRenewed : List MachThread → List ℕ → (id : ℕ) → List MachThread → Type 0
AllRenewed old [] id [] = Unit
AllRenewed old [] id (t ∷ ts) = ⊥
AllRenewed old (p ∷ ps) id [] = ⊥
AllRenewed old (p ∷ ps) id (t ∷ ts) = RenewedAs old p id t × AllRenewed old ps (id + 1) ts

abbrev is_pos : ℤ → Bool
is_pos (pos n) = true
is_pos (negsuc n) = false

-- Every breakpoint for all threads has a register.
abbrev pub armable : List Breakpoint → Bool
armable [] = true
armable (b ∷ bps) = (not b.threadinfo.all || is_pos b.hw_bp_reg) && armable bps

abbrev pub all_valid : {W : Type 0} → Calls W → List ℕ → Bool
all_valid c [] = true
all_valid c (p ∷ ps) = c.valid p && all_valid c ps

arm_breakpoints-armable :
    (bps : List Breakpoint) (st : DebugState)
    → armable bps ≡ true
    → (st' : DebugState) × (arm_breakpoints bps st ≡ some st')
unfolding arm_breakpoints
arm_breakpoints-armable [] st ok = (st, refl)
arm_breakpoints-armable (b ∷ bps) st ok =
    go b.threadinfo.all b.hw_bp_reg ok (λ st' ok'. arm_breakpoints-armable bps st' ok')
  where
    go :
        (all : Bool) (r : ℤ)
        → ((not all || is_pos r) && armable bps) ≡ true
        → ((st₁ : DebugState)
            → armable bps ≡ true
            → (st' : DebugState) × (arm_breakpoints bps st₁ ≡ some st'))
        → (st' : DebugState) × ((if all
              then elim r [
                | negsuc n ↦ none
                | pos r' ↦ arm_breakpoints bps (record st {
                  bcr = set_reg st.bcr (pos r') b.bcr;
                  bvr = set_reg st.bvr (pos r') b.bvr;
                })
              ]
              else arm_breakpoints bps st)
            ≡ some st')
    go false r ok' ih = ih st ok'
    go true (pos r) ok' ih = ih _ ok'
    go true (negsuc n) ok' ih = absurd cc

arm_breakpoints-none :
    (bps : List Breakpoint) (st : DebugState) → armable bps ≡ false → arm_breakpoints bps st ≡ none
unfolding arm_breakpoints
arm_breakpoints-none [] st soft = absurd cc
arm_breakpoints-none (b ∷ bps) st soft =
    go b.threadinfo.all b.hw_bp_reg soft (λ st' e. arm_breakpoints-none bps st' e)
  where
    go :
        (all : Bool) (r : ℤ)
        → ((not all || is_pos r) && armable bps) ≡ false
        → ((st₁ : DebugState) → armable bps ≡ false → arm_breakpoints bps st₁ ≡ none)
        → (if all
            then elim r [
              | negsuc n ↦ none
              | pos r' ↦ arm_breakpoints bps (record st {
                bcr = set_reg st.bcr (pos r') b.bcr;
                bvr = set_reg st.bvr (pos r') b.bvr;
              })
            ]
            else arm_breakpoints bps st)
          ≡ none
    go false r e ih = ih st e
    go true (pos r) e ih = ih _ e
    go true (negsuc n) e ih = refl

with_focus :
    (b : Bool) (t : MachThread)
    → t.focused ≡ false
    → ((if b then record t { focused = true } else t).port ≡ t.port)
      × ((if b then record t { focused = true } else t).id ≡ t.id)
      × ((if b then record t { focused = true } else t).focused ≡ b)
      × (stops (if b then record t { focused = true } else t) ≡ stops t)
with_focus true t out = (refl, refl, refl, refl)
with_focus false t out = (refl, refl, out, refl)

carry_over-Same :
    (o : Option MachThread) (t : MachThread)
    → stops t ≡ stops_of none
    → ((carry_over o t).port ≡ t.port)
      × ((carry_over o t).id ≡ t.id)
      × ((carry_over o t).focused ≡ t.focused)
      × (stops (carry_over o t) ≡ stops_of o)
unfolding carry_over
carry_over-Same none t e = (refl, refl, refl, e)
carry_over-Same (some info) t e = (refl, refl, refl, refl)

module _ {W : Type 0} (k : Kernel W) (c : Calls W) (junk : MachThread) where
  states-port : (w : W) (t : MachThread) → (update_all_thread_states k c w t).port ≡ t.port
  unfolding update_all_thread_states get_debug_state get_thread_state
  states-port w t = ground arith

  debug-Same :
      (w : W) (t : MachThread)
      → ((get_debug_state k w t).port ≡ t.port)
        × ((get_debug_state k w t).id ≡ t.id)
        × ((get_debug_state k w t).focused ≡ t.focused)
        × (stops (get_debug_state k w t) ≡ stops t)
  unfolding get_debug_state
  debug-Same w t = go (k.get_debug w t.port)
    where
      go :
          (r : Option DebugState)
          → ((elim r as (λ x. MachThread) [
            | none ↦ t
            | some st ↦ record t { debug_state = st }
          ]).port
              ≡ t.port)
            × ((elim r as (λ x. MachThread) [
              | none ↦ t
              | some st ↦ record t { debug_state = st }
            ]).id
                ≡ t.id)
            × ((elim r as (λ x. MachThread) [
              | none ↦ t
              | some st ↦ record t { debug_state = st }
            ]).focused
                ≡ t.focused)
            × (stops (elim r as (λ x. MachThread) [
              | none ↦ t
              | some st ↦ record t { debug_state = st }
            ])
                ≡ stops t)
      go none = (refl, refl, refl, refl)
      go (some st) = (refl, refl, refl, refl)

  abbrev Made : MachThread → (port id : ℕ) → Type 0
  Made t port id = (t.port ≡ port) × (t.id ≡ id) × (t.focused ≡ false) × (stops t ≡ stops_of none)

  machthread_new-Made :
      (w : W) (id port : ℕ)
      → c.valid port ≡ true
      → (t : MachThread) × ((machthread_new k c junk w id port ≡ some t) × Made t port id)
  unfolding machthread_new get_thread_info
  machthread_new-Made w id port ok = rw ok (_, (refl, (states-port w _, refl, refl, refl)))

  module _ (bps : List Breakpoint) (wps : List Watchpoint) (old : List MachThread) where
    renewed-RenewedAs :
        (w : W) (t : MachThread) (port id : ℕ)
        → Made t port id
        → RenewedAs old port id (renewed k c junk bps wps old w t)
    unfolding renewed
    renewed-RenewedAs w t port id (at, named, out, none_yet) =
        rw (← at, ← named, ← focused_port-zero old, ← find_with_cond-first_at t.port old)
          (let has_focus = t.port == focused_port 0 old in
            let t₁ : MachThread = if has_focus then record t { focused = true } else t in
            let (p₁, i₁, f₁, s₁) = with_focus has_focus t out in
            let o = find_with_cond (ports (pos t.port)) old in
            let (p₂, i₂, f₂, s₂) = carry_over-Same o t₁ (s₁ ∙ none_yet) in
            let (p₃, i₃, f₃, s₃) = debug-Same w (carry_over o t₁) in
            (p₃ ∙ (p₂ ∙ p₁), i₃ ∙ (i₂ ∙ i₁), f₃ ∙ (f₂ ∙ f₁), s₃ ∙ s₂))

    arm_new-edit :
        (i : ℕ) (t : MachThread) (w : W)
        → armable bps ≡ true
        → (st : DebugState) × ((w' : W) × (arm_new k c junk bps wps old i t w
              ≡ some (record t { debug_state = st }, w')))
    unfolding arm_new
    arm_new-edit i t w ok = elim (Bool-cases (leb (length old) i)) [
      | inl e ↦
          let (st, armed) = arm_breakpoints-armable bps t.debug_state ok in
          rw (e, armed) (_, (_, refl))
      | inr e ↦ rw e (t.debug_state, (w, refl))
    ]

    renew_loop-cons :
        (p : ℕ) (ps : List ℕ) (i : ℕ) (s : Listing W) (t t' : MachThread) (w' : W)
        → machthread_new k c junk s.world s.next_id p ≡ some t
        → arm_new k c junk bps wps old i (renewed k c junk bps wps old s.world t) s.world
          ≡ some (t', w')
        → renew_loop k c junk bps wps old i (p ∷ ps) s
          ≡ renew_loop k c junk bps wps old
              (i + 1)
              ps
              (add_thread k c junk i t' (record s { world = w' }))
    unfolding renew_loop
    renew_loop-cons p ps i s t t' w' e armed = rw (e, renew_loop) (rw armed refl)

    -- The loop ends with a thread for each port behind those that were there.
    abbrev Renews : ℕ → List ℕ → List MachThread → Listing W → Type 0
    Renews i ps done s =
        (s' : Listing W) × ((ts : List MachThread) × ((renew_loop k c junk bps wps old i ps s
              ≡ some s')
            × (s'.threads ≡ some (done ++ ts))
            × AllRenewed old ps s.next_id ts
            × (s'.next_id ≡ s.next_id + length ps)))

    Renews-cons :
        (p : ℕ) (ps : List ℕ) (i : ℕ) (done : List MachThread) (s : Listing W) (t t' : MachThread)
        (w' : W)
        → machthread_new k c junk s.world s.next_id p ≡ some t
        → arm_new k c junk bps wps old i (renewed k c junk bps wps old s.world t) s.world
          ≡ some (t', w')
        → RenewedAs old p s.next_id t'
        → Renews (i + 1) ps (done ++ (t' ∷ [])) (add_thread k c junk i t' (record s { world = w' }))
        → Renews i (p ∷ ps) done s
    Renews-cons p ps i done s t t' w' is_made armed one (s', (ts, (runs, whole, all, id))) = (
      s',
      (
        t' ∷ ts,
        (
          renew_loop-cons p ps i s t t' w' is_made armed ∙ runs,
          whole ∙ ap some (append_assoc done (t' ∷ []) ts),
          (one, all),
          omega (arith, id),
        ),
      ),
    )

    renew_loop-Renews :
        (ps : List ℕ) (i : ℕ) (done : List MachThread) (s : Listing W)
        → armable bps ≡ true
        → all_valid c ps ≡ true
        → s.threads ≡ some done
        → Renews i ps done s
    unfolding renew_loop
    renew_loop-Renews [] i done s ok valid e =
        (s, ([], (refl, e ∙ ap some (sym (append-nil done)), tt, omega arith)))
    renew_loop-Renews (p ∷ ps) i done s ok valid e =
        let (t, (is_made, made)) = machthread_new-Made s.world s.next_id p (ground arith) in
        let (st, (w', armed)) =
          arm_new-edit i (renewed k c junk bps wps old s.world t) s.world ok in
        Renews-cons p ps i done s t _ w' is_made armed
          (renewed-RenewedAs s.world t p s.next_id made)
          (renew_loop-Renews ps (i + 1) _ _ ok (ground arith) (rw e refl))

    -- The first new thread is armed with a register that there is not.
    renew_loop-none :
        (ps : List ℕ) (i : ℕ) (s : Listing W)
        → ((st : DebugState) → arm_breakpoints bps st ≡ none)
        → all_valid c ps ≡ true
        → i ≤ length old
        → length old < i + length ps
        → renew_loop k c junk bps wps old i ps s ≡ none
    unfolding renew_loop arm_new
    renew_loop-none [] i s fails valid le lt = absurd (omega arith)
    renew_loop-none (p ∷ ps) i s fails valid le lt =
        let (t, (is_made, made)) = machthread_new-Made s.world s.next_id p (ground arith) in
        elim (Bool-cases (leb (length old) i)) [
          | inl e ↦
              rw (is_made, renew_loop)
                (rw (e, fails (renewed k c junk bps wps old s.world t).debug_state) refl)
          | inr e ↦
              rw (is_made, renew_loop)
                (rw e
                  (renew_loop-none ps (i + 1) _ fails (ground arith) (ground arith) (omega arith)))
        ]

  -- Where the list held a thread, every port is valid, and every breakpoint for all threads has a
  -- register: the list then holds a thread for each port in order, with the ids from 1 on; one has
  -- the focus exactly if its port is that of the last thread that had it, or 0 if none had it; and
  -- what stopped it and how it steps is as it was for the first thread with its port, or nothing if
  -- the port is new.
  pub update_thread_list-AllRenewed :
      (bps : List Breakpoint) (wps : List Watchpoint) (ps : List ℕ) (t : MachThread)
      (ts : List MachThread) (s : Listing W)
      → s.threads ≡ some (t ∷ ts)
      → armable bps ≡ true
      → all_valid c ps ≡ true
      → (s' : Listing W) × ((ts' : List MachThread) × ((update_thread_list k c junk bps wps
                (some ps)
                s
              ≡ some s')
            × (s'.threads ≡ some ts')
            × AllRenewed (t ∷ ts) ps 1 ts'
            × (s'.next_id ≡ 1 + length ps)))
  unfolding update_thread_list
  update_thread_list-AllRenewed bps wps ps t ts s e ok valid = rw e (
      renew_loop-Renews bps wps (t ∷ ts) ps 0 [] (record s { threads = some []; next_id = 1 }) ok
        valid refl)

  -- Where the list held a thread, every port is valid, there are more ports than there were
  -- threads, and a breakpoint for all threads is a software one, without a register: the update
  -- writes outside the array of debug registers.
  pub update_thread_list-overrun :
      (bps : List Breakpoint) (wps : List Watchpoint) (ps : List ℕ) (t : MachThread)
      (ts : List MachThread) (s : Listing W)
      → s.threads ≡ some (t ∷ ts)
      → armable bps ≡ false
      → all_valid c ps ≡ true
      → length (t ∷ ts) < length ps
      → update_thread_list k c junk bps wps (some ps) s ≡ none
  unfolding update_thread_list
  update_thread_list-overrun bps wps ps t ts s e soft valid more = rw e (
      renew_loop-none bps wps (t ∷ ts) ps 0 (record s { threads = some []; next_id = 1 })
        (λ st. arm_breakpoints-none bps st soft) valid (omega arith) (omega arith))
