-- ===== src/Exception/Verdict.antt =====
-- What source/exception.c decides: whether the debuggee goes on, whether the user is told, and what
-- becomes of a watchpoint that was hit.
use Prim.Native.Nat.{bit_or}
use iosdbg.Base.{
  ℕ, zero, suc, ◌+◌, ◌-◌, ◌%◌, ◌≡◌, refl, true, false, not, ◌&&◌, Option, none, some, List, [], ◌∷◌,
  ◌==◌, if◌then◌else◌, get_elem?, arith, Bool-cases, inl, inr, ◌∙◌, ap,
}
use iosdbg.Debuggee.{Ptr, DebugState, MachThread, Watchpoint, Kernel}
use iosdbg.Thread.{edit_thread, get_debug_state}
use iosdbg.Memory.{read_memory_at_location}
use iosdbg.LinkedList.Items.{has_key, Distinct}
use iosdbg.Watchpoint.{self_of, find_wp_with_address, watchpoint_hit, update_wp}
use iosdbg.Sigsupport.{Setting}
use iosdbg.Exception.{
  Outcome, write_thread, with_debuggee, update_at, edit_at, enable_single_step, handle_soft_signal,
  on_signal, on_watchpoint, on_step, handle_hit_watchpoint, report_watchpoint,
}

-- After a signal the user is told if its settings say `notify`, the debuggee goes on unless they say
-- `stop`, and the pending signal is cleared unless they say `pass`; nothing else changes but what is
-- printed.
pub on_signal-verdict :
    {W : Type 0} (k : Kernel W) (t : MachThread) (subcode : ℕ) (s : Setting) (o : Outcome W)
    → ((on_signal k t subcode s o).should_print ≡ (o.should_print && s.notify))
      × ((on_signal k t subcode s o).should_auto_resume ≡ (o.should_auto_resume && not s.stop))
      × ((on_signal k t subcode s o).debuggee ≡ record o.debuggee {
        world = if s.pass then o.debuggee.world else k.clear_signal o.debuggee.world t.port;
      })
unfolding on_signal handle_soft_signal
on_signal-verdict k t subcode s o = ground arith

get_elem?-update_at :
    (i : ℕ) (f : MachThread → MachThread) (ts : List MachThread) {t : MachThread}
    → get_elem? ts i ≡ some t
    → get_elem? (update_at i f ts) i ≡ some (f t)
unfolding update_at
get_elem?-update_at i f [] e = cc
get_elem?-update_at zero f (u ∷ ts) e = cc
get_elem?-update_at (suc i) f (u ∷ ts) e = get_elem?-update_at i f ts e

update_wp-update_wp :
    (p : Ptr) (f g : Watchpoint → Watchpoint) (wps : List Watchpoint)
    → ((w : Watchpoint) → (f w).self ≡ w.self)
    → update_wp p g (update_wp p f wps) ≡ update_wp p (λ w. g (f w)) wps
unfolding update_wp
update_wp-update_wp p f g [] same = refl
update_wp-update_wp p f g (w ∷ wps) same = elim (Bool-cases (w.self == p)) [
  | inl e ↦
      let e' : ((f w).self == p) ≡ true = ground (arith, same w) in
      rw e (rw e' (ap (λ r. g (f w) ∷ r) (update_wp-update_wp p f g wps same)))
  | inr e ↦ rw e (rw e (ap (λ r. w ∷ r) (update_wp-update_wp p f g wps same)))
]

-- The first watchpoint on the double word of the address is hit once more and holds the bytes; the
-- others are as they were.
abbrev pub counted : (addr : ℕ) → List ℕ → List Watchpoint → List Watchpoint
counted addr now [] = []
counted addr now (w ∷ wps) =
    let rest = counted addr now wps in
    if w.aligned_location == addr - addr % 8
    then record w { hit_count = w.hit_count + 1; bytes = now } ∷ wps
    else w ∷ rest

find_wp_with_address-mem :
    (addr : ℕ) (wps : List Watchpoint) (hit : Watchpoint)
    → find_wp_with_address addr wps ≡ some hit
    → has_key self_of hit.self wps ≡ true
unfolding find_wp_with_address
find_wp_with_address-mem addr [] hit e = cc
find_wp_with_address-mem addr (w ∷ wps) hit e =
    ground (arith, find_wp_with_address-mem addr wps hit)

update_wp-absent :
    (p : Ptr) (f : Watchpoint → Watchpoint) (wps : List Watchpoint)
    → has_key self_of p wps ≡ false
    → update_wp p f wps ≡ wps
unfolding update_wp
update_wp-absent p f [] e = refl
update_wp-absent p f (w ∷ wps) e = ground (arith, update_wp-absent p f wps)

-- Where no two watchpoints have one address, an update of the one that is found is one of the
-- first on the double word.
update_wp-counted :
    (addr : ℕ) (now : List ℕ) (wps : List Watchpoint) (hit : Watchpoint)
    → Distinct self_of wps
    → find_wp_with_address addr wps ≡ some hit
    → update_wp hit.self (λ v. record v { hit_count = v.hit_count + 1; bytes = now }) wps
      ≡ counted addr now wps
unfolding find_wp_with_address update_wp
update_wp-counted addr now [] hit distinct e = refl
update_wp-counted addr now (w ∷ wps) hit distinct e =
    elim (Bool-cases (w.aligned_location == addr - addr % 8)) [
      | inl here ↦
          let f : Watchpoint → Watchpoint =
            λ v. record v { hit_count = v.hit_count + 1; bytes = now } in
          let same : w ≡ hit = ground arith in
          let me : (w.self == hit.self) ≡ true = ground (arith, ap (λ x. x.self) same) in
          let absent : has_key self_of hit.self wps ≡ false = rw (← same) distinct.0 in
          let rest = update_wp-absent hit.self f wps absent in rw (here, me, rest) refl
      | inr there ↦
          let found : find_wp_with_address addr wps ≡ some hit = ground arith in
          let mem = find_wp_with_address-mem addr wps hit found in
          let other : (w.self == hit.self) ≡ false = ground arith in
          rw (there, other, update_wp-counted addr now wps hit distinct.1 found) refl
    ]

module _ {W : Type 0} (k : Kernel W) where
  get_elem?-edit_at :
      (f : DebugState → DebugState) (i : ℕ) (w : W) (ts : List MachThread) {t : MachThread}
      → get_elem? ts i ≡ some t
      → get_elem? (edit_at k f w i ts).0 i ≡ some (edit_thread k f w t).0
  unfolding edit_at
  get_elem?-edit_at f i w [] e = cc
  get_elem?-edit_at f zero w (u ∷ ts) {t} e =
      let same : u ≡ t = cc in ap (λ x. some (edit_thread k f w x).0) same
  get_elem?-edit_at f (suc i) w (u ∷ ts) e = get_elem?-edit_at f i w ts e

  -- The edit of the debug registers keeps the rest of the thread.
  edit_thread-kept :
      (f : DebugState → DebugState) (w : W) (t : MachThread)
      → ((edit_thread k f w t).0.just_hit_watchpoint ≡ t.just_hit_watchpoint)
        × ((edit_thread k f w t).0.last_hit_wp_loc ≡ t.last_hit_wp_loc)
  unfolding edit_thread get_debug_state
  edit_thread-kept f w t = by_status (k.get_debug w t.port)
    where
      by_status :
          (r : Option DebugState)
          → let got : MachThread = elim r [ none ↦ t | some st ↦ record t { debug_state = st } ] in
            (got.just_hit_watchpoint ≡ t.just_hit_watchpoint)
            × (got.last_hit_wp_loc ≡ t.last_hit_wp_loc)
      by_status none = (refl, refl)
      by_status (some st) = (refl, refl)

  -- The thread remembers the watchpoint exception.
  on_watchpoint-remembered :
      (i : ℕ) (t : MachThread) (addr : ℕ) (o : Outcome W)
      → get_elem? o.debuggee.threads i ≡ some t
      → (u : MachThread) × (get_elem? (on_watchpoint k i t addr o).debuggee.threads i ≡ some u)
        × (u.just_hit_watchpoint ≡ true)
        × (u.last_hit_wp_loc ≡ addr)
  unfolding on_watchpoint enable_single_step
  on_watchpoint-remembered i t addr o at =
      let there =
        get_elem?-update_at i
          (λ u. record u {
            just_hit_watchpoint = true;
            last_hit_wp_loc = addr;
            last_hit_wp_pc = t.pc;
          })
          o.debuggee.threads at in
      let f : DebugState → DebugState = λ st. record st { mdscr = bit_or st.mdscr 1 } in
      let got = get_elem?-edit_at f i o.debuggee.world _ there in
      let kept = edit_thread-kept f o.debuggee.world _ in (_, got, kept.0, kept.1)

  -- The step that follows reports the watchpoint.
  handle_hit_watchpoint-some :
      (i : ℕ) (u : MachThread) (o : Outcome W) (hit : Watchpoint) (now : List ℕ)
      → find_wp_with_address u.last_hit_wp_loc o.debuggee.watchpoints ≡ some hit
      → read_memory_at_location k o.debuggee.world hit.user_location hit.bytes hit.data_len
        ≡ some (0, now)
      → handle_hit_watchpoint k i u o
        ≡ some (report_watchpoint k i u hit now (watchpoint_hit k (some hit) o.debuggee) o)
  unfolding handle_hit_watchpoint watchpoint_hit
  handle_hit_watchpoint-some i u o hit now found read =
      rw (found, handle_hit_watchpoint) (rw (read, handle_hit_watchpoint) refl)

  on_step-some :
      (i : ℕ) (u : MachThread) (o o₁ : Outcome W)
      → u.just_hit_watchpoint ≡ true
      → handle_hit_watchpoint k i u o ≡ some o₁
      → on_step k i u o
        ≡ some (
            with_debuggee
              (write_thread i (λ v. record v { just_hit_watchpoint = false }) o₁.debuggee)
              o₁)
  unfolding on_step
  on_step-some i u o o₁ flag ran = simp (flag, ran) refl

  on_step-reports :
      (i : ℕ) (u : MachThread) (addr : ℕ) (o : Outcome W) (hit : Watchpoint) (now : List ℕ)
      → u.just_hit_watchpoint ≡ true
      → u.last_hit_wp_loc ≡ addr
      → find_wp_with_address addr o.debuggee.watchpoints ≡ some hit
      → read_memory_at_location k o.debuggee.world hit.user_location hit.bytes hit.data_len
        ≡ some (0, now)
      → (o₂ : Outcome W) × (on_step k i u o ≡ some o₂)
        × (o₂.should_print ≡ o.should_print)
        × (o₂.should_auto_resume ≡ false)
        × (o₂.debuggee.watchpoints
            ≡ update_wp hit.self
                (λ v. record v { hit_count = v.hit_count + 1; bytes = now })
                o.debuggee.watchpoints)
  unfolding report_watchpoint watchpoint_hit
  on_step-reports i u addr o hit now flag loc found read =
      let found' : find_wp_with_address u.last_hit_wp_loc o.debuggee.watchpoints ≡ some hit =
        ap (λ a. find_wp_with_address a o.debuggee.watchpoints) loc ∙ found in
      let ran = handle_hit_watchpoint-some i u o hit now found' read in
      (
        _,
        on_step-some i u o _ flag ran,
        refl,
        refl,
        update_wp-update_wp hit.self (λ v. record v { hit_count = v.hit_count + 1 })
            (λ v. record v { bytes = now }) o.debuggee.watchpoints (λ w. refl),
      )

  -- For a thread of the list, and a watchpoint that is found at the address of the access, where no
  -- two of the list have one object: the exception of the watchpoint is not shown. On the software
  -- step that follows, with the flags of the caller set anew and whatever the state of the kernel is
  -- by then, if the read of the bytes that are watched gives `now`: the handler returns, the user is
  -- told, the debuggee does not go on, and the first watchpoint on the double word of the address is
  -- counted as hit once more and holds `now`, while the others are as they were.
  pub on_step-on_watchpoint :
      (i : ℕ) (t : MachThread) (addr : ℕ) (o : Outcome W) (hit : Watchpoint) (w : W) (now : List ℕ)
      → get_elem? o.debuggee.threads i ≡ some t
      → Distinct self_of o.debuggee.watchpoints
      → find_wp_with_address addr o.debuggee.watchpoints ≡ some hit
      → read_memory_at_location k w hit.user_location hit.bytes hit.data_len ≡ some (0, now)
      → let o₁ : Outcome W = record (on_watchpoint k i t addr o) {
        debuggee = record (on_watchpoint k i t addr o).debuggee { world = w };
        should_auto_resume = true;
        should_print = true;
      } in
        ((on_watchpoint k i t addr o).should_print ≡ false)
        × (u : MachThread) × (o₂ : Outcome W) × (get_elem? o₁.debuggee.threads i ≡ some u)
        × (on_step k i u o₁ ≡ some o₂)
        × (o₂.should_print ≡ true)
        × (o₂.should_auto_resume ≡ false)
        × (o₂.debuggee.watchpoints ≡ counted addr now o.debuggee.watchpoints)
  unfolding on_watchpoint enable_single_step
  on_step-on_watchpoint i t addr o hit w now at distinct found read =
      let o₁ : Outcome W = record (on_watchpoint k i t addr o) {
        debuggee = record (on_watchpoint k i t addr o).debuggee { world = w };
        should_auto_resume = true;
        should_print = true;
      } in
      let (u, there, flag, loc) = on_watchpoint-remembered i t addr o at in
      let (o₂, ran, shown, stopped, wps) =
        on_step-reports i u addr o₁ hit now flag loc found read in
      (
        refl,
        u,
        o₂,
        there,
        ran,
        shown,
        stopped,
        wps ∙ update_wp-counted addr now o.debuggee.watchpoints hit distinct found,
      )
