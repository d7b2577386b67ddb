-- ===== src/Thread/Registers.antt =====
-- What the loops of source/breakpoint.c and source/watchpoint.c over the threads do to the debug
-- registers that the kernel holds.
use iosdbg.Base.{
  ℕ, ◌≡◌, ◌≢◌, refl, Bool, true, false, Option, none, some, List, [], ◌∷◌, ◌==◌, if◌then◌else◌,
  arith, Bool-cases, inl, inr, ◌∙◌,
}
use iosdbg.Base.Int.{ℤ, pos, eq_ℤ}
use iosdbg.LinkedList.Items.{has_key, Distinct}
use iosdbg.Debuggee.{DebugState, MachThread, Kernel}
use iosdbg.Thread.{
  get_debug_state, set_debug_state, edit_thread, edit_all, edit_id, find_with_cond,
  find_thread_from_id, compares,
}

abbrev pub port_of : MachThread → ℕ
port_of t = t.port

-- What the kernel documents of the debug registers of the threads whose ports are live: they can
-- be read, a write is what the next read gives, and it reaches no other thread.
pub record HasRegisters {W : Type 0} (k : Kernel W) (live : ℕ → Bool) : Type 0 where
  pub readable : (w : W) (p : ℕ) → live p ≡ true → (st : DebugState) × (k.get_debug w p ≡ some st)
  pub read_back :
      (w : W) (p : ℕ) (st : DebugState)
      → live p ≡ true
      → k.get_debug (k.set_debug w p st) p ≡ some st
  pub apart :
      (w : W) (p q : ℕ) (st : DebugState)
      → p ≢ q
      → k.get_debug (k.set_debug w p st) q ≡ k.get_debug w q

abbrev pub AllLive : (ℕ → Bool) → List MachThread → Type 0
AllLive live [] = Unit {0}
AllLive live (t ∷ ts) = (live t.port ≡ true) × AllLive live ts

abbrev pub map_option : (DebugState → DebugState) → Option DebugState → Option DebugState
map_option f none = none
map_option f (some st) = some (f st)

module _ {W : Type 0} (k : Kernel W) (live : ℕ → Bool) (law : HasRegisters k live)
    (f : DebugState → DebugState) where
  edit_thread-world :
      (w : W) (t : MachThread) {st : DebugState}
      → k.get_debug w t.port ≡ some st
      → (edit_thread k f w t).1 ≡ k.set_debug w t.port (f st)
  unfolding edit_thread get_debug_state set_debug_state
  edit_thread-world w t got = rw (got, edit_thread, get_debug_state, set_debug_state) refl

  pub edit_thread-registers :
      (w : W) (t : MachThread) (p : ℕ)
      → live t.port ≡ true
      → k.get_debug (edit_thread k f w t).1 p
        ≡ (if t.port == p then map_option f (k.get_debug w p) else k.get_debug w p)
  edit_thread-registers w t p alive =
      let (st, got) = law.readable w t.port alive in
      elim (Bool-cases (t.port == p)) [
        | inl same ↦
            let e : p ≡ t.port = ground arith in
            rw (edit_thread-world w t got, same, e, got) (law.read_back w t.port (f st) alive)
        | inr other ↦
            rw (edit_thread-world w t got, other) (law.apart w t.port p (f st) (ground arith))
      ]

  -- Where the debug registers are as the kernel documents them, and the threads of the list have
  -- live ports, no two the same: every thread of the list has its registers changed, once, and no
  -- other thread has.
  pub edit_all-registers :
      (ts : List MachThread) (w : W) (p : ℕ)
      → AllLive live ts
      → Distinct port_of ts
      → k.get_debug (edit_all k f w ts).1 p
        ≡ (if has_key port_of p ts then map_option f (k.get_debug w p) else k.get_debug w p)
  unfolding edit_all
  edit_all-registers [] w p alive distinct = refl
  edit_all-registers (t ∷ ts) w p alive distinct =
      let w₁ = (edit_thread k f w t).1 in
      edit_all-registers ts w₁ p alive.1 distinct.1 ∙ elim (Bool-cases (t.port == p)) [
        | inl same ↦
            let e : p ≡ t.port = ground arith in
            let out : has_key port_of p ts ≡ false = rw e distinct.0 in
            rw (same, out) (edit_thread-registers w t p alive.0 ∙ rw same refl)
        | inr other ↦ rw (other, edit_thread-registers w t p alive.0) (rw other refl)
      ]

  -- Where the debug registers are as the kernel documents them, and `find_thread_from_ID` finds a
  -- thread whose port is live: that thread has its registers changed, and no other thread has.
  pub edit_id-registers :
      (ts : List MachThread) (w : W) (i : ℤ) (t : MachThread)
      → find_thread_from_id i ts ≡ some t
      → live t.port ≡ true
      → (out : List MachThread × W) × (edit_id k f w i ts ≡ some out)
        × ((p : ℕ)
            → k.get_debug out.1 p
              ≡ (if t.port == p then map_option f (k.get_debug w p) else k.get_debug w p))
  unfolding edit_id find_thread_from_id find_with_cond compares
  edit_id-registers [] w i t e alive = absurd (cc)
  edit_id-registers (s ∷ ts) w i t e alive = elim (Bool-cases (eq_ℤ (pos s.id) i)) [
    | inl hit ↦
        let same : s ≡ t = ground arith in
        rw hit (
          ((edit_thread k f w s).0 ∷ ts, (edit_thread k f w s).1),
          refl,
          λ p. rw (← same) (edit_thread-registers w s p (rw same alive)),
        )
    | inr miss ↦
        let (out, ran, regs) = edit_id-registers ts w i t (rw miss at e) alive in
        rw (miss, ran) ((s ∷ out.0, out.1), refl, regs)
  ]
