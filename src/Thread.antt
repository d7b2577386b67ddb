-- ===== src/Thread.antt =====
-- source/thread.c: the searches through the list of threads, and the debug registers of a thread,
-- which are read from the kernel, changed in one place and written back.
pub mod Registers
pub mod Focus
pub mod Update
mod Tests
use iosdbg.Base.{ℕ, Bool, true, false, Option, none, some, List, [], ◌∷◌, ◌==◌, if◌then◌else◌}
use iosdbg.Base.Int.{ℤ, pos, eq_ℤ}
use iosdbg.Debuggee.{DebugState, MachThread, Kernel}

-- `enum comparison`, with what is compared.
pub data Comparison : Type 0 where
  ports ids : ℤ → Comparison
  focused : Comparison
  tids : ℕ → Comparison

-- The test of the loop in `find_with_cond`.
unfoldable pub compares : Comparison → MachThread → Bool
compares (ports p) t = eq_ℤ (pos t.port) p
compares (ids i) t = eq_ℤ (pos t.id) i
compares focused t = t.focused
compares (tids n) t = t.tid == n

unfoldable pub find_with_cond : Comparison → List MachThread → Option MachThread
find_with_cond c [] = none
find_with_cond c (t ∷ ts) = if compares c t then some t else find_with_cond c ts

-- MACH_PORT_NULL is 0.
pub thread_from_port : ℕ → List MachThread → Option MachThread
thread_from_port port ts = if port == 0 then none else find_with_cond (ports (pos port)) ts

pub find_thread_from_id : ℤ → List MachThread → Option MachThread
find_thread_from_id i ts = find_with_cond (ids i) ts

pub find_thread_from_tid : ℕ → List MachThread → Option MachThread
find_thread_from_tid n ts = find_with_cond (tids n) ts

unfoldable pub get_focused_thread : List MachThread → Option MachThread
get_focused_thread ts = find_with_cond focused ts

module _ {W : Type 0} (k : Kernel W) where
  -- `get_thread_state(t)`: where the call fails the copy in `t` stays as it is.
  unfoldable pub get_thread_state : W → MachThread → MachThread
  get_thread_state w t = elim (k.get_pc w t.port) [ none ↦ t | some pc ↦ record t { pc = pc } ]

  -- `get_debug_state(t)`: where the call fails the copy in `t` stays as it is.
  unfoldable pub get_debug_state : W → MachThread → MachThread
  get_debug_state w t = elim (k.get_debug w t.port) [
    | none ↦ t
    | some st ↦ record t { debug_state = st }
  ]

  -- `set_debug_state(t)`
  unfoldable pub set_debug_state : W → MachThread → W
  set_debug_state w t = k.set_debug w t.port t.debug_state

  -- `get_debug_state(t); t->debug_state = f(...); set_debug_state(t);`
  unfoldable pub edit_thread : (DebugState → DebugState) → W → MachThread → MachThread × W
  unfolding get_debug_state set_debug_state
  edit_thread f w t =
      let got = get_debug_state w t in
      let t' : MachThread = record got { debug_state = f got.debug_state } in
      (t', set_debug_state w t')

  -- The same for each thread of the list.
  unfoldable pub edit_all : (DebugState → DebugState) → W → List MachThread → List MachThread × W
  edit_all f w [] = ([], w)
  edit_all f w (t ∷ ts) =
      let (t', w₁) = edit_thread f w t in let (ts', w₂) = edit_all f w₁ ts in (t' ∷ ts', w₂)

  -- The same for the thread that `find_thread_from_ID` finds; `none` if it finds none.
  unfoldable pub edit_id :
      (DebugState → DebugState) → W → ℤ → List MachThread → Option (List MachThread × W)
  edit_id f w i [] = none
  edit_id f w i (t ∷ ts) =
      if eq_ℤ (pos t.id) i
      then (let (t', w') = edit_thread f w t in some (t' ∷ ts, w'))
      else elim (edit_id f w i ts) [ none ↦ none | some (ts', w') ↦ some (t ∷ ts', w') ]
