-- ===== src/Breakpoint/Written.antt =====
-- What the writes of source/breakpoint.c to an instruction and to debug registers do to the memory
-- of the debuggee.
use iosdbg.Base.{
  ℕ, ◌%◌, ◌≡◌, ◌≢◌, refl, Bool, true, false, Option, none, some, List, [], ◌∷◌, ◌==◌, if◌then◌else◌,
  arith, Bool-cases, inl, inr, ◌∙◌,
}
use iosdbg.Base.Int.{ℤ, pos, eq_ℤ}
use iosdbg.Debuggee.{DebugState, MachThread, ThreadInfo, Kernel, Debuggee}
use iosdbg.Memory.{le_bytes, write_memory_to_location}
use iosdbg.Thread.{set_debug_state, edit_thread, edit_all, edit_id}
use iosdbg.Breakpoint.{brk, edit_for}
use iosdbg.Breakpoint.State.{try_edit}

-- What the kernel documents of the memory of the debuggee, where `word` is the instruction at an
-- address: a region can be made writable, a write then is what is read, it reaches no other
-- instruction, and protections and debug registers are not part of the memory.
pub record HasMemory {W : Type 0} (k : Kernel W) (word : W → ℕ → ℕ) (writable : W → ℕ → Bool)
    (mapped : ℕ → Bool) : Type 0 where
  pub region : (w : W) (a : ℕ) → mapped a ≡ true → (k.vm_region w a).0 ≡ 0
  pub opened : (w : W) (a : ℕ) → mapped a ≡ true → writable (k.vm_protect w a 4 0x13) a ≡ true
  pub written :
      (w : W) (a : ℕ) → writable w a ≡ true → word (k.vm_write w a (le_bytes 4 brk)).1 a ≡ brk
  pub elsewhere :
      (w : W) (a b : ℕ)
      → a % 4 ≡ 0
      → b % 4 ≡ 0
      → a ≢ b
      → word (k.vm_write w a (le_bytes 4 brk)).1 b ≡ word w b
  pub protected : (w : W) (a n p b : ℕ) → word (k.vm_protect w a n p) b ≡ word w b
  pub registers : (w : W) (p : ℕ) (st : DebugState) (b : ℕ) → word (k.set_debug w p st) b ≡ word w b

module _ {W : Type 0} (k : Kernel W) (word : W → ℕ → ℕ) (writable : W → ℕ → Bool)
    (mapped : ℕ → Bool) (law : HasMemory k word writable mapped) where
  pub write-word :
      (w : W) (a : ℕ) → mapped a ≡ true → word (write_memory_to_location k w a brk 4).1 a ≡ brk
  unfolding write_memory_to_location
  write-word w a there =
      let ok : ((k.vm_region w a).0 == 0) ≡ true = ground (arith, law.region w a there) in
      rw ok (law.protected _ a 4 (k.vm_region w a).1 a ∙ law.written _ a (law.opened w a there))

  pub write-elsewhere :
      (w : W) (a b : ℕ)
      → a % 4 ≡ 0
      → b % 4 ≡ 0
      → a ≢ b
      → word (write_memory_to_location k w a brk 4).1 b ≡ word w b
  unfolding write_memory_to_location
  write-elsewhere w a b ea eb ne = elim (Bool-cases ((k.vm_region w a).0 == 0)) [
    | inl ok ↦ rw ok (
        law.protected _ a 4 (k.vm_region w a).1 b
        ∙ (law.elsewhere _ a b ea eb ne ∙ law.protected w a 4 0x13 b))
    | inr bad ↦ rw bad refl
  ]

  edit_thread-word :
      (f : DebugState → DebugState) (w : W) (t : MachThread) (b : ℕ)
      → word (edit_thread k f w t).1 b ≡ word w b
  unfolding edit_thread set_debug_state
  edit_thread-word f w t b = law.registers w _ _ b

  edit_all-word :
      (f : DebugState → DebugState) (w : W) (ts : List MachThread) (b : ℕ)
      → word (edit_all k f w ts).1 b ≡ word w b
  unfolding edit_all
  edit_all-word f w [] b = refl
  edit_all-word f w (t ∷ ts) b =
      edit_all-word f (edit_thread k f w t).1 ts b ∙ edit_thread-word f w t b

  edit_id-word :
      (f : DebugState → DebugState) (w : W) (i : ℤ) (ts ts' : List MachThread) (w' : W) (b : ℕ)
      → edit_id k f w i ts ≡ some (ts', w')
      → word w' b ≡ word w b
  unfolding edit_id
  edit_id-word f w i [] ts' w' b e = absurd cc
  edit_id-word f w i (t ∷ ts) ts' w' b e =
      go (eq_ℤ (pos t.id) i) (edit_id k f w i ts) (λ us v found. edit_id-word f w i ts us v b found)
        e
    where
      go :
          (here : Bool) (r : Option (List MachThread × W))
          → ((us : List MachThread) (v : W) → r ≡ some (us, v) → word v b ≡ word w b)
          → (let out : Option (List MachThread × W) =
                if here
                then (let (t', v) = edit_thread k f w t in some (t' ∷ ts, v))
                else elim r [ none ↦ none | some (us, v) ↦ some (t ∷ us, v) ] in
              out)
            ≡ some (ts', w')
          → word w' b ≡ word w b
      go true r ih e =
          let same : (edit_thread k f w t).1 ≡ w' = cc in rw (← same) (edit_thread-word f w t b)
      go false none ih e = absurd cc
      go false (some (us, v)) ih e = let same : v ≡ w' = cc in rw (← same) (ih us v refl)

  pub try_edit-word :
      (f : DebugState → DebugState) (info : ThreadInfo) (d : Debuggee W) (b : ℕ)
      → word (try_edit k f info d).world b ≡ word d.world b
  unfolding try_edit edit_for
  try_edit-word f info d b = elim (Bool-cases info.all) [
    | inl all ↦ rw all (edit_all-word f d.world d.threads b)
    | inr one ↦ rw one (
        go (edit_id k f d.world info.iosdbg_tid d.threads)
          (λ ts w e. edit_id-word f d.world info.iosdbg_tid d.threads ts w b e))
  ]
    where
      go :
          (r : Option (List MachThread × W))
          → ((ts : List MachThread) (w : W) → r ≡ some (ts, w) → word w b ≡ word d.world b)
          → word
              (let out : Option (Debuggee W) = elim r [
                | none ↦ none
                | some (ts, w) ↦ some (record d { threads = ts; world = w })
              ] in
                let left : Debuggee W = elim out [ none ↦ d | some d' ↦ d' ] in left).world
              b
            ≡ word d.world b
      go none step = refl
      go (some (ts, w)) step = step ts w refl
