-- ===== src/Exception/Trapped.antt =====
-- The software breakpoints of source/breakpoint.c that the software step of source/exception.c puts
-- back into the memory of the debuggee.
use iosdbg.Base.{
  ℕ, ◌%◌, ◌≡◌, refl, Bool, true, false, not, ◌&&◌, ◌||◌, List, [], ◌∷◌, ◌==◌, if◌then◌else◌, arith,
  Bool-cases, inl, inr, ◌∙◌, ap,
}
use iosdbg.Debuggee.{Breakpoint, Kernel, Debuggee}
use iosdbg.Breakpoint.{normal, meets, brk, write_bp}
use iosdbg.Breakpoint.State.{enable_hw_bp, poke, switch, bp_set_state_internal, foreach}
use iosdbg.Breakpoint.Written.{HasMemory, write-word, write-elsewhere, try_edit-word}

-- A software breakpoint is at the address of an instruction.
abbrev pub placed : (mapped : ℕ → Bool) → Breakpoint → Bool
placed mapped b = b.hw || (mapped b.location && (b.location % 4 == 0))

abbrev pub all_placed : (mapped : ℕ → Bool) → List Breakpoint → Bool
all_placed mapped [] = true
all_placed mapped (b ∷ bps) = placed mapped b && all_placed mapped bps

-- Each software breakpoint that is neither temporary nor for a step has a BRK at its address.
abbrev pub all_trapped : {W : Type 0} → (word : W → ℕ → ℕ) → W → List Breakpoint → Bool
all_trapped word w [] = true
all_trapped word w (b ∷ bps) =
    (not (meets normal b) || (b.hw || (word w b.location == brk))) && all_trapped word w bps

module _ {W : Type 0} (k : Kernel W) (word : W → ℕ → ℕ) (writable : W → ℕ → Bool)
    (mapped : ℕ → Bool) (law : HasMemory k word writable mapped) where
  -- To enable a breakpoint keeps the BRK that is at an address, and puts one at its own.
  enable-keeps :
      (bp : Breakpoint) (d : Debuggee W) (b : ℕ)
      → placed mapped bp ≡ true
      → b % 4 ≡ 0
      → word d.world b ≡ brk
      → word (bp_set_state_internal k bp false d).world b ≡ brk
  unfolding bp_set_state_internal switch enable_hw_bp poke
  enable-keeps bp d b ok aligned is = elim (Bool-cases bp.hw) [
    | inl hw ↦ rw hw (
        try_edit-word k word writable mapped law (write_bp bp.hw_bp_reg bp.bcr bp.bvr) bp.threadinfo
          d b
        ∙ is)
    | inr sw ↦ rw sw (elim (Bool-cases (bp.location == b)) [
      | inl same ↦
          let e : bp.location ≡ b = ground arith in
          rw (← e) (write-word k word writable mapped law d.world bp.location (ground arith))
      | inr other ↦
          write-elsewhere k word writable mapped law d.world bp.location b (ground arith) aligned
            (ground arith)
          ∙ is
    ])
  ]

  enable-sets :
      (bp : Breakpoint) (d : Debuggee W)
      → placed mapped bp ≡ true
      → bp.hw ≡ false
      → word (bp_set_state_internal k bp false d).world bp.location ≡ brk
  unfolding bp_set_state_internal switch poke
  enable-sets bp d ok sw =
      rw sw (write-word k word writable mapped law d.world bp.location (ground arith))

  pub enable-all_trapped :
      (bp : Breakpoint) (d : Debuggee W) (bps : List Breakpoint)
      → placed mapped bp ≡ true
      → all_placed mapped bps ≡ true
      → all_trapped word d.world bps ≡ true
      → all_trapped word (bp_set_state_internal k bp false d).world bps ≡ true
  enable-all_trapped bp d [] ok oks is = refl
  enable-all_trapped bp d (b ∷ bps) ok oks is =
      ground (arith, enable-keeps bp d b.location, enable-all_trapped bp d bps)

  abbrev pub enabled_each : List Breakpoint → Debuggee W → Debuggee W
  enabled_each bps d = foreach k (meets normal) (λ bp. bp_set_state_internal k bp false) bps d

  foreach-next :
      (test : Breakpoint → Bool) (op : Breakpoint → Debuggee W → Debuggee W) (bp : Breakpoint)
      (bps : List Breakpoint) (d : Debuggee W)
      → foreach k test op (bp ∷ bps) d ≡ foreach k test op bps (if test bp then op bp d else d)
  unfolding foreach
  foreach-next test op bp bps d = refl

  foreach-hit :
      (bp : Breakpoint) (bps : List Breakpoint) (d : Debuggee W)
      → meets normal bp ≡ true
      → enabled_each (bp ∷ bps) d ≡ enabled_each bps (bp_set_state_internal k bp false d)
  foreach-hit bp bps d hit =
      foreach-next (meets normal) (λ b. bp_set_state_internal k b false) bp bps d ∙ rw hit refl

  foreach-miss :
      (bp : Breakpoint) (bps : List Breakpoint) (d : Debuggee W)
      → meets normal bp ≡ false
      → enabled_each (bp ∷ bps) d ≡ enabled_each bps d
  foreach-miss bp bps d miss =
      foreach-next (meets normal) (λ b. bp_set_state_internal k b false) bp bps d ∙ rw miss refl

  enabled_each-keeps :
      (bps : List Breakpoint) (d : Debuggee W) (b : ℕ)
      → all_placed mapped bps ≡ true
      → b % 4 ≡ 0
      → word d.world b ≡ brk
      → word (enabled_each bps d).world b ≡ brk
  unfolding foreach
  enabled_each-keeps [] d b oks aligned is = is
  enabled_each-keeps (bp ∷ bps) d b oks aligned is = elim (Bool-cases (meets normal bp)) [
    | inl hit ↦
        ap (λ (x : Debuggee W). word x.world b) (foreach-hit bp bps d hit)
        ∙ enabled_each-keeps bps (bp_set_state_internal k bp false d) b (ground arith) aligned
            (enable-keeps bp d b (ground arith) aligned is)
    | inr miss ↦
        ap (λ (x : Debuggee W). word x.world b) (foreach-miss bp bps d miss)
        ∙ enabled_each-keeps bps d b (ground arith) aligned is
  ]

  and_true : {x y : Bool} → x ≡ true → y ≡ true → (x && y) ≡ true
  and_true ex ey = rw (ex, ey) refl

  pub enabled_each-all_trapped :
      (bps : List Breakpoint) (d : Debuggee W)
      → all_placed mapped bps ≡ true
      → all_trapped word (enabled_each bps d).world bps ≡ true
  enabled_each-all_trapped [] d oks = refl
  enabled_each-all_trapped (bp ∷ bps) d oks = elim (Bool-cases (meets normal bp)) [
    | inl hit ↦
        let d₁ = bp_set_state_internal k bp false d in
        ap (λ (x : Debuggee W). all_trapped word x.world (bp ∷ bps)) (foreach-hit bp bps d hit)
        ∙ and_true (here bp bps d oks) (enabled_each-all_trapped bps d₁ (ground arith))
    | inr miss ↦
        ap (λ (x : Debuggee W). all_trapped word x.world (bp ∷ bps)) (foreach-miss bp bps d miss)
        ∙ and_true (ground arith) (enabled_each-all_trapped bps d (ground arith))
  ]
    where
      here :
          (bp : Breakpoint) (bps : List Breakpoint) (d : Debuggee W)
          → all_placed mapped (bp ∷ bps) ≡ true
          → (not (meets normal bp)
              || (bp.hw
                  || (word (enabled_each bps (bp_set_state_internal k bp false d)).world bp.location
                      == brk)))
            ≡ true
      here bp bps d oks = elim (Bool-cases bp.hw) [
        | inl hw ↦ ground arith
        | inr sw ↦
            let set = enable-sets bp d (ground arith) sw in
            let is =
              enabled_each-keeps bps (bp_set_state_internal k bp false d) bp.location (ground arith)
                (ground arith) set in
            ground (arith, is)
      ]
