-- ===== src/Watchpoint/Registers.antt =====
-- Which hardware register `find_ready_wp_reg` of source/watchpoint.c gives out.
use iosdbg.Base.{
  ℕ, ◌≤◌, ◌<◌, ◌≡◌, Bool, true, false, not, ◌&&◌, ◌||◌, List, [], ◌∷◌, ◌==◌, set, get_or, replicate,
  arith, ◌∙◌,
}
use iosdbg.Base.Int.{pos}
use iosdbg.Debuggee.{Watchpoint}
use iosdbg.Breakpoint.Registers.{get_or-set, get_or-replicate, first_spot-pos, first_spot-le}
use iosdbg.Watchpoint.{mark_used, find_ready_wp_reg}

abbrev pub uses : ℕ → List Watchpoint → Bool
uses r [] = false
uses r (wp ∷ wps) = (wp.hw_wp_reg == r) || uses r wps

get_or-mark_used :
    (wps : List Watchpoint) (xs : List Bool) (i : ℕ)
    → get_or (mark_used xs wps) i false ≡ (get_or xs i false && not (uses i wps))
unfolding mark_used
get_or-mark_used [] xs i = ground arith
get_or-mark_used (wp ∷ wps) xs i =
    get_or-mark_used wps (set xs wp.hw_wp_reg false) i
    ∙ ground (arith, get_or-set xs wp.hw_wp_reg i)

-- A register that `find_ready_wp_reg` gives out exists, and no watchpoint of the list has it.
pub find_ready_wp_reg-unused :
    (n : ℕ) (wps : List Watchpoint) (r : ℕ)
    → find_ready_wp_reg n wps ≡ pos r
    → (r < n) × (uses r wps ≡ false)
unfolding find_ready_wp_reg
find_ready_wp_reg-unused n wps r e =
    let (i, at, free) = first_spot-pos 0 (mark_used (replicate n true) wps) r e in
    let same : r ≡ i = omega arith in
    rw same (
      ground (arith, get_or-mark_used wps (replicate n true) i, get_or-replicate n i, free),
      ground (arith, get_or-mark_used wps (replicate n true) i, get_or-replicate n i, free),
    )

-- If a register is not used by a watchpoint of the list, `find_ready_wp_reg` gives one out, and
-- none that is higher.
pub find_ready_wp_reg-le :
    (n : ℕ) (wps : List Watchpoint) (i : ℕ)
    → i < n
    → uses i wps ≡ false
    → (r : ℕ) × (find_ready_wp_reg n wps ≡ pos r) × (r ≤ i)
unfolding find_ready_wp_reg
find_ready_wp_reg-le n wps i h free =
    let spot : get_or (mark_used (replicate n true) wps) i false ≡ true =
      get_or-mark_used wps (replicate n true) i ∙ ground (arith, get_or-replicate n i, free) in
    let (r, at, le) = first_spot-le 0 (mark_used (replicate n true) wps) i spot in
    (r, at, omega arith)
