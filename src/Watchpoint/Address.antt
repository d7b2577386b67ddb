-- ===== src/Watchpoint/Address.antt =====
-- Which watchpoint an access belongs to.
use iosdbg.Base.{
  ℕ, ◌+◌, ◌%◌, ◌≤◌, ◌<◌, ◌≡◌, refl, true, some, List, [], ◌∷◌, ◌++◌, ◌==◌, arith, Bool-cases, inl,
  inr,
}
use iosdbg.Debuggee.{Watchpoint}
use iosdbg.Watchpoint.{aligned, find_wp_with_address}

find_wp_with_address-aligned :
    (addr : ℕ) (before behind : List Watchpoint) (wp : Watchpoint)
    → wp.aligned_location ≡ aligned addr
    → (found : Watchpoint) × (find_wp_with_address addr (before ++ (wp ∷ behind)) ≡ some found)
      × (found.aligned_location ≡ aligned addr)
unfolding find_wp_with_address
find_wp_with_address-aligned addr [] behind wp e =
    let hit : (wp.aligned_location == aligned addr) ≡ true = ground (arith, e) in
    rw hit (wp, refl, e)
find_wp_with_address-aligned addr (v ∷ before) behind wp e =
    elim (Bool-cases (v.aligned_location == aligned addr)) [
      | inl hit ↦ rw hit (v, refl, ground arith)
      | inr miss ↦ rw miss (find_wp_with_address-aligned addr before behind wp e)
    ]

-- For a watchpoint of the list that keeps its aligned address, and whose bytes do not pass the end
-- of its double word, and for an address among these bytes, `find_wp_with_address` finds a
-- watchpoint, and that one is in the same double word.
pub find_wp_with_address-watched :
    (addr : ℕ) (before behind : List Watchpoint) (wp : Watchpoint)
    → wp.aligned_location ≡ aligned wp.user_location
    → wp.user_location ≤ addr
    → addr < wp.user_location + wp.data_len
    → wp.user_location % 8 + wp.data_len ≤ 8
    → (found : Watchpoint) × (find_wp_with_address addr (before ++ (wp ∷ behind)) ≡ some found)
      × (found.aligned_location ≡ aligned wp.user_location)
find_wp_with_address-watched addr before behind wp e lo hi word =
    let same : aligned wp.user_location ≡ aligned addr = omega arith in
    let (found, ran, at) = find_wp_with_address-aligned addr before behind wp (omega arith) in
    (found, ran, omega arith)
