-- ===== src/Sigsupport/Settings.antt =====
-- What source/sigsupport.c keeps of the settings that it is given.
use iosdbg.Base.{
  ℕ, ◌≤◌, ◌<◌, ◌≡◌, ◌≢◌, refl, sym, ◌∙◌, true, false, ◌||◌, Option, none, some, List, ◌==◌, leb,
  if◌then◌else◌, length, get_elem?, set, inl, inr, arith, Bool-cases, get_elem?-set_self,
  get_elem?-set_ne,
}
use iosdbg.Base.Slices.{get_elem?-of_le, get_elem?-of_lt}
use iosdbg.Base.Int.{ℤ, pos}
use iosdbg.Sigsupport.{Setting, unknown_signal, settings_at, sigsettings}

abbrev pub asked : ℤ → List Setting → Option Setting
asked signo table = elim (sigsettings signo (some true) (some true) (some true) false table) [
  | none ↦ none
  | some (r, table') ↦ elim r [ inl e ↦ none | inr s ↦ some s ]
]

ask_outside :
    (n : ℕ) (table : List Setting)
    → length table ≤ n
    → sigsettings (pos n) (some true) (some true) (some true) false table
      ≡ some (inl (unknown_signal (pos n)), table)
unfolding sigsettings
ask_outside n table h =
    let out : ((n == 0) || leb (length table) n) ≡ true = ground arith in rw out refl

ask_inside :
    (n : ℕ) (table : List Setting) {s : Setting}
    → n ≢ 0
    → n < length table
    → get_elem? table n ≡ some s
    → sigsettings (pos n) (some true) (some true) (some true) false table ≡ some (inr s, table)
unfolding sigsettings settings_at
ask_inside n table ne h e =
    let inside : ((n == 0) || leb (length table) n) ≡ false = ground (arith, ne) in
    rw (inside, settings_at, e) refl

asked-get_elem? : (n : ℕ) (table : List Setting) → n ≢ 0 → asked (pos n) table ≡ get_elem? table n
asked-get_elem? n table ne = elim (Bool-cases (leb (length table) n)) [
  | inl out ↦
      rw (ask_outside n table (ground arith), asked, get_elem?-of_le table n (ground arith)) refl
  | inr inside ↦
      let (s, e) = get_elem?-of_lt table n (ground arith) in
      rw (ask_inside n table ne (ground arith) e, asked, e) refl
]

-- The settings of a signal in the table can be changed: they are then what is asked for, and those
-- of every other signal are as they were.
pub sigsettings-asked :
    (n m : ℕ) (s : Setting) (table : List Setting)
    → n ≢ 0
    → n < length table
    → m ≢ 0
    → (table' : List Setting) × (sigsettings
          (pos n)
          (some s.notify)
          (some s.pass)
          (some s.stop)
          true
          table
        ≡ some (inr s, table'))
      × (asked (pos m) table' ≡ (if m == n then some s else asked (pos m) table))
unfolding sigsettings settings_at
sigsettings-asked n m s table ne h ne' =
    let inside : ((n == 0) || leb (length table) n) ≡ false = ground (arith, ne) in
    let after = asked-get_elem? m (set table n s) ne' in
    rw inside (
      set table n s,
      refl,
      elim (Bool-cases (m == n)) [
        | inl e ↦
            let same : m ≡ n = ground arith in after ∙ rw (e, same) (get_elem?-set_self table n s h)
        | inr e ↦
            let other : n ≢ m = λ same. ground (arith, same) in
            after ∙ rw e (get_elem?-set_ne table s other ∙ sym (asked-get_elem? m table ne'))
      ],
    )
