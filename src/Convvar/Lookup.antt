-- ===== src/Convvar/Lookup.antt =====
-- source/convvar.c: what the name of a variable leads to, in a list that is written or extended.
use iosdbg.Base.{
  ℕ, zero, suc, ◌≡◌, ◌≢◌, refl, ap, ◌∙◌, true, false, Option, none, some, List, [], ◌∷◌, ◌++◌,
  if◌then◌else◌, set, get_elem?, arith, Bool-cases, inl, inr, ◌⊎◌,
}
use iosdbg.Convvar.Names.{same, same_refl, eq_of_same, invalid_name}
use iosdbg.Convvar.{Convvar, Shown, lookup_in, lookup_convvar, convvar_strval, show}

-- No variable of the list was freed.
abbrev pub AllLive : List Convvar → Type 0
AllLive [] = Unit
AllLive (v ∷ vs) = (v.freed ≡ false) × AllLive vs

-- What the first variable with a name is shown as.
abbrev pub shown_by : Option Shown → Option (Option Shown)
shown_by none = none
shown_by (some t) = some (some t)

unfoldable pub assoc : List Convvar → List ℕ → Option (Option Shown)
assoc [] name = some none
assoc (v ∷ vs) name = if same v.name name then shown_by (show v) else assoc vs name

shown_at : List Convvar → Option (Option ℕ) → Option (Option Shown)
shown_at vs found = elim found [
  | none ↦ none
  | some none ↦ some none
  | some (some i) ↦ elim (get_elem? vs i) [
    | none ↦ none
    | some v ↦ elim (show v) [ none ↦ none | some t ↦ some (some t) ]
  ]
]

shown_at-assoc :
    (vs : List Convvar) (name : List ℕ)
    → AllLive vs
    → shown_at vs (lookup_in vs name) ≡ assoc vs name
unfolding shown_at lookup_in assoc
shown_at-assoc [] name live = refl
shown_at-assoc (v ∷ vs) name live = go (lookup_in vs name) (shown_at-assoc vs name live.1)
  where
    go :
        (found : Option (Option ℕ))
        → shown_at vs found ≡ assoc vs name
        → shown_at (v ∷ vs) (
            if v.freed
            then none
            else (if same v.name name then some (some 0) else elim found [
              | none ↦ none
              | some none ↦ some none
              | some (some i) ↦ some (some (suc i))
            ]))
          ≡ (if same v.name name then shown_by (show v) else assoc vs name)
    go none h = ground arith
    go (some none) h = ground arith
    go (some (some i)) h = ground arith

pub lookup_convvar-lookup_in :
    (vs : List Convvar) (name : List ℕ)
    → invalid_name (some name) ≡ false
    → lookup_convvar (some vs) (some name) ≡ lookup_in vs name
unfolding lookup_convvar
lookup_convvar-lookup_in vs name ok = rw ok refl

pub convvar_strval-assoc :
    (vs : List Convvar) (name : List ℕ)
    → AllLive vs
    → invalid_name (some name) ≡ false
    → convvar_strval (some vs) (some name) ≡ assoc vs name
unfolding convvar_strval shown_at
convvar_strval-assoc vs name live ok =
    ap (shown_at vs) (lookup_convvar-lookup_in vs name ok) ∙ shown_at-assoc vs name live

abbrev pub Missing : List Convvar → List ℕ → Type 0
Missing vs name = lookup_in vs name ≡ some none

abbrev pub FoundAt : List Convvar → List ℕ → ℕ → Type 0
FoundAt vs name i =
    (lookup_in vs name ≡ some (some i))
    × ((v : Convvar) × (get_elem? vs i ≡ some v) × (v.freed ≡ false) × (v.name ≡ name))

pub lookup-cases :
    (vs : List Convvar) (name : List ℕ)
    → AllLive vs
    → Missing vs name ⊎ ((i : ℕ) × FoundAt vs name i)
unfolding lookup_in
lookup-cases [] name live = inl refl
lookup-cases (v ∷ vs) name live = elim (Bool-cases (same v.name name)) [
  | inl e ↦ inr (0, (rw (live.0, e) refl, (v, refl, live.0, eq_of_same v.name name e)))
  | inr e ↦ elim (lookup-cases vs name live.1) [
    | inl missing ↦ inl (rw (live.0, e, missing) refl)
    | inr (i, (found, at)) ↦ inr (suc i, (rw (live.0, e, found) refl, at))
  ]
]

same-other : (a b : List ℕ) → a ≢ b → same a b ≡ false
same-other a b ne = elim (Bool-cases (same a b)) [
  | inl e ↦ absurd (ne (eq_of_same a b e))
  | inr e ↦ e
]

pub here_or_later :
    (v : Convvar) (vs : List Convvar) (name : List ℕ) (i : ℕ)
    → v.freed ≡ false
    → lookup_in (v ∷ vs) name ≡ some (some i)
    → ((same v.name name ≡ true) × (i ≡ 0))
      ⊎ ((same v.name name ≡ false) × ((j : ℕ) × (i ≡ suc j) × (lookup_in vs name ≡ some (some j))))
unfolding lookup_in
here_or_later v vs name i live found = elim (Bool-cases (same v.name name)) [
  | inl e ↦ inl (e, ground arith)
  | inr e ↦ inr (e, later (lookup_in vs name) refl (ground arith))
]
  where
    later :
        (rest : Option (Option ℕ))
        → lookup_in vs name ≡ rest
        → (elim rest [ none ↦ none | some none ↦ some none | some (some k) ↦ some (some (suc k)) ])
          ≡ some (some i)
        → (j : ℕ) × (i ≡ suc j) × (lookup_in vs name ≡ some (some j))
    later none e h = absurd cc
    later (some none) e h = absurd cc
    later (some (some k)) e h = (k, ground arith, e)

module _ (name : List ℕ) (v' : Convvar) (named : v'.name ≡ name) (live' : v'.freed ≡ false) where
  pub AllLive-append_one : (vs : List Convvar) → AllLive vs → AllLive (vs ++ (v' ∷ []))
  AllLive-append_one [] live = (live', tt)
  AllLive-append_one (v ∷ vs) live = (live.0, AllLive-append_one vs live.1)

  pub AllLive-set : (vs : List Convvar) (i : ℕ) → AllLive vs → AllLive (set vs i v')
  AllLive-set [] i live = tt
  AllLive-set (v ∷ vs) zero live = (live', live.1)
  AllLive-set (v ∷ vs) (suc i) live = (live.0, AllLive-set vs i live.1)

  pub assoc-append_one :
      (vs : List Convvar)
      → AllLive vs
      → Missing vs name
      → assoc (vs ++ (v' ∷ [])) name ≡ shown_by (show v')
  unfolding assoc lookup_in
  assoc-append_one [] live missing = rw (named, same_refl name) refl
  assoc-append_one (v ∷ vs) live missing = ground (arith, assoc-append_one vs live.1)

  pub assoc-append_other :
      (vs : List Convvar) (other : List ℕ)
      → name ≢ other
      → assoc (vs ++ (v' ∷ [])) other ≡ assoc vs other
  unfolding assoc
  assoc-append_other [] other ne = rw (named, same-other name other ne) refl
  assoc-append_other (v ∷ vs) other ne = rw (assoc-append_other vs other ne) refl

  pub assoc-set :
      (vs : List Convvar) (i : ℕ)
      → AllLive vs
      → lookup_in vs name ≡ some (some i)
      → (assoc (set vs i v') name ≡ shown_by (show v'))
        × ((other : List ℕ) → name ≢ other → assoc (set vs i v') other ≡ assoc vs other)
  unfolding assoc lookup_in
  assoc-set [] i live found = absurd cc
  assoc-set (v ∷ vs) i live found = elim (here_or_later v vs name i live.0 found) [
    | inl (e, at) ↦ rw at (
      rw (named, same_refl name) refl,
      λ other ne.
          let out : same v.name other ≡ false =
            rw (eq_of_same v.name name e) (same-other name other ne) in
          rw (named, same-other name other ne, out) refl,
    )
    | inr (e, (j, at, later)) ↦
        let ih = assoc-set vs j live.1 later in
        rw at (rw (e, ih.0) refl, λ other ne. rw (ih.1 other ne) refl)
  ]

-- A search that comes to a freed variable reads it.
pub lookup-set_freed :
    (v' : Convvar) (vs : List Convvar) (name : List ℕ) (i : ℕ)
    → v'.freed ≡ true
    → AllLive vs
    → lookup_in vs name ≡ some (some i)
    → lookup_in (set vs i v') name ≡ none
unfolding lookup_in
lookup-set_freed v' [] name i gone live found = absurd cc
lookup-set_freed v' (v ∷ vs) name i gone live found =
    elim (here_or_later v vs name i live.0 found) [
      | inl (e, at) ↦ rw at (rw gone refl)
      | inr (e, (j, at, later)) ↦
          rw at (rw (live.0, e, lookup-set_freed v' vs name j gone live.1 later) refl)
    ]

-- What is shown is in the list.
pub found-of_strval :
    (vs : List Convvar) (name : List ℕ) (t : Shown)
    → AllLive vs
    → convvar_strval (some vs) (some name) ≡ some (some t)
    → (invalid_name (some name) ≡ false) × ((i : ℕ) × FoundAt vs name i)
unfolding convvar_strval lookup_convvar
found-of_strval vs name t live e = elim (Bool-cases (invalid_name (some name))) [
  | inl bad ↦ absurd (ground arith)
  | inr ok ↦ elim (lookup-cases vs name live) [
    | inl missing ↦ absurd (ground arith)
    | inr found ↦ (ok, found)
  ]
]
