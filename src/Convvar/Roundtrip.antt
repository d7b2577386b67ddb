-- ===== src/Convvar/Roundtrip.antt =====
-- source/convvar.c: what set_convvar keeps under a name, convvar_strval shows.
use iosdbg.Base.{
  ℕ, ◌≡◌, ◌≢◌, refl, sym, true, false, Option, none, some, List, [], ◌∷◌, ◌++◌, set, get_elem?,
  arith, inl, inr, ◌∙◌, Bool-cases,
}
use iosdbg.Convvar.Names.{invalid_name}
use iosdbg.Convvar.{
  Convvar, Vars, Shown, show, Error, uninitialised, Numbers, is_void_kind, add_var, has_dollar,
  convvar_exists, lookup_convvar, create_convvar, set_existing, set_at, set_convvar, convvar_strval,
  lookup_in,
}
use iosdbg.Convvar.Accepted.{
  meaning, kind_of, updated, determine_kind-kind_of, update_convvar-updated, show-updated,
}
use iosdbg.Convvar.Lookup.{
  AllLive, Missing, lookup-cases, assoc, shown_by, convvar_strval-assoc, AllLive-append_one,
  AllLive-set, assoc-append_one, assoc-append_other, assoc-set,
}

abbrev pub Live : Vars → Type 0
Live none = Unit
Live (some vs) = AllLive vs

strval-invalid :
    (vs : List Convvar) (name : List ℕ)
    → invalid_name (some name) ≡ true
    → convvar_strval (some vs) (some name) ≡ some none
unfolding convvar_strval
strval-invalid vs name bad =
    let e : lookup_convvar (some vs) (some name) ≡ some none = lookup-invalid in
    rw (e, convvar_strval) refl
  where
    lookup-invalid : lookup_convvar (some vs) (some name) ≡ some none
    lookup-invalid = unfold lookup_convvar in rw bad refl

pub strval-agrees :
    (vs vs' : List Convvar) (other : List ℕ)
    → AllLive vs
    → AllLive vs'
    → assoc vs' other ≡ assoc vs other
    → convvar_strval (some vs') (some other) ≡ convvar_strval (some vs) (some other)
strval-agrees vs vs' other live live' e = elim (Bool-cases (invalid_name (some other))) [
  | inl bad ↦ strval-invalid vs' other bad ∙ sym (strval-invalid vs other bad)
  | inr ok ↦
      convvar_strval-assoc vs' other live' ok ∙ (e ∙ sym (convvar_strval-assoc vs other live ok))
]

-- No variable is found in a list without variables, as where there is no list.
strval-nil :
    (name : List ℕ) → convvar_strval (some []) (some name) ≡ convvar_strval none (some name)
unfolding convvar_strval lookup_convvar lookup_in
strval-nil name = elim (Bool-cases (invalid_name (some name))) [
  | inl bad ↦ strval-invalid [] name bad
  | inr ok ↦ convvar_strval-assoc [] name tt ok ∙ assoc-nil
]
  where
    assoc-nil : assoc [] name ≡ some none
    assoc-nil = unfold assoc in refl

no_vars : (name : List ℕ) → Missing [] name
unfolding lookup_in
no_vars name = refl

pub exists-found :
    (vs : List Convvar) (name : List ℕ) (found : Option ℕ)
    → invalid_name (some name) ≡ false
    → has_dollar (some name) ≡ true
    → lookup_in vs name ≡ some found
    → convvar_exists (some vs) (some name) ≡ some (found, none)
unfolding convvar_exists lookup_convvar
exists-found vs name found ok dollar e = rw (dollar, ok, e) refl

exists-none : (name : Option (List ℕ)) → convvar_exists none name ≡ some (none, none)
unfolding convvar_exists
exists-none name = refl

module _ (lib : Numbers) (name value : List ℕ) where
  -- What is done with the place of the variable, or without one.
  abbrev pub set_or_create : Vars → Option ℕ → Option (Vars × Option Error)
  set_or_create vars none = create_convvar lib vars name (some value)
  set_or_create vars (some i) = set_at lib vars (some i) (some value)

  pub set-found :
      (vars : Vars) (found : Option ℕ) (r : Vars × Option Error)
      → invalid_name (some name) ≡ false
      → convvar_exists vars (some name) ≡ some (found, none)
      → set_or_create vars found ≡ some r
      → set_convvar lib vars (some name) (some value) ≡ some r
  unfolding set_convvar
  set-found vars none r ok e made = rw (ok, e) made
  set-found vars (some i) r ok e made = rw (ok, e) made

module _ (lib : Numbers) (name value : List ℕ) (t : Shown)
    (means : meaning lib value ≡ some t) where
  abbrev blank : Convvar
  blank = record {
    name = name;
    kind = kind_of lib value;
    content = uninitialised;
    is_void = is_void_kind (kind_of lib value);
    freed = false;
  }

  abbrev made : Convvar
  made = updated lib blank value

  create_convvar-made :
      (vars : Vars) → create_convvar lib vars name (some value) ≡ some (add_var vars made, none)
  unfolding create_convvar
  create_convvar-made vars =
      rw (determine_kind-kind_of lib value t means, create_convvar)
        (rw (update_convvar-updated lib blank value t means) refl)

  set_existing-updated :
      (vs : List Convvar) (i : ℕ) (v : Convvar)
      → get_elem? vs i ≡ some v
      → set_existing lib vs i (some value) ≡ some (some (set vs i (updated lib v value)), none)
  unfolding set_existing
  set_existing-updated vs i v e =
      rw (determine_kind-kind_of lib value t means, set_existing)
        (rw e (rw (update_convvar-updated lib v value t means) refl))

  updated-facts :
      (v : Convvar)
      → v.freed ≡ false
      → ((updated lib v value).freed ≡ false)
        × ((updated lib v value).name ≡ v.name)
        × (shown_by (show (updated lib v value)) ≡ some (some t))
  updated-facts v live =
      (fields value v live, names value v, rw (show-updated lib v value t live means) refl)
    where
      fields : (s : List ℕ) (v : Convvar) → v.freed ≡ false → (updated lib v s).freed ≡ false
      fields [] v live = live
      fields (c ∷ s) v live = ground arith

      names : (s : List ℕ) (v : Convvar) → (updated lib v s).name ≡ v.name
      names [] v = refl
      names (c ∷ s) v = ground arith

  -- The list after the call, and what it is asked for.
  abbrev pub Kept : Vars → Vars → Type 0
  Kept vars vars' =
      (set_convvar lib vars (some name) (some value) ≡ some (vars', none))
      × Live vars'
      × (convvar_strval vars' (some name) ≡ some (some t))
      × ((other : List ℕ)
          → name ≢ other
          → convvar_strval vars' (some other) ≡ convvar_strval vars (some other))

  -- Where no variable of the list was freed, the name starts with '$' and is not that of a
  -- register, and the value means something: `set_convvar` gives no error, no variable of the list
  -- is freed, the variable is then shown as what the value means, and every other name as before.
  pub convvar_strval-set_convvar :
      (vars : Vars)
      → Live vars
      → invalid_name (some name) ≡ false
      → has_dollar (some name) ≡ true
      → (vars' : Vars) × Kept vars vars'
  convvar_strval-set_convvar none live ok dollar =
      let (alive, named, shows) = updated-facts blank refl in
      let one : AllLive (made ∷ []) = (alive, tt) in
      (
        some (made ∷ []),
        (
          set-found lib name value none none _ ok (exists-none (some name))
              (create_convvar-made none),
          one,
          convvar_strval-assoc (made ∷ []) name one ok
              ∙ (assoc-append_one name made named alive [] tt (no_vars name) ∙ shows),
          λ other ne.
              strval-agrees [] (made ∷ []) other tt one
                (assoc-append_other name made named alive [] other ne)
              ∙ strval-nil other,
        ),
      )
  convvar_strval-set_convvar (some vs) live ok dollar = elim (lookup-cases vs name live) [
    | inl missing ↦
        let (alive, named, shows) = updated-facts blank refl in
        let live' = AllLive-append_one name made named alive vs live in
        (
          some (vs ++ (made ∷ [])),
          (
            set-found lib name value (some vs) none _ ok
                (exists-found vs name none ok dollar missing) (create_convvar-made (some vs)),
            live',
            convvar_strval-assoc (vs ++ (made ∷ [])) name live' ok
                ∙ (assoc-append_one name made named alive vs live missing ∙ shows),
            λ other ne.
                strval-agrees vs (vs ++ (made ∷ [])) other live live'
                  (assoc-append_other name made named alive vs other ne),
          ),
        )
    | inr (i, (found, (v, at, alive_v, named_v))) ↦
        let (alive, named, shows) = updated-facts v alive_v in
        let v' = updated lib v value in
        let live' = AllLive-set name v' (named ∙ named_v) alive vs i live in
        let (here, others) = assoc-set name v' (named ∙ named_v) alive vs i live found in
        (
          some (set vs i v'),
          (
            set-found lib name value (some vs) (some i) _ ok
                (exists-found vs name (some i) ok dollar found) (set_existing-updated vs i v at),
            live',
            convvar_strval-assoc (set vs i v') name live' ok ∙ (here ∙ shows),
            λ other ne. strval-agrees vs (set vs i v') other live live' (others other ne),
          ),
        )
  ]
