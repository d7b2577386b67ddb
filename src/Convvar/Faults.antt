-- ===== src/Convvar/Faults.antt =====
-- source/convvar.c: what reads or frees memory that was freed.
use iosdbg.Base.{
  ℕ, ◌≡◌, ◌≢◌, refl, true, false, none, some, List, [], ◌∷◌, ◌==◌, set, get_elem?, ◌∙◌,
}
use iosdbg.Convvar.Names.{invalid_name}
use iosdbg.Convvar.{
  Convvar, Vars, Shown, shown_void, Numbers, invalid_number, integer, has_dollar, lookup_in,
  convvar_strval, del_convvar, void_convvar, convvar_free, show, set_convvar, set_existing,
  update_convvar, read_value, finish_update, determine_kind,
}
use iosdbg.Convvar.Accepted.{count, determine_kind-integer}
use iosdbg.Convvar.Lookup.{
  AllLive, FoundAt, lookup_convvar-lookup_in, lookup-set_freed, found-of_strval, shown_by,
  assoc-set, AllLive-set, convvar_strval-assoc,
}
use iosdbg.Convvar.Roundtrip.{exists-found, set-found, strval-agrees}

-- To delete a variable that is there frees it twice, if no variable of the list was freed.
pub del_convvar-freed_twice :
    (vs : List Convvar) (name : List ℕ) (t : Shown)
    → AllLive vs
    → convvar_strval (some vs) (some name) ≡ some (some t)
    → del_convvar (some vs) (some name) ≡ none
unfolding del_convvar convvar_free
del_convvar-freed_twice vs name t live e =
    let (ok, found) = found-of_strval vs name t live e in go ok found
  where
    go :
        invalid_name (some name) ≡ false
        → (i : ℕ) × FoundAt vs name i
        → del_convvar (some vs) (some name) ≡ none
    go ok (i, (found, (v, at, alive, named))) =
        rw (lookup_convvar-lookup_in vs name ok ∙ found, del_convvar)
          (rw (at, del_convvar) (rw alive refl))

show-void :
    (v : Convvar)
    → v.freed ≡ false
    → shown_by (show (record v { is_void = true })) ≡ some (some shown_void)
unfolding show
show-void v alive = rw alive refl

-- Where no variable of the list was freed, `void_convvar` of a variable that is there makes it
-- void, frees nothing, and leaves what every other name is shown as.
pub convvar_strval-void_convvar :
    (vs : List Convvar) (name : List ℕ) (t : Shown)
    → AllLive vs
    → convvar_strval (some vs) (some name) ≡ some (some t)
    → (vs' : List Convvar) × ((void_convvar (some vs) (some name) ≡ some (some vs'))
        × AllLive vs'
        × (convvar_strval (some vs') (some name) ≡ some (some shown_void))
        × ((other : List ℕ)
            → name ≢ other
            → convvar_strval (some vs') (some other) ≡ convvar_strval (some vs) (some other)))
unfolding void_convvar
convvar_strval-void_convvar vs name t live e =
    let (ok, found) = found-of_strval vs name t live e in go ok found
  where
    go :
        invalid_name (some name) ≡ false
        → (i : ℕ) × FoundAt vs name i
        → (vs' : List Convvar) × ((void_convvar (some vs) (some name) ≡ some (some vs'))
            × AllLive vs'
            × (convvar_strval (some vs') (some name) ≡ some (some shown_void))
            × ((other : List ℕ)
                → name ≢ other
                → convvar_strval (some vs') (some other) ≡ convvar_strval (some vs) (some other)))
    go ok (i, (found, (v, at, alive, named))) =
        let v' = record v { is_void = true } in
        let live' = AllLive-set name v' named alive vs i live in
        let (here, others) = assoc-set name v' named alive vs i live found in
        (
          set vs i v',
          (
            rw (lookup_convvar-lookup_in vs name ok ∙ found, void_convvar) (rw at refl),
            live',
            convvar_strval-assoc (set vs i v') name live' ok ∙ (here ∙ show-void v alive),
            λ other ne. strval-agrees vs (set vs i v') other live live' (others other ne),
          ),
        )

module _ (lib : Numbers) where
  -- The value is taken for an integer, and `strtoll` leaves some of it.
  abbrev pub NoInteger : List ℕ → Type 0
  NoInteger [] = ⊥
  NoInteger (c ∷ s) = ((c == 34) ≡ false) × (count 46 (c ∷ s) ≡ 0) × ((lib.strtoll (c ∷ s)).1 ≢ [])

  freed-by_update :
      (v : Convvar) (c : ℕ) (s rest : List ℕ)
      → v.freed ≡ false
      → (lib.strtoll (c ∷ s)).1 ≡ rest
      → rest ≢ []
      → (v' : Convvar) × ((update_convvar lib (record v { kind = integer }) (some (c ∷ s))
            ≡ some (v', some invalid_number))
          × (v'.freed ≡ true))
  unfolding update_convvar read_value finish_update convvar_free
  freed-by_update v c s [] alive e ne = absurd (ne refl)
  freed-by_update v c s (d ∷ rest) alive e ne = rw (e, alive) (_, (refl, refl))

  existing :
      (vs : List Convvar) (i c : ℕ) (s : List ℕ) (v v' : Convvar)
      → determine_kind (some (c ∷ s)) ≡ some (integer, none)
      → get_elem? vs i ≡ some v
      → update_convvar lib (record v { kind = integer }) (some (c ∷ s))
        ≡ some (v', some invalid_number)
      → set_existing lib vs i (some (c ∷ s)) ≡ some (some (set vs i v'), some invalid_number)
  unfolding set_existing
  existing vs i c s v v' kind at updates = rw (kind, set_existing) (rw at (rw updates refl))

  stale :
      (vs : List Convvar) (name : List ℕ)
      → invalid_name (some name) ≡ false
      → lookup_in vs name ≡ none
      → convvar_strval (some vs) (some name) ≡ none
  unfolding convvar_strval
  stale vs name ok e = rw (lookup_convvar-lookup_in vs name ok ∙ e, convvar_strval) refl

  -- Where no variable of the list was freed, and a value for a variable that is there is taken for
  -- an integer and is none: `set_convvar` gives the error, the variable is freed and stays in the
  -- list, and the next call that looks it up reads the freed memory.
  pub set_convvar-stale :
      (vs : List Convvar) (name value : List ℕ) (t : Shown)
      → AllLive vs
      → has_dollar (some name) ≡ true
      → convvar_strval (some vs) (some name) ≡ some (some t)
      → NoInteger value
      → (vars' : Vars) × ((set_convvar lib (some vs) (some name) (some value)
            ≡ some (vars', some invalid_number))
          × (convvar_strval vars' (some name) ≡ none))
  set_convvar-stale vs name [] t live dollar e unread = absurd unread
  set_convvar-stale vs name (c ∷ s) t live dollar e unread =
      let (ok, found) = found-of_strval vs name t live e in go ok found
    where
      go :
          invalid_name (some name) ≡ false
          → (i : ℕ) × FoundAt vs name i
          → (vars' : Vars) × ((set_convvar lib (some vs) (some name) (some (c ∷ s))
                ≡ some (vars', some invalid_number))
              × (convvar_strval vars' (some name) ≡ none))
      go ok (i, (found, (v, at, alive, named))) =
          let (v', (updates, gone)) =
            freed-by_update v c s (lib.strtoll (c ∷ s)).1 alive refl unread.2 in
          (
            some (set vs i v'),
            (
              set-found lib name (c ∷ s) (some vs) (some i) _ ok
                  (exists-found vs name (some i) ok dollar found)
                  (existing vs i c s v v' (determine_kind-integer c s unread.0 unread.1) at
                    updates),
              stale (set vs i v') name ok (lookup-set_freed v' vs name i gone live found),
            ),
          )
