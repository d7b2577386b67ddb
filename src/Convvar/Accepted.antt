-- ===== src/Convvar/Accepted.antt =====
-- source/convvar.c: the values that set_convvar takes, with what each is shown as.
use iosdbg.Base.{
  ℕ, suc, ◌-◌, ◌≡◌, refl, true, false, not, Option, none, some, List, [], ◌∷◌, ◌==◌, leb,
  if◌then◌else◌, length, take, arith,
}
use iosdbg.Convvar.Names.{strchr, strrchr}
use iosdbg.Convvar.{
  Kind, void_kind, integer, double, string, bits, text, Convvar, Shown, shown_void, shown_string,
  shown_double, shown_integer, Numbers, same_place, is_found, determine_kind, update_convvar,
  read_value, finish_update, unquoted, show,
}

abbrev pub count : ℕ → List ℕ → ℕ
count c [] = 0
count c (d ∷ s) = if d == c then suc (count c s) else count c s

found_last : (s : List ℕ) (c : ℕ) → is_found (strrchr s c) ≡ not (count c s == 0)
unfolding strrchr
found_last [] c = refl
found_last (d ∷ s) c = go (strrchr s c) (found_last s c)
  where
    go :
        (last : Option ℕ)
        → is_found last ≡ not (count c s == 0)
        → is_found (elim last [ none ↦ if d == c then some 0 else none | some i ↦ some (suc i) ])
          ≡ not (count c (d ∷ s) == 0)
    go none h = ground arith
    go (some i) h = ground arith

found_first : (s : List ℕ) (c : ℕ) → is_found (strchr s c) ≡ not (count c s == 0)
unfolding strchr
found_first [] c = refl
found_first (d ∷ s) c = go (strchr s c) (found_first s c)
  where
    go :
        (first : Option ℕ)
        → is_found first ≡ not (count c s == 0)
        → is_found (if d == c then some 0 else elim first [ none ↦ none | some i ↦ some (suc i) ])
          ≡ not (count c (d ∷ s) == 0)
    go none h = ground arith
    go (some i) h = ground arith

-- The first place is the last one exactly if there is at most one.
first_is_last : (s : List ℕ) (c : ℕ) → same_place (strchr s c) (strrchr s c) ≡ leb (count c s) 1
unfolding strchr strrchr
first_is_last [] c = refl
first_is_last (d ∷ s) c =
    go (strchr s c) (strrchr s c) (found_last s c) (found_first s c) (first_is_last s c)
  where
    go :
        (first last : Option ℕ)
        → is_found last ≡ not (count c s == 0)
        → is_found first ≡ not (count c s == 0)
        → same_place first last ≡ leb (count c s) 1
        → same_place
            (if d == c then some 0 else elim first [ none ↦ none | some i ↦ some (suc i) ])
            (elim last [ none ↦ if d == c then some 0 else none | some i ↦ some (suc i) ])
          ≡ leb (count c (d ∷ s)) 1
    go none none h h' e = ground arith
    go none (some j) h h' e = ground arith
    go (some i) none h h' e = ground arith
    go (some i) (some j) h h' e = ground arith

pub determine_kind-integer :
    (c : ℕ) (s : List ℕ)
    → (c == 34) ≡ false
    → count 46 (c ∷ s) ≡ 0
    → determine_kind (some (c ∷ s)) ≡ some (integer, none)
unfolding determine_kind
determine_kind-integer c s quote points =
    ground (arith, first_is_last (c ∷ s) 46, found_first (c ∷ s) 46)

-- A number is read to its end.
abbrev pub whole : {A : Type 0} → A → List ℕ → Option A
whole a [] = some a
whole a (c ∷ rest) = none

module _ (lib : Numbers) where
  -- What a value stands for: nothing, a string in quotation marks, a number with one decimal point,
  -- or an integer. The last character of a string is not looked at.
  abbrev pub meaning : List ℕ → Option Shown
  meaning [] = some shown_void
  meaning (c ∷ s) =
      if c == 34
      then (if length s == 0 then none else some (shown_string (take (length s - 1) s)))
      else if count 46 (c ∷ s) == 0
      then whole (shown_integer (lib.strtoll (c ∷ s)).0) (lib.strtoll (c ∷ s)).1
      else if count 46 (c ∷ s) == 1
      then whole (shown_double (lib.strtod (c ∷ s)).0) (lib.strtod (c ∷ s)).1
      else none

  abbrev pub kind_of : List ℕ → Kind
  kind_of [] = void_kind
  kind_of (c ∷ s) = if c == 34 then string else if count 46 (c ∷ s) == 0 then integer else double

  pub determine_kind-kind_of :
      (value : List ℕ) (t : Shown)
      → meaning value ≡ some t
      → determine_kind (some value) ≡ some (kind_of value, none)
  unfolding determine_kind
  determine_kind-kind_of [] t e = refl
  determine_kind-kind_of (c ∷ s) t e =
      ground (arith, first_is_last (c ∷ s) 46, found_first (c ∷ s) 46, found_last (c ∷ s) 34)

  abbrev pub updated : Convvar → List ℕ → Convvar
  updated v [] = record v { kind = void_kind; is_void = true }
  updated v (c ∷ s) =
      if c == 34
      then record v { kind = string; content = text (take (length s - 1) s); is_void = false }
      else if count 46 (c ∷ s) == 0
      then record v { kind = integer; content = bits (lib.strtoll (c ∷ s)).0; is_void = false }
      else record v { kind = double; content = bits (lib.strtod (c ∷ s)).0; is_void = false }

  pub update_convvar-updated :
      (v : Convvar) (value : List ℕ) (t : Shown)
      → meaning value ≡ some t
      → update_convvar lib (record v { kind = kind_of value }) (some value)
        ≡ some (updated v value, none)
  unfolding update_convvar read_value unquoted finish_update
  update_convvar-updated v [] t e = refl
  update_convvar-updated v (c ∷ s) t e = ground arith

  pub show-updated :
      (v : Convvar) (value : List ℕ) (t : Shown)
      → v.freed ≡ false
      → meaning value ≡ some t
      → show (updated v value) ≡ some t
  unfolding show
  show-updated v [] t live e = rw live e
  show-updated v (c ∷ s) t live e = ground arith
