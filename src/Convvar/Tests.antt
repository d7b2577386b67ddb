-- ===== src/Convvar/Tests.antt =====
-- source/convvar.c on short names and values.
use iosdbg.Base.{
  ℕ, ◌+◌, ◌-◌, ◌*◌, ◌≡◌, refl, true, false, ◌&&◌, none, some, List, [], ◌∷◌, leb, if◌then◌else◌,
}
use iosdbg.Base.Int.{ℤ, pos}
use iosdbg.Convvar.Names.{same, strchr, strrchr, bad_names, is_one_of, invalid_name}
use iosdbg.Convvar.{
  Convvar, Vars, integer, bad_kind, bits, shown_void, shown_integer, shown_string, Numbers,
  invalid_number, no_dollar, invalid_convvar_name, malformed_double, determine_kind, lookup_in,
  lookup_convvar, convvar_exists, finish_update, unquoted, read_value, update_convvar,
  create_convvar, set_convvar, show, convvar_strval, void_convvar, del_convvar,
}
use iosdbg.Convvar.Roundtrip.{Kept, convvar_strval-set_convvar}
use iosdbg.Convvar.Faults.{del_convvar-freed_twice, convvar_strval-void_convvar, set_convvar-stale}

-- Decimal digits, and no fractions.
abbrev decimal : ℕ → List ℕ → ℤ × List ℕ
decimal n [] = (pos n, [])
decimal n (c ∷ s) =
    let rest = decimal (n * 10 + (c - 48)) s in
    if leb 48 c && leb c 57 then rest else (pos n, c ∷ s)

abbrev numbers : Numbers
numbers = record { strtoll = decimal 0; strtod = decimal 0 }

-- "$a", with the value 7.
abbrev a_name : List ℕ
a_name = 36 ∷ 97 ∷ []

abbrev a_var : Convvar
a_var = record {
  name = a_name;
  kind = integer;
  content = bits (pos 7);
  is_void = false;
  freed = false;
}

-- "$b" and "12"
abbrev b_name : List ℕ
b_name = 36 ∷ 98 ∷ []

abbrev twelve : List ℕ
twelve = 49 ∷ 50 ∷ []

no_register :
    (invalid_name (some b_name) ≡ false) × (invalid_name (some (36 ∷ 119 ∷ 49 ∷ 50 ∷ [])) ≡ true)
unfolding invalid_name is_one_of bad_names same
no_register = (refl, refl)

convvar_strval-set_convvar_example :
    (vars' : Vars) × Kept numbers b_name twelve
      (shown_integer (pos 12))
      refl
      (some (a_var ∷ []))
      vars'
convvar_strval-set_convvar_example =
    convvar_strval-set_convvar numbers b_name twelve (shown_integer (pos 12)) refl
      (some (a_var ∷ [])) (refl, tt) no_register.0 refl

a_shown : convvar_strval (some (a_var ∷ [])) (some a_name) ≡ some (some (shown_integer (pos 7)))
unfolding convvar_strval show lookup_convvar lookup_in invalid_name is_one_of bad_names same
a_shown = refl

del_convvar-freed_twice_example : del_convvar (some (a_var ∷ [])) (some a_name) ≡ none
del_convvar-freed_twice_example =
    del_convvar-freed_twice (a_var ∷ []) a_name (shown_integer (pos 7)) (refl, tt) a_shown

a_voided :
    (vs' : List Convvar) × ((void_convvar (some (a_var ∷ [])) (some a_name) ≡ some (some vs'))
      × (convvar_strval (some vs') (some a_name) ≡ some (some shown_void)))
a_voided =
    let (vs', (e, live, shown, others)) =
      convvar_strval-void_convvar (a_var ∷ []) a_name (shown_integer (pos 7)) (refl, tt) a_shown in
    (vs', (e, shown))

-- "12x"
set_convvar-stale_example :
    (vars' : Vars) × ((set_convvar numbers
          (some (a_var ∷ []))
          (some a_name)
          (some (49 ∷ 50 ∷ 120 ∷ []))
        ≡ some (vars', some invalid_number))
      × (convvar_strval vars' (some a_name) ≡ none))
set_convvar-stale_example =
    set_convvar-stale numbers (a_var ∷ []) a_name (49 ∷ 50 ∷ 120 ∷ []) (shown_integer (pos 7))
      (refl, tt) refl a_shown (refl, refl, λ e. cc)

-- Before there is a list, a name needs no '$'; in a list it does.
dollar_unchecked :
    ((vars' : Vars) × (set_convvar numbers none (some (98 ∷ [])) (some twelve)
        ≡ some (vars', none)))
    × (set_convvar numbers (some (a_var ∷ [])) (some (98 ∷ [])) (some twelve)
        ≡ some (some (a_var ∷ []), some no_dollar))
unfolding set_convvar create_convvar update_convvar read_value finish_update determine_kind
    convvar_exists lookup_convvar lookup_in invalid_name is_one_of bad_names same strchr strrchr
dollar_unchecked = ((_, refl), refl)

-- A value of one quotation mark is a fault, and of `"ab` the last character is lost.
quotation_marks :
    (set_convvar numbers none (some b_name) (some (34 ∷ [])) ≡ none)
    × ((vars' : Vars) × ((set_convvar numbers none (some b_name) (some (34 ∷ 97 ∷ 98 ∷ []))
            ≡ some (vars', none))
          × (convvar_strval vars' (some b_name) ≡ some (some (shown_string (97 ∷ []))))))
unfolding set_convvar create_convvar update_convvar read_value finish_update unquoted determine_kind
    convvar_exists convvar_strval show lookup_convvar lookup_in invalid_name is_one_of bad_names
    same strchr strrchr
quotation_marks = (refl, (_, (refl, refl)))

-- Two decimal points are refused; a name of a register is too.
refused :
    (determine_kind (some (49 ∷ 46 ∷ 46 ∷ [])) ≡ some (bad_kind, some malformed_double))
    × (set_convvar numbers none none (some twelve) ≡ some (none, some invalid_convvar_name))
unfolding determine_kind set_convvar strchr strrchr
refused = (refl, refl)
