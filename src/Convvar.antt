-- ===== src/Convvar.antt =====
-- source/convvar.c: the convenience variables. The list `vars` is NULL, `none`, until the first
-- variable is made; a variable is meant by its index in it, and keeps its place when it is freed
-- while it is still in the list. `none` as a result is a fault: an access to freed memory, through
-- NULL or outside a string.
pub mod Names
pub mod Accepted
pub mod Lookup
pub mod Roundtrip
pub mod Faults
mod Tests
use iosdbg.Base.{
  ℕ, zero, suc, ◌+◌, ◌-◌, Bool, true, false, not, ◌&&◌, ◌||◌, Option, none, some, List, [], ◌∷◌,
  ◌++◌, ◌==◌, if◌then◌else◌, length, take, drop, set, get_elem?,
}
use iosdbg.Base.Int.{ℤ, pos}
use iosdbg.Convvar.Names.{same, strchr, strrchr, invalid_name}

-- `bad_kind` is the -1 that `determine_kind` returns.
pub data Kind : Type 0 where
  void_kind integer double string bad_kind : Kind

-- `union convvar_data`: the bits of a number, a copy of a string, or what `malloc` left there.
pub data Content : Type 0 where
  bits : ℤ → Content
  text : List ℕ → Content
  uninitialised : Content

-- `is_void` is the state, `freed` says that the memory was freed.
pub record Convvar : Type 0 where
  pub name : List ℕ
  pub kind : Kind
  pub content : Content
  pub is_void : Bool
  pub freed : Bool

pub data Error : Type 0 where
  invalid_convvar_name no_dollar missing_quotation malformed_double null_value invalid_number :
      Error
  not_found : Error

-- What is shown for a variable.
pub data Shown : Type 0 where
  shown_void : Shown
  shown_string : List ℕ → Shown
  shown_double shown_integer : ℤ → Shown
  shown_pointer shown_junk : Shown

abbrev pub Vars : Type 0
Vars = Option (List Convvar)

abbrev pub same_place : Option ℕ → Option ℕ → Bool
same_place none none = true
same_place none (some j) = false
same_place (some i) none = false
same_place (some i) (some j) = i == j

abbrev pub is_found : Option ℕ → Bool
is_found none = false
is_found (some i) = true

-- The characters '"' and '.'.
unfoldable pub determine_kind : Option (List ℕ) → Option (Kind × Option Error)
unfolding strchr strrchr
determine_kind none = none
determine_kind (some []) = some (void_kind, none)
determine_kind (some (c ∷ s)) =
    let first_decimal = strchr (c ∷ s) 46 in
    let last_decimal = strrchr (c ∷ s) 46 in
    if c == 34
    then (if not (is_found (strrchr (c ∷ s) 34))
        then some (bad_kind, some missing_quotation)
        else some (string, none))
    else if not (same_place first_decimal last_decimal)
    then some (bad_kind, some malformed_double)
    else if is_found first_decimal
    then some (double, none)
    else some (integer, none)

unfoldable pub lookup_in : List Convvar → List ℕ → Option (Option ℕ)
unfolding same
lookup_in [] name = some none
lookup_in (v ∷ vs) name =
    let rest = lookup_in vs name in
    if v.freed
    then none
    else if same v.name name
    then some (some 0)
    else elim rest [ none ↦ none | some none ↦ some none | some (some i) ↦ some (some (suc i)) ]

unfoldable pub lookup_convvar : Vars → Option (List ℕ) → Option (Option ℕ)
unfolding lookup_in
lookup_convvar none name = some none
lookup_convvar (some vs) none = some none
lookup_convvar (some vs) (some name) =
    if invalid_name (some name) then some none else lookup_in vs name

-- `name` may be NULL; its first character may be its terminator.
abbrev pub has_dollar : Option (List ℕ) → Bool
has_dollar none = true
has_dollar (some []) = false
has_dollar (some (c ∷ s)) = c == 36

-- The index of the variable, and the error.
unfoldable pub convvar_exists : Vars → Option (List ℕ) → Option (Option ℕ × Option Error)
unfolding lookup_convvar
convvar_exists none name = some (none, none)
convvar_exists (some vs) name =
    if not (has_dollar name)
    then some (none, some no_dollar)
    else elim (lookup_convvar (some vs) name) [ none ↦ none | some found ↦ some (found, none) ]

-- `convvar_free`, on memory that may have been freed.
unfoldable pub convvar_free : Convvar → Option Convvar
convvar_free v = if v.freed then none else some (record v { freed = true })

-- After the number, or the string, was read: what is left of the value.
unfoldable pub finish_update : Convvar → List ℕ → Option (Convvar × Option Error)
unfolding convvar_free
finish_update v [] = some (record v { is_void = false }, none)
finish_update v (c ∷ s) = elim (convvar_free v) [
  | none ↦ none
  | some v' ↦ some (v', some invalid_number)
]

-- The string between its quotation marks; one character alone leads to a write before the string.
unfoldable pub unquoted : List ℕ → Option (List ℕ)
unquoted value = if length value == 1 then none else some (take (length value - 2) (drop 1 value))

-- `strtoll` with base 0, and the bits of what `strtod` gives, with what they leave of a string.
pub record Numbers : Type 0 where
  pub strtoll : List ℕ → ℤ × List ℕ
  pub strtod : List ℕ → ℤ × List ℕ

abbrev pub is_void_kind : Kind → Bool
is_void_kind void_kind = true
is_void_kind _ = false

-- `linkedlist_add` to a list that is made first if there is none.
abbrev pub add_var : Vars → Convvar → Vars
add_var none v = some (v ∷ [])
add_var (some vs) v = some (vs ++ (v ∷ []))

-- Both calls add to one error text, which the first begins.
abbrev pub first_error : Option Error → Option Error → Option Error
first_error none e = e
first_error (some e) _ = some e

module _ (lib : Numbers) where
  unfoldable pub read_value : Convvar → List ℕ → Kind → Option (Convvar × Option Error)
  unfolding finish_update unquoted
  read_value v value integer =
      let (n, rest) = lib.strtoll value in finish_update (record v { content = bits n }) rest
  read_value v value double =
      let (n, rest) = lib.strtod value in finish_update (record v { content = bits n }) rest
  read_value v value string = elim (unquoted value) [
    | none ↦ none
    | some s ↦ finish_update (record v { content = text s }) []
  ]
  read_value v value void_kind = finish_update v []
  read_value v value bad_kind = finish_update v []

  unfoldable pub update_convvar : Convvar → Option (List ℕ) → Option (Convvar × Option Error)
  unfolding read_value
  update_convvar v none = some (v, some null_value)
  update_convvar v (some []) = some (record v { is_void = true }, none)
  update_convvar v (some (c ∷ s)) = read_value v (c ∷ s) v.kind

  unfoldable pub create_convvar : Vars → List ℕ → Option (List ℕ) → Option (Vars × Option Error)
  unfolding determine_kind update_convvar
  create_convvar vars name value = elim (determine_kind value) [
    | none ↦ none
    | some (kind, some e) ↦ some (vars, some e)
    | some (kind, none) ↦
        elim (update_convvar
          (record {
            name = name;
            kind = kind;
            content = uninitialised;
            is_void = is_void_kind kind;
            freed = false;
          })
          value) [
            | none ↦ none
            | some (v, some e) ↦ some (vars, some e)
            | some (v, none) ↦ some (add_var vars v, none)
          ]
  ]

  -- The variable that is there gets a kind and a value.
  unfoldable pub set_existing : List Convvar → ℕ → Option (List ℕ) → Option (Vars × Option Error)
  unfolding determine_kind update_convvar
  set_existing vs i value = elim (determine_kind value) [
    | none ↦ none
    | some (kind, e) ↦ elim (get_elem? vs i) [
      | none ↦ none
      | some v ↦ elim (update_convvar (record v { kind = kind }) value) [
        | none ↦ none
        | some (v', e') ↦ some (some (set vs i v'), first_error e e')
      ]
    ]
  ]

  abbrev pub set_at : Vars → Option ℕ → Option (List ℕ) → Option (Vars × Option Error)
  set_at none found value = none
  set_at (some vs) none value = some (some vs, none)
  set_at (some vs) (some i) value = set_existing vs i value

  unfoldable pub set_convvar :
      Vars → Option (List ℕ) → Option (List ℕ) → Option (Vars × Option Error)
  unfolding convvar_exists create_convvar set_existing
  set_convvar vars none value = some (vars, some invalid_convvar_name)
  set_convvar vars (some name) value =
      if invalid_name (some name)
      then some (vars, some invalid_convvar_name)
      else elim (convvar_exists vars (some name)) [
        | none ↦ none
        | some (none, some e) ↦ some (vars, some e)
        | some (none, none) ↦ create_convvar vars name value
        | some (some i, e) ↦ set_at vars (some i) value
      ]

-- `i->data.integer`, which is also read for kind -1.
abbrev pub number_shown : Content → Shown
number_shown (bits n) = shown_integer n
number_shown (text s) = shown_pointer
number_shown uninitialised = shown_junk

abbrev pub double_shown : Content → Shown
double_shown (bits n) = shown_double n
double_shown (text s) = shown_pointer
double_shown uninitialised = shown_junk

abbrev pub string_shown : Content → Option Shown
string_shown (text s) = some (shown_string s)
string_shown _ = none

abbrev pub shown_as : Kind → Content → Option Shown
shown_as string c = string_shown c
shown_as double c = some (double_shown c)
shown_as void_kind c = some (number_shown c)
shown_as integer c = some (number_shown c)
shown_as bad_kind c = some (number_shown c)

-- The text of a variable, from the test of its state on.
unfoldable pub show : Convvar → Option Shown
show v = if v.freed then none else if v.is_void then some shown_void else shown_as v.kind v.content

abbrev pub var_at : Vars → ℕ → Option Convvar
var_at none i = none
var_at (some vs) i = get_elem? vs i

-- The inner `none` is the error that there is no such variable.
unfoldable pub convvar_strval : Vars → Option (List ℕ) → Option (Option Shown)
unfolding lookup_convvar show
convvar_strval vars name = elim (lookup_convvar vars name) [
  | none ↦ none
  | some none ↦ some none
  | some (some i) ↦ elim (var_at vars i) [
    | none ↦ none
    | some v ↦ elim (show v) [ none ↦ none | some t ↦ some (some t) ]
  ]
]

abbrev pub write_var : Vars → ℕ → Convvar → Vars
write_var none i v = none
write_var (some vs) i v = some (set vs i v)

unfoldable pub void_convvar : Vars → Option (List ℕ) → Option Vars
unfolding lookup_convvar
void_convvar vars none = some vars
void_convvar vars (some name) = elim (lookup_convvar vars (some name)) [
  | none ↦ none
  | some none ↦ some vars
  | some (some i) ↦ elim (var_at vars i) [
    | none ↦ none
    | some v ↦ some (write_var vars i (record v { is_void = true }))
  ]
]

abbrev pub remove_var : Vars → ℕ → Vars
remove_var none i = none
remove_var (some vs) i = some (take i vs ++ drop (suc i) vs)

-- `convvar_free`, `linkedlist_delete`, and `free`.
unfoldable pub del_convvar : Vars → Option (List ℕ) → Option (Vars × Option Error)
unfolding lookup_convvar convvar_free
del_convvar vars name = elim (lookup_convvar vars name) [
  | none ↦ none
  | some none ↦ some (vars, some not_found)
  | some (some i) ↦ elim (var_at vars i) [
    | none ↦ none
    | some v ↦ elim (convvar_free v) [
      | none ↦ none
      | some freed_once ↦ elim (convvar_free freed_once) [
        | none ↦ none
        | some freed_twice ↦ some (remove_var vars i, none)
      ]
    ]
  ]
]
