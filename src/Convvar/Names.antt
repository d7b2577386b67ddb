-- ===== src/Convvar/Names.antt =====
-- source/convvar.c: the names that a variable cannot have, and the functions of the C library on
-- characters and strings that the file calls.
use iosdbg.Base.{
  ℕ, zero, suc, ◌+◌, ◌/◌, ◌%◌, Bool, true, false, ◌&&◌, ◌||◌, Option, none, some, List, [], ◌∷◌,
  ◌++◌, ◌==◌, ltb, if◌then◌else◌, ◌≡◌, refl, arith,
}

-- `strcmp(a, b) == 0`
unfoldable pub same : (a b : List ℕ) → Bool
same [] [] = true
same [] (d ∷ b) = false
same (c ∷ a) [] = false
same (c ∷ a) (d ∷ b) = (c == d) && same a b

-- The index of the first and of the last place of a character.
unfoldable pub strchr : List ℕ → ℕ → Option ℕ
strchr [] c = none
strchr (d ∷ s) c =
    if d == c then some 0 else elim (strchr s c) [ none ↦ none | some i ↦ some (suc i) ]

unfoldable pub strrchr : List ℕ → ℕ → Option ℕ
strrchr [] c = none
strrchr (d ∷ s) c = elim (strrchr s c) [
  | none ↦ if d == c then some 0 else none
  | some i ↦ some (suc i)
]

-- The decimal digits of a number below 100.
abbrev pub digits : ℕ → List ℕ
digits n = if ltb n 10 then (48 + n) ∷ [] else (48 + n / 10) ∷ (48 + n % 10) ∷ []

-- "$c0", "$c1" and so on, `count` of them from number `n` on.
abbrev pub numbered : (c count n : ℕ) → List (List ℕ)
numbered c zero n = []
numbered c (suc count) n = (36 ∷ c ∷ digits n) ∷ numbered c count (n + 1)

-- The table for lower case letters; `up` is taken from each for upper case: $x0 to $x28, $fp, $lr,
-- $sp, $pc, $xzr, $w0 to $w28, $wsp, $wzr, and 32 each of $q, $v, $d, $s, $h and $b.
abbrev pub register_names : (x f p l r s c z w q v d h b : ℕ) → List (List ℕ)
register_names x f p l r s c z w q v d h b =
    numbered x 29 0
    ++ ((36 ∷ f ∷ p ∷ [])
        ∷ (36 ∷ l ∷ r ∷ [])
        ∷ (36 ∷ s ∷ p ∷ [])
        ∷ (36 ∷ p ∷ c ∷ [])
        ∷ (36 ∷ x ∷ z ∷ r ∷ [])
        ∷ (numbered w 29 0
            ++ ((36 ∷ w ∷ s ∷ p ∷ [])
                ∷ (36 ∷ w ∷ z ∷ r ∷ [])
                ∷ (numbered q 32 0
                    ++ (numbered v 32 0
                        ++ (numbered d 32 0
                            ++ (numbered s 32 0 ++ (numbered h 32 0 ++ numbered b 32 0))))))))

-- $fp, $lr, $sp, $pc, and the same in upper case, $cpsr, $fpsr, $fpcr and the same in upper case.
abbrev pub other_names : List (List ℕ)
other_names =
    (36 ∷ 102 ∷ 112 ∷ [])
    ∷ (36 ∷ 108 ∷ 114 ∷ [])
    ∷ (36 ∷ 115 ∷ 112 ∷ [])
    ∷ (36 ∷ 112 ∷ 99 ∷ [])
    ∷ (36 ∷ 70 ∷ 80 ∷ [])
    ∷ (36 ∷ 76 ∷ 82 ∷ [])
    ∷ (36 ∷ 83 ∷ 80 ∷ [])
    ∷ (36 ∷ 80 ∷ 67 ∷ [])
    ∷ (36 ∷ 99 ∷ 112 ∷ 115 ∷ 114 ∷ [])
    ∷ (36 ∷ 102 ∷ 112 ∷ 115 ∷ 114 ∷ [])
    ∷ (36 ∷ 102 ∷ 112 ∷ 99 ∷ 114 ∷ [])
    ∷ (36 ∷ 67 ∷ 80 ∷ 83 ∷ 82 ∷ [])
    ∷ (36 ∷ 70 ∷ 80 ∷ 83 ∷ 82 ∷ [])
    ∷ (36 ∷ 70 ∷ 80 ∷ 67 ∷ 82 ∷ [])
    ∷ []

unfoldable pub bad_names : List (List ℕ)
bad_names =
    register_names 120 102 112 108 114 115 99 122 119 113 118 100 104 98
    ++ (register_names 88 70 80 76 82 83 67 90 87 81 86 68 72 66 ++ other_names)

unfoldable pub is_one_of : List ℕ → List (List ℕ) → Bool
unfolding same
is_one_of name [] = false
is_one_of name (bad ∷ names) = same name bad || is_one_of name names

unfoldable pub invalid_name : Option (List ℕ) → Bool
unfolding is_one_of bad_names
invalid_name none = true
invalid_name (some name) = is_one_of name bad_names

pub same_refl : (a : List ℕ) → same a a ≡ true
unfolding same
same_refl [] = refl
same_refl (c ∷ a) = ground (arith, same_refl a)

pub eq_of_same : (a b : List ℕ) → same a b ≡ true → a ≡ b
unfolding same
eq_of_same [] [] e = refl
eq_of_same [] (d ∷ b) e = cc
eq_of_same (c ∷ a) [] e = cc
eq_of_same (c ∷ a) (d ∷ b) e = ground (arith, eq_of_same a b)
