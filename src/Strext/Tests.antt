-- ===== src/Strext/Tests.antt =====
-- source/strext.c on short strings.
use iosdbg.Base.{ℕ, ◌≤◌, ◌<◌, ◌≡◌, refl, true, some, List, [], ◌∷◌, ◌++◌, ◌==◌, take, drop, arith}
use iosdbg.Base.Int.{pos, negsuc}
use iosdbg.Strext.{
  strins, strcut, substr, strrstr, search_down, matches, is_whitespace, only_others, strtol_err,
  is_number_fast,
}
use iosdbg.Strext.Edit.{inserted, strins-inserted, strcut-removed, substr-strins}
use iosdbg.Strext.Search.{IsLast, strrstr-IsLast}

-- "2(3)" and "*"
abbrev product : List ℕ
product = 50 ∷ 40 ∷ 51 ∷ 41 ∷ []

strins-inserted_at_sample :
    (1 ≤ 4 → strins 0 (some product) (some (42 ∷ [])) (pos 1) ≡ some (inserted product (42 ∷ []) 1))
    × (4 < 1 → strins 0 (some product) (some (42 ∷ [])) (pos 1) ≡ some product)
    × (strins 0 (some product) (some (42 ∷ [])) (negsuc 1) ≡ some product)
strins-inserted_at_sample = strins-inserted 0 product (42 ∷ []) 1 (λ e. cc)

two_cut : strcut (some product) (pos 1) (pos 2) ≡ some (take 1 product ++ drop 3 product)
two_cut = strcut-removed product 1 2 (omega arith) (omega arith)

substr-strins_example :
    (substr (strins 0 (some product) (some (42 ∷ [])) (pos 1)) (pos 1) (pos 1) ≡ some (42 ∷ []))
    × (strcut (strins 0 (some product) (some (42 ∷ [])) (pos 1)) (pos 1) (pos 1) ≡ some product)
substr-strins_example = substr-strins 0 product (42 ∷ []) 1 (λ e. cc) (omega arith)

strrstr-IsLast_example : IsLast 3 (7 ∷ 8 ∷ 7 ∷ []) (7 ∷ []) (strrstr (7 ∷ 8 ∷ 7 ∷ []) (7 ∷ []))
strrstr-IsLast_example = strrstr-IsLast (7 ∷ 8 ∷ 7 ∷ []) (7 ∷ []) (λ e. cc)

last_seven : strrstr (7 ∷ 8 ∷ 7 ∷ []) (7 ∷ []) ≡ some 2
unfolding strrstr search_down matches
last_seven = refl

blank : is_whitespace (λ c. c == 55) (some (32 ∷ 9 ∷ [])) ≡ true
unfolding is_whitespace only_others
blank = refl

numbers :
    (is_number_fast (λ s. (pos 7, [])) (some (55 ∷ [])) ≡ true)
    × (strtol_err (λ s. (pos 7, 33 ∷ [])) (some (55 ∷ 33 ∷ [])) ≡ (negsuc 0, true))
unfolding is_number_fast strtol_err
numbers = (refl, refl)

-- No bytes at the start cut the whole string.
nothing_cut : strcut (some product) (pos 0) (pos 0) ≡ some []
unfolding strcut
nothing_cut = refl
