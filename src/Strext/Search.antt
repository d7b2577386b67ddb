-- ===== src/Strext/Search.antt =====
-- Where `strrstr` of source/strext.c finds a string in another one.
use iosdbg.Base.{
  ℕ, zero, suc, ◌<◌, ◌≡◌, ◌≢◌, refl, true, false, Option, none, some, List, [], ◌∷◌, length, take,
  drop, arith, ◌==◌, Bool-cases, inl, inr,
}
use iosdbg.Strext.{matches, search_down, strrstr}

-- The characters of `s1` from offset `j` on, as many as `s2` has, are those of `s2`.
abbrev LiesAt : (s2 s1 : List ℕ) → ℕ → Type 0
LiesAt s2 s1 j = take (length s2) (drop j s1) ≡ s2

-- An offset at which the string lies, with none behind it below a bound.
abbrev pub IsLast : (bound : ℕ) (s1 s2 : List ℕ) → Option ℕ → Type 0
IsLast bound s1 s2 none = (j : ℕ) → j < bound → ¬ LiesAt s2 s1 j
IsLast bound s1 s2 (some i) =
    (i < bound) × LiesAt s2 s1 i × ((j : ℕ) → i < j → j < bound → ¬ LiesAt s2 s1 j)

matches-take : (s1 s2 : List ℕ) → matches s1 s2 ≡ true → take (length s2) s1 ≡ s2
unfolding matches
matches-take s1 [] e = refl
matches-take [] (d ∷ s2) e = absurd cc
matches-take (c ∷ s1) (d ∷ s2) e = ground (arith, matches-take s1 s2)

take-matches : (s1 s2 : List ℕ) → take (length s2) s1 ≡ s2 → matches s1 s2 ≡ true
unfolding matches
take-matches s1 [] e = refl
take-matches [] (d ∷ s2) e = absurd cc
take-matches (c ∷ s1) (d ∷ s2) e = ground (arith, take-matches s1 s2)

step-miss :
    (i : ℕ) (s1 s2 : List ℕ) (r : Option ℕ)
    → ¬ LiesAt s2 s1 i
    → IsLast i s1 s2 r
    → IsLast (suc i) s1 s2 r
step-miss i s1 s2 none miss last = λ j lt. elim (Bool-cases (i == j)) [
  | inl e ↦ (let same : i ≡ j = ground arith in rw (← same) miss)
  | inr e ↦ last j (ground arith)
]
step-miss i s1 s2 (some p) miss (lt, hit, none_behind) = (
  omega arith,
  hit,
  λ j p_lt j_lt. elim (Bool-cases (i == j)) [
    | inl e ↦ (let same : i ≡ j = ground arith in rw (← same) miss)
    | inr e ↦ none_behind j p_lt (ground arith)
  ],
)

no_match : (i : ℕ) (s1 s2 : List ℕ) → matches (drop i s1) s2 ≡ false → ¬ LiesAt s2 s1 i
no_match i s1 s2 miss lies = let hit = take-matches (drop i s1) s2 lies in absurd cc

search_down-IsLast : (bound : ℕ) (s1 s2 : List ℕ) → IsLast bound s1 s2 (search_down bound s1 s2)
unfolding search_down
search_down-IsLast zero s1 s2 = λ j lt. absurd (omega arith)
search_down-IsLast (suc i) s1 s2 = elim (Bool-cases (matches (drop i s1) s2)) [
  | inl hit ↦
      rw hit (omega arith, matches-take (drop i s1) s2 hit, λ j lt j_lt. absurd (omega arith))
  | inr miss ↦ rw miss (
      step-miss i s1 s2 (search_down i s1 s2) (λ lies. no_match i s1 s2 miss lies)
        (search_down-IsLast i s1 s2))
]

-- For a string that is not empty, `strrstr` gives the last offset from which the characters are those
-- of the string, and NULL if there is none.
pub strrstr-IsLast : (s1 s2 : List ℕ) → s2 ≢ [] → IsLast (length s1) s1 s2 (strrstr s1 s2)
unfolding strrstr
strrstr-IsLast s1 [] ne = absurd (ne refl)
strrstr-IsLast s1 (d ∷ s2) ne = search_down-IsLast (length s1) s1 (d ∷ s2)
