-- ===== src/Expr/Multiply.antt =====
-- source/expr.c, add_mults: a multiplication sign between a number and an opening parenthesis.
-- `isnumber` of the C library is a parameter; a loop that is out of rounds gives `none`.
mod Tests
use iosdbg.Base.{
  ℕ, zero, suc, ◌+◌, ◌-◌, ◌<◌, ◌≡◌, ◌≢◌, refl, Bool, true, false, not, ◌&&◌, Option, none, some,
  List, [], ◌∷◌, ◌++◌, ◌==◌, ltb, if◌then◌else◌, length, take, drop, arith, Bool-cases, inl, inr,
  ap, sym, ◌∙◌, length-append,
}
use mathlib.Core.List.{append_assoc}
use iosdbg.Base.Int.{pos}
use iosdbg.Base.Slices.{take-append_exact, drop-append_exact}
use iosdbg.Strext.{strins}
use iosdbg.Strext.Edit.{inserted, strins-inserted}
use iosdbg.Expr.{char_at, is_operator}

module _ (isnumber : ℕ → Bool) where
  -- The character before a '(' is a number.
  abbrev pub multiplies : (prev c : ℕ) → Bool
  multiplies prev c = (c == 40) && (not (is_operator prev) && isnumber prev)

  abbrev pub at_product : List ℕ → ℕ → Bool
  at_product s zero = false
  at_product s (suc i) = multiplies (char_at s i) (char_at s (suc i))

  unfoldable pub mults_loop : ℕ → ℕ → List ℕ → ℕ → Option (List ℕ)
  mults_loop zero junk s idx = none
  mults_loop (suc rounds) junk s idx =
      if not (ltb idx (length s))
      then some s
      else if at_product s idx
      then elim (strins junk (some s) (some (42 ∷ [])) (pos idx)) [
        | none ↦ none
        | some s' ↦ mults_loop rounds junk s' (idx + 2)
      ]
      else mults_loop rounds junk s (idx + 1)

  -- The outer `none` is a loop that is out of rounds, the inner one is NULL.
  unfoldable pub add_mults : ℕ → Option (List ℕ) → Option (Option (List ℕ))
  add_mults junk none = some none
  add_mults junk (some s) = elim (mults_loop (length s + 1) junk s 0) [
    | none ↦ none
    | some s' ↦ some (some s')
  ]

  -- The same, one character at a time.
  abbrev pub mults_after : ℕ → List ℕ → List ℕ
  mults_after prev [] = []
  mults_after prev (c ∷ s) =
      if multiplies prev c then 42 ∷ c ∷ mults_after c s else c ∷ mults_after c s

  abbrev pub with_mults : List ℕ → List ℕ
  with_mults [] = []
  with_mults (c ∷ s) = c ∷ mults_after c s

  char_at-middle :
      (done : List ℕ) (prev : ℕ) (rest : List ℕ) (i : ℕ)
      → length done ≡ i
      → (char_at (done ++ (prev ∷ rest)) i ≡ prev)
        × (char_at (done ++ (prev ∷ rest)) (suc i) ≡ char_at rest 0)
  char_at-middle [] prev rest zero e = (refl, refl)
  char_at-middle [] prev rest (suc i) e = absurd (omega (arith, e))
  char_at-middle (x ∷ done) prev rest zero e = absurd (omega (arith, e))
  char_at-middle (x ∷ done) prev rest (suc i) e = char_at-middle done prev rest i (omega (arith, e))

  inserted-middle :
      (done : List ℕ) (prev : ℕ) (rest : List ℕ) (i : ℕ)
      → length done ≡ i
      → inserted (done ++ (prev ∷ rest)) (42 ∷ []) (suc i) ≡ done ++ (prev ∷ 42 ∷ rest)
  inserted-middle [] prev rest zero e = refl
  inserted-middle [] prev rest (suc i) e = absurd (omega (arith, e))
  inserted-middle (x ∷ done) prev rest zero e = absurd (omega (arith, e))
  inserted-middle (x ∷ done) prev rest (suc i) e =
      ap (λ r. x ∷ r) (inserted-middle done prev rest i (omega (arith, e)))

  mults_loop-mults_after :
      (rest : List ℕ) (rounds junk : ℕ) (done : List ℕ) (prev i : ℕ)
      → length done ≡ i
      → length rest < rounds
      → mults_loop rounds junk (done ++ (prev ∷ rest)) (suc i)
        ≡ some (done ++ (prev ∷ mults_after prev rest))
  unfolding mults_loop
  mults_loop-mults_after rest zero junk done prev i e enough = absurd (omega arith)
  mults_loop-mults_after [] (suc rounds) junk done prev i e enough =
      let past : ltb (suc i) (length (done ++ (prev ∷ []))) ≡ false =
        ground (arith, length-append done (prev ∷ [])) in
      rw past refl
  mults_loop-mults_after (c ∷ cs) (suc rounds) junk done prev i e enough =
      let s = done ++ (prev ∷ c ∷ cs) in
      let (at, after) = char_at-middle done prev (c ∷ cs) i e in
      let inside : ltb (suc i) (length s) ≡ true =
        ground (arith, length-append done (prev ∷ c ∷ cs)) in
      elim (Bool-cases (multiplies prev c)) [
        | inl yes_ ↦
            let put : strins junk (some s) (some (42 ∷ [])) (pos (suc i))
                ≡ some (done ++ (prev ∷ 42 ∷ c ∷ cs)) =
              (strins-inserted junk s (42 ∷ []) (suc i) (λ x. cc)).0 (ground arith)
              ∙ ap some (inserted-middle done prev (c ∷ cs) i e) in
            let rest =
              mults_loop-mults_after cs rounds junk (done ++ (prev ∷ 42 ∷ [])) c (i + 2)
                (omega (arith, length-append done (prev ∷ 42 ∷ []))) (omega arith) in
            let idx : suc i + 2 ≡ suc (i + 2) = omega arith in
            let step : mults_loop (suc rounds) junk s (suc i)
                ≡ mults_loop rounds junk (done ++ (prev ∷ 42 ∷ c ∷ cs)) (suc (i + 2)) =
              rw (inside, mults_loop) (rw (at, after, yes_) (rw (put, idx) refl)) in
            rw yes_ (
              step
              ∙ (ap (λ r. mults_loop rounds junk r (suc (i + 2)))
                    (sym (append_assoc done (prev ∷ 42 ∷ []) (c ∷ cs)))
                  ∙ (rest ∙ ap some (append_assoc done (prev ∷ 42 ∷ []) (c ∷ mults_after c cs)))))
        | inr no_ ↦
            let rest =
              mults_loop-mults_after cs rounds junk (done ++ (prev ∷ [])) c (i + 1)
                (omega (arith, length-append done (prev ∷ []))) (omega arith) in
            let idx : suc i + 1 ≡ suc (i + 1) = omega arith in
            let step : mults_loop (suc rounds) junk s (suc i)
                ≡ mults_loop rounds junk s (suc (i + 1)) =
              rw (inside, mults_loop) (rw (at, after, no_) (rw idx refl)) in
            rw no_ (
              step
              ∙ (ap (λ r. mults_loop rounds junk r (suc (i + 1)))
                    (sym (append_assoc done (prev ∷ []) (c ∷ cs)))
                  ∙ (rest ∙ ap some (append_assoc done (prev ∷ []) (c ∷ mults_after c cs)))))
      ]

  mults_loop-first :
      (rounds junk c : ℕ) (s : List ℕ)
      → mults_loop (suc rounds) junk (c ∷ s) 0 ≡ mults_loop rounds junk (c ∷ s) 1
  unfolding mults_loop
  mults_loop-first rounds junk c s =
      let inside : ltb 0 (length (c ∷ s)) ≡ true = ground arith in rw (inside, mults_loop) refl

  -- `add_mults` of a string ends and gives it with a multiplication sign in front of each '(' that
  -- stands behind a number.
  pub add_mults-with_mults :
      (junk : ℕ) (s : List ℕ) → add_mults junk (some s) ≡ some (some (with_mults s))
  unfolding add_mults
  add_mults-with_mults junk [] = unfold mults_loop in refl
  add_mults-with_mults junk (c ∷ s) =
      let rest = mults_loop-mults_after s (length s + 1) junk [] c 0 refl (omega arith) in
      let rounds : length (c ∷ s) + 1 ≡ suc (length s + 1) = omega arith in
      rw
        (
          ap (λ r. mults_loop r junk (c ∷ s) 0) rounds
              ∙ (mults_loop-first (length s + 1) junk c s ∙ rest),
          add_mults,
        )
        refl
