-- ===== src/Expr/Operand.antt =====
-- Where an operand of an expression in source/expr.c ends.
use iosdbg.Base.{
  ℕ, zero, suc, ◌+◌, ◌-◌, ◌≤◌, ◌<◌, ◌≡◌, refl, true, false, some, List, ltb, ◌==◌, length, arith,
  Bool-cases, ◌⊎◌, inl, inr,
}
use iosdbg.Base.Int.{pos}
use iosdbg.Expr.{is_end_of_number, end_loop, find_end_of_operand}

-- The first index from `start` on at which a number ends, or the end of the string.
pub record IsEnd (s : List ℕ) (start end : ℕ) : Type 0 where
  pub from : start ≤ end
  pub inside : end ≤ length s
  pub first : (j : ℕ) → start ≤ j → j < end → is_end_of_number (some s) (pos j) ≡ false
  pub stops : (end ≡ length s) ⊎ (is_end_of_number (some s) (pos end) ≡ true)

further :
    (s : List ℕ) (start end : ℕ)
    → is_end_of_number (some s) (pos start) ≡ false
    → IsEnd s (start + 1) end
    → IsEnd s start end
further s start end goes_on is = record {
  from = omega arith;
  inside = is.inside;
  first = λ j lo hi. elim (Bool-cases (start == j)) [
    | inl e ↦ (let same : start ≡ j = ground arith in rw (← same) goes_on)
    | inr e ↦ is.first j (ground arith) hi
  ];
  stops = is.stops;
}

end_loop-IsEnd :
    (rounds : ℕ) (s : List ℕ) (start : ℕ)
    → start ≤ length s
    → length s - start < rounds
    → (end : ℕ) × (end_loop rounds s start ≡ some end) × IsEnd s start end
unfolding end_loop
end_loop-IsEnd zero s start le fuel = absurd (omega arith)
end_loop-IsEnd (suc rounds) s start le fuel =
    elim (Bool-cases (is_end_of_number (some s) (pos start))) [
      | inl ends ↦ rw ends (
        start,
        refl,
        record {
          from = omega arith;
          inside = le;
          first = λ j lo hi. absurd (omega arith);
          stops = inr ends;
        },
      )
      | inr goes_on ↦ elim (Bool-cases (ltb start (length s))) [
        | inl more ↦
            let (end, ran, is) =
              end_loop-IsEnd rounds s (start + 1) (ground arith) (ground arith) in
            rw (goes_on, more, ran) (end, refl, further s start end goes_on is)
        | inr over ↦
            rw (goes_on, over)
              (
                start,
                refl,
                record {
                  from = omega arith;
                  inside = le;
                  first = λ j lo hi. absurd (omega arith);
                  stops = inl (ground arith);
                },
              )
      ]
    ]

-- From an index inside a string or at its end, `find_end_of_operand` returns, and gives the first
-- index from there on at which a number ends, or the end of the string if there is none.
pub find_end_of_operand-IsEnd :
    (s : List ℕ) (start : ℕ)
    → start ≤ length s
    → (end : ℕ) × (find_end_of_operand (some s) (pos start) ≡ some (pos end)) × IsEnd s start end
unfolding find_end_of_operand
find_end_of_operand-IsEnd s start le =
    let inside : ltb (length s) start ≡ false = ground arith in
    let (end, ran, is) = end_loop-IsEnd (length s + 1) s start le (omega arith) in
    (end, rw (inside, ran) refl, is)
