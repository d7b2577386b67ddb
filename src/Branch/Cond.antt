-- ===== src/Branch/Cond.antt =====
-- The condition of a conditional branch.
use iosdbg.Base.{
  ℕ, ◌+◌, ◌*◌, ◌/◌, ◌%◌, ◌^◌, ◌<◌, ◌≡◌, refl, List, [], ◌∷◌, arith, get_or, cases_below,
}
use iosdbg.Branch.{
  Bicond, eq, ne, cs, cc, mi, pl, vs, vc, hi, ls, ge, lt, gt, le, al, unknown_cond, figure_cond,
  decoded_of, cond_of_name, cond_names, same,
}

-- The conditions in the order of their encodings: 0b1110 and 0b1111 both mean always.
abbrev pub conditions : List Bicond
conditions = eq ∷ ne ∷ cs ∷ cc ∷ mi ∷ pl ∷ vs ∷ vc ∷ hi ∷ ls ∷ ge ∷ lt ∷ gt ∷ le ∷ al ∷ al ∷ []

all_conditions :
    (c : ℕ) → c < 16 → cond_of_name cond_names (decoded_of c) ≡ get_or conditions c unknown_cond
unfolding cond_of_name decoded_of same
all_conditions =
    cases_below 16 (λ c. cond_of_name cond_names (decoded_of c) ≡ get_or conditions c unknown_cond)
      (
        refl,
        (
          refl,
          (
            refl,
            (
              refl,
              (
                refl,
                (
                  refl,
                  (
                    refl,
                    (refl, (refl, (refl, (refl, (refl, (refl, (refl, (refl, (refl, tt))))))))),
                  ),
                ),
              ),
            ),
          ),
        ),
      )

-- For an instruction whose bit 31 is clear, as in every conditional branch, `figure_cond` gives the
-- condition that the lowest four bits encode.
pub figure_cond-conditions :
    (opcode : ℕ)
    → opcode < 2 ^ 31
    → figure_cond opcode ≡ get_or conditions (opcode % 16) unknown_cond
unfolding figure_cond
figure_cond-conditions opcode h =
    let e : opcode % 16 + opcode / 2 ^ 31 * 2 ^ 31 ≡ opcode % 16 = omega arith in
    rw e (all_conditions (opcode % 16) (omega arith))
