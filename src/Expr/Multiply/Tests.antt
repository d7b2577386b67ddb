-- ===== src/Expr/Multiply/Tests.antt =====
-- source/expr.c, add_mults, on short expressions.
use iosdbg.Base.{ℕ, ◌≡◌, refl, Bool, ◌&&◌, some, none, List, [], ◌∷◌, leb}
use iosdbg.Strext.{strins, strins_at}
use iosdbg.Memory.{put_bytes}
use iosdbg.Expr.{is_operator}
use iosdbg.Expr.Multiply.{add_mults, mults_loop, with_mults, add_mults-with_mults}

abbrev digit : ℕ → Bool
digit c = leb 48 c && leb c 57

-- "6(2)-(3)"
abbrev product : List ℕ
product = 54 ∷ 40 ∷ 50 ∷ 41 ∷ 45 ∷ 40 ∷ 51 ∷ 41 ∷ []

add_mults-with_mults_example :
    add_mults digit 0 (some product) ≡ some (some (with_mults digit product))
add_mults-with_mults_example = add_mults-with_mults digit 0 product

-- "6*(2)-(3)"; NULL is left alone.
one_sign :
    (add_mults digit 0 (some product)
      ≡ some (some (54 ∷ 42 ∷ 40 ∷ 50 ∷ 41 ∷ 45 ∷ 40 ∷ 51 ∷ 41 ∷ [])))
    × (add_mults digit 0 none ≡ some none)
unfolding add_mults mults_loop strins strins_at put_bytes is_operator
one_sign = (refl, refl)
