-- ===== src/Memory/Swap.antt =====
-- The byte order of an instruction in source/memutils.c.
use iosdbg.Base.{ℕ, ◌+◌, ◌*◌, ◌/◌, ◌%◌, ◌^◌, ◌<◌, ◌≡◌, arith, ◌∙◌}
use iosdbg.Memory.{cf_swap_int32}

-- The swapped bytes as a number.
swapped :
    (arg a b c d : ℕ)
    → arg ≡ a + 256 * b + 65536 * c + 16777216 * d
    → a < 256
    → b < 256
    → c < 256
    → d < 256
    → cf_swap_int32 arg ≡ d + 256 * c + 65536 * b + 16777216 * a
unfolding cf_swap_int32
swapped arg a b c d e ha hb hc hd =
    let e₀ : arg % 256 ≡ a = omega arith in
    let e₁ : arg / 2 ^ 8 % 256 ≡ b = omega arith in
    let e₂ : arg / 2 ^ 16 % 256 ≡ c = omega arith in
    let e₃ : arg / 2 ^ 24 % 256 ≡ d = omega arith in rw (e₀, e₁, e₂, e₃) (omega arith)

-- To swap the bytes of a 32 bit word twice gives the word.
pub cf_swap_int32-involutive : (arg : ℕ) → arg < 2 ^ 32 → cf_swap_int32 (cf_swap_int32 arg) ≡ arg
cf_swap_int32-involutive arg h =
    let a = arg % 256 in
    let b = arg / 2 ^ 8 % 256 in
    let c = arg / 2 ^ 16 % 256 in
    let d = arg / 2 ^ 24 % 256 in
    let split : arg ≡ a + 256 * b + 65536 * c + 16777216 * d = omega arith in
    let once = swapped arg a b c d split (omega arith) (omega arith) (omega arith) (omega arith) in
    swapped (cf_swap_int32 arg) d c b a once (omega arith) (omega arith) (omega arith) (omega arith)
    ∙ (omega arith)
