-- ===== src/Branch/Target.antt =====
-- The offsets that source/disas/branch.c decodes, against the encodings of the A64 branches.
use iosdbg.Base.{
  ℕ, ◌≢◌, ◌+◌, ◌-◌, ◌*◌, ◌/◌, ◌%◌, ◌^◌, ◌≤◌, ◌<◌, ◌≡◌, refl, true, false, some, ◌==◌, ltb, arith,
  get_or, if◌then◌else◌,
}
use iosdbg.Base.Int.{ℤ, pos, negsuc}
use iosdbg.Branch.Cond.{conditions, figure_cond-conditions}
use iosdbg.Branch.{
  BranchInfo, cond_branch_immediate, uncond_branch_immediate, comp_and_branch_immediate,
  test_and_branch_immediate, unknown_cond, no_register, to_int, sign_extend, is_branch,
}

-- The offset that a field of `n` bits stands for, in units of four bytes.
abbrev pub offset : ℕ → ℕ → ℤ
offset n field =
    if ltb field (2 ^ (n - 1)) then pos (4 * field) else negsuc (4 * (2 ^ n - field) - 1)

extended_28 : (field : ℕ) → field < 2 ^ 26 → to_int (sign_extend (field * 4) 28) ≡ offset 26 field
unfolding sign_extend
extended_28 field h = ground arith

extended_21 : (field : ℕ) → field < 2 ^ 19 → to_int (sign_extend (field * 4) 21) ≡ offset 19 field
unfolding sign_extend
extended_21 field h = ground arith

-- `B` and `BL`: `link` is bit 31.
abbrev pub encode_b : (link imm26 : ℕ) → ℕ
encode_b link imm26 = link * 2 ^ 31 + 5 * 2 ^ 26 + imm26

-- `B` and `BL` with any offset decode to that offset, and only `BL` to a subroutine call.
pub is_branch-encode_b :
    (link imm26 : ℕ)
    → link < 2
    → imm26 < 2 ^ 26
    → is_branch (encode_b link imm26)
      ≡ some (record {
        kind = uncond_branch_immediate;
        conditional = false;
        cond = unknown_cond;
        imm = offset 26 imm26;
        rn = no_register;
        is_subroutine_call = link;
      })
unfolding is_branch
is_branch-encode_b link imm26 hl hi =
    let op = encode_b link imm26 in
    let e₁ : (op / 2 ^ 26 % 8 == 5) ≡ true = ground arith in
    let e₂ : (op / 2 ^ 29 % 4 == 0) ≡ true = ground arith in
    let e₃ : op % 2 ^ 26 ≡ imm26 = omega arith in
    let e₄ : op / 2 ^ 31 ≡ link = omega arith in rw (e₁, e₂, e₃, e₄, extended_28 imm26 hi) refl

-- `B.cond`
abbrev pub encode_b_cond : (imm19 cond : ℕ) → ℕ
encode_b_cond imm19 cond = 2 * 2 ^ 29 + 5 * 2 ^ 26 + imm19 * 2 ^ 5 + cond

-- `B.cond` with any offset decodes to that offset and to its condition.
pub is_branch-encode_b_cond :
    (imm19 cond : ℕ)
    → imm19 < 2 ^ 19
    → cond < 16
    → is_branch (encode_b_cond imm19 cond)
      ≡ some (record {
        kind = cond_branch_immediate;
        conditional = true;
        cond = get_or conditions cond unknown_cond;
        imm = offset 19 imm19;
        rn = no_register;
        is_subroutine_call = 0;
      })
unfolding is_branch
is_branch-encode_b_cond imm19 cond hi hc =
    let op = encode_b_cond imm19 cond in
    let e₁ : (op / 2 ^ 26 % 8 == 5) ≡ true = ground arith in
    let e₂ : (op / 2 ^ 29 % 4 == 0) ≡ false = ground arith in
    let e₃ : (op / 2 ^ 25 % 2 == 1) ≡ false = ground arith in
    let e₄ : (op / 2 ^ 29 == 2) ≡ true = ground arith in
    let e₅ : op / 2 ^ 5 % 2 ^ 19 ≡ imm19 = omega arith in
    let e₆ : op % 16 ≡ cond = omega arith in
    rw (e₁, e₂, e₃, e₄, e₅, extended_21 imm19 hi, figure_cond-conditions op (omega arith), e₆) refl

-- `CBZ` and `CBNZ`: `sf` is bit 31, and `op` bit 24.
abbrev pub encode_cb : (sf op imm19 rt : ℕ) → ℕ
encode_cb sf op imm19 rt = sf * 2 ^ 31 + 2 ^ 29 + 5 * 2 ^ 26 + op * 2 ^ 24 + imm19 * 2 ^ 5 + rt

-- `CBZ` and `CBNZ` with any offset decode to that offset and to the register that is compared: a
-- 64 bit one as its number, a 32 bit one 32 further on.
pub is_branch-encode_cb :
    (sf op imm19 rt : ℕ)
    → sf < 2
    → op < 2
    → imm19 < 2 ^ 19
    → rt < 32
    → is_branch (encode_cb sf op imm19 rt)
      ≡ some (record {
        kind = comp_and_branch_immediate;
        conditional = false;
        cond = unknown_cond;
        imm = offset 19 imm19;
        rn = if sf == 0 then rt + 32 else rt;
        is_subroutine_call = 0;
      })
unfolding is_branch
is_branch-encode_cb sf op imm19 rt hs ho hi hr =
    let w = encode_cb sf op imm19 rt in
    let e₁ : (w / 2 ^ 26 % 8 == 5) ≡ true = ground arith in
    let e₂ : (w / 2 ^ 29 % 4 == 0) ≡ false = ground arith in
    let e₃ : (w / 2 ^ 25 % 2 == 1) ≡ false = ground arith in
    let e₄ : (w / 2 ^ 29 == 2) ≡ false = ground arith in
    let e₅ : (w / 2 ^ 29 % 4 == 1) ≡ true = ground arith in
    let e₆ : w / 2 ^ 5 % 2 ^ 19 ≡ imm19 = omega arith in
    let e₇ : w % 32 ≡ rt = omega arith in
    let e₈ : w / 2 ^ 31 ≡ sf = omega arith in
    rw (e₁, e₂, e₃, e₄, e₅, e₆, e₇, e₈, extended_21 imm19 hi) refl

-- `TBZ` and `TBNZ`: `b5` and `b40` are the bit that is tested, and `op` is bit 24.
abbrev pub encode_tb : (b5 op b40 imm14 rt : ℕ) → ℕ
encode_tb b5 op b40 imm14 rt =
    b5 * 2 ^ 31 + 2 ^ 29 + 5 * 2 ^ 26 + 2 ^ 25 + op * 2 ^ 24 + b40 * 2 ^ 19 + imm14 * 2 ^ 5 + rt

no_sign : (x : ℕ) → x < 2 ^ 9 → to_int (sign_extend (x * 4) 16) ≡ pos (4 * x)
unfolding sign_extend
no_sign x h = ground arith

-- `TBZ` and `TBNZ` decode to the lowest nine of the fourteen bits of their offset, taken as a
-- number that is not negative: the mask leaves out the other five, the sign among them.
pub is_branch-encode_tb :
    (b5 op b40 imm14 rt : ℕ)
    → b5 < 2
    → op < 2
    → b40 < 32
    → imm14 < 2 ^ 14
    → rt < 32
    → is_branch (encode_tb b5 op b40 imm14 rt)
      ≡ some (record {
        kind = test_and_branch_immediate;
        conditional = false;
        cond = unknown_cond;
        imm = pos (4 * (imm14 % 2 ^ 9));
        rn = if b5 == 0 then rt + 32 else rt;
        is_subroutine_call = 0;
      })
unfolding is_branch
is_branch-encode_tb b5 op b40 imm14 rt h5 ho h4 hi hr =
    let w = encode_tb b5 op b40 imm14 rt in
    let e₁ : (w / 2 ^ 26 % 8 == 5) ≡ true = ground arith in
    let e₂ : (w / 2 ^ 29 % 4 == 0) ≡ false = ground arith in
    let e₃ : (w / 2 ^ 25 % 2 == 1) ≡ true = ground arith in
    let e₄ : (w / 2 ^ 29 == 6) ≡ false = ground arith in
    let e₅ : (w / 2 ^ 29 % 4 == 1) ≡ true = ground arith in
    let e₆ : w % 2 ^ 14 / 2 ^ 5 ≡ imm14 % 2 ^ 9 = omega arith in
    let e₇ : w % 32 ≡ rt = omega arith in
    let e₈ : w / 2 ^ 31 ≡ b5 = omega arith in
    rw (e₁, e₂, e₃, e₄, e₅, e₆, e₇, e₈, no_sign (imm14 % 2 ^ 9) (omega arith)) refl

-- A backward `TBZ` or `TBNZ` is never decoded to its offset.
pub imm-encode_tb-ne :
    (b5 op b40 imm14 rt : ℕ)
    → b5 < 2
    → op < 2
    → b40 < 32
    → 2 ^ 13 ≤ imm14
    → imm14 < 2 ^ 14
    → rt < 32
    → (info : BranchInfo) × (is_branch (encode_tb b5 op b40 imm14 rt) ≡ some info)
      × (info.imm ≢ offset 14 imm14)
imm-encode_tb-ne b5 op b40 imm14 rt h5 ho h4 lo hi hr =
    (_, is_branch-encode_tb b5 op b40 imm14 rt h5 ho h4 hi hr, λ e. ground arith)
