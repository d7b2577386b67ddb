-- ===== src/Branch.antt =====
-- source/disas/branch.c: what kind of branch an A64 instruction is, where it goes and what it
-- tests. An `unsigned int` is a number below 2 ^ 32; its masks and shifts are written as `/`, `%`
-- and `*` by powers of two. A string is the list of its characters.
pub mod Cond
pub mod Target
mod Tests
use Prim.Native.String.{String}
use Prim.Native.Char.{code}
use iosdbg.Base.{
  ℕ, zero, suc, ◌+◌, ◌-◌, ◌*◌, ◌/◌, ◌%◌, ◌^◌, Bool, true, false, not, ◌&&◌, ◌||◌, Option, none,
  some, List, [], ◌∷◌, ◌==◌, ltb, if◌then◌else◌, take, drop, get_or,
}
use iosdbg.Base.Int.{ℤ, pos, negsuc}

-- `enum bikind`
pub data Kind : Type 0 where
  cond_branch_immediate uncond_branch_register uncond_branch_immediate : Kind
  comp_and_branch_immediate test_and_branch_immediate unknown_kind : Kind

-- `enum bicond`
pub data Bicond : Type 0 where
  eq ne cs cc mi pl vs vc hi ls ge lt gt le al unknown_cond : Bicond

-- `enum birn`: X0 to X30 are 0 to 30, XZR is 31, W0 to WZR are 32 to 63.
abbrev pub no_register : ℕ
no_register = 64

-- `struct branchinfo`
pub record BranchInfo : Type 0 where
  pub kind : Kind
  pub conditional : Bool
  pub cond : Bicond
  pub imm : ℤ
  pub rn : ℕ
  pub is_subroutine_call : ℕ

-- An `int` of which `w` is the bit pattern.
abbrev pub to_int : ℕ → ℤ
to_int w = if ltb w (2 ^ 31) then pos w else negsuc (2 ^ 32 - w - 1)

pub sign_extend : ℕ → ℕ → ℕ
sign_extend number numbits =
    if number / 2 ^ (numbits - 1) % 2 == 1
    then number % 2 ^ numbits + (2 ^ 32 - 2 ^ numbits)
    else number

-- The mask of `op1` covers bits 12 to 25, of which the shift leaves bit 25.
pub figure_kind : ℕ → Kind
figure_kind opcode =
    let op0 = opcode / 2 ^ 29 in
    let op1 = opcode / 2 ^ 25 % 2 in
    if op0 % 4 == 0
    then uncond_branch_immediate
    else if op1 == 1
    then (if op0 == 6
        then uncond_branch_register
        else if op0 % 4 == 1
        then test_and_branch_immediate
        else unknown_kind)
    else (if op0 == 2
        then cond_branch_immediate
        else if op0 % 4 == 1
        then comp_and_branch_immediate
        else unknown_kind)

abbrev pub codes : String → List ℕ
codes String.[] = []
codes (String.◌∷◌ c s) = code c ∷ codes s

abbrev pub cond_table : List (List ℕ)
cond_table =
    codes "eq,ne"
    ∷ codes "cs,cc"
    ∷ codes "mi,pl"
    ∷ codes "vs,vc"
    ∷ codes "hi,ls"
    ∷ codes "ge,lt"
    ∷ codes "gt,le"
    ∷ codes "al"
    ∷ []

-- `strcmp(s, t) == 0`
unfoldable pub same : List ℕ → List ℕ → Bool
same [] [] = true
same [] (d ∷ t) = false
same (c ∷ s) [] = false
same (c ∷ s) (d ∷ t) = (c == d) && same s t

-- The names in the order in which they are compared.
abbrev pub cond_names : List (List ℕ × Bicond)
cond_names =
    (codes "eq", eq)
    ∷ (codes "ne", ne)
    ∷ (codes "cs", cs)
    ∷ (codes "cc", cc)
    ∷ (codes "mi", mi)
    ∷ (codes "pl", pl)
    ∷ (codes "vs", vs)
    ∷ (codes "vc", vc)
    ∷ (codes "hi", hi)
    ∷ (codes "ls", ls)
    ∷ (codes "ge", ge)
    ∷ (codes "lt", lt)
    ∷ (codes "gt", gt)
    ∷ (codes "le", le)
    ∷ (codes "al", al)
    ∷ []

unfoldable pub cond_of_name : List (List ℕ × Bicond) → List ℕ → Bicond
cond_of_name [] s = unknown_cond
cond_of_name ((name, c) ∷ names) s = if same s name then c else cond_of_name names s

-- The text of `cond_table` that the condition stands for; the mask keeps bit 31 too. Where that
-- leads out of the table, which the source reads all the same, the text is empty.
unfoldable pub decoded_of : ℕ → List ℕ
decoded_of cond =
    let entry = get_or cond_table (cond / 2) [] in
    if (cond % 2 == 1) && not (cond == 0xf) then drop 3 entry else take 2 entry

pub figure_cond : ℕ → Bicond
unfolding decoded_of cond_of_name same
figure_cond opcode = cond_of_name cond_names (decoded_of (opcode % 16 + opcode / 2 ^ 31 * 2 ^ 31))

abbrev pub int_max : ℤ
int_max = pos (2 ^ 31 - 1)

unfoldable pub imm_of : Kind → ℕ → ℤ
imm_of cond_branch_immediate opcode = to_int (sign_extend (opcode / 2 ^ 5 % 2 ^ 19 * 4) 21)
imm_of comp_and_branch_immediate opcode = to_int (sign_extend (opcode / 2 ^ 5 % 2 ^ 19 * 4) 21)
imm_of uncond_branch_immediate opcode = to_int (sign_extend (opcode % 2 ^ 26 * 4) 28)
imm_of test_and_branch_immediate opcode = to_int (sign_extend (opcode % 2 ^ 14 / 2 ^ 5 * 4) 16)
imm_of uncond_branch_register opcode = int_max
imm_of unknown_kind opcode = int_max

unfoldable pub call_of : Kind → ℕ → ℕ
call_of uncond_branch_immediate opcode = opcode / 2 ^ 31
call_of uncond_branch_register opcode =
    let opc = opcode / 2 ^ 21 % 16 in if (opc == 1) || (opc == 9) then 1 else 0
call_of _ opcode = 0

-- Register operands: a 32 bit one is 32 further on.
abbrev pub tested_register : ℕ → ℕ
tested_register opcode = if opcode / 2 ^ 31 == 0 then opcode % 32 + 32 else opcode % 32

unfoldable pub rn_of : Kind → ℕ → ℕ
rn_of uncond_branch_register opcode = opcode / 2 ^ 5 % 32
rn_of comp_and_branch_immediate opcode = tested_register opcode
rn_of test_and_branch_immediate opcode = tested_register opcode
rn_of _ opcode = no_register

unfoldable pub is_cond : Kind → Bool
is_cond cond_branch_immediate = true
is_cond _ = false

unfoldable pub info_of : Kind → ℕ → Option BranchInfo
unfolding imm_of call_of rn_of is_cond figure_cond sign_extend
info_of unknown_kind opcode = none
info_of kind opcode = some (record {
  kind = kind;
  conditional = is_cond kind;
  cond = if is_cond kind then figure_cond opcode else unknown_cond;
  imm = imm_of kind opcode;
  rn = rn_of kind opcode;
  is_subroutine_call = call_of kind opcode;
})

-- `none` where the function returns 0.
pub is_branch : ℕ → Option BranchInfo
unfolding figure_kind info_of
is_branch opcode = if opcode / 2 ^ 26 % 8 == 5 then info_of (figure_kind opcode) opcode else none
