-- ===== src/Branch/Tests.antt =====
-- source/disas/branch.c on concrete instructions.
use iosdbg.Base.{◌≡◌, ◌≢◌, false, true, some, arith}
use iosdbg.Base.Int.{pos}
use iosdbg.Branch.{
  BranchInfo, uncond_branch_immediate, cond_branch_immediate, comp_and_branch_immediate,
  test_and_branch_immediate, unknown_cond, no_register, is_branch, figure_cond, ne,
}
use iosdbg.Branch.Cond.{figure_cond-conditions}
use iosdbg.Branch.Target.{
  offset, encode_b, encode_b_cond, encode_cb, encode_tb, is_branch-encode_b,
  is_branch-encode_b_cond, is_branch-encode_cb, is_branch-encode_tb, imm-encode_tb-ne,
}

-- BL -4
is_branch-encode_b_example :
    is_branch (encode_b 1 0x3ffffff)
    ≡ some (record {
      kind = uncond_branch_immediate;
      conditional = false;
      cond = unknown_cond;
      imm = offset 26 0x3ffffff;
      rn = no_register;
      is_subroutine_call = 1;
    })
is_branch-encode_b_example = is_branch-encode_b 1 0x3ffffff (omega arith) (omega arith)

-- B.NE -8
is_branch-encode_b_cond_at_sample :
    is_branch (encode_b_cond 0x7fffe 1)
    ≡ some (record {
      kind = cond_branch_immediate;
      conditional = true;
      cond = ne;
      imm = offset 19 0x7fffe;
      rn = no_register;
      is_subroutine_call = 0;
    })
is_branch-encode_b_cond_at_sample = is_branch-encode_b_cond 0x7fffe 1 (omega arith) (omega arith)

-- CBNZ W3, 16
is_branch-encode_cb_at_sample :
    is_branch (encode_cb 0 1 4 3)
    ≡ some (record {
      kind = comp_and_branch_immediate;
      conditional = false;
      cond = unknown_cond;
      imm = offset 19 4;
      rn = 35;
      is_subroutine_call = 0;
    })
is_branch-encode_cb_at_sample =
    is_branch-encode_cb 0 1 4 3 (omega arith) (omega arith) (omega arith) (omega arith)

-- TBZ W3, #5, 16
is_branch-encode_tb_example :
    is_branch (encode_tb 0 0 5 4 3)
    ≡ some (record {
      kind = test_and_branch_immediate;
      conditional = false;
      cond = unknown_cond;
      imm = pos 16;
      rn = 35;
      is_subroutine_call = 0;
    })
is_branch-encode_tb_example =
    is_branch-encode_tb 0 0 5 4 3 (omega arith) (omega arith) (omega arith) (omega arith)
      (omega arith)

-- TBZ W3, #5, -4
imm-encode_tb-ne_at_sample :
    (info : BranchInfo) × (is_branch (encode_tb 0 0 5 0x3fff 3) ≡ some info)
    × (info.imm ≢ offset 14 0x3fff)
imm-encode_tb-ne_at_sample =
    imm-encode_tb-ne 0 0 5 0x3fff 3 (omega arith) (omega arith) (omega arith) (omega arith)
      (omega arith) (omega arith)

figure_cond-conditions_example : figure_cond 0x54000001 ≡ ne
figure_cond-conditions_example = figure_cond-conditions 0x54000001 (omega arith)
