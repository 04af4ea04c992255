-- ===== src/Operations/Branches.antt =====
-- The branch conditions of include/mos6502/operations.hpp.
use emulator.Prelude.{Bool, not}
use emulator.Registers.{Registers}

pub data Cond : Type 0 where
  bpl bmi bvc bvs bcc bcs bne beq : Cond

unfoldable pub branch_test : Cond → Registers → Bool
branch_test bpl r = not r.n
branch_test bmi r = r.n
branch_test bvc r = not r.v
branch_test bvs r = r.v
branch_test bcc r = not r.c
branch_test bcs r = r.c
branch_test bne r = not r.z
branch_test beq r = r.z
