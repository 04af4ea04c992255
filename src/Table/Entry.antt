-- ===== src/Table/Entry.antt =====
-- One line of include/mos6502/instruction_table.def.
use Prim.Native.String.{String}
use emulator.Prelude.{ℕ}
use emulator.Instructions.{Instr}

pub record Row : Type 0 where
  pub code : ℕ
  pub mnemonic : String
  pub instr : Instr

-- `X(code, mnemonic, operation, addressing, shape)`.
abbrev pub row : ℕ → String → Instr → Row
row code mnemonic instr = record { code = code; mnemonic = mnemonic; instr = instr }
