-- ===== src/Table.antt =====
-- include/mos6502/instruction_table.def: the one list that the dispatcher and the disassembler
-- expand.
pub mod Entry
pub mod Published
mod Quarter0
mod Quarter1
mod Quarter2
mod Quarter3
use emulator.Prelude.{ℕ, List, ◌++◌}
use Entry.{Row}
use Quarter0.{opcodes_00}
use Quarter1.{opcodes_40}
use Quarter2.{opcodes_80}
use Quarter3.{opcodes_c0}

unfoldable pub instruction_table : List Row
unfolding opcodes_00 opcodes_40 opcodes_80 opcodes_c0
instruction_table = opcodes_00 ++ opcodes_40 ++ opcodes_80 ++ opcodes_c0
