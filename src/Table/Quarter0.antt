-- ===== src/Table/Quarter0.antt =====
-- include/mos6502/instruction_table.def, the opcodes from 0x00 to 0x3f: opcode, mnemonic, and the shape
-- with its operation and its addressing mode.
use emulator.Prelude.{List, [], ◌∷◌}
use emulator.Instructions.{
  accum_instr, branch_instr, implied_instr, read_instr, rmw_instr, special_instr,
}
use emulator.Addressing.{
  absolute, absolute_x, absolute_y, immediate, indexed, indirect_x, indirect_y, operand, zero_page,
  zero_page_x, Mode,
}
use emulator.Operations.Reads.{ora, and, bit, nop_r, anc}
use emulator.Operations.Shifts.{asl, rol, slo, rla}
use emulator.Operations.Implied.{clc, sec, nop, php, plp}
use emulator.Operations.Branches.{bpl, bmi}
use emulator.Operations.Special.{brk, jsr, jam}
use emulator.Table.Entry.{Row, row}

unfoldable pub opcodes_00 : List Row
opcodes_00 =
    row 0x00 "BRK" (special_instr brk Mode.implied)
    ∷ row 0x01 "ORA" (read_instr ora indirect_x)
    ∷ row 0x02 "JAM" (special_instr jam Mode.implied)
    ∷ row 0x03 "SLO" (rmw_instr slo indirect_x)
    ∷ row 0x04 "NOP" (read_instr nop_r zero_page)
    ∷ row 0x05 "ORA" (read_instr ora zero_page)
    ∷ row 0x06 "ASL" (rmw_instr asl zero_page)
    ∷ row 0x07 "SLO" (rmw_instr slo zero_page)
    ∷ row 0x08 "PHP" (implied_instr php Mode.implied)
    ∷ row 0x09 "ORA" (read_instr ora immediate)
    ∷ row 0x0a "ASL" (accum_instr asl Mode.accumulator)
    ∷ row 0x0b "ANC" (read_instr anc immediate)
    ∷ row 0x0c "NOP" (read_instr nop_r absolute)
    ∷ row 0x0d "ORA" (read_instr ora absolute)
    ∷ row 0x0e "ASL" (rmw_instr asl absolute)
    ∷ row 0x0f "SLO" (rmw_instr slo absolute)
    ∷ row 0x10 "BPL" (branch_instr bpl Mode.relative)
    ∷ row 0x11 "ORA" (read_instr ora (indexed indirect_y))
    ∷ row 0x12 "JAM" (special_instr jam Mode.implied)
    ∷ row 0x13 "SLO" (rmw_instr slo (indexed indirect_y))
    ∷ row 0x14 "NOP" (read_instr nop_r zero_page_x)
    ∷ row 0x15 "ORA" (read_instr ora zero_page_x)
    ∷ row 0x16 "ASL" (rmw_instr asl zero_page_x)
    ∷ row 0x17 "SLO" (rmw_instr slo zero_page_x)
    ∷ row 0x18 "CLC" (implied_instr clc Mode.implied)
    ∷ row 0x19 "ORA" (read_instr ora (indexed absolute_y))
    ∷ row 0x1a "NOP" (implied_instr nop Mode.implied)
    ∷ row 0x1b "SLO" (rmw_instr slo (indexed absolute_y))
    ∷ row 0x1c "NOP" (read_instr nop_r (indexed absolute_x))
    ∷ row 0x1d "ORA" (read_instr ora (indexed absolute_x))
    ∷ row 0x1e "ASL" (rmw_instr asl (indexed absolute_x))
    ∷ row 0x1f "SLO" (rmw_instr slo (indexed absolute_x))
    ∷ row 0x20 "JSR" (special_instr jsr (operand absolute))
    ∷ row 0x21 "AND" (read_instr and indirect_x)
    ∷ row 0x22 "JAM" (special_instr jam Mode.implied)
    ∷ row 0x23 "RLA" (rmw_instr rla indirect_x)
    ∷ row 0x24 "BIT" (read_instr bit zero_page)
    ∷ row 0x25 "AND" (read_instr and zero_page)
    ∷ row 0x26 "ROL" (rmw_instr rol zero_page)
    ∷ row 0x27 "RLA" (rmw_instr rla zero_page)
    ∷ row 0x28 "PLP" (implied_instr plp Mode.implied)
    ∷ row 0x29 "AND" (read_instr and immediate)
    ∷ row 0x2a "ROL" (accum_instr rol Mode.accumulator)
    ∷ row 0x2b "ANC" (read_instr anc immediate)
    ∷ row 0x2c "BIT" (read_instr bit absolute)
    ∷ row 0x2d "AND" (read_instr and absolute)
    ∷ row 0x2e "ROL" (rmw_instr rol absolute)
    ∷ row 0x2f "RLA" (rmw_instr rla absolute)
    ∷ row 0x30 "BMI" (branch_instr bmi Mode.relative)
    ∷ row 0x31 "AND" (read_instr and (indexed indirect_y))
    ∷ row 0x32 "JAM" (special_instr jam Mode.implied)
    ∷ row 0x33 "RLA" (rmw_instr rla (indexed indirect_y))
    ∷ row 0x34 "NOP" (read_instr nop_r zero_page_x)
    ∷ row 0x35 "AND" (read_instr and zero_page_x)
    ∷ row 0x36 "ROL" (rmw_instr rol zero_page_x)
    ∷ row 0x37 "RLA" (rmw_instr rla zero_page_x)
    ∷ row 0x38 "SEC" (implied_instr sec Mode.implied)
    ∷ row 0x39 "AND" (read_instr and (indexed absolute_y))
    ∷ row 0x3a "NOP" (implied_instr nop Mode.implied)
    ∷ row 0x3b "RLA" (rmw_instr rla (indexed absolute_y))
    ∷ row 0x3c "NOP" (read_instr nop_r (indexed absolute_x))
    ∷ row 0x3d "AND" (read_instr and (indexed absolute_x))
    ∷ row 0x3e "ROL" (rmw_instr rol (indexed absolute_x))
    ∷ row 0x3f "RLA" (rmw_instr rla (indexed absolute_x))
    ∷ []
