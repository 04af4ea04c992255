-- ===== src/Table/Quarter1.antt =====
-- include/mos6502/instruction_table.def, the opcodes from 0x40 to 0x7f: opcode, mnemonic, and the shape
-- with its operation and its addressing mode.
use emulator.Prelude.{List, [], ◌∷◌}
use emulator.Instructions.{
  accum_instr, branch_instr, implied_instr, read_instr, rmw_instr, special_instr,
}
use emulator.Addressing.{
  absolute, absolute_x, absolute_y, immediate, indexed, indirect_x, indirect_y, operand, zero_page,
  zero_page_x, Mode,
}
use emulator.Operations.Reads.{eor, adc, nop_r, alr, arr}
use emulator.Operations.Shifts.{lsr, ror, sre, rra}
use emulator.Operations.Implied.{cli, sei, nop, pha, pla}
use emulator.Operations.Branches.{bvc, bvs}
use emulator.Operations.Special.{rts, rti, jmp_abs, jmp_ind, jam}
use emulator.Table.Entry.{Row, row}

unfoldable pub opcodes_40 : List Row
opcodes_40 =
    row 0x40 "RTI" (special_instr rti Mode.implied)
    ∷ row 0x41 "EOR" (read_instr eor indirect_x)
    ∷ row 0x42 "JAM" (special_instr jam Mode.implied)
    ∷ row 0x43 "SRE" (rmw_instr sre indirect_x)
    ∷ row 0x44 "NOP" (read_instr nop_r zero_page)
    ∷ row 0x45 "EOR" (read_instr eor zero_page)
    ∷ row 0x46 "LSR" (rmw_instr lsr zero_page)
    ∷ row 0x47 "SRE" (rmw_instr sre zero_page)
    ∷ row 0x48 "PHA" (implied_instr pha Mode.implied)
    ∷ row 0x49 "EOR" (read_instr eor immediate)
    ∷ row 0x4a "LSR" (accum_instr lsr Mode.accumulator)
    ∷ row 0x4b "ALR" (read_instr alr immediate)
    ∷ row 0x4c "JMP" (special_instr jmp_abs (operand absolute))
    ∷ row 0x4d "EOR" (read_instr eor absolute)
    ∷ row 0x4e "LSR" (rmw_instr lsr absolute)
    ∷ row 0x4f "SRE" (rmw_instr sre absolute)
    ∷ row 0x50 "BVC" (branch_instr bvc Mode.relative)
    ∷ row 0x51 "EOR" (read_instr eor (indexed indirect_y))
    ∷ row 0x52 "JAM" (special_instr jam Mode.implied)
    ∷ row 0x53 "SRE" (rmw_instr sre (indexed indirect_y))
    ∷ row 0x54 "NOP" (read_instr nop_r zero_page_x)
    ∷ row 0x55 "EOR" (read_instr eor zero_page_x)
    ∷ row 0x56 "LSR" (rmw_instr lsr zero_page_x)
    ∷ row 0x57 "SRE" (rmw_instr sre zero_page_x)
    ∷ row 0x58 "CLI" (implied_instr cli Mode.implied)
    ∷ row 0x59 "EOR" (read_instr eor (indexed absolute_y))
    ∷ row 0x5a "NOP" (implied_instr nop Mode.implied)
    ∷ row 0x5b "SRE" (rmw_instr sre (indexed absolute_y))
    ∷ row 0x5c "NOP" (read_instr nop_r (indexed absolute_x))
    ∷ row 0x5d "EOR" (read_instr eor (indexed absolute_x))
    ∷ row 0x5e "LSR" (rmw_instr lsr (indexed absolute_x))
    ∷ row 0x5f "SRE" (rmw_instr sre (indexed absolute_x))
    ∷ row 0x60 "RTS" (special_instr rts Mode.implied)
    ∷ row 0x61 "ADC" (read_instr adc indirect_x)
    ∷ row 0x62 "JAM" (special_instr jam Mode.implied)
    ∷ row 0x63 "RRA" (rmw_instr rra indirect_x)
    ∷ row 0x64 "NOP" (read_instr nop_r zero_page)
    ∷ row 0x65 "ADC" (read_instr adc zero_page)
    ∷ row 0x66 "ROR" (rmw_instr ror zero_page)
    ∷ row 0x67 "RRA" (rmw_instr rra zero_page)
    ∷ row 0x68 "PLA" (implied_instr pla Mode.implied)
    ∷ row 0x69 "ADC" (read_instr adc immediate)
    ∷ row 0x6a "ROR" (accum_instr ror Mode.accumulator)
    ∷ row 0x6b "ARR" (read_instr arr immediate)
    ∷ row 0x6c "JMP" (special_instr jmp_ind Mode.indirect)
    ∷ row 0x6d "ADC" (read_instr adc absolute)
    ∷ row 0x6e "ROR" (rmw_instr ror absolute)
    ∷ row 0x6f "RRA" (rmw_instr rra absolute)
    ∷ row 0x70 "BVS" (branch_instr bvs Mode.relative)
    ∷ row 0x71 "ADC" (read_instr adc (indexed indirect_y))
    ∷ row 0x72 "JAM" (special_instr jam Mode.implied)
    ∷ row 0x73 "RRA" (rmw_instr rra (indexed indirect_y))
    ∷ row 0x74 "NOP" (read_instr nop_r zero_page_x)
    ∷ row 0x75 "ADC" (read_instr adc zero_page_x)
    ∷ row 0x76 "ROR" (rmw_instr ror zero_page_x)
    ∷ row 0x77 "RRA" (rmw_instr rra zero_page_x)
    ∷ row 0x78 "SEI" (implied_instr sei Mode.implied)
    ∷ row 0x79 "ADC" (read_instr adc (indexed absolute_y))
    ∷ row 0x7a "NOP" (implied_instr nop Mode.implied)
    ∷ row 0x7b "RRA" (rmw_instr rra (indexed absolute_y))
    ∷ row 0x7c "NOP" (read_instr nop_r (indexed absolute_x))
    ∷ row 0x7d "ADC" (read_instr adc (indexed absolute_x))
    ∷ row 0x7e "ROR" (rmw_instr ror (indexed absolute_x))
    ∷ row 0x7f "RRA" (rmw_instr rra (indexed absolute_x))
    ∷ []
