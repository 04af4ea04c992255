-- ===== src/Table/Quarter3.antt =====
-- include/mos6502/instruction_table.def, the opcodes from 0xc0 to 0xff: opcode, mnemonic, and the shape
-- with its operation and its addressing mode.
use emulator.Prelude.{List, [], ◌∷◌}
use emulator.Instructions.{branch_instr, implied_instr, read_instr, rmw_instr, special_instr}
use emulator.Addressing.{
  absolute, absolute_x, absolute_y, immediate, indexed, indirect_x, indirect_y, zero_page,
  zero_page_x, Mode,
}
use emulator.Operations.Reads.{sbc, cmp, cpx, cpy, nop_r, sbx}
use emulator.Operations.Shifts.{inc, dec, dcp, isc}
use emulator.Operations.Implied.{inx, iny, dex, cld, sed, nop}
use emulator.Operations.Branches.{bne, beq}
use emulator.Operations.Special.{jam}
use emulator.Table.Entry.{Row, row}

unfoldable pub opcodes_c0 : List Row
opcodes_c0 =
    row 0xc0 "CPY" (read_instr cpy immediate)
    ∷ row 0xc1 "CMP" (read_instr cmp indirect_x)
    ∷ row 0xc2 "NOP" (read_instr nop_r immediate)
    ∷ row 0xc3 "DCP" (rmw_instr dcp indirect_x)
    ∷ row 0xc4 "CPY" (read_instr cpy zero_page)
    ∷ row 0xc5 "CMP" (read_instr cmp zero_page)
    ∷ row 0xc6 "DEC" (rmw_instr dec zero_page)
    ∷ row 0xc7 "DCP" (rmw_instr dcp zero_page)
    ∷ row 0xc8 "INY" (implied_instr iny Mode.implied)
    ∷ row 0xc9 "CMP" (read_instr cmp immediate)
    ∷ row 0xca "DEX" (implied_instr dex Mode.implied)
    ∷ row 0xcb "SBX" (read_instr sbx immediate)
    ∷ row 0xcc "CPY" (read_instr cpy absolute)
    ∷ row 0xcd "CMP" (read_instr cmp absolute)
    ∷ row 0xce "DEC" (rmw_instr dec absolute)
    ∷ row 0xcf "DCP" (rmw_instr dcp absolute)
    ∷ row 0xd0 "BNE" (branch_instr bne Mode.relative)
    ∷ row 0xd1 "CMP" (read_instr cmp (indexed indirect_y))
    ∷ row 0xd2 "JAM" (special_instr jam Mode.implied)
    ∷ row 0xd3 "DCP" (rmw_instr dcp (indexed indirect_y))
    ∷ row 0xd4 "NOP" (read_instr nop_r zero_page_x)
    ∷ row 0xd5 "CMP" (read_instr cmp zero_page_x)
    ∷ row 0xd6 "DEC" (rmw_instr dec zero_page_x)
    ∷ row 0xd7 "DCP" (rmw_instr dcp zero_page_x)
    ∷ row 0xd8 "CLD" (implied_instr cld Mode.implied)
    ∷ row 0xd9 "CMP" (read_instr cmp (indexed absolute_y))
    ∷ row 0xda "NOP" (implied_instr nop Mode.implied)
    ∷ row 0xdb "DCP" (rmw_instr dcp (indexed absolute_y))
    ∷ row 0xdc "NOP" (read_instr nop_r (indexed absolute_x))
    ∷ row 0xdd "CMP" (read_instr cmp (indexed absolute_x))
    ∷ row 0xde "DEC" (rmw_instr dec (indexed absolute_x))
    ∷ row 0xdf "DCP" (rmw_instr dcp (indexed absolute_x))
    ∷ row 0xe0 "CPX" (read_instr cpx immediate)
    ∷ row 0xe1 "SBC" (read_instr sbc indirect_x)
    ∷ row 0xe2 "NOP" (read_instr nop_r immediate)
    ∷ row 0xe3 "ISC" (rmw_instr isc indirect_x)
    ∷ row 0xe4 "CPX" (read_instr cpx zero_page)
    ∷ row 0xe5 "SBC" (read_instr sbc zero_page)
    ∷ row 0xe6 "INC" (rmw_instr inc zero_page)
    ∷ row 0xe7 "ISC" (rmw_instr isc zero_page)
    ∷ row 0xe8 "INX" (implied_instr inx Mode.implied)
    ∷ row 0xe9 "SBC" (read_instr sbc immediate)
    ∷ row 0xea "NOP" (implied_instr nop Mode.implied)
    ∷ row 0xeb "SBC" (read_instr sbc immediate)
    ∷ row 0xec "CPX" (read_instr cpx absolute)
    ∷ row 0xed "SBC" (read_instr sbc absolute)
    ∷ row 0xee "INC" (rmw_instr inc absolute)
    ∷ row 0xef "ISC" (rmw_instr isc absolute)
    ∷ row 0xf0 "BEQ" (branch_instr beq Mode.relative)
    ∷ row 0xf1 "SBC" (read_instr sbc (indexed indirect_y))
    ∷ row 0xf2 "JAM" (special_instr jam Mode.implied)
    ∷ row 0xf3 "ISC" (rmw_instr isc (indexed indirect_y))
    ∷ row 0xf4 "NOP" (read_instr nop_r zero_page_x)
    ∷ row 0xf5 "SBC" (read_instr sbc zero_page_x)
    ∷ row 0xf6 "INC" (rmw_instr inc zero_page_x)
    ∷ row 0xf7 "ISC" (rmw_instr isc zero_page_x)
    ∷ row 0xf8 "SED" (implied_instr sed Mode.implied)
    ∷ row 0xf9 "SBC" (read_instr sbc (indexed absolute_y))
    ∷ row 0xfa "NOP" (implied_instr nop Mode.implied)
    ∷ row 0xfb "ISC" (rmw_instr isc (indexed absolute_y))
    ∷ row 0xfc "NOP" (read_instr nop_r (indexed absolute_x))
    ∷ row 0xfd "SBC" (read_instr sbc (indexed absolute_x))
    ∷ row 0xfe "INC" (rmw_instr inc (indexed absolute_x))
    ∷ row 0xff "ISC" (rmw_instr isc (indexed absolute_x))
    ∷ []
