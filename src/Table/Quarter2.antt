-- ===== src/Table/Quarter2.antt =====
-- include/mos6502/instruction_table.def, the opcodes from 0x80 to 0xbf: opcode, mnemonic, and the shape
-- with its operation and its addressing mode.
use emulator.Prelude.{List, [], ◌∷◌}
use emulator.Instructions.{
  branch_instr, implied_instr, read_instr, special_instr, unstable_store_instr, write_instr,
}
use emulator.Addressing.{
  absolute, absolute_x, absolute_y, immediate, indexed, indirect_x, indirect_y, zero_page,
  zero_page_x, zero_page_y, Mode,
}
use emulator.Operations.Reads.{lda, ldx, ldy, lax, nop_r, las, ane, lxa}
use emulator.Operations.Writes.{sta, stx, sty, sax, sha, shx, shy, tas}
use emulator.Operations.Implied.{tax, tay, txa, tya, tsx, txs, dey, clv}
use emulator.Operations.Branches.{bcc, bcs}
use emulator.Operations.Special.{jam}
use emulator.Table.Entry.{Row, row}

unfoldable pub opcodes_80 : List Row
opcodes_80 =
    row 0x80 "NOP" (read_instr nop_r immediate)
    ∷ row 0x81 "STA" (write_instr sta indirect_x)
    ∷ row 0x82 "NOP" (read_instr nop_r immediate)
    ∷ row 0x83 "SAX" (write_instr sax indirect_x)
    ∷ row 0x84 "STY" (write_instr sty zero_page)
    ∷ row 0x85 "STA" (write_instr sta zero_page)
    ∷ row 0x86 "STX" (write_instr stx zero_page)
    ∷ row 0x87 "SAX" (write_instr sax zero_page)
    ∷ row 0x88 "DEY" (implied_instr dey Mode.implied)
    ∷ row 0x89 "NOP" (read_instr nop_r immediate)
    ∷ row 0x8a "TXA" (implied_instr txa Mode.implied)
    ∷ row 0x8b "ANE" (read_instr ane immediate)
    ∷ row 0x8c "STY" (write_instr sty absolute)
    ∷ row 0x8d "STA" (write_instr sta absolute)
    ∷ row 0x8e "STX" (write_instr stx absolute)
    ∷ row 0x8f "SAX" (write_instr sax absolute)
    ∷ row 0x90 "BCC" (branch_instr bcc Mode.relative)
    ∷ row 0x91 "STA" (write_instr sta (indexed indirect_y))
    ∷ row 0x92 "JAM" (special_instr jam Mode.implied)
    ∷ row 0x93 "SHA" (unstable_store_instr sha indirect_y)
    ∷ row 0x94 "STY" (write_instr sty zero_page_x)
    ∷ row 0x95 "STA" (write_instr sta zero_page_x)
    ∷ row 0x96 "STX" (write_instr stx zero_page_y)
    ∷ row 0x97 "SAX" (write_instr sax zero_page_y)
    ∷ row 0x98 "TYA" (implied_instr tya Mode.implied)
    ∷ row 0x99 "STA" (write_instr sta (indexed absolute_y))
    ∷ row 0x9a "TXS" (implied_instr txs Mode.implied)
    ∷ row 0x9b "TAS" (unstable_store_instr tas absolute_y)
    ∷ row 0x9c "SHY" (unstable_store_instr shy absolute_x)
    ∷ row 0x9d "STA" (write_instr sta (indexed absolute_x))
    ∷ row 0x9e "SHX" (unstable_store_instr shx absolute_y)
    ∷ row 0x9f "SHA" (unstable_store_instr sha absolute_y)
    ∷ row 0xa0 "LDY" (read_instr ldy immediate)
    ∷ row 0xa1 "LDA" (read_instr lda indirect_x)
    ∷ row 0xa2 "LDX" (read_instr ldx immediate)
    ∷ row 0xa3 "LAX" (read_instr lax indirect_x)
    ∷ row 0xa4 "LDY" (read_instr ldy zero_page)
    ∷ row 0xa5 "LDA" (read_instr lda zero_page)
    ∷ row 0xa6 "LDX" (read_instr ldx zero_page)
    ∷ row 0xa7 "LAX" (read_instr lax zero_page)
    ∷ row 0xa8 "TAY" (implied_instr tay Mode.implied)
    ∷ row 0xa9 "LDA" (read_instr lda immediate)
    ∷ row 0xaa "TAX" (implied_instr tax Mode.implied)
    ∷ row 0xab "LXA" (read_instr lxa immediate)
    ∷ row 0xac "LDY" (read_instr ldy absolute)
    ∷ row 0xad "LDA" (read_instr lda absolute)
    ∷ row 0xae "LDX" (read_instr ldx absolute)
    ∷ row 0xaf "LAX" (read_instr lax absolute)
    ∷ row 0xb0 "BCS" (branch_instr bcs Mode.relative)
    ∷ row 0xb1 "LDA" (read_instr lda (indexed indirect_y))
    ∷ row 0xb2 "JAM" (special_instr jam Mode.implied)
    ∷ row 0xb3 "LAX" (read_instr lax (indexed indirect_y))
    ∷ row 0xb4 "LDY" (read_instr ldy zero_page_x)
    ∷ row 0xb5 "LDA" (read_instr lda zero_page_x)
    ∷ row 0xb6 "LDX" (read_instr ldx zero_page_y)
    ∷ row 0xb7 "LAX" (read_instr lax zero_page_y)
    ∷ row 0xb8 "CLV" (implied_instr clv Mode.implied)
    ∷ row 0xb9 "LDA" (read_instr lda (indexed absolute_y))
    ∷ row 0xba "TSX" (implied_instr tsx Mode.implied)
    ∷ row 0xbb "LAS" (read_instr las (indexed absolute_y))
    ∷ row 0xbc "LDY" (read_instr ldy (indexed absolute_x))
    ∷ row 0xbd "LDA" (read_instr lda (indexed absolute_x))
    ∷ row 0xbe "LDX" (read_instr ldx (indexed absolute_y))
    ∷ row 0xbf "LAX" (read_instr lax (indexed absolute_y))
    ∷ []
