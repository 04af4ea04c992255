-- ===== src/Examples/Programs.antt =====
-- Instructions of include/mos6502 that run from page 4, and how they are listed.
use Prim.Native.String.{String}
use emulator.Operations.Branches.{bne, branch_test}
use emulator.Disassembler.{disassemble, instruction_info, relative_target}
use emulator.Disassembler.Agreement.{disassemble-next, relative_target-taken}
use emulator.Prelude.{ℕ, ◌<◌, ◌≤◌, true, false, [], ◌∷◌, ◌≡◌, refl, arith, some, get_elem?}
use emulator.Types.{crosses_page}
use emulator.Variant.{nmos6502, cmos65c02}
use emulator.Bus.Flat.{FlatBus, flat_bus, store}
use emulator.Bus.Flat
use emulator.Bus.Recording.{TestBus, test_bus}
use emulator.Bus.Recording
use emulator.Cpu.{fetch}
use emulator.Cpu.Laws.{plain}
use emulator.Addressing.{
  syntax, operand_bytes, indexed, indirect_y, zero_page, effective, index_base, index_of, Mode,
}
use emulator.Operations.Reads.{lda}
use emulator.Operations.Shifts.{inc, apply_rmw}
use emulator.Operations.Special.{execute_jsr, execute_rts}
use emulator.Operations.Special.Stack.{jsr-rts}
use emulator.Instructions.{mode_of, branch_instr, read_instr, execute_rmw}
use emulator.Instructions.Timing.{base_cycles, penalty}
use emulator.Instructions.Writeback.{execute_rmw-log}
use emulator.Table.{instruction_table}
use emulator.Table.Entry.{Row, row}
use emulator.Table.Published.{published_counts}
use emulator.Step.{find_row, advance, step, run}
use emulator.Step.Cycles.{step-cycles, step-bounds}
use emulator.Step.Run.{after_steps, elapsed, Unspent, run-ends}
use emulator.Step.Decode.{decoded-published}
use emulator.Examples.{registers, opcode_only, core, recorder}

-- LDA (zp),Y across a page, and the 64-bit counter wraps on the way: six cycles.
step-cycles_example : (step (plain flat_bus nmos6502) (core 0xb1)).0 ≡ 6
unfolding find_row fetch instruction_table base_cycles penalty Flat.read Flat.tick crosses_page
    index_base index_of
step-cycles_example =
    step-cycles flat_bus nmos6502 (core 0xb1) (row 0xb1 "LDA" (read_instr lda (indexed indirect_y)))
      (omega arith) refl refl refl refl

step-bounds_example :
    (1 ≤ (step (plain flat_bus nmos6502) (core 0x00)).0)
    × ((step (plain flat_bus nmos6502) (core 0x00)).0 ≤ 11)
step-bounds_example = step-bounds flat_bus nmos6502 (core 0x00) (omega arith)

run-ends_example :
    let start = core 0xe6 in
    (k : ℕ) × (run (plain flat_bus nmos6502) 30 25 start
      ≡ some (
        elapsed flat_bus nmos6502 start.cycles (after_steps flat_bus nmos6502 k start),
        after_steps flat_bus nmos6502 k start,
      ))
    × Unspent flat_bus nmos6502 start.cycles 25 k start
    × (25 ≤ elapsed flat_bus nmos6502 start.cycles (after_steps flat_bus nmos6502 k start))
    × (elapsed flat_bus nmos6502 start.cycles (after_steps flat_bus nmos6502 k start) < 36)
run-ends_example =
    run-ends flat_bus nmos6502 30 25 (core 0xe6) (omega arith) (omega arith) (omega arith)

decoded-published_example :
    (r : Row) × (find_row 0x6c instruction_table ≡ some r)
    × (r.code ≡ 0x6c)
    × (get_elem? published_counts 0x6c ≡ some (base_cycles nmos6502 r.instr))
decoded-published_example = decoded-published 0x6c (omega arith)

-- The stack pointer wraps between the two pushes.
jsr-rts_example :
    (execute_rts
      (plain flat_bus nmos6502)
      (execute_jsr (plain flat_bus nmos6502) (core 0x20)).1).1.regs
    ≡ record registers { pc = 0x0402 }
jsr-rts_example = jsr-rts nmos6502 (core 0x20) (omega arith) (omega arith)

-- INC of page zero's cell 0x80, on the part without the dummy write: a second read in its place.
execute_rmw-log_example :
    let after = (execute_rmw (plain test_bus cmos65c02) inc zero_page recorder).1.bus in
    (after.log
      ≡ record { addr = 0x0400; value = 0x80; is_write = false }
        ∷ record { addr = 0x80; value = 0x80; is_write = false }
        ∷ record { addr = 0x80; value = 0x80; is_write = false }
        ∷ record { addr = 0x80; value = 0x81; is_write = true }
        ∷ [])
    × (after.memory 0x80 ≡ 0x81)
unfolding effective apply_rmw fetch Recording.read Recording.tick
execute_rmw-log_example = execute_rmw-log cmos65c02 inc zero_page recorder

disassemble_test :
    disassemble (opcode_only 0xb1) 0x0400 ≡ some (record { text = "LDA ($80),Y"; next = 0x0402 })
unfolding disassemble instruction_info instruction_table syntax operand_bytes mode_of
disassemble_test = refl

disassemble-next_example :
    (text : String) × (disassemble (opcode_only 0xb1) 0x0400
      ≡ some
          (record { text = text; next = (advance (plain flat_bus nmos6502) (core 0xb1)).regs.pc }))
unfolding find_row instruction_table
disassemble-next_example =
    disassemble-next nmos6502 (core 0xb1) (row 0xb1 "LDA" (read_instr lda (indexed indirect_y)))
      refl refl refl refl refl

-- BNE, taken, 128 bytes back.
relative_target-taken_example : (advance (plain flat_bus nmos6502) (core 0xd0)).regs.pc ≡ 0x0382
unfolding find_row instruction_table relative_target branch_test
relative_target-taken_example =
    relative_target-taken nmos6502 (core 0xd0) (row 0xd0 "BNE" (branch_instr bne Mode.relative)) bne
      Mode.relative refl refl refl refl refl
