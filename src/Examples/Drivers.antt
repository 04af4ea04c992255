-- ===== src/Examples/Drivers.antt =====
-- A core that tools/run_klaus.cpp stops.
use emulator.Prelude.{false, ◌==◌, if◌then◌else◌, ◌≡◌, refl, arith}
use emulator.Types.{crosses_page}
use emulator.Bus.Flat.{FlatBus, flat_bus}
use emulator.Bus.Flat
use emulator.Cpu.{fetch, read, read_if, tick}
use emulator.Operations.Branches.{branch_test}
use emulator.Operations.Implied.{apply_implied}
use emulator.Instructions.{execute, execute_implied, execute_branch, branch_target, take_branch}
use emulator.Table.{instruction_table}
use emulator.Step.{advance, find_row, step_instruction, instruction_body, dispatch, poll_interrupts}
use emulator.Klaus.{Core, next, at_trap, hunt}
use emulator.Klaus.Hunt.{nth, Traps, Moves, hunt-trap}
use emulator.Examples.{core}

-- A NOP at $0400, and `BNE *` behind it.
abbrev leading : Core
leading = record (core 0xea) {
  irq_line = false;
  bus = record {
    memory = λ at. if at == 0x0400 then 0xea else if at == 0x0401 then 0xd0 else 0xfe;
    cycles = 0;
  };
}

nop-Moves : Moves leading
unfolding next advance step_instruction instruction_body find_row instruction_table dispatch execute
    execute_implied apply_implied fetch read tick poll_interrupts Flat.read Flat.tick
nop-Moves = record { pc = λ e. omega (arith, e); runs = refl }

back-Traps : Traps (nth 1 leading)
unfolding nth next advance step_instruction instruction_body find_row instruction_table dispatch
    execute execute_implied apply_implied fetch read tick poll_interrupts Flat.read Flat.tick
    execute_branch branch_test branch_target take_branch read_if crosses_page
back-Traps = refl

hunt-trap_example : hunt 0x3469 20 leading ≡ at_trap 0x3469 (nth 1 leading).regs.pc (nth 2 leading)
hunt-trap_example = hunt-trap 1 0x3469 20 leading (omega arith) (nop-Moves, tt) back-Traps
