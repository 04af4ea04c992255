-- ===== src/Examples/Histories.antt =====
-- Interrupts, resets and jammed cores (include/mos6502/cpu.hpp), call by call.
use emulator.Prelude.{ℕ, ◌-◌, ◌^◌, ◌<◌, true, false, List, [], ◌∷◌, ◌≡◌, refl, arith, u64}
use emulator.Types.{irq_vector}
use emulator.Variant.{nmos6502, cmos65c02}
use emulator.Bus.Flat.{FlatBus, flat_bus, store}
use emulator.Bus.Flat
use emulator.Bus.Bytes.{flat_bytes}
use emulator.Cpu.{Cpu, fetch, interrupt_sequence}
use emulator.Cpu.Laws.{plain}
use emulator.Cpu.Invariant.{Inv}
use emulator.Addressing.{Mode}
use emulator.Operations.Special.{execute_rti}
use emulator.Operations.Special.Return.{interrupt-rti}
use emulator.Instructions.{implied_instr}
use emulator.Instructions.Frame.{pins}
use emulator.Operations.Implied.{cli}
use emulator.Table.{instruction_table}
use emulator.Table.Entry.{row}
use emulator.Step.{find_row, service, advance, reset, history, Call, resets, steps, drives_nmi}
use emulator.Step.Invariant.{history-Inv}
use emulator.Step.Edge.{drive, drive-edge}
use emulator.Step.Interrupts.{NotBoth, instruction-poll, service-masks, history-NotBoth}
use emulator.Step.Reset.{reset-outcome}
use emulator.Step.Jam.{NoReset, count_steps, jammed-history}
use emulator.Examples.{registers, opcode_only, core}

opcode_only-lt : (at : ℕ) → opcode_only 0xe6 at < 256
opcode_only-lt at = ground arith

core-Inv : Inv flat_bytes (core 0xe6)
unfolding flat_bytes
core-Inv = record {
  regs = record {
    a = omega arith;
    x = omega arith;
    y = omega arith;
    s = omega arith;
    pc = omega arith;
  };
  cycles = omega arith;
  account = opcode_only-lt;
}

-- An NMI, an INC in page zero, the entry of the interrupt, and a reset.
abbrev calls : List Call
calls = drives_nmi true ∷ steps ∷ steps ∷ resets ∷ steps ∷ []

history-Inv_example : Inv flat_bytes (history (plain flat_bus cmos65c02) calls (core 0xe6))
history-Inv_example = history-Inv flat_bytes cmos65c02 calls (core 0xe6) core-Inv

history-NotBoth_example :
    NotBoth flat_bus nmos6502 (history (plain flat_bus nmos6502) calls (core 0xe6))
history-NotBoth_example = history-NotBoth flat_bus nmos6502 calls (core 0xe6) refl

-- CLI with the I flag set and the IRQ line asserted: no interrupt after CLI itself.
abbrev masked : Cpu FlatBus (Unit {0})
masked = record (core 0x58) { regs = record registers { i = true } }

instruction-poll_example :
    pins (advance (plain flat_bus nmos6502) masked)
    ≡ record (pins masked) { pending_nmi = false; pending_irq = false; poll_i = true }
unfolding find_row fetch instruction_table Flat.read Flat.tick
instruction-poll_example =
    instruction-poll flat_bus nmos6502 masked (row 0x58 "CLI" (implied_instr cli Mode.implied)) refl
      refl refl refl

abbrev accepted : Cpu FlatBus (Unit {0})
accepted = record (core 0x58) { pending_irq = true; nmi_edge = true }

service-masks_example :
    let c' = advance (plain flat_bus nmos6502) accepted in
    (c'
      ≡ service
          (plain flat_bus nmos6502)
          false
          irq_vector
          (record accepted { pending_irq = false }))
    × (c'.regs.i ≡ true)
    × (c'.pending_irq ≡ false)
    × (c'.pending_nmi ≡ true)
    × (c'.jammed ≡ false)
service-masks_example = service-masks flat_bus nmos6502 accepted refl refl refl

-- A pulse that is over before the poll.
drive-edge_example : (drive (true ∷ false ∷ []) (core 0xea)).nmi_edge ≡ true
drive-edge_example = drive-edge (true ∷ false ∷ []) (core 0xea)

abbrev wedged : Cpu FlatBus (Unit {0})
wedged = record (core 0x02) { jammed = true }

jammed-history_example :
    let c' = history (plain flat_bus nmos6502) (drives_nmi true ∷ steps ∷ steps ∷ []) wedged in
    (c'.jammed ≡ true) × (c'.regs ≡ registers) × (u64 c'.cycles ≡ 2 ^ 64 - 1)
unfolding NoReset count_steps
jammed-history_example =
    jammed-history flat_bus nmos6502 (drives_nmi true ∷ steps ∷ steps ∷ []) wedged tt refl

interrupt-rti_example :
    (execute_rti
      (plain flat_bus cmos65c02)
      (interrupt_sequence (plain flat_bus cmos65c02) false irq_vector (core 0x40)).1).1.regs
    ≡ registers
interrupt-rti_example =
    interrupt-rti cmos65c02 (core 0x40) false irq_vector (omega arith) (omega arith)

-- A wedged core with both kinds of latch set.
reset-outcome_example :
    let c' =
      reset (plain flat_bus nmos6502) (record wedged { nmi_edge = true; pending_nmi = true }) in
    (c'.cycles ≡ 4)
    × (c'.bus.memory ≡ opcode_only 0x02)
    × (c'.regs ≡ record registers { s = 0xfe; i = true; pc = 0x8080 })
    × (c'.jammed ≡ false)
    × (pins c' ≡ record (pins wedged) { poll_i = true })
reset-outcome_example =
    reset-outcome nmos6502 (record wedged { nmi_edge = true; pending_nmi = true })
