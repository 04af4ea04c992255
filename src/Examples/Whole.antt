-- ===== src/Examples/Whole.antt =====
-- Steps and histories of whole cores, beside the instruction set, and whole runs of the tools.
use emulator.Prelude.{
  ℕ, ◌+◌, ◌≡◌, ◌≤◌, ◌⊎◌, ◌↔◌, refl, true, false, Option, List, [], ◌∷◌, some, u64, length, arith,
}
use emulator.Types.{nmi_vector}
use emulator.Registers.{power_on}
use emulator.Variant.{nmos6502, cmos65c02}
use emulator.Bus.Flat.{FlatBus, flat_bus}
use emulator.Bus.Recording.{test_bus}
use emulator.Cpu.{Cpu, set_nmi}
use emulator.Cpu.Laws.{plain}
use emulator.Table.{instruction_table}
use emulator.Step.{find_row, advance, history, Call, resets, steps, drives_nmi}
use emulator.Step.Lockstep.{history-lockstep}
use emulator.Step.Rising.{rising-served}
use emulator.Isa.{address_of, interrupted, step, behave, instruction, restarts, answers}
use emulator.Isa.Operand.{view}
use emulator.Isa.Advance.{advance-step, history-behave}
use emulator.Isa.Families.{shared_step, families-agree}
use emulator.Isa.Footprint.{touches, advance-confined}
use emulator.Klaus.{boot, address_or, given, main, instruction_limit}
use emulator.Klaus.Hunt.{Succeeds}
use emulator.Klaus.Boot.{boot-outcome, main-Succeeds}
use emulator.Tracing.{TracingHooks, traced, text_of, peek_instruction, trace_line, emit_line}
use emulator.Tracing.Fits.{emit_line-fits}
use emulator.Tracing.Blind.{with_hooks}
use emulator.Tracing.Lines.{add_lines}
use emulator.Tracing.Whole.{all_lines, traced-history}
use emulator.Examples.{core, recorder}

advance-step_example :
    view (advance (plain flat_bus nmos6502) (core 0xb1))
    ≡ step nmos6502 instruction (view (core 0xb1))
advance-step_example = advance-step nmos6502 (core 0xb1)

-- An edge during a JSR, the entry of the handler, and a reset.
abbrev calls : List Call
calls = drives_nmi true ∷ steps ∷ steps ∷ resets ∷ []

history-behave_example :
    view (history (plain flat_bus cmos65c02) (steps ∷ resets ∷ []) (core 0x20))
    ≡ behave cmos65c02 (answers instruction ∷ restarts ∷ []) (view (core 0x20))
history-behave_example = history-behave cmos65c02 (steps ∷ resets ∷ []) (core 0x20)

families-agree_example :
    view (history (plain flat_bus nmos6502) (steps ∷ resets ∷ []) (core 0xb1))
    ≡ view (history (plain flat_bus cmos65c02) (steps ∷ resets ∷ []) (core 0xb1))
unfolding shared_step find_row instruction_table
families-agree_example =
    families-agree (steps ∷ resets ∷ []) (core 0xb1) (core 0xb1) refl refl (refl, tt)

-- INC of cell 0x80 leaves cell 0x81.
advance-confined_example : (advance (plain flat_bus nmos6502) (core 0xe6)).bus.memory 0x81 ≡ 0x80
unfolding touches find_row instruction_table address_of
advance-confined_example = advance-confined nmos6502 (core 0xe6) 0x81 refl

-- A pulse, with an IRQ pending.
abbrev pulsed : Cpu FlatBus (Unit {0})
pulsed = record (core 0xea) { pending_irq = true }

rising-served_example :
    let first = advance (plain flat_bus nmos6502) (set_nmi false (set_nmi true pulsed)) in
    (first.jammed ≡ true)
    ⊎ (view (advance (plain flat_bus nmos6502) first)
        ≡ interrupted nmos6502 false nmi_vector (view first))
rising-served_example = rising-served nmos6502 false pulsed refl refl

history-lockstep_example :
    let c' = history (plain test_bus nmos6502) calls recorder in
    c'.cycles ≡ u64 (0 + length c'.bus.log)
history-lockstep_example =
    history-lockstep nmos6502 0 calls recorder
      (record {
        a = omega arith;
        x = omega arith;
        y = omega arith;
        s = omega arith;
        pc = omega arith;
      })
      (λ at. ground arith) refl

-- An image of three bytes.
abbrev image : List ℕ
image = 0xea ∷ 0xd0 ∷ 0xfe ∷ []

abbrev files : List ℕ → Option (List ℕ)
files path = some image

main-Succeeds_example :
    ((main [] files (given [] (some 0) (some 1))).code ≡ 0)
    ↔ ((found : List ℕ) × (some image ≡ some found) × Succeeds 1 instruction_limit (boot 0 found))
unfolding address_or
main-Succeeds_example = main-Succeeds [] files [] (some 0) (some 1)

boot-outcome_example :
    let c = boot 0 image in
    (c.bus.memory 2 ≡ 0xfe)
    × (c.regs ≡ record power_on { s = 0xfd; i = true; pc = 0 })
    × (c.cycles ≡ 7)
    × (c.jammed ≡ false)
    × (c.pending_nmi ≡ false)
    × (c.pending_irq ≡ false)
boot-outcome_example = boot-outcome 0 image 2 (omega arith)

-- A core with tracing hooks.
abbrev traced_core : Cpu FlatBus TracingHooks
traced_core = with_hooks (record { lines = []; enabled = true }) (core 0xb1)

traced-history_example :
    let c' = history (traced flat_bus nmos6502) calls traced_core in
    (with_hooks tt c' ≡ history (plain flat_bus nmos6502) calls (with_hooks tt traced_core))
    × (c'.hooks
        ≡ add_lines (all_lines nmos6502 true calls (with_hooks tt traced_core)) traced_core.hooks)
traced-history_example = traced-history nmos6502 calls traced_core

emit_line-fits_example :
    let text = text_of (peek_instruction flat_bus 0x0400 traced_core.bus).0 in
    let line = trace_line traced_core 0x0400 0xb1 text in
    ((emit_line flat_bus traced_core 0x0400 0xb1).hooks.lines ≡ line ∷ [])
    × (length text ≤ 12)
    × (length line ≤ 75)
emit_line-fits_example = emit_line-fits flat_bus traced_core 0x0400 0xb1 (omega arith)
