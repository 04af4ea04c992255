-- ===== src/Isa/Interrupt.antt =====
-- The interrupt sequence of the core on the flat bus, beside the instruction set.
use emulator.Prelude.{ℕ, Bool, true, false, ◌≡◌, refl, ap, if◌then◌else◌}
use emulator.Registers.{Registers, pack}
use emulator.Variant.{Variant}
use emulator.Bus.Flat.{FlatBus, flat_bus, store}
use emulator.Bus.Flat
use emulator.Cpu.{
  Cpu, Policies, read_if, fetch, fetch_word, read_zero_page_word, read, write, tick, pull,
  peek_stack, set_jammed, poll_immediate, interrupt_sequence, enter_interrupt,
}
use emulator.Cpu
use emulator.Cpu.Laws.{plain}
use emulator.Isa.{Machine, past, push, push_pc, word_at, on_registers, interrupted}
use emulator.Isa.Operand.{view}

clear_decimal :
    (b : Bool) (r : Registers)
    → (if b then record r { d = false } else r) ≡ record r { d = if b then false else r.d }
clear_decimal true r = refl
clear_decimal false r = refl

-- The flags are set one after the other.
vectored :
    (variant : Variant) (is_break : Bool) (vector : ℕ) (m : Machine)
    → let saved = push (pack is_break m.regs) (push_pc m) in
      let set = record saved.regs { i = true } in
      let r = if variant.clear_decimal_on_interrupt then record set { d = false } else set in
      record saved { regs = record r { pc = word_at saved.memory vector } }
      ≡ interrupted variant is_break vector m
unfolding interrupted
vectored variant is_break vector m =
    let saved = push (pack is_break m.regs) (push_pc m) in
    ap (λ (r : Registers). record saved { regs = record r { pc = word_at saved.memory vector } })
      (clear_decimal variant.clear_decimal_on_interrupt (record saved.regs { i = true }))

module _ {H : Type 0} (variant : Variant) where
  abbrev core : Policies FlatBus H
  core = plain flat_bus variant

  -- The service of an interrupt, and BRK with its padding byte.
  pub interrupt_sequence-view :
      (is_break : Bool) (vector : ℕ) (c : Cpu FlatBus H)
      → view (interrupt_sequence core is_break vector c).1
        ≡ interrupted variant is_break vector
            (if is_break then on_registers (past 1) (view c) else view c)
  unfolding interrupt_sequence enter_interrupt pack Cpu.push fetch write read tick Flat.write
      Flat.read Flat.tick
  interrupt_sequence-view true vector c =
      vectored variant true vector (on_registers (past 1) (view c))
  interrupt_sequence-view false vector c = vectored variant false vector (view c)
