-- ===== src/Step/Reset.antt =====
-- What `reset` of include/mos6502/cpu.hpp does on the flat bus.
use emulator.Prelude.{ℕ, ◌+◌, ◌-◌, ◌^◌, true, false, ◌≡◌, refl, arith, u8, u64, word}
use native.Mathlib.Nat.{mod-add-mod, add_assoc}
use emulator.Variant.{Variant}
use emulator.Bus.Flat.{FlatBus, flat_bus, read, tick}
use emulator.Cpu.{Cpu}
use emulator.Cpu.Laws.{plain}
use emulator.Instructions.Frame.{pins}
use emulator.Step.{reset}

-- Three phantom pushes.
three_down : (s : ℕ) → u8 (u8 (u8 (s + 2 ^ 8 - 1) + 2 ^ 8 - 1) + 2 ^ 8 - 1) ≡ u8 (s + 2 ^ 8 - 3)
three_down s = omega arith

module _ {H : Type 0} (variant : Variant) (c : Cpu FlatBus H) where
  reset-cycles : (reset (plain flat_bus variant) c).cycles ≡ u64 (c.cycles + 7)
  unfolding reset
  reset-cycles = simp (mod-add-mod, add_assoc)

  -- A reset takes seven cycles and writes nothing: it moves the stack pointer three down, sets I,
  -- takes the program counter from the vector, and leaves the other registers; the core is not
  -- jammed, has no interrupt latched or pending, and keeps the levels of its two lines.
  pub reset-outcome :
      let c' = reset (plain flat_bus variant) c in
      (c'.cycles ≡ u64 (c.cycles + 7))
      × (c'.bus.memory ≡ c.bus.memory)
      × (c'.regs ≡ record c.regs {
        s = u8 (c.regs.s + 2 ^ 8 - 3);
        i = true;
        pc = word (c.bus.memory 0xfffc) (c.bus.memory 0xfffd);
      })
      × (c'.jammed ≡ false)
      × (pins c' ≡ record (pins c) {
        nmi_edge = false;
        pending_nmi = false;
        pending_irq = false;
        poll_i = true;
      })
  unfolding reset read tick
  reset-outcome = (reset-cycles, refl, rw (three_down c.regs.s) refl, refl, refl)
