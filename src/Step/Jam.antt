-- ===== src/Step/Jam.antt =====
-- The JAM opcodes: how the core gets wedged, and a wedged core.
use emulator.Prelude.{ℕ, ◌+◌, true, false, ◌≡◌, refl, ◌∙◌, arith, u16, u64, some, List, [], ◌∷◌}
use emulator.Registers.{Registers}
use emulator.Variant.{Variant}
use emulator.Bus.{BusLike}
use emulator.Cpu.{Cpu, fetch, set_nmi, set_irq}
use emulator.Cpu.Laws.{plain}
use emulator.Addressing.{Mode}
use emulator.Operations.Special.{jam, execute_special}
use emulator.Instructions.{special_instr, execute}
use emulator.Table.{instruction_table}
use emulator.Table.Entry.{Row}
use emulator.Step.{
  find_row, poll_interrupts, latch_i, dispatch, instruction_body, step_instruction, advance,
  step_jammed, Call, resets, steps, drives_nmi, drives_irq, call, history,
}
use emulator.Step.Cases.{advance-jammed, advance-instruction}

-- No reset among the calls.
unfoldable pub NoReset : List Call → Type 0
NoReset [] = Unit
NoReset (resets ∷ ks) = ⊥
NoReset (steps ∷ ks) = NoReset ks
NoReset (drives_nmi _ ∷ ks) = NoReset ks
NoReset (drives_irq _ ∷ ks) = NoReset ks

unfoldable pub count_steps : List Call → ℕ
count_steps [] = 0
count_steps (steps ∷ ks) = 1 + count_steps ks
count_steps (_ ∷ ks) = count_steps ks

module _ {B H : Type 0} (bus : BusLike B) (variant : Variant) where
  -- A jammed core: wedged with these registers, its counter `n` on.
  record IsWedged (r : Registers) (n : ℕ) (c : Cpu B H) : Type 0 where
    pub stays : c.jammed ≡ true
    pub regs : c.regs ≡ r
    pub counter : u64 c.cycles ≡ u64 n

  step-IsWedged :
      {r : Registers} {n : ℕ} (c : Cpu B H)
      → IsWedged r n c
      → IsWedged r (n + 1) (call (plain bus variant) steps c)
  unfolding call step_jammed
  step-IsWedged c w =
      rw (advance-jammed (plain bus variant) c w.stays)
        (record { stays = w.stays; regs = w.regs; counter = omega (arith, w.counter) })

  history-IsWedged :
      (ks : List Call) {r : Registers} (n : ℕ) (c : Cpu B H)
      → NoReset ks
      → IsWedged r n c
      → IsWedged r (n + count_steps ks) (history (plain bus variant) ks c)
  unfolding history call set_nmi set_irq NoReset count_steps
  history-IsWedged [] n c k w = record {
    stays = w.stays;
    regs = w.regs;
    counter = omega (arith, w.counter);
  }
  history-IsWedged (resets ∷ ks) n c k w = elim k [ ]
  history-IsWedged (steps ∷ ks) {r = r} n c k w =
      let next =
        history-IsWedged ks (n + 1) (advance (plain bus variant) c) k (step-IsWedged c w) in
      record { stays = next.stays; regs = next.regs; counter = omega (arith, next.counter) }
  history-IsWedged (drives_nmi b ∷ ks) n c k w =
      history-IsWedged ks n (set_nmi b c) k
        (record { stays = w.stays; regs = w.regs; counter = w.counter })
  history-IsWedged (drives_irq b ∷ ks) n c k w =
      history-IsWedged ks n (set_irq b c) k
        (record { stays = w.stays; regs = w.regs; counter = w.counter })

  -- A core that has jammed stays jammed through every sequence of calls that has no reset,
  -- whatever the interrupt lines do: its registers never change, and its counter goes up by one
  -- with each step, modulo 2^64.
  pub jammed-history :
      (ks : List Call) (c : Cpu B H)
      → NoReset ks
      → c.jammed ≡ true
      → let c' = history (plain bus variant) ks c in
        (c'.jammed ≡ true) × (c'.regs ≡ c.regs) × (u64 c'.cycles ≡ u64 (c.cycles + count_steps ks))
  jammed-history ks c k j =
      let w =
        history-IsWedged ks c.cycles c k (record { stays = j; regs = refl; counter = refl }) in
      (w.stays, w.regs, w.counter)

  pub poll_interrupts-core :
      (c : Cpu B H) → ((poll_interrupts c).jammed ≡ c.jammed) × ((poll_interrupts c).regs ≡ c.regs)
  unfolding poll_interrupts
  poll_interrupts-core c = ground arith

  jam_row-body :
      (c : Cpu B H) (r : Row) (m : Mode)
      → find_row (fetch (plain bus variant) c).0 instruction_table ≡ some r
      → r.instr ≡ special_instr jam m
      → let c' = (instruction_body (plain bus variant) c).1 in
        (c'.jammed ≡ true) × (c'.regs ≡ record c.regs { pc = u16 (c.regs.pc + 1) })
  unfolding instruction_body execute execute_special
  jam_row-body c r m e i = rw (e, i, dispatch) (refl, refl)

  -- A core that is not jammed, has no interrupt pending and fetches an opcode whose row is JAM is
  -- jammed by the step, on either variant; the program counter has moved one byte on and the other
  -- registers are the old ones.
  pub jam_row-wedges :
      (c : Cpu B H) (r : Row) (m : Mode)
      → c.jammed ≡ false
      → c.pending_nmi ≡ false
      → c.pending_irq ≡ false
      → find_row (fetch (plain bus variant) (latch_i c)).0 instruction_table ≡ some r
      → r.instr ≡ special_instr jam m
      → let c' = advance (plain bus variant) c in
        (c'.jammed ≡ true) × (c'.regs ≡ record c.regs { pc = u16 (c.regs.pc + 1) })
  unfolding step_instruction
  jam_row-wedges c r m j pn pi e i =
      let body = jam_row-body (latch_i c) r m e i in
      let poll = poll_interrupts-core (instruction_body (plain bus variant) (latch_i c)).1 in
      rw (advance-instruction (plain bus variant) c j pn pi) (poll.0 ∙ body.0, poll.1 ∙ body.1)
