-- ===== src/Step/Interrupts.antt =====
-- When interrupts are taken: the poll, the order of NMI and IRQ, and the delay of the I flag.
use emulator.Prelude.{
  ℕ, Bool, true, false, not, ◌&&◌, ◌||◌, ◌≡◌, refl, ◌∙◌, ap, arith, none, some, List, [], ◌∷◌,
  if◌then◌else◌, Option-cases, Bool-cases, inl, inr,
}
use emulator.Types.{nmi_vector, irq_vector}
use emulator.Registers.{Registers}
use emulator.Variant.{Variant}
use emulator.Bus.{BusLike}
use emulator.Cpu.{Cpu, fetch, set_nmi, set_irq, interrupt_sequence}
use emulator.Cpu.Laws.{plain}
use emulator.Instructions.Frame.{Pins, pins, polled, execute-pins}
use emulator.Table.{instruction_table}
use emulator.Table.Entry.{Row}
use emulator.Step.{
  find_row, poll_interrupts, latch_i, dispatch, service, instruction_body, step_instruction,
  advance, reset, step_jammed, Call, resets, steps, drives_nmi, drives_irq, call, history,
}
use emulator.Step.Jam.{poll_interrupts-core}
use emulator.Step.Cases.{advance_cases, advance-instruction, advance-nmi, advance-irq}

-- The poll, on the pins alone.
abbrev poll_pins : Pins → Pins
poll_pins s = record s {
  nmi_edge = false;
  pending_nmi = s.pending_nmi || s.nmi_edge;
  pending_irq = s.pending_irq || (not s.nmi_edge && s.irq_line && not s.poll_i);
}

not_irq : (nmi irq : Bool) → nmi ≡ true → nmi && irq ≡ false → irq ≡ false
not_irq nmi irq n h = ground arith

masked_false : (edge line : Bool) → not edge && line && false ≡ false
masked_false edge line = ground arith

then_irq : (nmi irq : Bool) → nmi ≡ false → nmi || irq ≡ true → irq ≡ true
then_irq nmi irq n h = ground arith

module _ {B H : Type 0} (bus : BusLike B) (variant : Variant) where
  pub poll_interrupts-pins : (c : Cpu B H) → pins (poll_interrupts c) ≡ poll_pins (pins c)
  unfolding poll_interrupts
  poll_interrupts-pins c = ground arith

  pub instruction_body-pins :
      (c : Cpu B H) (r : Row)
      → find_row (fetch (plain bus variant) c).0 instruction_table ≡ some r
      → let c' = (instruction_body (plain bus variant) c).1 in
        pins c' ≡ record (pins c) { poll_i = polled r.instr c.poll_i c'.regs.i }
  unfolding instruction_body
  instruction_body-pins c r e =
      rw (e, dispatch) (execute-pins bus variant r.instr (fetch (plain bus variant) c).1)

  -- A core that is not jammed, has nothing pending and fetches an opcode with row `r`: after the
  -- step an NMI is pending exactly when its edge was latched before, an IRQ exactly when no edge was
  -- latched, its line is asserted and the I flag was clear before the instruction (for RTI: is
  -- clear after it); the edge is used up and the two lines are the old ones.
  pub instruction-poll :
      (c : Cpu B H) (r : Row)
      → c.jammed ≡ false
      → c.pending_nmi ≡ false
      → c.pending_irq ≡ false
      → find_row (fetch (plain bus variant) (latch_i c)).0 instruction_table ≡ some r
      → let c' = advance (plain bus variant) c in
        let body = (instruction_body (plain bus variant) (latch_i c)).1 in
        pins c' ≡ record {
          nmi_line = c.nmi_line;
          nmi_edge = false;
          irq_line = c.irq_line;
          pending_nmi = c.nmi_edge;
          pending_irq = not c.nmi_edge && c.irq_line && not (polled r.instr c.regs.i body.regs.i);
          poll_i = polled r.instr c.regs.i body.regs.i;
        }
  unfolding step_instruction
  instruction-poll c r j pn pi e =
      let body = (instruction_body (plain bus variant) (latch_i c)).1 in
      let same = instruction_body-pins (latch_i c) r e in
      rw (advance-instruction (plain bus variant) c j pn pi)
        (poll_interrupts-pins body ∙ ap poll_pins same ∙ rw (pn, pi) refl)

  no_row-pending :
      (c : Cpu B H)
      → find_row (fetch (plain bus variant) c).0 instruction_table ≡ none
      → let c' = (instruction_body (plain bus variant) c).1 in
        (c'.pending_nmi ≡ c.pending_nmi) × (c'.pending_irq ≡ c.pending_irq)
  unfolding instruction_body
  no_row-pending c e = rw (e, dispatch) (refl, refl)

  body-pending :
      (c : Cpu B H)
      → let c' = (instruction_body (plain bus variant) c).1 in
        (c'.pending_nmi ≡ c.pending_nmi) × (c'.pending_irq ≡ c.pending_irq)
  body-pending c =
      elim (Option-cases (find_row (fetch (plain bus variant) c).0 instruction_table)) [
        | inl e ↦ no_row-pending c e
        | inr (r, e) ↦
            let same = instruction_body-pins c r e in
            (ap Pins.pending_nmi same, ap Pins.pending_irq same)
      ]

  -- Not both kinds of interrupt are pending.
  abbrev pub NotBoth : Cpu B H → Type 0
  NotBoth c = c.pending_nmi && c.pending_irq ≡ false

  poll_interrupts-NotBoth :
      (c : Cpu B H) → c.pending_nmi ≡ false → c.pending_irq ≡ false → NotBoth (poll_interrupts c)
  unfolding poll_interrupts
  poll_interrupts-NotBoth c n i = ground arith

  service-NotBoth :
      (is_nmi : Bool) (vector : ℕ) (c : Cpu B H)
      → c.pending_nmi ≡ false
      → c.pending_irq ≡ false
      → NotBoth (service (plain bus variant) is_nmi vector c)
  unfolding service
  service-NotBoth is_nmi vector c n i =
      poll_interrupts-NotBoth (latch_i (interrupt_sequence (plain bus variant) false vector c).1) n
        i

  step_jammed-NotBoth : (c : Cpu B H) → NotBoth c → NotBoth (step_jammed (plain bus variant) c)
  unfolding step_jammed
  step_jammed-NotBoth c h = h

  step_instruction-NotBoth :
      (c : Cpu B H)
      → c.pending_nmi ≡ false
      → c.pending_irq ≡ false
      → NotBoth (step_instruction (plain bus variant) c)
  unfolding step_instruction
  step_instruction-NotBoth c n i =
      let (en, ei) = body-pending (latch_i c) in
      poll_interrupts-NotBoth (instruction_body (plain bus variant) (latch_i c)).1 (en ∙ n) (ei ∙ i)

  advance-NotBoth : (c : Cpu B H) → NotBoth c → NotBoth (advance (plain bus variant) c)
  advance-NotBoth c h =
      advance_cases (plain bus variant) NotBoth c (λ _. step_jammed-NotBoth c h)
        (λ _ n.
          service-NotBoth true nmi_vector (record c { pending_nmi = false }) refl (ground arith))
        (λ _ n _. service-NotBoth false irq_vector (record c { pending_irq = false }) n refl)
        (λ _ n i. step_instruction-NotBoth c n i)

  -- Whatever calls are made on a core that has at most one kind of interrupt pending, it never has
  -- both: an IRQ cannot be queued behind an NMI, nor an NMI behind an IRQ.
  pub history-NotBoth :
      (ks : List Call) (c : Cpu B H) → NotBoth c → NotBoth (history (plain bus variant) ks c)
  unfolding history call reset set_nmi set_irq
  history-NotBoth [] c h = h
  history-NotBoth (resets ∷ ks) c h = history-NotBoth ks (reset (plain bus variant) c) refl
  history-NotBoth (steps ∷ ks) c h =
      history-NotBoth ks (advance (plain bus variant) c) (advance-NotBoth c h)
  history-NotBoth (drives_nmi b ∷ ks) c h = history-NotBoth ks (set_nmi b c) h
  history-NotBoth (drives_irq b ∷ ks) c h = history-NotBoth ks (set_irq b c) h

  sequence-i :
      (vector : ℕ) (c : Cpu B H)
      → (interrupt_sequence (plain bus variant) false vector c).1.regs.i ≡ true
  unfolding interrupt_sequence
  sequence-i vector c = ground arith

  service-outcome :
      (is_nmi : Bool) (vector : ℕ) (c : Cpu B H)
      → c.pending_nmi ≡ false
      → c.pending_irq ≡ false
      → let c' = service (plain bus variant) is_nmi vector c in
        (c'.regs.i ≡ true)
        × (c'.pending_irq ≡ false)
        × (c'.pending_nmi ≡ c.nmi_edge)
        × (c'.jammed ≡ c.jammed)
  unfolding service
  service-outcome is_nmi vector c n i =
      let entered = (interrupt_sequence (plain bus variant) false vector c).1 in
      let masked = sequence-i vector c in
      let polled_pins = poll_interrupts-pins (latch_i entered) in
      let core = poll_interrupts-core bus variant (latch_i entered) in
      (
        ap Registers.i core.1 ∙ masked,
        ap Pins.pending_irq polled_pins ∙ (rw (masked, i) (masked_false c.nmi_edge c.irq_line)),
        ap Pins.pending_nmi polled_pins ∙ (rw n refl),
        core.0,
      )

  advance-service :
      (c : Cpu B H)
      → c.jammed ≡ false
      → NotBoth c
      → c.pending_nmi || c.pending_irq ≡ true
      → advance (plain bus variant) c
        ≡ service
            (plain bus variant)
            c.pending_nmi
            (if c.pending_nmi then nmi_vector else irq_vector)
            (record c { pending_nmi = false; pending_irq = false })
  advance-service c j h some_pending = elim (Bool-cases c.pending_nmi) [
    | inl n ↦
        let i = not_irq c.pending_nmi c.pending_irq n h in
        advance-nmi (plain bus variant) c j n ∙ rw (n, i) refl
    | inr n ↦
        let i = then_irq c.pending_nmi c.pending_irq n some_pending in
        advance-irq (plain bus variant) c j n i ∙ rw n refl
  ]

  -- In a core that is not jammed, the one interrupt that is pending is what the next step services,
  -- through its own vector and whatever the lines and the I flag are by then. After it the I flag is
  -- set, no IRQ is pending, and an NMI is pending exactly when an edge was latched.
  pub service-masks :
      (c : Cpu B H)
      → c.jammed ≡ false
      → NotBoth c
      → c.pending_nmi || c.pending_irq ≡ true
      → let c' = advance (plain bus variant) c in
        let vector = if c.pending_nmi then nmi_vector else irq_vector in
        let entry = record c { pending_nmi = false; pending_irq = false } in
        (c' ≡ service (plain bus variant) c.pending_nmi vector entry)
        × (c'.regs.i ≡ true)
        × (c'.pending_irq ≡ false)
        × (c'.pending_nmi ≡ c.nmi_edge)
        × (c'.jammed ≡ false)
  service-masks c j h some_pending =
      let same = advance-service c j h some_pending in
      let vector = if c.pending_nmi then nmi_vector else irq_vector in
      let entry = record c { pending_nmi = false; pending_irq = false } in
      let (i, irq, nmi, wedged) = service-outcome c.pending_nmi vector entry refl refl in
      (
        same,
        ap (λ x. x.regs.i) same ∙ i,
        ap Cpu.pending_irq same ∙ irq,
        ap Cpu.pending_nmi same ∙ nmi,
        ap Cpu.jammed same ∙ wedged ∙ j,
      )
