-- ===== src/Step/Rising.antt =====
-- An edge on the NMI line, from the pulse to the entry of the handler.
use emulator.Prelude.{
  ℕ, Bool, true, false, ◌||◌, ◌≡◌, refl, ◌∙◌, ap, arith, ◌⊎◌, inl, inr, Bool-cases, Option-cases,
}
use emulator.Types.{nmi_vector, irq_vector}
use emulator.Variant.{Variant}
use emulator.Bus.{BusLike}
use emulator.Bus.Flat.{FlatBus, flat_bus}
use emulator.Cpu.{Cpu, fetch, set_nmi, interrupt_sequence}
use emulator.Cpu.Laws.{plain}
use emulator.Instructions.Frame.{Pins}
use emulator.Table.{instruction_table}
use emulator.Step.{
  find_row, poll_interrupts, latch_i, dispatch, service, instruction_body, step_instruction,
  advance,
}
use emulator.Step.Cases.{advance_cases, advance-nmi}
use emulator.Step.Interrupts.{poll_interrupts-pins, instruction_body-pins}
use emulator.Isa.{interrupted}
use emulator.Isa.Operand.{view}
use emulator.Isa.Advance.{service-view}

later : (pending edge : Bool) → edge ≡ true → pending || edge ≡ true
later pending edge e = ground arith

module _ {B H : Type 0} (bus : BusLike B) (variant : Variant) where
  body-edge : (c : Cpu B H) → (instruction_body (plain bus variant) c).1.nmi_edge ≡ c.nmi_edge
  unfolding instruction_body
  body-edge c = elim (Option-cases (find_row (fetch (plain bus variant) c).0 instruction_table)) [
    | inl e ↦ rw (dispatch, e) refl
    | inr (r, e) ↦ ap Pins.nmi_edge (instruction_body-pins bus variant c r e)
  ]

  poll-latched : (c : Cpu B H) → c.nmi_edge ≡ true → (poll_interrupts c).pending_nmi ≡ true
  poll-latched c e =
      ap Pins.pending_nmi (poll_interrupts-pins bus variant c) ∙ later c.pending_nmi c.nmi_edge e

  service-latched :
      (is_nmi : Bool) (vector : ℕ) (c : Cpu B H)
      → c.nmi_edge ≡ true
      → (service (plain bus variant) is_nmi vector c).pending_nmi ≡ true
  unfolding service interrupt_sequence
  service-latched is_nmi vector c e =
      poll-latched (latch_i (interrupt_sequence (plain bus variant) false vector c).1) e

  -- Every step of a core that has not jammed turns the latched edge into a pending NMI.
  advance-latched :
      (c : Cpu B H)
      → c.jammed ≡ false
      → c.nmi_edge ≡ true
      → (advance (plain bus variant) c).pending_nmi ≡ true
  unfolding step_instruction
  advance-latched c j e =
      advance_cases (plain bus variant) (λ d. d.pending_nmi ≡ true) c
        (λ wedged. ground (arith, wedged, j))
        (λ _ _. service-latched true nmi_vector (record c { pending_nmi = false }) e)
        (λ _ _ _. service-latched false irq_vector (record c { pending_irq = false }) e)
        (λ _ _ _.
          poll-latched (instruction_body (plain bus variant) (latch_i c)).1
            (body-edge (latch_i c) ∙ e))

  rising-latched :
      (level : Bool) (c : Cpu B H)
      → c.nmi_line ≡ false
      → (set_nmi level (set_nmi true c)).nmi_edge ≡ true
  unfolding set_nmi
  rising-latched level c low = ground (arith, low)

-- A rise of the NMI line of a core that has not jammed is never lost, even if the line falls again
-- before the next step and whatever else is pending or masked: after the step that follows, either
-- that step has jammed the core, or the next one enters the NMI handler.
pub rising-served :
    {H : Type 0} (variant : Variant) (level : Bool) (c : Cpu FlatBus H)
    → c.jammed ≡ false
    → c.nmi_line ≡ false
    → let first = advance (plain flat_bus variant) (set_nmi level (set_nmi true c)) in
      (first.jammed ≡ true)
      ⊎ (view (advance (plain flat_bus variant) first)
          ≡ interrupted variant false nmi_vector (view first))
unfolding set_nmi
rising-served variant level c j low =
    let pulsed = set_nmi level (set_nmi true c) in
    let first = advance (plain flat_bus variant) pulsed in
    let pending =
      advance-latched flat_bus variant pulsed j (rising-latched flat_bus variant level c low) in
    elim (Bool-cases first.jammed) [
      | inl wedged ↦ inl wedged
      | inr free ↦ inr (
          ap view (advance-nmi (plain flat_bus variant) first free pending)
          ∙ service-view variant true nmi_vector (record first { pending_nmi = false }))
    ]
