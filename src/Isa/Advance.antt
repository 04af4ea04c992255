-- ===== src/Isa/Advance.antt =====
-- The steps of a core on the flat bus, and whole histories of calls, beside the instruction set.
use emulator.Prelude.{
  ℕ, Bool, true, false, List, [], ◌∷◌, ◌≡◌, refl, sym, ◌∙◌, ap, arith, inl, inr, Option-cases,
  if_true, if_false, if◌then◌else◌,
}
use emulator.Types.{nmi_vector, irq_vector}
use emulator.Variant.{Variant}
use emulator.Bus.Flat.{FlatBus, flat_bus}
use emulator.Bus.Flat
use emulator.Cpu.{Cpu, Policies, fetch, interrupt_sequence, set_nmi, set_irq}
use emulator.Cpu
use emulator.Cpu.Laws.{plain}
use emulator.Table.{instruction_table}
use emulator.Step.{
  Call, resets, steps, drives_nmi, drives_irq, find_row, poll_interrupts, latch_i, dispatch,
  instruction_body, step_instruction, step_jammed, service, advance, reset, call, history,
}
use emulator.Step.Cases.{advance_cases}
use emulator.Step.Reset.{reset-outcome}
use emulator.Isa.{
  Machine, interrupted, run_one, Request, instruction, nmi, irq, step, restarted, Event, restarts,
  answers, behave,
}
use emulator.Isa.Operand.{view}
use emulator.Isa.Interrupt.{interrupt_sequence-view}
use emulator.Isa.Execute.{execute-meaning}

-- What the next step of a core is asked for.
abbrev pub request : {H : Type 0} → Cpu FlatBus H → Request
request c = if c.pending_nmi then nmi else if c.pending_irq then irq else instruction

module _ (variant : Variant) where
  pub step-wedged : (q : Request) (m : Machine) → m.jammed ≡ true → step variant q m ≡ m
  unfolding step
  step-wedged q m j = if_true _ _ j

  pub step-nmi :
      (m : Machine) → m.jammed ≡ false → step variant nmi m ≡ interrupted variant false nmi_vector m
  unfolding step
  step-nmi m j = if_false _ _ j

  pub step-irq :
      (m : Machine) → m.jammed ≡ false → step variant irq m ≡ interrupted variant false irq_vector m
  unfolding step
  step-irq m j = if_false _ _ j

  pub step-instruction :
      (m : Machine) → m.jammed ≡ false → step variant instruction m ≡ run_one variant m
  unfolding step
  step-instruction m j = if_false _ _ j

poll_interrupts-view : {H : Type 0} (c : Cpu FlatBus H) → view (poll_interrupts c) ≡ view c
unfolding poll_interrupts
poll_interrupts-view c = ground arith

module _ {H : Type 0} (variant : Variant) where
  abbrev core : Policies FlatBus H
  core = plain flat_bus variant

  pub service-view :
      (is_nmi : Bool) (vector : ℕ) (c : Cpu FlatBus H)
      → view (service core is_nmi vector c) ≡ interrupted variant false vector (view c)
  unfolding service
  service-view is_nmi vector c =
      poll_interrupts-view (latch_i (interrupt_sequence core false vector c).1)
      ∙ interrupt_sequence-view variant false vector c

  instruction-view : (c : Cpu FlatBus H) → view (step_instruction core c) ≡ run_one variant (view c)
  unfolding step_instruction instruction_body run_one fetch Cpu.read Cpu.tick Flat.read Flat.tick
  instruction-view c =
      let (opcode, fetched) = fetch core (latch_i c) in
      poll_interrupts-view (dispatch core opcode fetched).1
      ∙ elim (Option-cases (find_row opcode instruction_table)) [
        | inl missing ↦ rw (dispatch, run_one, missing) refl
        | inr (r, e) ↦ rw (dispatch, run_one, e) (execute-meaning variant r.instr fetched)
      ]

  asked :
      (c : Cpu FlatBus H) (q : Request)
      → request c ≡ q
      → step variant q (view c) ≡ step variant (request c) (view c)
  asked c q e = ap (λ q. step variant q (view c)) (sym e)

  -- A step of the core on the flat bus is one step of the instruction set: the jam, the service of a
  -- pending interrupt, the NMI first, or the instruction at the program counter. What a program sees
  -- afterwards is what the instruction set says, for every opcode and any state of the core.
  pub advance-step : (c : Cpu FlatBus H) → view (advance core c) ≡ step variant (request c) (view c)
  unfolding step_jammed Flat.read Flat.tick
  advance-step c =
      advance_cases core (λ d. view d ≡ step variant (request c) (view c)) c
        (λ j. sym (step-wedged variant (request c) (view c) j))
        (λ j n.
          service-view true nmi_vector (record c { pending_nmi = false })
          ∙ sym (step-nmi variant (view c) j)
          ∙ asked c _ (if_true _ _ n))
        (λ j n i.
          service-view false irq_vector (record c { pending_irq = false })
          ∙ sym (step-irq variant (view c) j)
          ∙ asked c _ (if_false _ _ n ∙ if_true _ _ i))
        (λ j n i.
          instruction-view c
          ∙ sym (step-instruction variant (view c) j)
          ∙ asked c _ (if_false _ _ n ∙ if_false _ _ i))

  reset-view : (c : Cpu FlatBus H) → view (reset core c) ≡ restarted (view c)
  reset-view c =
      let (_, memory, regs, jammed, _) = reset-outcome variant c in
      λ i. record { regs = regs i; memory = memory i; jammed = jammed i }

  -- What a call does to what a program sees; the interrupt lines are not seen.
  abbrev pub events : List Call → Cpu FlatBus H → List Event
  events [] c = []
  events (resets ∷ ks) c = restarts ∷ events ks (reset core c)
  events (steps ∷ ks) c = answers (request c) ∷ events ks (advance core c)
  events (drives_nmi asserted ∷ ks) c = events ks (set_nmi asserted c)
  events (drives_irq asserted ∷ ks) c = events ks (set_irq asserted c)

  -- Every history of calls is a run of the instruction set: through resets, steps and changes of the
  -- interrupt lines, registers, memory and jam are those of the machine that is restarted at each
  -- reset and takes at each step the request that is pending.
  pub history-behave :
      (ks : List Call) (c : Cpu FlatBus H)
      → view (history core ks c) ≡ behave variant (events ks c) (view c)
  unfolding history call behave set_nmi set_irq
  history-behave [] c = refl
  history-behave (resets ∷ ks) c =
      history-behave ks (reset core c)
      ∙ ap (behave variant (events ks (reset core c))) (reset-view c)
  history-behave (steps ∷ ks) c =
      history-behave ks (advance core c)
      ∙ ap (behave variant (events ks (advance core c))) (advance-step c)
  history-behave (drives_nmi asserted ∷ ks) c = history-behave ks (set_nmi asserted c)
  history-behave (drives_irq asserted ∷ ks) c = history-behave ks (set_irq asserted c)
