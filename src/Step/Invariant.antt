-- ===== src/Step/Invariant.antt =====
-- The invariant of the core through a reset, a step, and any sequence of calls.
use emulator.Prelude.{
  ℕ, ◌+◌, ◌-◌, ◌^◌, Bool, true, false, arith, u8, u16, word, Option, none, some, List, [], ◌∷◌,
  if_cases, ◌&&◌, not,
}
use emulator.Types.{nmi_vector, irq_vector, reset_vector}
use emulator.Variant.{Variant}
use emulator.Bus.{BusLike, BusLaws}
use emulator.Cpu.{Cpu, pure, set_nmi, set_irq}
use emulator.Cpu.Laws.{plain}
use emulator.Cpu.Invariant.{
  IsAny, Inv, Keeps, bind, after, result, get_regs-Keeps, on_regs-Keeps, set_pc-Keeps, with_s,
  read-Keeps, fetch-Keeps, peek_stack-Keeps, interrupt_sequence-Keeps,
}
use emulator.Instructions.{execute}
use emulator.Instructions.Invariant.{execute-Keeps}
use emulator.Table.{instruction_table}
use emulator.Table.Entry.{Row}
use emulator.Step.{
  find_row, poll_interrupts, latch_i, dispatch, phantom_push, reset_sequence, reset, step_jammed,
  service, instruction_body, step_instruction, advance, clear_latches, Call, resets, steps,
  drives_nmi, drives_irq, call, history,
}
use emulator.Step.Cases.{advance_cases}

module _ {B H : Type 0} {bus : BusLike B} (laws : BusLaws bus) (variant : Variant) where
  poll_interrupts-Inv : (c : Cpu B H) → Inv laws c → Inv laws (poll_interrupts c)
  unfolding poll_interrupts
  poll_interrupts-Inv c v =
      if_cases (Inv laws) c.nmi_edge _ _
        (λ _. record { regs = v.regs; cycles = v.cycles; account = v.account })
        (λ _.
          if_cases (Inv laws) (c.irq_line && not c.poll_i) _ _
            (λ _. record { regs = v.regs; cycles = v.cycles; account = v.account }) (λ _. v))

  latch_i-Inv : (c : Cpu B H) → Inv laws c → Inv laws (latch_i c)
  latch_i-Inv c v = record { regs = v.regs; cycles = v.cycles; account = v.account }

  dispatch-Keeps : (opcode : ℕ) → Keeps {H = H} laws IsAny (dispatch (plain bus variant) opcode)
  unfolding dispatch
  dispatch-Keeps opcode = arm (find_row opcode instruction_table)
    where
      arm :
          (o : Option Row)
          → Keeps {H = H} laws IsAny
              (elim o [ none ↦ pure tt | some r ↦ execute (plain bus variant) r.instr ])
      arm none = result laws tt tt
      arm (some r) = execute-Keeps laws variant r.instr

  instruction_body-Keeps : Keeps {H = H} laws IsAny (instruction_body (plain bus variant))
  unfolding instruction_body
  instruction_body-Keeps = bind laws (get_regs-Keeps laws) λ r v.
      bind laws (fetch-Keeps laws variant)
        λ opcode p. after laws (result laws {Q = IsAny} tt tt) (dispatch-Keeps opcode)

  service-Inv :
      (is_nmi : Bool) (vector : ℕ) (c : Cpu B H)
      → Inv laws c
      → Inv laws (service (plain bus variant) is_nmi vector c)
  unfolding service
  service-Inv is_nmi vector c v =
      poll_interrupts-Inv _
        (latch_i-Inv _ ((interrupt_sequence-Keeps laws variant false vector).after c v).0)

  pub advance-Inv : (c : Cpu B H) → Inv laws c → Inv laws (advance (plain bus variant) c)
  advance-Inv c v =
      advance_cases (plain bus variant) (Inv laws) c
        (λ _. unfold step_jammed in ((read-Keeps laws variant c.regs.pc).after c v).0)
        (λ _ _.
          service-Inv true nmi_vector _
            (record { regs = v.regs; cycles = v.cycles; account = v.account }))
        (λ _ _ _.
          service-Inv false irq_vector _
            (record { regs = v.regs; cycles = v.cycles; account = v.account }))
        (λ _ _ _.
          unfold step_instruction in
          poll_interrupts-Inv _ ((instruction_body-Keeps).after _ (latch_i-Inv c v)).0)

  phantom_push-Keeps : Keeps {H = H} laws IsAny (phantom_push (plain bus variant))
  unfolding phantom_push
  phantom_push-Keeps = after laws (peek_stack-Keeps laws variant) (
      on_regs-Keeps laws (λ r. record r { s = u8 (r.s + 2 ^ 8 - 1) })
        λ r v. with_s r _ (omega arith) v)

  reset_sequence-Keeps : Keeps {H = H} laws IsAny (reset_sequence (plain bus variant))
  unfolding reset_sequence
  reset_sequence-Keeps = bind laws (get_regs-Keeps laws) λ r v.
      after laws (read-Keeps laws variant r.pc) (
        bind laws (get_regs-Keeps laws) λ r' v'. after laws (read-Keeps laws variant r'.pc) (
          after laws phantom_push-Keeps (
            after laws phantom_push-Keeps (
              after laws phantom_push-Keeps (
                after laws
                  (on_regs-Keeps laws (λ r. record r { i = true })
                    λ r v. record { a = v.a; x = v.x; y = v.y; s = v.s; pc = v.pc })
                  (bind laws (read-Keeps laws variant reset_vector) λ lo p.
                    bind laws (read-Keeps laws variant (u16 (reset_vector + 1)))
                      λ hi q. set_pc-Keeps laws (word lo hi) (omega arith)))))))

  pub reset-Inv : (c : Cpu B H) → Inv laws c → Inv laws (reset (plain bus variant) c)
  unfolding reset
  reset-Inv c v =
      latch_i-Inv _
        ((reset_sequence-Keeps).after (clear_latches c)
          (record { regs = v.regs; cycles = v.cycles; account = v.account })).0

  call-Inv : (k : Call) (c : Cpu B H) → Inv laws c → Inv laws (call (plain bus variant) k c)
  unfolding call set_nmi set_irq
  call-Inv resets c v = reset-Inv c v
  call-Inv steps c v = advance-Inv c v
  call-Inv (drives_nmi b) c v = record { regs = v.regs; cycles = v.cycles; account = v.account }
  call-Inv (drives_irq b) c v = record { regs = v.regs; cycles = v.cycles; account = v.account }

  -- After any history of resets, steps and changes of the interrupt lines, every register holds a
  -- number of its width, the counter fits 64 bits, and counter and bus satisfy any laws that a single
  -- access keeps (the bytes of the memory, the accesses logged), if that was so before.
  -- A step may run any of the 256 opcodes, serve an interrupt, or find the core jammed.
  pub history-Inv :
      (ks : List Call) (c : Cpu B H) → Inv laws c → Inv laws (history (plain bus variant) ks c)
  unfolding history
  history-Inv [] c v = v
  history-Inv (k ∷ ks) c v = history-Inv ks _ (call-Inv k c v)
