-- ===== src/Tracing/Lines.antt =====
-- A traced step on the flat bus: the plain step, and the lines that it adds.
use emulator.Prelude.{
  ℕ, Bool, Option, true, false, List, [], ◌∷◌, ◌++◌, ◌≡◌, refl, ◌∙◌, ap, sym, Bool-cases, inl, inr,
  if_true, if_false, if◌then◌else◌,
}
use mathlib.Core.List.{append-nil}
use emulator.Types.{nmi_vector, irq_vector}
use emulator.Variant.{Variant}
use emulator.Bus.Flat.{FlatBus, flat_bus}
use emulator.Bus.Flat
use emulator.Cpu.{Cpu, fetch, interrupt_sequence}
use emulator.Cpu
use emulator.Cpu.Laws.{plain}
use emulator.Disassembler.{Listing, disassemble}
use emulator.Step.{
  instruction_body, advance, step_jammed, service, step_instruction, dispatch, poll_interrupts,
  latch_i,
}
use emulator.Step.Cases.{advance-agree}
use emulator.Tracing.{TracingHooks, traced, on_instruction, emit_line, trace_line, text_of}
use emulator.Tracing.Blind.{with_hooks}
use emulator.Tracing.Transparent.{
  advance-hooks, instruction-plain, poll_interrupts-hooks, dispatch-hooks, service-hooks,
  peek_instruction-disassemble,
}

abbrev pub add_lines : List (List ℕ) → TracingHooks → TracingHooks
add_lines more hooks = record hooks { lines = hooks.lines ++ more }

pub add_nothing : (hooks : TracingHooks) → add_lines [] hooks ≡ hooks
add_nothing hooks = ap (λ t. record hooks { lines = t }) (append-nil hooks.lines)

module _ (variant : Variant) where
  -- The line of the instruction that a core is about to run: the disassembly at its program counter,
  -- its registers, and its counter after the fetch.
  abbrev pub line_of : Cpu FlatBus TracingHooks → List ℕ
  line_of c =
      trace_line (fetch (plain flat_bus variant) (latch_i c)).1 c.regs.pc (c.bus.memory c.regs.pc)
        (text_of (disassemble c.bus.memory c.regs.pc))

  -- The lines that a step adds: one for an instruction, and none for a jammed core, the service of an
  -- interrupt or while the tracing is off.
  unfoldable pub lines_of : Cpu FlatBus TracingHooks → List (List ℕ)
  lines_of c =
      if c.jammed
      then []
      else if c.pending_nmi
      then []
      else if c.pending_irq
      then []
      else if c.hooks.enabled
      then line_of c ∷ []
      else []

  -- A way of the step that adds nothing.
  silent :
      (c d : Cpu FlatBus TracingHooks) (lines : List (List ℕ))
      → lines ≡ []
      → d.hooks ≡ c.hooks
      → with_hooks (add_lines lines c.hooks) d ≡ d
  silent c d lines e f =
      ap (λ t. with_hooks t d) (ap (λ t. add_lines t c.hooks) e ∙ add_nothing c.hooks ∙ sym f)

  -- The service of an interrupt, which the tracing hooks do not see.
  service-lines :
      (is_nmi : Bool) (vector : ℕ) (c d : Cpu FlatBus TracingHooks) (lines : List (List ℕ))
      → lines ≡ []
      → d.hooks ≡ c.hooks
      → with_hooks (add_lines lines c.hooks) (service (plain flat_bus variant) is_nmi vector d)
        ≡ service (traced flat_bus variant) is_nmi vector d
  unfolding service interrupt_sequence
  service-lines is_nmi vector c d lines e f =
      service-hooks flat_bus variant (add_lines lines c.hooks) is_nmi vector d
      ∙ ap (service (plain flat_bus variant) is_nmi vector) (silent c d lines e f)

  emit_line-lines :
      (c : Cpu FlatBus TracingHooks) (pc opcode : ℕ)
      → emit_line flat_bus c pc opcode
        ≡ with_hooks
            (add_lines
              (trace_line c pc opcode (text_of (disassemble c.bus.memory pc)) ∷ [])
              c.hooks)
            c
  unfolding emit_line
  emit_line-lines c pc opcode =
      let add : Option Listing × FlatBus → Cpu FlatBus TracingHooks = λ t.
        with_hooks (add_lines (trace_line c pc opcode (text_of t.0) ∷ []) c.hooks)
          (record c { bus = t.1 }) in
      ap add (peek_instruction-disassemble pc c.bus)

  on_instruction-lines :
      (c : Cpu FlatBus TracingHooks)
      → let (opcode, fetched) = fetch (plain flat_bus variant) (latch_i c) in
        on_instruction flat_bus fetched c.regs.pc opcode
        ≡ with_hooks (add_lines (if c.hooks.enabled then line_of c ∷ [] else []) c.hooks) fetched
  unfolding on_instruction fetch Cpu.read Cpu.tick Flat.read Flat.tick
  on_instruction-lines c =
      let (opcode, fetched) = fetch (plain flat_bus variant) (latch_i c) in
      elim (Bool-cases c.hooks.enabled) [
        | inl on ↦
            if_true _ _ on
            ∙ emit_line-lines fetched c.regs.pc opcode
            ∙ ap (λ t. with_hooks (add_lines t c.hooks) fetched)
                (sym (if_true (line_of c ∷ []) [] on))
        | inr off ↦
            if_false _ _ off
            ∙ ap (λ t. with_hooks t fetched) (sym (add_nothing c.hooks))
            ∙ ap (λ t. with_hooks (add_lines t c.hooks) fetched)
                (sym (if_false (line_of c ∷ []) [] off))
      ]

  instruction-lines :
      (c : Cpu FlatBus TracingHooks)
      → with_hooks
          (add_lines (if c.hooks.enabled then line_of c ∷ [] else []) c.hooks)
          (step_instruction (plain flat_bus variant) c)
        ≡ step_instruction (traced flat_bus variant) c
  unfolding step_instruction instruction_body
  instruction-lines c =
      let h = add_lines (if c.hooks.enabled then line_of c ∷ [] else []) c.hooks in
      let (opcode, fetched) = fetch (plain flat_bus variant) (latch_i c) in
      poll_interrupts-hooks flat_bus variant h (dispatch (plain flat_bus variant) opcode fetched).1
      ∙ ap poll_interrupts (
          dispatch-hooks flat_bus variant h opcode fetched
          ∙ ap (λ t. (dispatch (plain flat_bus variant) opcode t).1) (sym (on_instruction-lines c)))
      ∙ sym (instruction-plain flat_bus variant c)

  advance-lines :
      (c : Cpu FlatBus TracingHooks)
      → with_hooks (add_lines (lines_of c) c.hooks) (advance (plain flat_bus variant) c)
        ≡ advance (traced flat_bus variant) c
  unfolding lines_of step_jammed service interrupt_sequence
  advance-lines c =
      advance-agree (plain flat_bus variant) (traced flat_bus variant)
        (with_hooks (add_lines (lines_of c) c.hooks)) c c refl refl refl
        (λ j. silent c _ (lines_of c) (if_true _ _ j) refl)
        (λ j n.
          service-lines true nmi_vector c (record c { pending_nmi = false }) (lines_of c)
            (if_false _ _ j ∙ if_true _ _ n) refl)
        (λ j n i.
          service-lines false irq_vector c (record c { pending_irq = false }) (lines_of c)
            (if_false _ _ j ∙ if_false _ _ n ∙ if_true _ _ i) refl)
        (λ j n i.
          ap (λ t. with_hooks (add_lines t c.hooks) (step_instruction (plain flat_bus variant) c))
            (if_false _ _ j ∙ if_false _ _ n ∙ if_false _ _ i)
          ∙ instruction-lines c)

  -- A core that is traced steps as one that is not: on the flat bus the two reach the same state but
  -- for the lines, and the step adds the line of the instruction that it runs, or none where it runs
  -- none or the tracing is off.
  pub traced-advance :
      (c : Cpu FlatBus TracingHooks)
      → let c' = advance (traced flat_bus variant) c in
        (with_hooks tt c' ≡ advance (plain flat_bus variant) (with_hooks tt c))
        × (c'.hooks ≡ add_lines (lines_of c) c.hooks)
  traced-advance c = (
    ap (with_hooks tt) (sym (advance-lines c)) ∙ advance-hooks flat_bus variant tt c,
    ap (λ t. t.hooks) (sym (advance-lines c)),
  )
