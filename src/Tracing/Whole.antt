-- ===== src/Tracing/Whole.antt =====
-- A traced history of calls on the flat bus: the plain history, and all the lines of its steps.
use emulator.Prelude.{ℕ, Bool, List, [], ◌∷◌, ◌++◌, ◌≡◌, refl, ◌∙◌, ap, sym}
use mathlib.Core.List.{append_assoc}
use emulator.Variant.{Variant}
use emulator.Bus.Flat.{FlatBus, flat_bus}
use emulator.Bus.Flat
use emulator.Cpu.{Cpu, fetch, set_nmi, set_irq}
use emulator.Cpu
use emulator.Cpu.Laws.{plain}
use emulator.Step.{
  reset, reset_sequence, phantom_push, Call, resets, steps, drives_nmi, drives_irq, call, history,
}
use emulator.Tracing.{TracingHooks, traced, trace_line}
use emulator.Tracing.Blind.{with_hooks}
use emulator.Tracing.Lines.{lines_of, add_lines, add_nothing, traced-advance}

module _ (variant : Variant) where
  -- The lines that a call adds to those of a core without hooks, with the tracing on or off.
  abbrev pub lines_at : Bool → Call → Cpu FlatBus (Unit {0}) → List (List ℕ)
  lines_at enabled steps c =
      lines_of variant (with_hooks (record { lines = []; enabled = enabled }) c)
  lines_at enabled _ c = []

  abbrev pub all_lines : Bool → List Call → Cpu FlatBus (Unit {0}) → List (List ℕ)
  all_lines enabled [] c = []
  all_lines enabled (k ∷ ks) c =
      lines_at enabled k c ++ all_lines enabled ks (call (plain flat_bus variant) k c)

  lines_of-hooks :
      (c : Cpu FlatBus TracingHooks)
      → lines_of variant c ≡ lines_at c.hooks.enabled steps (with_hooks tt c)
  unfolding lines_of fetch Cpu.read Cpu.tick Flat.read Flat.tick trace_line
  lines_of-hooks c = refl

  traced-call :
      (k : Call) (c : Cpu FlatBus TracingHooks)
      → let c' = call (traced flat_bus variant) k c in
        (with_hooks tt c' ≡ call (plain flat_bus variant) k (with_hooks tt c))
        × (c'.hooks ≡ add_lines (lines_at c.hooks.enabled k (with_hooks tt c)) c.hooks)
  unfolding call reset reset_sequence phantom_push set_nmi set_irq Flat.read Flat.tick
  traced-call resets c = (refl, sym (add_nothing c.hooks))
  traced-call steps c =
      let (core, hooks) = traced-advance variant c in
      (core, hooks ∙ ap (λ t. add_lines t c.hooks) (lines_of-hooks c))
  traced-call (drives_nmi b) c = (refl, sym (add_nothing c.hooks))
  traced-call (drives_irq b) c = (refl, sym (add_nothing c.hooks))

  -- Through any history of calls on the flat bus, a traced core goes through the states of one that is
  -- not traced, and the lines that it adds are those of its instructions, in order: one for each step
  -- that runs an instruction while the tracing is on, and none for resets, changes of the interrupt
  -- lines, services of interrupts and steps of a jammed core.
  pub traced-history :
      (ks : List Call) (c : Cpu FlatBus TracingHooks)
      → let c' = history (traced flat_bus variant) ks c in
        (with_hooks tt c' ≡ history (plain flat_bus variant) ks (with_hooks tt c))
        × (c'.hooks ≡ add_lines (all_lines c.hooks.enabled ks (with_hooks tt c)) c.hooks)
  unfolding history
  traced-history [] c = (refl, sym (add_nothing c.hooks))
  traced-history (k ∷ ks) c =
      let (core, hooks) = traced-call k c in
      let (core', hooks') = traced-history ks (call (traced flat_bus variant) k c) in
      (
        core' ∙ ap (history (plain flat_bus variant) ks) core,
        hooks'
            ∙ (λ i. add_lines (all_lines (hooks i).enabled ks (core i)) (hooks i))
            ∙ ap (λ t. record c.hooks { lines = t }) (append_assoc c.hooks.lines _ _),
      )
