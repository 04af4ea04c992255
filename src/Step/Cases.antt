-- ===== src/Step/Cases.antt =====
-- The four ways of a step, each with the tests that led there.
use emulator.Prelude.{true, false, ◌≡◌, sym, ◌∙◌, if_cases, if_true, if_false}
use emulator.Types.{nmi_vector, irq_vector}
use emulator.Cpu.{Cpu, Policies}
use emulator.Step.{step_jammed, service, step_instruction, advance}

module _ {B H : Type 0} (p : Policies B H) where
  -- What a jammed core, the service of each interrupt and an instruction all establish, a step does.
  pub advance_cases {ℓ} :
      (P : Cpu B H → Type ℓ) (c : Cpu B H)
      → (c.jammed ≡ true → P (step_jammed p c))
      → (c.jammed ≡ false
          → c.pending_nmi ≡ true
          → P (service p true nmi_vector (record c { pending_nmi = false })))
      → (c.jammed ≡ false
          → c.pending_nmi ≡ false
          → c.pending_irq ≡ true
          → P (service p false irq_vector (record c { pending_irq = false })))
      → (c.jammed ≡ false
          → c.pending_nmi ≡ false
          → c.pending_irq ≡ false
          → P (step_instruction p c))
      → P (advance p c)
  unfolding advance
  advance_cases P c wedged nmi irq instruction = if_cases P c.jammed _ _ wedged λ j.
      if_cases P c.pending_nmi _ _ (nmi j)
        λ n. if_cases P c.pending_irq _ _ (irq j n) (instruction j n)

  pub advance-jammed : (c : Cpu B H) → c.jammed ≡ true → advance p c ≡ step_jammed p c
  unfolding advance
  advance-jammed c j = if_true _ _ j

  pub advance-nmi :
      (c : Cpu B H)
      → c.jammed ≡ false
      → c.pending_nmi ≡ true
      → advance p c ≡ service p true nmi_vector (record c { pending_nmi = false })
  unfolding advance
  advance-nmi c j n = if_false _ _ j ∙ if_true _ _ n

  pub advance-irq :
      (c : Cpu B H)
      → c.jammed ≡ false
      → c.pending_nmi ≡ false
      → c.pending_irq ≡ true
      → advance p c ≡ service p false irq_vector (record c { pending_irq = false })
  unfolding advance
  advance-irq c j n i = if_false _ _ j ∙ if_false _ _ n ∙ if_true _ _ i

  pub advance-instruction :
      (c : Cpu B H)
      → c.jammed ≡ false
      → c.pending_nmi ≡ false
      → c.pending_irq ≡ false
      → advance p c ≡ step_instruction p c
  unfolding advance
  advance-instruction c j n i = if_false _ _ j ∙ if_false _ _ n ∙ if_false _ _ i

-- Two steps that go the same way agree when the ways do.
module _ {B H H' : Type 0} (p : Policies B H) (p' : Policies B H') where
  pub advance-agree :
      (f : Cpu B H → Cpu B H') (c : Cpu B H) (c' : Cpu B H')
      → c'.jammed ≡ c.jammed
      → c'.pending_nmi ≡ c.pending_nmi
      → c'.pending_irq ≡ c.pending_irq
      → (c.jammed ≡ true → f (step_jammed p c) ≡ step_jammed p' c')
      → (c.jammed ≡ false
          → c.pending_nmi ≡ true
          → f (service p true nmi_vector (record c { pending_nmi = false }))
            ≡ service p' true nmi_vector (record c' { pending_nmi = false }))
      → (c.jammed ≡ false
          → c.pending_nmi ≡ false
          → c.pending_irq ≡ true
          → f (service p false irq_vector (record c { pending_irq = false }))
            ≡ service p' false irq_vector (record c' { pending_irq = false }))
      → (c.jammed ≡ false
          → c.pending_nmi ≡ false
          → c.pending_irq ≡ false
          → f (step_instruction p c) ≡ step_instruction p' c')
      → f (advance p c) ≡ advance p' c'
  advance-agree f c c' j n i wedged nmi irq instruction =
      advance_cases p (λ d. f d ≡ advance p' c') c
        (λ a. wedged a ∙ sym (advance-jammed p' c' (j ∙ a)))
        (λ a b. nmi a b ∙ sym (advance-nmi p' c' (j ∙ a) (n ∙ b)))
        (λ a b d. irq a b d ∙ sym (advance-irq p' c' (j ∙ a) (n ∙ b) (i ∙ d)))
        (λ a b d. instruction a b d ∙ sym (advance-instruction p' c' (j ∙ a) (n ∙ b) (i ∙ d)))
