-- ===== src/Step.antt =====
-- include/mos6502/cpu.hpp, the control part: reset, dispatch, one step, a run, the interrupt poll.
pub mod Cases
pub mod Decode
pub mod Cycles
pub mod Edge
pub mod Interrupts
pub mod Jam
pub mod Invariant
pub mod Lockstep
pub mod Reset
pub mod Rising
pub mod Run
use emulator.Prelude.{
  ℕ, zero, suc, ◌+◌, ◌-◌, ◌^◌, Bool, true, false, ◌&&◌, not, if◌then◌else◌, u8, u16, u32, u64, word,
  ltb, ◌==◌, Option, none, some, List, [], ◌∷◌,
}
use emulator.Types.{nmi_vector, reset_vector, irq_vector}
use emulator.Registers.{Registers}
use emulator.Cpu.{
  Cpu, Policies, M, ◌>>=◌, ◌>>◌, pure, get_regs, set_pc, on_regs, read, fetch, peek_stack,
  interrupt_sequence, set_nmi, set_irq,
}
use emulator.Instructions.{Instr, execute}
use emulator.Table.{instruction_table}
use emulator.Table.Entry.{Row}

-- The arm of the switch whose constant is the opcode.
unfoldable pub find_row : ℕ → List Row → Option Row
find_row opcode [] = none
find_row opcode (r ∷ rs) = if r.code == opcode then some r else find_row opcode rs

unfoldable pub poll_interrupts : {B H : Type 0} → Cpu B H → Cpu B H
poll_interrupts c =
    if c.nmi_edge
    then record c { nmi_edge = false; pending_nmi = true }
    else if c.irq_line && not c.poll_i
    then record c { pending_irq = true }
    else c

-- `pollI_ = regs.i`.
abbrev pub latch_i : {B H : Type 0} → Cpu B H → Cpu B H
latch_i c = record c { poll_i = c.regs.i }

-- The assignments at the head of `reset`; the two lines keep their levels.
abbrev pub clear_latches : {B H : Type 0} → Cpu B H → Cpu B H
clear_latches c = record c {
  jammed = false;
  pending_nmi = false;
  pending_irq = false;
  nmi_edge = false;
}

-- What the owner of a core may call between two instructions.
pub data Call : Type 0 where
  resets steps : Call
  drives_nmi drives_irq : Bool → Call

module _ {B H : Type 0} (p : Policies B H) where
  unfoldable pub dispatch : ℕ → M B H (Unit {0})
  dispatch opcode = elim (find_row opcode instruction_table) [
    | none ↦ pure tt
    | some r ↦ execute p r.instr
  ]

  -- A phantom push: the bus walks the stack, and nothing is written.
  unfoldable pub phantom_push : M B H (Unit {0})
  unfolding peek_stack
  phantom_push = do peek_stack p; on_regs (λ r. record r { s = u8 (r.s + 2 ^ 8 - 1) })

  -- The bus cycles of `reset`.
  unfoldable pub reset_sequence : M B H (Unit {0})
  unfolding read phantom_push
  reset_sequence = do
    r ← get_regs
    read p r.pc
    r' ← get_regs
    read p r'.pc
    phantom_push
    phantom_push
    phantom_push
    on_regs (λ r. record r { i = true })
    lo ← read p reset_vector
    hi ← read p (u16 (reset_vector + 1))
    set_pc (word lo hi)

  unfoldable pub reset : Cpu B H → Cpu B H
  unfolding reset_sequence
  reset c = latch_i (reset_sequence (clear_latches c)).1

  -- The body of `step` for a core that a JAM opcode has wedged.
  unfoldable pub step_jammed : Cpu B H → Cpu B H
  unfolding read
  step_jammed c = (read p c.regs.pc c).1

  -- The service of a pending interrupt; the flag `pending` is already cleared.
  unfoldable pub service : Bool → ℕ → Cpu B H → Cpu B H
  unfolding interrupt_sequence poll_interrupts
  service is_nmi vector c =
      poll_interrupts
        (latch_i (interrupt_sequence p false vector (p.hooks.on_interrupt c is_nmi)).1)

  -- The fetch, the hook and the dispatch of one instruction.
  unfoldable pub instruction_body : M B H (Unit {0})
  unfolding fetch dispatch
  instruction_body = do
    r ← get_regs
    opcode ← fetch p
    (λ c. (tt, p.hooks.on_instruction c r.pc opcode))
    dispatch opcode

  unfoldable pub step_instruction : Cpu B H → Cpu B H
  step_instruction c = poll_interrupts (instruction_body (latch_i c)).1

  -- The state after `step`.
  unfoldable pub advance : Cpu B H → Cpu B H
  advance c =
      if c.jammed
      then step_jammed c
      else if c.pending_nmi
      then service true nmi_vector (record c { pending_nmi = false })
      else if c.pending_irq
      then service false irq_vector (record c { pending_irq = false })
      else step_instruction c

  -- `step`, with the cycles that it returns.
  unfoldable pub step : M B H ℕ
  unfolding advance
  step c = let c' = advance c in (u32 (u64 (c'.cycles + 2 ^ 64 - c.cycles)), c')

  -- The loop of `run`, on fuel.
  unfoldable pub run_from : ℕ → ℕ → ℕ → Cpu B H → Option (Cpu B H)
  run_from zero start budget c = none
  run_from (suc fuel) start budget c = elim (ltb (u64 (c.cycles + 2 ^ 64 - start)) budget) [
    | true ↦ run_from fuel start budget (advance c)
    | false ↦ some c
  ]

  -- `run`: the cycles that have passed, and the state.
  unfoldable pub run : ℕ → ℕ → Cpu B H → Option (ℕ × Cpu B H)
  unfolding run_from
  run fuel budget c = elim (run_from fuel c.cycles budget c) [
    | none ↦ none
    | some c' ↦ some (u64 (c'.cycles + 2 ^ 64 - c.cycles), c')
  ]

  -- One call, with its result dropped.
  unfoldable pub call : Call → Cpu B H → Cpu B H
  call resets c = reset c
  call steps c = advance c
  call (drives_nmi asserted) c = set_nmi asserted c
  call (drives_irq asserted) c = set_irq asserted c

  unfoldable pub history : List Call → Cpu B H → Cpu B H
  history [] c = c
  history (k ∷ ks) c = history ks (call k c)
