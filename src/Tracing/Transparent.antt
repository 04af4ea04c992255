-- ===== src/Tracing/Transparent.antt =====
-- What the tracing hooks of include/mos6502/tracing.hpp leave as it is.
use emulator.Prelude.{
  ℕ, ◌+◌, Bool, true, false, some, ◌≡◌, refl, ◌∙◌, ap, arith, Option-cases, inl, inr, u16,
  get_elem?, Bool-cases, ==_iff, ◌==◌, leb,
}
use emulator.Types.{nmi_vector, irq_vector}
use emulator.Variant.{Variant}
use emulator.Bus.{BusLike}
use emulator.Bus.Flat.{FlatBus, flat_bus}
use emulator.Bus.Flat
use emulator.Cpu.{
  Cpu, fetch, fetch_word, read, write, read_if, tick, push, pull, peek_stack, read_zero_page_word,
  set_jammed, interrupt_sequence,
}
use emulator.Cpu.Laws.{plain}
use emulator.Addressing.{effective, resolve, index_base, fix_up}
use emulator.Operations.Implied.{apply_implied}
use emulator.Operations.Special.{
  execute_special, execute_brk, execute_jsr, execute_rts, execute_rti, execute_jmp_abs,
  execute_jmp_ind, indirect_high, park, execute_jam,
}
use emulator.Instructions.{
  Instr, read_instr, write_instr, rmw_instr, accum_instr, implied_instr, branch_instr,
  unstable_store_instr, special_instr, execute, execute_read, execute_write, dummy_access,
  execute_rmw, execute_accum, execute_implied, take_branch, execute_branch, execute_unstable_store,
}
use emulator.Table.{instruction_table}
use emulator.Step.{
  advance, find_row, dispatch, step_instruction, instruction_body, step_jammed, service,
  poll_interrupts, latch_i,
}
use emulator.Tracing.Blind.{with_hooks, execute-hooks}
use emulator.Step.Cases.{advance-agree}
use emulator.Disassembler.{InstructionInfo, instruction_info, listing, disassemble}
use emulator.Tracing.{TracingHooks, traced, on_instruction, peek_operands, peek_instruction}

module _ {B : Type 0} (bus : BusLike B) (variant : Variant) where
  -- No instruction calls the hook that traces.
  execute-plain :
      (i : Instr) (c : Cpu B TracingHooks)
      → execute (traced bus variant) i c ≡ execute (plain bus variant) i c
  unfolding execute execute_read execute_write dummy_access execute_rmw execute_accum
      execute_implied take_branch execute_branch execute_unstable_store execute_special execute_brk
      execute_jsr execute_rts execute_rti execute_jmp_abs execute_jmp_ind indirect_high park
      execute_jam apply_implied effective resolve index_base fix_up fetch fetch_word read write
      read_if tick push pull peek_stack read_zero_page_word set_jammed interrupt_sequence
  execute-plain (read_instr op mode) c = refl
  execute-plain (write_instr op mode) c = refl
  execute-plain (rmw_instr op mode) c = refl
  execute-plain (accum_instr op mode) c = refl
  execute-plain (implied_instr op mode) c = refl
  execute-plain (branch_instr cond mode) c = refl
  execute-plain (unstable_store_instr op mode) c = refl
  execute-plain (special_instr op mode) c = refl

  dispatch-plain :
      (opcode : ℕ) (c : Cpu B TracingHooks)
      → dispatch (traced bus variant) opcode c ≡ dispatch (plain bus variant) opcode c
  unfolding dispatch
  dispatch-plain opcode c = elim (Option-cases (find_row opcode instruction_table)) [
    | inl missing ↦ rw (dispatch, missing) refl
    | inr (r, e) ↦ rw (dispatch, e) (execute-plain r.instr c)
  ]

  -- The step of an instruction is that of the core with the line added, wherever the flag is on.
  pub instruction-plain :
      (c : Cpu B TracingHooks)
      → step_instruction (traced bus variant) c
        ≡ poll_interrupts
            (let (opcode, c') = fetch (plain bus variant) (latch_i c) in
              dispatch (plain bus variant) opcode (on_instruction bus c' c.regs.pc opcode)).1
  unfolding step_instruction instruction_body fetch read tick
  instruction-plain c = ap (λ t. poll_interrupts t.1) (dispatch-plain _ _)

  pub poll_interrupts-hooks :
      {H : Type 0} (h : H) (c : Cpu B TracingHooks)
      → with_hooks h (poll_interrupts c) ≡ poll_interrupts (with_hooks h c)
  unfolding poll_interrupts
  poll_interrupts-hooks h c = ground arith

  pub dispatch-hooks :
      {H : Type 0} (h : H) (opcode : ℕ) (c : Cpu B TracingHooks)
      → with_hooks h (dispatch (plain bus variant) opcode c).1
        ≡ (dispatch (plain bus variant) opcode (with_hooks h c)).1
  unfolding dispatch
  dispatch-hooks h opcode c = elim (Option-cases (find_row opcode instruction_table)) [
    | inl missing ↦ rw (dispatch, missing) refl
    | inr (r, e) ↦ rw (dispatch, e) (execute-hooks bus variant h r.instr c)
  ]

  pub service-hooks :
      {H : Type 0} (h : H) (is_nmi : Bool) (vector : ℕ) (c : Cpu B TracingHooks)
      → with_hooks h (service (plain bus variant) is_nmi vector c)
        ≡ service (plain bus variant) is_nmi vector (with_hooks h c)
  unfolding service interrupt_sequence
  service-hooks h is_nmi vector c =
      poll_interrupts-hooks h (latch_i (interrupt_sequence (plain bus variant) false vector c).1)

  pub instruction-hooks :
      {H : Type 0} (h : H) (c : Cpu B TracingHooks)
      → with_hooks h (step_instruction (plain bus variant) c)
        ≡ step_instruction (plain bus variant) (with_hooks h c)
  unfolding step_instruction instruction_body fetch read tick
  instruction-hooks h c =
      let (opcode, fetched) = fetch (plain bus variant) (latch_i c) in
      poll_interrupts-hooks h (dispatch (plain bus variant) opcode fetched).1
      ∙ ap poll_interrupts (dispatch-hooks h opcode fetched)

  -- A step without the tracing does not see what the hooks keep.
  pub advance-hooks :
      {H : Type 0} (h : H) (c : Cpu B TracingHooks)
      → with_hooks h (advance (plain bus variant) c) ≡ advance (plain bus variant) (with_hooks h c)
  unfolding step_jammed
  advance-hooks h c =
      advance-agree (plain bus variant) (plain bus variant) (with_hooks h) c (with_hooks h c) refl
        refl refl (λ _. refl)
        (λ _ _. service-hooks h true nmi_vector (record c { pending_nmi = false }))
        (λ _ _ _. service-hooks h false irq_vector (record c { pending_irq = false }))
        (λ _ _ _. instruction-hooks h c)

next_to : (pc : ℕ) → (u16 (pc + 2) == u16 (pc + 1)) ≡ false
next_to pc = ground arith

-- The operand bytes that `listing` asks for are those that were read.
peek_operands-listing :
    (pc : ℕ) (info : InstructionInfo) (b : FlatBus)
    → peek_operands flat_bus pc info b ≡ (listing b.memory pc info, b)
unfolding peek_operands listing Flat.read
peek_operands-listing pc info b =
    let same = (==_iff (u16 (pc + 1)) (u16 (pc + 1))).1 refl in
    let other : (u16 (pc + 2) == u16 (pc + 1)) ≡ false = next_to pc in
    elim (Bool-cases (leb 1 info.operand_bytes)) [
      | inl one ↦ elim (Bool-cases (leb 2 info.operand_bytes)) [
        | inl two ↦ rw (peek_operands, listing, one, two, same, other) refl
        | inr short ↦ rw (peek_operands, listing, one, short, same) refl
      ]
      | inr bare ↦ elim (Bool-cases (leb 2 info.operand_bytes)) [
        | inl two ↦ rw (peek_operands, listing, bare, two, other) refl
        | inr short ↦ rw (peek_operands, listing, bare, short) refl
      ]
    ]

-- On the flat bus the line's text is that of the disassembler, and the bus is left as it was.
pub peek_instruction-disassemble :
    (pc : ℕ) (b : FlatBus) → peek_instruction flat_bus pc b ≡ (disassemble b.memory pc, b)
unfolding peek_instruction disassemble Flat.read
peek_instruction-disassemble pc b = elim (Option-cases (get_elem? instruction_info (b.memory pc))) [
  | inl missing ↦ rw (missing, peek_instruction, disassemble) refl
  | inr (info, e) ↦
      rw (e, peek_instruction, disassemble)
        (ap (λ t. (some t.0, t.1)) (peek_operands-listing pc info b))
]
