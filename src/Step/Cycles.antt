-- ===== src/Step/Cycles.antt =====
-- The cycles of one step and of a run.
use emulator.Prelude.{
  ℕ, ◌+◌, ◌-◌, ◌^◌, ◌≤◌, ◌<◌, Bool, true, false, ◌≡◌, arith, u32, u64, Option-cases, some, inl, inr,
}
use native.Mathlib.Nat.{mod-mod}
use emulator.Types.{nmi_vector, irq_vector}
use emulator.Variant.{Variant}
use emulator.Bus.{BusLike}
use emulator.Cpu.{Cpu, fetch}
use emulator.Cpu.Laws.{plain, interrupt_sequence-cycles}
use emulator.Addressing.{immediate, indexed, absolute_x}
use emulator.Operations.Implied.{tax}
use emulator.Operations.Special.{brk}
use emulator.Instructions.{
  Instr, read_instr, write_instr, rmw_instr, accum_instr, implied_instr, branch_instr,
  unstable_store_instr, special_instr,
}
use emulator.Instructions.Timing.{base_cycles, penalty}
use emulator.Instructions.Cycles.{execute-cycles}
use emulator.Table.{instruction_table}
use emulator.Table.Entry.{Row}
use emulator.Step.Cases.{advance_cases, advance-instruction}
use emulator.Step.{
  find_row, poll_interrupts, latch_i, dispatch, step_jammed, service, instruction_body,
  step_instruction, advance, step,
}

-- One step moved the counter on by `k`, and `k` is from 1 to 11.
pub record Elapses (before after : ℕ) : Type 0 where
  pub count : ℕ
  pub moved : u64 after ≡ u64 (before + count)
  pub at_least : 1 ≤ count
  pub at_most : count ≤ 11

-- The cycle of the opcode fetch, on both sides.
drop_fetch : (c x k : ℕ) → u64 (x + 1) ≡ u64 (u64 (c + 1) + k) → u64 x ≡ u64 (c + k)
drop_fetch c x k h = omega arith

-- The counter of a step wraps with the counter of the core.
count_back :
    (c x k : ℕ) → c < 2 ^ 64 → k ≤ 11 → u64 x ≡ u64 (c + k) → u32 (u64 (x + 2 ^ 64 - c)) ≡ k
count_back c x k h h' e = omega arith

module _ {B H : Type 0} (bus : BusLike B) (variant : Variant) where
  -- No instruction takes less than two cycles, or more than eleven.
  count_bounds :
      (i : Instr) (c : Cpu B H)
      → let k = base_cycles variant i + penalty (plain bus variant) i c in (2 ≤ k) × (k ≤ 11)
  unfolding base_cycles penalty
  count_bounds (read_instr op immediate) c = ground arith
  count_bounds (read_instr op (indexed absolute_x)) c = ground arith
  count_bounds (read_instr op (indexed _)) c = ground arith
  count_bounds (read_instr op _) c = ground arith
  count_bounds (write_instr op (indexed absolute_x)) c = ground arith
  count_bounds (write_instr op (indexed _)) c = ground arith
  count_bounds (write_instr op _) c = ground arith
  count_bounds (rmw_instr op (indexed absolute_x)) c = ground arith
  count_bounds (rmw_instr op (indexed _)) c = ground arith
  count_bounds (rmw_instr op _) c = ground arith
  count_bounds (accum_instr op mode) c = ground arith
  count_bounds (implied_instr tax mode) c = ground arith
  count_bounds (implied_instr _ mode) c = ground arith
  count_bounds (branch_instr cond mode) c = ground arith
  count_bounds (unstable_store_instr op absolute_x) c = ground arith
  count_bounds (unstable_store_instr op _) c = ground arith
  count_bounds (special_instr brk mode) c = ground arith
  count_bounds (special_instr _ mode) c = ground arith

  poll_interrupts-cycles : (c : Cpu B H) → (poll_interrupts c).cycles ≡ c.cycles
  unfolding poll_interrupts
  poll_interrupts-cycles c = ground arith

  -- The counter after the fetch and the dispatch of a decoded instruction.
  instruction_body-moved :
      (c : Cpu B H) (r : Row)
      → find_row (fetch (plain bus variant) c).0 instruction_table ≡ some r
      → u64 (instruction_body (plain bus variant) c).1.cycles
        ≡ u64 (
            c.cycles
            + (base_cycles variant r.instr
                + penalty (plain bus variant) r.instr (fetch (plain bus variant) c).1))
  unfolding instruction_body
  instruction_body-moved c r e =
      rw (e, dispatch)
        (drop_fetch c.cycles _ _
          (execute-cycles bus variant r.instr (fetch (plain bus variant) c).1))

  instruction_body-Elapses :
      (c : Cpu B H) → Elapses c.cycles (instruction_body (plain bus variant) c).1.cycles
  instruction_body-Elapses c =
      elim (Option-cases (find_row (fetch (plain bus variant) c).0 instruction_table)) [
        | inl e ↦ record {
          count = 1;
          moved = unfold instruction_body in rw (e, dispatch) (simp mod-mod);
          at_least = omega arith;
          at_most = omega arith;
        }
        | inr (r, e) ↦
            let within = count_bounds r.instr (fetch (plain bus variant) c).1 in
            record {
              count =
                  base_cycles variant r.instr
                  + penalty (plain bus variant) r.instr (fetch (plain bus variant) c).1;
              moved = instruction_body-moved c r e;
              at_least = omega arith;
              at_most = within.1;
            }
      ]

  service-Elapses :
      (is_nmi : Bool) (vector : ℕ) (c : Cpu B H)
      → Elapses c.cycles (service (plain bus variant) is_nmi vector c).cycles
  unfolding service
  service-Elapses is_nmi vector c = record {
    count = 7;
    moved = simp (poll_interrupts-cycles, interrupt_sequence-cycles) (omega arith);
    at_least = omega arith;
    at_most = omega arith;
  }

  -- Every step, whether of an instruction, of an interrupt or of a jammed core, moves the cycle
  -- counter on by 1 to 11.
  pub advance-Elapses : (c : Cpu B H) → Elapses c.cycles (advance (plain bus variant) c).cycles
  advance-Elapses c =
      advance_cases (plain bus variant) (λ c'. Elapses c.cycles c'.cycles) c
        (λ _. record {
          count = 1;
          moved = unfold step_jammed in simp mod-mod;
          at_least = omega arith;
          at_most = omega arith;
        })
        (λ _ _. service-Elapses true nmi_vector _) (λ _ _ _. service-Elapses false irq_vector _)
        (λ _ _ _.
          unfold step_instruction in
          rw poll_interrupts-cycles (instruction_body-Elapses (latch_i c)))

  -- From a counter that fits 64 bits, every step returns from 1 to 11 cycles, also when the counter
  -- wraps.
  pub step-bounds :
      (c : Cpu B H)
      → c.cycles < 2 ^ 64
      → (1 ≤ (step (plain bus variant) c).0) × ((step (plain bus variant) c).0 ≤ 11)
  unfolding step
  step-bounds c h =
      let e = advance-Elapses c in
      rw (count_back c.cycles _ e.count h e.at_most e.moved) (e.at_least, e.at_most)

  step_instruction-cycles :
      (c : Cpu B H)
      → (step_instruction (plain bus variant) c).cycles
        ≡ (instruction_body (plain bus variant) (latch_i c)).1.cycles
  unfolding step_instruction
  step_instruction-cycles c = poll_interrupts-cycles _

  -- An instruction that is neither delayed by an interrupt nor met by a jammed core returns the
  -- published count for its opcode: the base count of its shape and mode, and the penalty for the
  -- page that its index or its branch crosses. This holds on any bus and of any variant, from a
  -- counter that fits 64 bits.
  pub step-cycles :
      (c : Cpu B H) (r : Row)
      → c.cycles < 2 ^ 64
      → c.jammed ≡ false
      → c.pending_nmi ≡ false
      → c.pending_irq ≡ false
      → find_row (fetch (plain bus variant) (latch_i c)).0 instruction_table ≡ some r
      → (step (plain bus variant) c).0
        ≡ base_cycles variant r.instr
          + penalty (plain bus variant) r.instr (fetch (plain bus variant) (latch_i c)).1
  unfolding step
  step-cycles c r h j n i e =
      let within = count_bounds r.instr (fetch (plain bus variant) (latch_i c)).1 in
      count_back c.cycles _ _ h within.1 (
        rw (advance-instruction (plain bus variant) c j n i, step_instruction-cycles c)
          (instruction_body-moved (latch_i c) r e))
