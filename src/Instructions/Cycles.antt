-- ===== src/Instructions/Cycles.antt =====
-- The bus cycles that each instruction issues, after its opcode was fetched, against the published
-- counts.
use emulator.Prelude.{◌+◌, ◌≡◌, arith, u64}
use native.Mathlib.Nat.{mod-add-mod, add_assoc, add-zero}
use emulator.Variant.{Variant}
use emulator.Bus.{BusLike}
use emulator.Cpu.{Cpu}
use emulator.Cpu.Laws.{plain}
use emulator.Addressing.{OperandMode, IndexedMode, indexed, absolute_x, absolute_y, indirect_y}
use emulator.Operations.Reads.{ReadOp}
use emulator.Operations.Writes.{WriteOp, UnstableOp}
use emulator.Operations.Shifts.{RmwOp}
use emulator.Operations.Implied.{ImpliedOp, tax}
use emulator.Operations.Branches.{Cond}
use emulator.Operations.Special.{SpecialOp, brk, jmp_ind, execute_special}
use emulator.Instructions.{
  Instr, read_instr, write_instr, rmw_instr, accum_instr, implied_instr, branch_instr,
  unstable_store_instr, special_instr, execute, execute_read, execute_write, execute_rmw,
  execute_accum, execute_implied, execute_branch, execute_unstable_store,
}
use emulator.Instructions.Timing.{
  operand_cycles, fixed_cycles, implied_cycles, special_cycles, base_cycles, penalty, read_penalty,
  branch_penalty,
}

ruleset counts = (mod-add-mod, add_assoc)

module _ {B H : Type 0} (bus : BusLike B) (variant : Variant) where
  execute_read-cycles :
      (op : ReadOp) (m : OperandMode) (c : Cpu B H)
      → u64 ((execute_read (plain bus variant) op m c).1.cycles + 1)
        ≡ u64 (c.cycles + (operand_cycles m + read_penalty (plain bus variant) m c))
  unfolding execute_read
  execute_read-cycles op (indexed absolute_x) c = ground arith
  execute_read-cycles op (indexed absolute_y) c = ground arith
  execute_read-cycles op (indexed indirect_y) c = ground arith
  execute_read-cycles op _ c = simp counts

  execute_write-cycles :
      (op : WriteOp) (m : OperandMode) (c : Cpu B H)
      → u64 ((execute_write (plain bus variant) op m c).1.cycles + 1)
        ≡ u64 (c.cycles + (operand_cycles m + fixed_cycles m))
  unfolding execute_write
  execute_write-cycles op (indexed absolute_x) c = simp counts
  execute_write-cycles op (indexed absolute_y) c = simp counts
  execute_write-cycles op (indexed indirect_y) c = simp counts
  execute_write-cycles op _ c = simp counts

  execute_rmw-cycles :
      (op : RmwOp) (m : OperandMode) (c : Cpu B H)
      → u64 ((execute_rmw (plain bus variant) op m c).1.cycles + 1)
        ≡ u64 (c.cycles + (operand_cycles m + fixed_cycles m + 2))
  unfolding execute_rmw
  execute_rmw-cycles op (indexed absolute_x) c = ground arith
  execute_rmw-cycles op (indexed absolute_y) c = ground arith
  execute_rmw-cycles op (indexed indirect_y) c = ground arith
  execute_rmw-cycles op _ c = ground arith

  execute_accum-cycles :
      (op : RmwOp) (c : Cpu B H)
      → u64 ((execute_accum (plain bus variant) op c).1.cycles + 1) ≡ u64 (c.cycles + 2)
  unfolding execute_accum
  execute_accum-cycles op c = simp counts

  execute_implied-cycles :
      (op : ImpliedOp) (c : Cpu B H)
      → u64 ((execute_implied (plain bus variant) op c).1.cycles + 1)
        ≡ u64 (c.cycles + implied_cycles op)
  unfolding execute_implied
  execute_implied-cycles tax c = simp counts
  execute_implied-cycles _ c = simp counts

  execute_branch-cycles :
      (cond : Cond) (c : Cpu B H)
      → u64 ((execute_branch (plain bus variant) cond c).1.cycles + 1)
        ≡ u64 (c.cycles + (2 + branch_penalty (plain bus variant) cond c))
  unfolding execute_branch
  execute_branch-cycles cond c = ground arith

  execute_unstable_store-cycles :
      (op : UnstableOp) (m : IndexedMode) (c : Cpu B H)
      → u64 ((execute_unstable_store (plain bus variant) op m c).1.cycles + 1)
        ≡ u64 (c.cycles + (operand_cycles (indexed m) + 1))
  unfolding execute_unstable_store
  execute_unstable_store-cycles op absolute_x c = simp counts
  execute_unstable_store-cycles op _ c = simp counts

  execute_special-cycles :
      (op : SpecialOp) (c : Cpu B H)
      → u64 ((execute_special (plain bus variant) op c).1.cycles + 1)
        ≡ u64 (c.cycles + special_cycles variant op)
  unfolding execute_special
  execute_special-cycles jmp_ind c = ground arith
  execute_special-cycles brk c = simp counts
  execute_special-cycles _ c = simp counts

  -- Each instruction issues the cycles that are published for it, less the one that fetched its
  -- opcode, on any bus and of any variant.
  pub execute-cycles :
      (i : Instr) (c : Cpu B H)
      → u64 ((execute (plain bus variant) i c).1.cycles + 1)
        ≡ u64 (c.cycles + (base_cycles variant i + penalty (plain bus variant) i c))
  unfolding execute base_cycles penalty
  execute-cycles (read_instr op mode) c = execute_read-cycles op mode c
  execute-cycles (write_instr op mode) c = rw add-zero (execute_write-cycles op mode c)
  execute-cycles (rmw_instr op mode) c = rw add-zero (execute_rmw-cycles op mode c)
  execute-cycles (accum_instr op mode) c = execute_accum-cycles op c
  execute-cycles (implied_instr op mode) c = rw add-zero (execute_implied-cycles op c)
  execute-cycles (branch_instr cond mode) c = execute_branch-cycles cond c
  execute-cycles (unstable_store_instr op mode) c =
      rw add-zero (execute_unstable_store-cycles op mode c)
  execute-cycles (special_instr op mode) c = rw add-zero (execute_special-cycles op c)
