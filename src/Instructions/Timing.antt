-- ===== src/Instructions/Timing.antt =====
-- The published cycle counts, as a description of their own: a base count for each shape and mode,
-- one cycle more where the index of a read crosses a page, and one or two more for a branch.
use emulator.Prelude.{ℕ, ◌+◌, Bool, u16, if◌then◌else◌, of_flag}
use emulator.Types.{crosses_page}
use emulator.Variant.{Variant}
use emulator.Cpu.{Cpu, Policies, fetch}
use emulator.Addressing.{OperandMode, IndexedMode, indexed, index_base, index_of}
use emulator.Operations.Implied.{ImpliedOp, pha, php, pla, plp}
use emulator.Operations.Branches.{Cond, branch_test}
use emulator.Operations.Special.{SpecialOp, brk, jsr, rts, rti, jmp_abs, jmp_ind, jam}
use emulator.Instructions.{
  Instr, read_instr, write_instr, rmw_instr, accum_instr, implied_instr, branch_instr,
  unstable_store_instr, special_instr, branch_target,
}

-- The opcode, the operand bytes, the pointer and the data access.
abbrev pub operand_cycles : OperandMode → ℕ
operand_cycles OperandMode.immediate = 2
operand_cycles OperandMode.zero_page = 3
operand_cycles OperandMode.zero_page_x = 4
operand_cycles OperandMode.zero_page_y = 4
operand_cycles OperandMode.absolute = 4
operand_cycles OperandMode.indirect_x = 6
operand_cycles (indexed IndexedMode.absolute_x) = 4
operand_cycles (indexed IndexedMode.absolute_y) = 4
operand_cycles (indexed IndexedMode.indirect_y) = 5

-- The cycle that a store spends on the page fix-up, needed or not.
abbrev pub fixed_cycles : OperandMode → ℕ
fixed_cycles (indexed _) = 1
fixed_cycles _ = 0

abbrev pub implied_cycles : ImpliedOp → ℕ
implied_cycles pha = 3
implied_cycles php = 3
implied_cycles pla = 4
implied_cycles plp = 4
implied_cycles _ = 2

abbrev pub special_cycles : Variant → SpecialOp → ℕ
special_cycles variant brk = 7
special_cycles variant jsr = 6
special_cycles variant rts = 6
special_cycles variant rti = 6
special_cycles variant jmp_abs = 3
special_cycles variant jmp_ind = if variant.jmp_indirect_page_bug then 5 else 6
special_cycles variant jam = 11

-- With no page crossed and no branch taken.
unfoldable pub base_cycles : Variant → Instr → ℕ
base_cycles variant (read_instr op mode) = operand_cycles mode
base_cycles variant (write_instr op mode) = operand_cycles mode + fixed_cycles mode
base_cycles variant (rmw_instr op mode) = operand_cycles mode + fixed_cycles mode + 2
base_cycles variant (accum_instr op mode) = 2
base_cycles variant (implied_instr op mode) = implied_cycles op
base_cycles variant (branch_instr cond mode) = 2
base_cycles variant (unstable_store_instr op mode) = operand_cycles (indexed mode) + 1
base_cycles variant (special_instr op mode) = special_cycles variant op

module _ {B H : Type 0} (p : Policies B H) where
  -- Whether indexing leaves the page of the base that the mode finds in state `c`.
  abbrev pub index_crosses : IndexedMode → Cpu B H → Bool
  index_crosses mode c =
      let base = (index_base p mode c).0 in crosses_page base (u16 (base + index_of mode c.regs))

  abbrev pub read_penalty : OperandMode → Cpu B H → ℕ
  read_penalty (indexed mode) c = of_flag (index_crosses mode c)
  read_penalty _ c = 0

  -- From the address behind the operand, which state `c` is about to fetch.
  abbrev pub branch_penalty : Cond → Cpu B H → ℕ
  branch_penalty cond c =
      let from = u16 (c.regs.pc + 1) in
      if branch_test cond c.regs
      then 1 + of_flag (crosses_page from (branch_target from (fetch p c).0))
      else 0

  -- The cycles beyond the base count, of an instruction whose opcode was fetched.
  unfoldable pub penalty : Instr → Cpu B H → ℕ
  penalty (read_instr op mode) c = read_penalty mode c
  penalty (branch_instr cond mode) c = branch_penalty cond c
  penalty _ c = 0
