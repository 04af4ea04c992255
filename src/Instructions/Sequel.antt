-- ===== src/Instructions/Sequel.antt =====
-- Where the program counter stands after an instruction that does not jump.
use emulator.Prelude.{
  ℕ, ◌+◌, ◌^◌, Bool, true, false, ◌≡◌, refl, ◌∙◌, arith, u16, ◌<◌, ◌==◌, ==_iff, if◌then◌else◌,
}
use emulator.Registers.{Registers}
use emulator.Variant.{Variant}
use emulator.Bus.{BusLike}
use emulator.Cpu.{Cpu, fetch, read_if}
use emulator.Cpu.Laws.{plain}
use emulator.Addressing.{
  OperandMode, IndexedMode, immediate, indexed, absolute, absolute_x, absolute_y, indirect_y,
  operand_bytes, operand,
}
use emulator.Operations.Alu.{add_with_carry}
use emulator.Operations.Reads.{ReadOp, apply_read, lda, adc, arr}
use emulator.Operations.Writes.{WriteOp, UnstableOp, unstable_regs, sha, tas}
use emulator.Operations.Shifts.{RmwOp, apply_rmw, rra, asl}
use emulator.Operations.Implied.{ImpliedOp, tax}
use emulator.Operations.Branches.{Cond, branch_test}
use emulator.Operations.Special.{brk, jam, execute_special, execute_jam, park}
use emulator.Instructions.{
  Instr, read_instr, write_instr, rmw_instr, accum_instr, implied_instr, branch_instr,
  unstable_store_instr, special_instr, mode_of, branch_target, dummy_access, execute, execute_read,
  execute_write, execute_rmw, execute_accum, execute_implied, execute_branch,
  execute_unstable_store,
}

add_with_carry-pc :
    (variant : Variant) (value : ℕ) (r : Registers) → (add_with_carry variant value r).pc ≡ r.pc
unfolding add_with_carry
add_with_carry-pc variant value r = ground arith

apply_read-pc :
    (variant : Variant) (op : ReadOp) (value : ℕ) (r : Registers)
    → (apply_read variant op value r).pc ≡ r.pc
unfolding apply_read
apply_read-pc variant adc value r = add_with_carry-pc variant value r
apply_read-pc variant arr value r = ground arith
apply_read-pc variant lda value r = refl
apply_read-pc variant _ value r = refl

apply_rmw-pc :
    (variant : Variant) (op : RmwOp) (value : ℕ) (r : Registers)
    → (apply_rmw variant op value r).1.pc ≡ r.pc
unfolding apply_rmw
apply_rmw-pc variant rra value r = simp add_with_carry-pc refl
apply_rmw-pc variant asl value r = refl
apply_rmw-pc variant _ value r = refl

unstable_regs-pc : (op : UnstableOp) (r : Registers) → (unstable_regs op r).pc ≡ r.pc
unfolding unstable_regs
unstable_regs-pc tas r = refl
unstable_regs-pc sha r = refl
unstable_regs-pc _ r = refl

-- The shapes whose template does not fetch an operand stand with a mode that has none.
abbrev pub shape_fits : Instr → Bool
shape_fits (accum_instr op mode) = operand_bytes mode == 0
shape_fits (implied_instr op mode) = operand_bytes mode == 0
shape_fits (branch_instr cond mode) = operand_bytes mode == 1
shape_fits (special_instr jam mode) = operand_bytes mode == 0
shape_fits _ = true

-- Neither a branch nor an instruction that sets the program counter.
abbrev pub goes_on : Instr → Bool
goes_on (branch_instr cond mode) = false
goes_on (special_instr jam mode) = true
goes_on (special_instr op mode) = false
goes_on _ = true

-- No operand, and a word stays a word.
no_operand : (pc n : ℕ) → pc < 2 ^ 16 → ((n == 0) ≡ true) → pc ≡ u16 (pc + n)
no_operand pc n h e = omega (arith, (==_iff n 0).0 e)

-- Two fetches are two bytes.
twice : (pc : ℕ) → u16 (u16 (pc + 1) + 1) ≡ u16 (pc + 2)
twice pc = omega arith

module _ {B H : Type 0} (bus : BusLike B) (variant : Variant) where
  read_if-regs :
      (b : Bool) (addr : ℕ) (c : Cpu B H) → (read_if (plain bus variant) b addr c).1.regs ≡ c.regs
  unfolding read_if
  read_if-regs b addr c = ground arith

  execute_read-pc :
      (op : ReadOp) (m : OperandMode) (c : Cpu B H)
      → (execute_read (plain bus variant) op m c).1.regs.pc
        ≡ u16 (c.regs.pc + operand_bytes (operand m))
  unfolding execute_read operand_bytes
  execute_read-pc op (indexed absolute_x) c = simp (apply_read-pc, read_if-regs) (twice c.regs.pc)
  execute_read-pc op (indexed absolute_y) c = simp (apply_read-pc, read_if-regs) (twice c.regs.pc)
  execute_read-pc op (indexed indirect_y) c = simp (apply_read-pc, read_if-regs) refl
  execute_read-pc op absolute c = simp apply_read-pc (twice c.regs.pc)
  execute_read-pc op immediate c = simp apply_read-pc refl
  execute_read-pc op _ c = simp apply_read-pc refl

  execute_write-pc :
      (op : WriteOp) (m : OperandMode) (c : Cpu B H)
      → (execute_write (plain bus variant) op m c).1.regs.pc
        ≡ u16 (c.regs.pc + operand_bytes (operand m))
  unfolding execute_write operand_bytes
  execute_write-pc op (indexed absolute_x) c = twice c.regs.pc
  execute_write-pc op (indexed absolute_y) c = twice c.regs.pc
  execute_write-pc op (indexed indirect_y) c = refl
  execute_write-pc op absolute c = twice c.regs.pc
  execute_write-pc op immediate c = refl
  execute_write-pc op _ c = refl

  dummy_access-regs :
      (addr value : ℕ) (c : Cpu B H)
      → (dummy_access (plain bus variant) addr value c).1.regs ≡ c.regs
  unfolding dummy_access
  dummy_access-regs addr value c = ground arith

  execute_rmw-pc :
      (op : RmwOp) (m : OperandMode) (c : Cpu B H)
      → (execute_rmw (plain bus variant) op m c).1.regs.pc
        ≡ u16 (c.regs.pc + operand_bytes (operand m))
  unfolding execute_rmw operand_bytes
  execute_rmw-pc op (indexed absolute_x) c =
      simp (apply_rmw-pc, dummy_access-regs) (twice c.regs.pc)
  execute_rmw-pc op (indexed absolute_y) c =
      simp (apply_rmw-pc, dummy_access-regs) (twice c.regs.pc)
  execute_rmw-pc op (indexed indirect_y) c = simp (apply_rmw-pc, dummy_access-regs) refl
  execute_rmw-pc op absolute c = simp (apply_rmw-pc, dummy_access-regs) (twice c.regs.pc)
  execute_rmw-pc op immediate c = simp (apply_rmw-pc, dummy_access-regs) refl
  execute_rmw-pc op _ c = simp (apply_rmw-pc, dummy_access-regs) refl

  execute_unstable_store-pc :
      (op : UnstableOp) (m : IndexedMode) (c : Cpu B H)
      → (execute_unstable_store (plain bus variant) op m c).1.regs.pc
        ≡ u16 (c.regs.pc + operand_bytes (operand (indexed m)))
  unfolding execute_unstable_store operand_bytes
  execute_unstable_store-pc op absolute_x c = simp unstable_regs-pc (twice c.regs.pc)
  execute_unstable_store-pc op absolute_y c = simp unstable_regs-pc (twice c.regs.pc)
  execute_unstable_store-pc op indirect_y c = simp unstable_regs-pc refl

  execute_accum-pc :
      (op : RmwOp) (c : Cpu B H) → (execute_accum (plain bus variant) op c).1.regs.pc ≡ c.regs.pc
  unfolding execute_accum
  execute_accum-pc op c = apply_rmw-pc variant op c.regs.a c.regs

  execute_implied-pc :
      (op : ImpliedOp) (c : Cpu B H)
      → (execute_implied (plain bus variant) op c).1.regs.pc ≡ c.regs.pc
  unfolding execute_implied
  execute_implied-pc tax c = refl
  execute_implied-pc _ c = refl

  -- JAM stays behind its opcode.
  execute_jam-pc : (c : Cpu B H) → (execute_special (plain bus variant) jam c).1.regs.pc ≡ c.regs.pc
  unfolding execute_special execute_jam park
  execute_jam-pc c = refl

  -- A branch goes to its target when its condition holds, and on to the next instruction when not.
  pub execute_branch-pc :
      (cond : Cond) (c : Cpu B H)
      → let next = u16 (c.regs.pc + 1) in
        (execute_branch (plain bus variant) cond c).1.regs.pc ≡ (
          if branch_test cond c.regs
          then branch_target next (fetch (plain bus variant) c).0
          else next)
  unfolding execute_branch
  execute_branch-pc cond c = ground arith

  -- The program counter after an instruction that goes on: past its operand.
  pub execute-pc :
      (i : Instr) (c : Cpu B H)
      → c.regs.pc < 2 ^ 16
      → shape_fits i ≡ true
      → goes_on i ≡ true
      → (execute (plain bus variant) i c).1.regs.pc ≡ u16 (c.regs.pc + operand_bytes (mode_of i))
  unfolding execute mode_of
  execute-pc (read_instr op mode) c h f g = execute_read-pc op mode c
  execute-pc (write_instr op mode) c h f g = execute_write-pc op mode c
  execute-pc (rmw_instr op mode) c h f g = execute_rmw-pc op mode c
  execute-pc (accum_instr op mode) c h f g =
      execute_accum-pc op c ∙ no_operand c.regs.pc (operand_bytes mode) h f
  execute-pc (implied_instr op mode) c h f g =
      execute_implied-pc op c ∙ no_operand c.regs.pc (operand_bytes mode) h f
  execute-pc (branch_instr cond mode) c h f g = ground arith
  execute-pc (unstable_store_instr op mode) c h f g = execute_unstable_store-pc op mode c
  execute-pc (special_instr jam mode) c h f g =
      execute_jam-pc c ∙ no_operand c.regs.pc (operand_bytes mode) h f
  execute-pc (special_instr brk mode) c h f g = ground arith
  execute-pc (special_instr _ mode) c h f g = ground arith
