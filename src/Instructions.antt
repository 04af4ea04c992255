-- ===== src/Instructions.antt =====
-- include/mos6502/instructions.hpp: the shapes that join an operation to an addressing mode.
pub mod Timing
pub mod Sequel
pub mod Writeback
pub mod Cycles
pub mod Frame
pub mod Invariant
use emulator.Prelude.{
  ℕ, ◌+◌, ◌-◌, ◌*◌, ◌/◌, ◌^◌, Bool, true, false, if◌then◌else◌, bit_and, bit_or, u8, u16, ◌<<<◌,
  ◌>>>◌, same_page, ltb,
}
use emulator.Types.{Access, reading, writing, modifying, crosses_page}
use emulator.Registers.{Registers}
use emulator.Variant.{Variant}
use emulator.Cpu.{
  Cpu, Policies, M, ◌>>=◌, ◌>>◌, pure, get_regs, set_pc, on_regs, read, read_if, write, fetch,
}
use emulator.Addressing.{IndexedMode, OperandMode, Mode, operand, indexed, resolve, effective}
use emulator.Operations.Reads.{ReadOp, apply_read}
use emulator.Operations.Writes.{WriteOp, UnstableOp, write_value, unstable_regs, unstable_value}
use emulator.Operations.Shifts.{RmwOp, apply_rmw}
use emulator.Operations.Implied.{ImpliedOp, apply_implied}
use emulator.Operations.Branches.{Cond, branch_test}
use emulator.Operations.Special.{SpecialOp, execute_special}

-- An instantiated shape.
pub data Instr : Type 0 where
  read_instr : ReadOp → OperandMode → Instr
  write_instr : WriteOp → OperandMode → Instr
  rmw_instr : RmwOp → OperandMode → Instr
  accum_instr : RmwOp → Mode → Instr
  implied_instr : ImpliedOp → Mode → Instr
  branch_instr : Cond → Mode → Instr
  unstable_store_instr : UnstableOp → IndexedMode → Instr
  special_instr : SpecialOp → Mode → Instr

-- The mode of a shape.
unfoldable pub mode_of : Instr → Mode
mode_of (read_instr op mode) = operand mode
mode_of (write_instr op mode) = operand mode
mode_of (rmw_instr op mode) = operand mode
mode_of (accum_instr op mode) = mode
mode_of (implied_instr op mode) = mode
mode_of (branch_instr cond mode) = mode
mode_of (unstable_store_instr op mode) = operand (indexed mode)
mode_of (special_instr op mode) = mode

-- `static_cast<u16>(from + offset)`, where `offset` is the byte read as an `i8`.
unfoldable pub branch_target : ℕ → ℕ → ℕ
branch_target from offset =
    u16 (if ltb offset 0x80 then from + offset else from + offset + 2 ^ 16 - 2 ^ 8)

-- Where an unstable store lands: across a page the value takes the place of the high byte.
unfoldable pub unstable_address : ℕ → ℕ → ℕ → ℕ
unfolding crosses_page
unstable_address base addr value =
    if crosses_page base addr then u16 (bit_or (value <<< 8) (bit_and addr 0xff)) else addr

module _ {B H : Type 0} (p : Policies B H) where
  unfoldable pub execute_read : ReadOp → OperandMode → M B H (Unit {0})
  unfolding effective read apply_read
  execute_read op mode = do
    addr ← effective p reading mode
    value ← read p addr
    on_regs (apply_read p.variant op value)

  unfoldable pub execute_write : WriteOp → OperandMode → M B H (Unit {0})
  unfolding effective write write_value
  execute_write op mode = do
    addr ← effective p writing mode
    r ← get_regs
    write p addr (write_value op r)

  -- The second access of a read-modify-write: the old value written back, or a second read.
  unfoldable pub dummy_access : ℕ → ℕ → M B H (Unit {0})
  unfolding read write
  dummy_access addr value c =
      if p.variant.rmw_dummy_write_back then write p addr value c else (tt, (read p addr c).1)

  unfoldable pub execute_rmw : RmwOp → OperandMode → M B H (Unit {0})
  unfolding effective read write dummy_access apply_rmw
  execute_rmw op mode = do
    addr ← effective p modifying mode
    value ← read p addr
    dummy_access addr value
    r ← get_regs
    on_regs (λ r'. (apply_rmw p.variant op value r').1)
    write p addr (apply_rmw p.variant op value r).0

  unfoldable pub execute_accum : RmwOp → M B H (Unit {0})
  unfolding read apply_rmw
  execute_accum op = do
    r ← get_regs
    read p r.pc
    on_regs (λ r'. let (m, r'') = apply_rmw p.variant op r'.a r' in record r'' { a = m })

  unfoldable pub execute_implied : ImpliedOp → M B H (Unit {0})
  unfolding read apply_implied
  execute_implied op = do r ← get_regs; read p r.pc; apply_implied p op

  -- A branch that is taken, from the address after its operand.
  unfoldable pub take_branch : ℕ → ℕ → M B H (Unit {0})
  unfolding read read_if
  take_branch from target = do
    read p from
    read_if p (crosses_page from target) (same_page from target)
    set_pc target

  unfoldable pub execute_branch : Cond → M B H (Unit {0})
  unfolding fetch branch_test branch_target take_branch
  execute_branch cond = do
    offset ← fetch p
    r ← get_regs
    let target = branch_target r.pc offset
    (λ c. if branch_test cond r then take_branch r.pc target c else (tt, c))

  unfoldable pub execute_unstable_store : UnstableOp → IndexedMode → M B H (Unit {0})
  unfolding resolve write unstable_value unstable_regs unstable_address
  execute_unstable_store op mode = do
    e ← resolve p writing mode
    r ← get_regs
    let value = unstable_value op r (u8 (e.base >>> 8))
    on_regs (unstable_regs op)
    write p (unstable_address e.base e.addr value) value

  -- `shape<operation, addressing>::execute`.
  unfoldable pub execute : Instr → M B H (Unit {0})
  execute (read_instr op mode) = execute_read op mode
  execute (write_instr op mode) = execute_write op mode
  execute (rmw_instr op mode) = execute_rmw op mode
  execute (accum_instr op mode) = execute_accum op
  execute (implied_instr op mode) = execute_implied op
  execute (branch_instr cond mode) = execute_branch cond
  execute (unstable_store_instr op mode) = execute_unstable_store op mode
  execute (special_instr op mode) = execute_special p op
