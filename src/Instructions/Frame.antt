-- ===== src/Instructions/Frame.antt =====
-- The interrupt lines and latches, and the I flag that the poll uses, through an instruction.
use emulator.Prelude.{ℕ, Bool, ◌≡◌, refl, arith}
use emulator.Variant.{Variant}
use emulator.Bus.{BusLike}
use emulator.Cpu.{Cpu, read_if}
use emulator.Cpu.Laws.{plain}
use emulator.Addressing.{
  Mode, OperandMode, IndexedMode, immediate, indexed, absolute_x, absolute_y, indirect_y,
}
use emulator.Operations.Reads.{ReadOp}
use emulator.Operations.Writes.{WriteOp, UnstableOp}
use emulator.Operations.Shifts.{RmwOp}
use emulator.Operations.Implied.{ImpliedOp, tax}
use emulator.Operations.Branches.{Cond}
use emulator.Operations.Special.{SpecialOp, brk, rti, jmp_ind, execute_special}
use emulator.Instructions.{
  Instr, read_instr, write_instr, rmw_instr, accum_instr, implied_instr, branch_instr,
  unstable_store_instr, special_instr, execute, execute_read, execute_write, execute_rmw,
  execute_accum, execute_implied, execute_branch, execute_unstable_store,
}

-- The interrupt lines, the latches and the flag that the poll uses.
pub record Pins : Type 0 where
  pub nmi_line : Bool
  pub nmi_edge : Bool
  pub irq_line : Bool
  pub pending_nmi : Bool
  pub pending_irq : Bool
  pub poll_i : Bool

abbrev pub pins : {B H : Type 0} → Cpu B H → Pins
pins c = record {
  nmi_line = c.nmi_line;
  nmi_edge = c.nmi_edge;
  irq_line = c.irq_line;
  pending_nmi = c.pending_nmi;
  pending_irq = c.pending_irq;
  poll_i = c.poll_i;
}

-- The flag that the poll after an instruction uses: that of before, or the one that RTI restored.
abbrev pub polled : Instr → Bool → Bool → Bool
polled (special_instr rti mode) latched restored = restored
polled _ latched restored = latched

module _ {B H : Type 0} (bus : BusLike B) (variant : Variant) where
  read_if-pins :
      (b : Bool) (addr : ℕ) (c : Cpu B H) → pins (read_if (plain bus variant) b addr c).1 ≡ pins c
  unfolding read_if
  read_if-pins b addr c = ground arith

  execute_read-pins :
      (op : ReadOp) (m : OperandMode) (c : Cpu B H)
      → pins (execute_read (plain bus variant) op m c).1 ≡ pins c
  unfolding execute_read
  execute_read-pins op (indexed absolute_x) c = ground arith
  execute_read-pins op (indexed absolute_y) c = ground arith
  execute_read-pins op (indexed indirect_y) c = ground arith
  execute_read-pins op immediate c = refl
  execute_read-pins op _ c = refl

  execute_write-pins :
      (op : WriteOp) (m : OperandMode) (c : Cpu B H)
      → pins (execute_write (plain bus variant) op m c).1 ≡ pins c
  unfolding execute_write
  execute_write-pins op (indexed absolute_x) c = refl
  execute_write-pins op (indexed _) c = refl
  execute_write-pins op _ c = refl

  execute_rmw-pins :
      (op : RmwOp) (m : OperandMode) (c : Cpu B H)
      → pins (execute_rmw (plain bus variant) op m c).1 ≡ pins c
  unfolding execute_rmw
  execute_rmw-pins op (indexed absolute_x) c = ground arith
  execute_rmw-pins op (indexed _) c = ground arith
  execute_rmw-pins op _ c = ground arith

  execute_implied-pins :
      (op : ImpliedOp) (c : Cpu B H) → pins (execute_implied (plain bus variant) op c).1 ≡ pins c
  unfolding execute_implied
  execute_implied-pins tax c = refl
  execute_implied-pins _ c = refl

  execute_branch-pins :
      (cond : Cond) (c : Cpu B H) → pins (execute_branch (plain bus variant) cond c).1 ≡ pins c
  unfolding execute_branch
  execute_branch-pins cond c = ground arith

  execute_unstable_store-pins :
      (op : UnstableOp) (m : IndexedMode) (c : Cpu B H)
      → pins (execute_unstable_store (plain bus variant) op m c).1 ≡ pins c
  unfolding execute_unstable_store
  execute_unstable_store-pins op absolute_x c = refl
  execute_unstable_store-pins op _ c = refl

  execute_special-pins :
      (op : SpecialOp) (m : Mode) (c : Cpu B H)
      → let c' = (execute_special (plain bus variant) op c).1 in
        pins c' ≡ record (pins c) { poll_i = polled (special_instr op m) c.poll_i c'.regs.i }
  unfolding execute_special
  execute_special-pins jmp_ind m c = ground arith
  execute_special-pins brk m c = refl
  execute_special-pins _ m c = refl

  -- No instruction touches an interrupt line or latch, and RTI alone replaces the I flag that the
  -- poll uses, by the one that it restores.
  pub execute-pins :
      (i : Instr) (c : Cpu B H)
      → let c' = (execute (plain bus variant) i c).1 in
        pins c' ≡ record (pins c) { poll_i = polled i c.poll_i c'.regs.i }
  unfolding execute
  execute-pins (read_instr op mode) c = execute_read-pins op mode c
  execute-pins (write_instr op mode) c = execute_write-pins op mode c
  execute-pins (rmw_instr op mode) c = execute_rmw-pins op mode c
  execute-pins (accum_instr op mode) c = unfold execute_accum in refl
  execute-pins (implied_instr op mode) c = execute_implied-pins op c
  execute-pins (branch_instr cond mode) c = execute_branch-pins cond c
  execute-pins (unstable_store_instr op mode) c = execute_unstable_store-pins op mode c
  execute-pins (special_instr op mode) c = execute_special-pins op mode c
