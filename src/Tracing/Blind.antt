-- ===== src/Tracing/Blind.antt =====
-- An instruction, and what the hooks of the core keep.
use emulator.Prelude.{ℕ, Bool, ◌≡◌, refl, arith}
use emulator.Variant.{Variant}
use emulator.Bus.{BusLike}
use emulator.Cpu.{Cpu, read_if}
use emulator.Cpu.Laws.{plain}
use emulator.Addressing.{
  OperandMode, IndexedMode, immediate, indexed, absolute_x, absolute_y, indirect_y,
}
use emulator.Operations.Reads.{ReadOp}
use emulator.Operations.Writes.{WriteOp, UnstableOp}
use emulator.Operations.Shifts.{RmwOp}
use emulator.Operations.Implied.{ImpliedOp, tax}
use emulator.Operations.Branches.{Cond}
use emulator.Operations.Special.{SpecialOp, brk, jmp_ind, execute_special}
use emulator.Instructions.{
  Instr, read_instr, write_instr, rmw_instr, accum_instr, implied_instr, branch_instr,
  unstable_store_instr, special_instr, execute, execute_read, execute_write, execute_rmw,
  execute_accum, execute_implied, execute_branch, execute_unstable_store,
}

-- The core with another state of its hooks.
abbrev pub with_hooks : {B H H' : Type 0} → H' → Cpu B H → Cpu B H'
with_hooks h c = record {
  regs = c.regs;
  bus = c.bus;
  hooks = h;
  cycles = c.cycles;
  jammed = c.jammed;
  nmi_line = c.nmi_line;
  nmi_edge = c.nmi_edge;
  irq_line = c.irq_line;
  pending_nmi = c.pending_nmi;
  pending_irq = c.pending_irq;
  poll_i = c.poll_i;
}

module _ {B H H' : Type 0} (bus : BusLike B) (variant : Variant) (h : H') where
  read_if-hooks :
      (b : Bool) (addr : ℕ) (c : Cpu B H)
      → with_hooks h (read_if (plain bus variant) b addr c).1
        ≡ (read_if (plain bus variant) b addr (with_hooks h c)).1
  unfolding read_if
  read_if-hooks b addr c = ground arith

  execute_read-hooks :
      (op : ReadOp) (m : OperandMode) (c : Cpu B H)
      → with_hooks h (execute_read (plain bus variant) op m c).1
        ≡ (execute_read (plain bus variant) op m (with_hooks h c)).1
  unfolding execute_read
  execute_read-hooks op (indexed absolute_x) c = ground arith
  execute_read-hooks op (indexed absolute_y) c = ground arith
  execute_read-hooks op (indexed indirect_y) c = ground arith
  execute_read-hooks op immediate c = refl
  execute_read-hooks op _ c = refl

  execute_write-hooks :
      (op : WriteOp) (m : OperandMode) (c : Cpu B H)
      → with_hooks h (execute_write (plain bus variant) op m c).1
        ≡ (execute_write (plain bus variant) op m (with_hooks h c)).1
  unfolding execute_write
  execute_write-hooks op (indexed absolute_x) c = refl
  execute_write-hooks op (indexed _) c = refl
  execute_write-hooks op _ c = refl

  execute_rmw-hooks :
      (op : RmwOp) (m : OperandMode) (c : Cpu B H)
      → with_hooks h (execute_rmw (plain bus variant) op m c).1
        ≡ (execute_rmw (plain bus variant) op m (with_hooks h c)).1
  unfolding execute_rmw
  execute_rmw-hooks op (indexed absolute_x) c = ground arith
  execute_rmw-hooks op (indexed _) c = ground arith
  execute_rmw-hooks op _ c = ground arith

  execute_implied-hooks :
      (op : ImpliedOp) (c : Cpu B H)
      → with_hooks h (execute_implied (plain bus variant) op c).1
        ≡ (execute_implied (plain bus variant) op (with_hooks h c)).1
  unfolding execute_implied
  execute_implied-hooks tax c = refl
  execute_implied-hooks _ c = refl

  execute_branch-hooks :
      (cond : Cond) (c : Cpu B H)
      → with_hooks h (execute_branch (plain bus variant) cond c).1
        ≡ (execute_branch (plain bus variant) cond (with_hooks h c)).1
  unfolding execute_branch
  execute_branch-hooks cond c = ground arith

  execute_unstable_store-hooks :
      (op : UnstableOp) (m : IndexedMode) (c : Cpu B H)
      → with_hooks h (execute_unstable_store (plain bus variant) op m c).1
        ≡ (execute_unstable_store (plain bus variant) op m (with_hooks h c)).1
  unfolding execute_unstable_store
  execute_unstable_store-hooks op absolute_x c = refl
  execute_unstable_store-hooks op _ c = refl

  execute_special-hooks :
      (op : SpecialOp) (c : Cpu B H)
      → with_hooks h (execute_special (plain bus variant) op c).1
        ≡ (execute_special (plain bus variant) op (with_hooks h c)).1
  unfolding execute_special
  execute_special-hooks jmp_ind c = ground arith
  execute_special-hooks brk c = refl
  execute_special-hooks _ c = refl

  -- An instruction does the same whatever the hooks keep.
  pub execute-hooks :
      (i : Instr) (c : Cpu B H)
      → with_hooks h (execute (plain bus variant) i c).1
        ≡ (execute (plain bus variant) i (with_hooks h c)).1
  unfolding execute
  execute-hooks (read_instr op mode) c = execute_read-hooks op mode c
  execute-hooks (write_instr op mode) c = execute_write-hooks op mode c
  execute-hooks (rmw_instr op mode) c = execute_rmw-hooks op mode c
  execute-hooks (accum_instr op mode) c = unfold execute_accum in refl
  execute-hooks (implied_instr op mode) c = execute_implied-hooks op c
  execute-hooks (branch_instr cond mode) c = execute_branch-hooks cond c
  execute-hooks (unstable_store_instr op mode) c = execute_unstable_store-hooks op mode c
  execute-hooks (special_instr op mode) c = execute_special-hooks op c
