-- ===== src/Instructions/Invariant.antt =====
-- The invariant of the core through each instruction shape.
use emulator.Prelude.{ℕ, arith, u8, same_page, ◌>>>◌}
use emulator.Types.{reading, writing, modifying, crosses_page}
use emulator.Variant.{Variant}
use emulator.Bus.{BusLike, BusLaws}
use emulator.Cpu.{pure, read, write}
use emulator.Cpu.Laws.{plain}
use emulator.Cpu.Invariant.{
  IsByte, IsWord, IsAny, Keeps, bind, after, result, choose, get_regs-Keeps, on_regs-Keeps,
  set_pc-Keeps, read-Keeps, discard, read_if-Keeps, write-Keeps, fetch-Keeps,
}
use emulator.Addressing.{IndexedMode, OperandMode}
use emulator.Addressing.Invariant.{resolve-Keeps, effective-Keeps}
use emulator.Operations.Ranges.{
  apply_read-InRange, write_value-IsByte, unstable_value-IsByte, unstable_regs-InRange,
  apply_rmw-IsByte,
}
use emulator.Operations.Sequences.{apply_implied-Keeps, execute_special-Keeps}
use emulator.Operations.Reads.{ReadOp, apply_read}
use emulator.Operations.Writes.{WriteOp, UnstableOp, write_value, unstable_value, unstable_regs}
use emulator.Operations.Shifts.{RmwOp, apply_rmw}
use emulator.Operations.Implied.{ImpliedOp}
use emulator.Operations.Branches.{Cond, branch_test}
use emulator.Instructions.{
  Instr, read_instr, write_instr, rmw_instr, accum_instr, implied_instr, branch_instr,
  unstable_store_instr, special_instr, execute, execute_read, execute_write, execute_rmw,
  dummy_access, execute_accum, execute_implied, take_branch, execute_branch, execute_unstable_store,
  branch_target, unstable_address,
}

module _ {B H : Type 0} {bus : BusLike B} (laws : BusLaws bus) (variant : Variant) where
  execute_read-Keeps :
      (op : ReadOp) (m : OperandMode)
      → Keeps {H = H} laws IsAny (execute_read (plain bus variant) op m)
  unfolding execute_read
  execute_read-Keeps op m = bind laws (effective-Keeps laws variant reading m) λ addr p.
      bind laws (read-Keeps laws variant addr) λ value q.
        on_regs-Keeps laws (apply_read variant op value)
          λ r v. apply_read-InRange r v variant op value q

  execute_write-Keeps :
      (op : WriteOp) (m : OperandMode)
      → Keeps {H = H} laws IsAny (execute_write (plain bus variant) op m)
  unfolding execute_write
  execute_write-Keeps op m = bind laws (effective-Keeps laws variant writing m) λ addr p.
      bind laws (get_regs-Keeps laws)
        λ r v. write-Keeps laws variant addr (write_value op r) (write_value-IsByte r v op)

  dummy_access-Keeps :
      (addr value : ℕ)
      → IsByte value
      → Keeps {H = H} laws IsAny (dummy_access (plain bus variant) addr value)
  unfolding dummy_access
  dummy_access-Keeps addr value h =
      choose laws variant.rmw_dummy_write_back (write (plain bus variant) addr value)
        (λ c. (tt, (read (plain bus variant) addr c).1)) (write-Keeps laws variant addr value h)
        (discard laws variant addr)

  execute_rmw-Keeps :
      (op : RmwOp) (m : OperandMode)
      → Keeps {H = H} laws IsAny (execute_rmw (plain bus variant) op m)
  unfolding execute_rmw
  execute_rmw-Keeps op m = bind laws (effective-Keeps laws variant modifying m) λ addr p.
      bind laws (read-Keeps laws variant addr) λ value q.
        after laws (dummy_access-Keeps addr value q) (
          bind laws (get_regs-Keeps laws) λ r v.
            after laws
              (on_regs-Keeps laws (λ r'. (apply_rmw variant op value r').1)
                λ r' v'. (apply_rmw-IsByte variant value q r' v' op).1)
              (write-Keeps laws variant addr (apply_rmw variant op value r).0
                (apply_rmw-IsByte variant value q r v op).0))

  execute_accum-Keeps :
      (op : RmwOp) → Keeps {H = H} laws IsAny (execute_accum (plain bus variant) op)
  unfolding execute_accum
  execute_accum-Keeps op = bind laws (get_regs-Keeps laws) λ r v.
      after laws (read-Keeps laws variant r.pc) (
        on_regs-Keeps laws
          (λ r'. let (m, r'') = apply_rmw variant op r'.a r' in record r'' { a = m })
          λ r' v'.
            let (h, w) = apply_rmw-IsByte variant r'.a v'.a r' v' op in
            record { a = h; x = w.x; y = w.y; s = w.s; pc = w.pc })

  take_branch-Keeps :
      (from target : ℕ)
      → IsWord target
      → Keeps {H = H} laws IsAny (take_branch (plain bus variant) from target)
  unfolding take_branch
  take_branch-Keeps from target h = after laws (read-Keeps laws variant from) (
      after laws (read_if-Keeps laws variant (crosses_page from target) (same_page from target))
        (set_pc-Keeps laws target h))

  execute_branch-Keeps :
      (cond : Cond) → Keeps {H = H} laws IsAny (execute_branch (plain bus variant) cond)
  unfolding execute_branch
  execute_branch-Keeps cond = bind laws (fetch-Keeps laws variant) λ offset p.
      bind laws (get_regs-Keeps laws) λ r v.
        let target = branch_target r.pc offset in
        choose laws (branch_test cond r) (take_branch (plain bus variant) r.pc target) (pure tt)
          (take_branch-Keeps r.pc target (unfold branch_target in omega arith)) (result laws tt tt)

  execute_unstable_store-Keeps :
      (op : UnstableOp) (m : IndexedMode)
      → Keeps {H = H} laws IsAny (execute_unstable_store (plain bus variant) op m)
  unfolding execute_unstable_store
  execute_unstable_store-Keeps op m = bind laws (resolve-Keeps laws variant writing m) λ e p.
      bind laws (get_regs-Keeps laws) λ r v.
        let value = unstable_value op r (u8 (e.base >>> 8)) in
        after laws (on_regs-Keeps laws (unstable_regs op) λ r' v'. unstable_regs-InRange r' v' op) (
          write-Keeps laws variant (unstable_address e.base e.addr value) value
            (unstable_value-IsByte r v op _))

  execute_implied-Keeps :
      (op : ImpliedOp) → Keeps {H = H} laws IsAny (execute_implied (plain bus variant) op)
  unfolding execute_implied
  execute_implied-Keeps op =
      bind laws (get_regs-Keeps laws)
        λ r v. after laws (read-Keeps laws variant r.pc) (apply_implied-Keeps laws variant op)

  -- Every instruction, of any shape, operation and mode, keeps the invariant.
  pub execute-Keeps : (i : Instr) → Keeps {H = H} laws IsAny (execute (plain bus variant) i)
  unfolding execute
  execute-Keeps (read_instr op mode) = execute_read-Keeps op mode
  execute-Keeps (write_instr op mode) = execute_write-Keeps op mode
  execute-Keeps (rmw_instr op mode) = execute_rmw-Keeps op mode
  execute-Keeps (accum_instr op mode) = execute_accum-Keeps op
  execute-Keeps (implied_instr op mode) = execute_implied-Keeps op
  execute-Keeps (branch_instr cond mode) = execute_branch-Keeps cond
  execute-Keeps (unstable_store_instr op mode) = execute_unstable_store-Keeps op mode
  execute-Keeps (special_instr op mode) = execute_special-Keeps laws variant op
