-- ===== src/Instructions/Writeback.antt =====
-- The bus cycles of a read-modify-write instruction, on the logging bus of tools/run_harte.cpp.
use emulator.Prelude.{
  ℕ, true, false, ◌≡◌, refl, inl, inr, Bool-cases, ap, arith, List, [], ◌∷◌, ◌++◌, if◌then◌else◌,
  ◌==◌,
}
use emulator.Types.{modifying}
use emulator.Variant.{Variant}
use emulator.Bus.Recording.{TestBus, test_bus, read, write, tick}
use emulator.Cpu.{Cpu}
use emulator.Cpu.Laws.{plain}
use emulator.Addressing.{OperandMode, effective}
use emulator.Operations.Shifts.{RmwOp, apply_rmw}
use emulator.Instructions.{execute_rmw, dummy_access}

append_three :
    {A : Type 0} (xs : List A) (a b c : A)
    → ((xs ++ a ∷ []) ++ b ∷ []) ++ c ∷ [] ≡ xs ++ a ∷ b ∷ c ∷ []
append_three [] a b c = refl
append_three (x ∷ xs) a b c = ap (λ ys. x ∷ ys) (append_three xs a b c)

cell_same : (m at k : ℕ) → (if at == at then m else k) ≡ m
cell_same m at k = ground arith

module _ {H : Type 0} (variant : Variant) where
  -- After its operand is resolved, a read-modify-write instruction takes three bus cycles at the
  -- effective address: it reads the old byte, then writes it back unmodified on the variant with the
  -- dummy write and reads it again on the other, and then writes the new byte, which the memory
  -- holds at the end.
  pub execute_rmw-log :
      (op : RmwOp) (mode : OperandMode) (c : Cpu TestBus H)
      → let resolved = effective (plain test_bus variant) modifying mode c in
        let addr = resolved.0 in
        let before = resolved.1.bus in
        let old = before.memory addr in
        let new = (apply_rmw variant op old resolved.1.regs).0 in
        let after = (execute_rmw (plain test_bus variant) op mode c).1.bus in
        (after.log
          ≡ before.log
            ++ record { addr = addr; value = old; is_write = false }
              ∷ record { addr = addr; value = old; is_write = variant.rmw_dummy_write_back }
              ∷ record { addr = addr; value = new; is_write = true }
              ∷ [])
        × (after.memory addr ≡ new)
  unfolding execute_rmw read write tick
  execute_rmw-log op mode c = elim (Bool-cases variant.rmw_dummy_write_back) [
    | inl e ↦ rw (e, dummy_access) (append_three _ _ _ _, search cell_same)
    | inr e ↦ rw (e, dummy_access) (append_three _ _ _ _, search cell_same)
  ]
