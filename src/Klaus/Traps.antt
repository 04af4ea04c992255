-- ===== src/Klaus/Traps.antt =====
-- The instructions that end the loop of tools/run_klaus.cpp.
use emulator.Prelude.{
  ℕ, suc, ◌+◌, sym, ==_iff, ◌<◌, ◌^◌, true, false, ◌≡◌, refl, ◌∙◌, ap, arith, u16, some, if_true,
}
use emulator.Variant.{nmos6502}
use emulator.Bus.Flat.{flat_bus}
use emulator.Cpu.{fetch}
use emulator.Cpu.Laws.{plain}
use emulator.Addressing.{Mode}
use emulator.Operations.Branches.{Cond, branch_test}
use emulator.Operations.Special.{jam}
use emulator.Instructions.{branch_instr, special_instr}
use emulator.Table.{instruction_table}
use emulator.Table.Entry.{Row}
use emulator.Disassembler.{relative_target}
use emulator.Disassembler.Agreement.{relative_target-taken}
use emulator.Step.{find_row, latch_i}
use emulator.Step.Jam.{jam_row-wedges}
use emulator.Klaus.{Core, passed, jammed, next, hunt, at_trap}
use emulator.Klaus.Hunt.{Traps, hunt-Traps, hunt-jams}

-- The printed target of a branch back over its own two bytes.
back : (pc : ℕ) → pc < 2 ^ 16 → relative_target pc 0xfe ≡ pc
unfolding relative_target
back pc h = omega arith

module _ (c : Core) (r : Row) where
  -- A taken branch with the offset $FE is a trap: where the core is not jammed and has nothing
  -- pending, the loop reports it at the first instruction, as a pass where it stands at the address
  -- of success.
  pub branch_self-passes :
      (cond : Cond) (mode : Mode) (limit : ℕ)
      → c.jammed ≡ false
      → c.pending_nmi ≡ false
      → c.pending_irq ≡ false
      → find_row (c.bus.memory c.regs.pc) instruction_table ≡ some r
      → r.instr ≡ branch_instr cond mode
      → branch_test cond c.regs ≡ true
      → c.bus.memory (u16 (c.regs.pc + 1)) ≡ 0xfe
      → c.regs.pc < 2 ^ 16
      → hunt c.regs.pc (suc limit) c ≡ passed c.regs.pc (next c).cycles
  unfolding next at_trap
  branch_self-passes cond mode limit j n i e b taken offset h =
      let traps : Traps c =
        relative_target-taken nmos6502 c r cond mode j n i e b
        ∙ if_true _ _ taken
        ∙ ap (relative_target c.regs.pc) offset
        ∙ back c.regs.pc h in
      hunt-Traps c.regs.pc limit c traps ∙ if_true _ _ ((==_iff c.regs.pc c.regs.pc).1 refl)

  -- A JAM row ends the loop with the verdict that names its address.
  pub jam_row-reported :
      (mode : Mode) (success limit : ℕ)
      → c.jammed ≡ false
      → c.pending_nmi ≡ false
      → c.pending_irq ≡ false
      → find_row (fetch (plain flat_bus nmos6502) (latch_i c)).0 instruction_table ≡ some r
      → r.instr ≡ special_instr jam mode
      → c.regs.pc < 2 ^ 16
      → hunt success (suc limit) c ≡ jammed c.regs.pc
  unfolding next
  jam_row-reported mode success limit j n i e b h =
      let (wedged, regs) = jam_row-wedges flat_bus nmos6502 c r mode j n i e b in
      hunt-jams success limit c (λ same. omega (arith, h, sym (ap (λ r. r.pc) regs) ∙ same)) wedged
