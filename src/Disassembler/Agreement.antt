-- ===== src/Disassembler/Agreement.antt =====
-- The disassembler beside the core: where an instruction ends and where a branch goes.
use Prim.Native.String.{String}
use emulator.Prelude.{
  ℕ, zero, suc, ◌+◌, ◌^◌, ◌<◌, Bool, true, false, ◌≡◌, refl, ◌∙◌, ap, sym, arith, Option, none,
  some, List, [], ◌∷◌, get_elem?, u16, if◌then◌else◌, ◌&&◌,
}
use emulator.Registers.{Registers}
use emulator.Variant.{Variant}
use emulator.Bus.Flat.{FlatBus, flat_bus, read, tick}
use emulator.Cpu.{Cpu, fetch}
use emulator.Cpu.Laws.{plain}
use emulator.Addressing.{Mode, operand_bytes}
use emulator.Operations.Branches.{Cond, bpl, branch_test}
use emulator.Instructions.{branch_instr, mode_of, branch_target, execute}
use emulator.Instructions.Sequel.{shape_fits, goes_on, execute-pc, execute_branch-pc}
use emulator.Table.{instruction_table}
use emulator.Table.Entry.{Row}
use emulator.Step.{find_row, latch_i, dispatch, instruction_body, step_instruction, advance}
use emulator.Step.Cases.{advance-instruction}
use emulator.Step.Decode.{dispatch_row-index, get_elem?-map}
use emulator.Step.Jam.{poll_interrupts-core}
use emulator.Disassembler.{
  InstructionInfo, info_of, instruction_info, disassemble, listing, relative_target,
}

-- A test holds at each row.
abbrev all_rows : (Row → Bool) → List Row → Bool
all_rows test [] = true
all_rows test (r ∷ rs) = test r && all_rows test rs

rows_fit : all_rows (λ r. shape_fits r.instr) instruction_table ≡ true
unfolding instruction_table operand_bytes
rows_fit = refl

first_of : (a b : Bool) → a && b ≡ true → a ≡ true
first_of a b h = ground arith

rest_of : (a b : Bool) → a && b ≡ true → b ≡ true
rest_of a b h = ground arith

all_rows_sound :
    (test : Row → Bool) (rows : List Row) (k : ℕ) (r : Row)
    → all_rows test rows ≡ true
    → get_elem? rows k ≡ some r
    → test r ≡ true
all_rows_sound test [] k r h e = ground arith
all_rows_sound test (x ∷ rows) zero r h e = ground (arith, first_of (test x) (all_rows test rows))
all_rows_sound test (x ∷ rows) (suc k) r h e = all_rows_sound test rows k r (rest_of (test x) _ h) e

branch_test-pc :
    (cond : Cond) (pc : ℕ) (r : Registers)
    → branch_test cond (record r { pc = pc }) ≡ branch_test cond r
unfolding branch_test
branch_test-pc bpl pc r = refl
branch_test-pc _ pc r = refl

module _ {H : Type 0} (variant : Variant) (c : Cpu FlatBus H) (r : Row) where
  abbrev peek : ℕ → ℕ
  peek = c.bus.memory

  -- The entry that the disassembler takes is that of the row that the core dispatches.
  disassemble-listing :
      find_row (c.bus.memory c.regs.pc) instruction_table ≡ some r
      → disassemble c.bus.memory c.regs.pc ≡ some (listing c.bus.memory c.regs.pc (info_of r))
  unfolding instruction_info disassemble
  disassemble-listing e =
      let at = sym (dispatch_row-index (c.bus.memory c.regs.pc)) ∙ e in
      ap
        (λ (o : Option InstructionInfo). elim o [
          | none ↦ none
          | some info ↦ some (listing c.bus.memory c.regs.pc info)
        ])
        (get_elem?-map info_of instruction_table (c.bus.memory c.regs.pc) at)

  row_fits :
      find_row (c.bus.memory c.regs.pc) instruction_table ≡ some r → shape_fits r.instr ≡ true
  row_fits e =
      all_rows_sound (λ r. shape_fits r.instr) instruction_table (c.bus.memory c.regs.pc) r rows_fit
        (sym (dispatch_row-index (c.bus.memory c.regs.pc)) ∙ e)

  abbrev fetched : Cpu FlatBus H
  fetched = (fetch (plain flat_bus variant) (latch_i c)).1

  body-regs :
      find_row (c.bus.memory c.regs.pc) instruction_table ≡ some r
      → (instruction_body (plain flat_bus variant) (latch_i c)).1.regs
        ≡ (execute (plain flat_bus variant) r.instr fetched).1.regs
  unfolding instruction_body read tick
  body-regs e = rw (e, dispatch) refl

  advance-regs :
      c.jammed ≡ false
      → c.pending_nmi ≡ false
      → c.pending_irq ≡ false
      → find_row (c.bus.memory c.regs.pc) instruction_table ≡ some r
      → (advance (plain flat_bus variant) c).regs
        ≡ (execute (plain flat_bus variant) r.instr fetched).1.regs
  unfolding step_instruction
  advance-regs j n i e =
      let body = (instruction_body (plain flat_bus variant) (latch_i c)).1 in
      let (_, polled) = poll_interrupts-core flat_bus variant body in
      rw (advance-instruction (plain flat_bus variant) c j n i) (polled ∙ body-regs e)

  fetched-pc : fetched.regs.pc ≡ u16 (c.regs.pc + 1)
  unfolding fetch
  fetched-pc = refl

  fetched-lt : fetched.regs.pc < 2 ^ 16
  fetched-lt = rw fetched-pc (omega arith)

  past : (n : ℕ) → u16 (fetched.regs.pc + n) ≡ u16 (c.regs.pc + 1 + n)
  past n = rw fetched-pc (omega arith)

  listing-next :
      (n : ℕ)
      → n ≡ u16 (c.regs.pc + 1 + operand_bytes (mode_of r.instr))
      → some (listing c.bus.memory c.regs.pc (info_of r))
        ≡ some (record { text = (listing c.bus.memory c.regs.pc (info_of r)).text; next = n })
  unfolding listing
  listing-next n e = rw e refl

  -- The disassembler's next address is where the core goes: on the flat bus, for a core that is not
  -- jammed and has no interrupt pending, after an instruction that is neither a branch nor sets the
  -- program counter, JAM included.
  pub disassemble-next :
      c.jammed ≡ false
      → c.pending_nmi ≡ false
      → c.pending_irq ≡ false
      → find_row (c.bus.memory c.regs.pc) instruction_table ≡ some r
      → goes_on r.instr ≡ true
      → (text : String) × (disassemble c.bus.memory c.regs.pc
          ≡ some (record { text = text; next = (advance (plain flat_bus variant) c).regs.pc }))
  disassemble-next j n i e g =
      let gone =
        ap Registers.pc (advance-regs j n i e)
        ∙ execute-pc flat_bus variant r.instr fetched fetched-lt (row_fits e) g
        ∙ past (operand_bytes (mode_of r.instr)) in
      (
        (listing c.bus.memory c.regs.pc (info_of r)).text,
        disassemble-listing e ∙ listing-next (advance (plain flat_bus variant) c).regs.pc gone,
      )

  branch_end :
      (cond : Cond)
      → let next = u16 (fetched.regs.pc + 1) in
        (if branch_test cond fetched.regs
          then branch_target next (fetch (plain flat_bus variant) fetched).0
          else next)
        ≡ (if branch_test cond c.regs
            then relative_target c.regs.pc (c.bus.memory (u16 (c.regs.pc + 1)))
            else u16 (c.regs.pc + 2))
  unfolding fetch read tick branch_target relative_target
  branch_end cond = rw (branch_test-pc cond (u16 (c.regs.pc + 1)) c.regs) (ground arith)

  branch_gone :
      (cond : Cond) (mode : Mode)
      → r.instr ≡ branch_instr cond mode
      → (execute (plain flat_bus variant) r.instr fetched).1.regs.pc ≡ (
          if branch_test cond c.regs
          then relative_target c.regs.pc (c.bus.memory (u16 (c.regs.pc + 1)))
          else u16 (c.regs.pc + 2))
  unfolding execute
  branch_gone cond mode b = rw b (execute_branch-pc flat_bus variant cond fetched ∙ branch_end cond)

  -- A branch goes where the disassembler says: on the flat bus, with no interrupt pending and the
  -- core not jammed, to the printed target when its condition holds, and to the next address when
  -- not.
  pub relative_target-taken :
      (cond : Cond) (mode : Mode)
      → c.jammed ≡ false
      → c.pending_nmi ≡ false
      → c.pending_irq ≡ false
      → find_row (c.bus.memory c.regs.pc) instruction_table ≡ some r
      → r.instr ≡ branch_instr cond mode
      → (advance (plain flat_bus variant) c).regs.pc ≡ (
          if branch_test cond c.regs
          then relative_target c.regs.pc (c.bus.memory (u16 (c.regs.pc + 1)))
          else u16 (c.regs.pc + 2))
  relative_target-taken cond mode j n i e b =
      ap Registers.pc (advance-regs j n i e) ∙ branch_gone cond mode b
