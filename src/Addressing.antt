-- ===== src/Addressing.antt =====
-- include/mos6502/addressing.hpp: where an instruction finds its operand. Each mode issues its own
-- bus cycles, in order. A mode that has `effective` is an `OperandMode`; one that has `resolve` too
-- is an `IndexedMode`, so that an instruction shape takes only the modes that the template compiles
-- with.
pub mod Invariant
use emulator.Prelude.{ℕ, ◌+◌, Bool, true, false, u8, u16, same_page}
use emulator.Types.{Access, reading, writing, modifying, crosses_page}
use emulator.Registers.{Registers}
use emulator.Cpu.{
  Cpu, Policies, M, ◌>>=◌, ◌>>◌, pure, get_regs, set_pc, read, read_if, fetch, fetch_word,
  read_zero_page_word,
}

pub data IndexedMode : Type 0 where
  absolute_x absolute_y indirect_y : IndexedMode

pub data OperandMode : Type 0 where
  immediate zero_page zero_page_x zero_page_y absolute indirect_x : OperandMode
  indexed : IndexedMode → OperandMode

pub data Mode : Type 0 where
  implied accumulator indirect relative : Mode
  operand : OperandMode → Mode

-- `Syntax`, the operand shape that the disassembler prints.
pub data Syntax : Type 0 where
  implied accumulator immediate zero_page zero_page_x zero_page_y absolute absolute_x absolute_y
        indirect indirect_x indirect_y relative :
      Syntax

-- The constant `syntax` of each mode.
unfoldable pub syntax : Mode → Syntax
syntax Mode.implied = Syntax.implied
syntax Mode.accumulator = Syntax.accumulator
syntax Mode.indirect = Syntax.indirect
syntax Mode.relative = Syntax.relative
syntax (operand OperandMode.immediate) = Syntax.immediate
syntax (operand OperandMode.zero_page) = Syntax.zero_page
syntax (operand OperandMode.zero_page_x) = Syntax.zero_page_x
syntax (operand OperandMode.zero_page_y) = Syntax.zero_page_y
syntax (operand OperandMode.absolute) = Syntax.absolute
syntax (operand OperandMode.indirect_x) = Syntax.indirect_x
syntax (operand (indexed IndexedMode.absolute_x)) = Syntax.absolute_x
syntax (operand (indexed IndexedMode.absolute_y)) = Syntax.absolute_y
syntax (operand (indexed IndexedMode.indirect_y)) = Syntax.indirect_y

-- The constant `operandBytes` of each mode.
unfoldable pub operand_bytes : Mode → ℕ
operand_bytes Mode.implied = 0
operand_bytes Mode.accumulator = 0
operand_bytes Mode.indirect = 2
operand_bytes Mode.relative = 1
operand_bytes (operand OperandMode.immediate) = 1
operand_bytes (operand OperandMode.zero_page) = 1
operand_bytes (operand OperandMode.zero_page_x) = 1
operand_bytes (operand OperandMode.zero_page_y) = 1
operand_bytes (operand OperandMode.absolute) = 2
operand_bytes (operand OperandMode.indirect_x) = 1
operand_bytes (operand (indexed IndexedMode.absolute_x)) = 2
operand_bytes (operand (indexed IndexedMode.absolute_y)) = 2
operand_bytes (operand (indexed IndexedMode.indirect_y)) = 1

-- An indexed resolution, before and after indexing.
pub record Effective : Type 0 where
  pub base : ℕ
  pub addr : ℕ

-- The word that the index is added to.
module _ {B H : Type 0} (p : Policies B H) where
  unfoldable pub index_base : IndexedMode → M B H ℕ
  unfolding fetch_word fetch read_zero_page_word
  index_base IndexedMode.absolute_x = fetch_word p
  index_base IndexedMode.absolute_y = fetch_word p
  index_base IndexedMode.indirect_y = do zp ← fetch p; read_zero_page_word p zp

-- `Index::get`, with `regs.y` of `(zp),Y`.
unfoldable pub index_of : IndexedMode → Registers → ℕ
index_of IndexedMode.absolute_x r = r.x
index_of IndexedMode.absolute_y r = r.y
index_of IndexedMode.indirect_y r = r.y

module _ {B H : Type 0} (p : Policies B H) where
  -- The dummy read of the address whose high byte is not yet corrected: a read pays it only across a
  -- page, a write always.
  unfoldable pub fix_up : Access → ℕ → ℕ → M B H (Unit {0})
  unfolding read_if
  fix_up reading base addr = read_if p (crosses_page base addr) (same_page base addr)
  fix_up _ base addr = read_if p true (same_page base addr)

  unfoldable pub resolve : Access → IndexedMode → M B H Effective
  unfolding index_base index_of fix_up
  resolve access mode = do
    base ← index_base p mode
    r ← get_regs
    let addr = u16 (base + index_of mode r)
    fix_up access base addr
    pure (record { base = base; addr = addr })

  unfoldable pub effective : Access → OperandMode → M B H ℕ
  unfolding resolve fetch fetch_word read read_zero_page_word
  effective access OperandMode.immediate = do r ← get_regs; set_pc (u16 (r.pc + 1)); pure r.pc
  effective access OperandMode.zero_page = fetch p
  effective access OperandMode.zero_page_x = do
    base ← fetch p
    read p base
    r ← get_regs
    pure (u8 (base + r.x))
  effective access OperandMode.zero_page_y = do
    base ← fetch p
    read p base
    r ← get_regs
    pure (u8 (base + r.y))
  effective access OperandMode.absolute = fetch_word p
  effective access OperandMode.indirect_x = do
    zp ← fetch p
    read p zp
    r ← get_regs
    read_zero_page_word p (u8 (zp + r.x))
  effective access (indexed mode) = do e ← resolve access mode; pure e.addr
