-- ===== src/Tracing.antt =====
-- include/mos6502/tracing.hpp: the hooks that write one line for each instruction. The line is built
-- in a buffer of 128 bytes, which is longer than any of them.
pub mod Blind
pub mod Fits
pub mod Lines
pub mod Transparent
pub mod Whole
use emulator.Prelude.{
  ℕ, ◌+◌, ◌-◌, Bool, true, false, Option, none, some, List, [], ◌∷◌, ◌++◌, ◌==◌, leb, length,
  get_elem?, if◌then◌else◌, u16,
}
use emulator.Registers.{pack}
use emulator.Variant.{Variant}
use emulator.Bus.{BusLike}
use emulator.Cpu.{Cpu, Hooks, Policies, null_hooks}
use emulator.Disassembler.{InstructionInfo, Listing, instruction_info, listing, hex_byte, hex_word}
use emulator.Text.{bytes, decimal, pad_right}

pub record TracingHooks : Type 0 where
  pub lines : List (List ℕ)
  pub enabled : Bool

-- The disassembly through the bus's own `read`: the opcode first, then the operand bytes that its
-- mode has. Each read leaves the bus to the next.
unfoldable pub peek_operands : {B : Type 0} → BusLike B → ℕ → InstructionInfo → B → Listing × B
unfolding listing
peek_operands bus pc info b =
    let (lo, b') = if leb 1 info.operand_bytes then bus.read b (u16 (pc + 1)) else (0, b) in
    let (hi, b'') = if leb 2 info.operand_bytes then bus.read b' (u16 (pc + 2)) else (0, b') in
    (listing (λ addr. if addr == u16 (pc + 1) then lo else hi) pc info, b'')

unfoldable pub peek_instruction : {B : Type 0} → BusLike B → ℕ → B → Option Listing × B
unfolding instruction_info peek_operands
peek_instruction bus pc b =
    let (opcode, b') = bus.read b pc in
    elim (get_elem? instruction_info opcode) [
      | none ↦ (none, b')
      | some info ↦ let (text, b'') = peek_operands bus pc info b' in (some text, b'')
    ]

-- The text of a listing; no byte is without one.
abbrev pub text_of : Option Listing → List ℕ
text_of none = []
text_of (some l) = bytes l.text

unfoldable pub trace_line : {B H : Type 0} → Cpu B H → ℕ → ℕ → List ℕ → List ℕ
unfolding hex_byte hex_word pad_right pack decimal
trace_line c pc opcode text =
    bytes (hex_word pc)
    ++ bytes "  "
    ++ bytes (hex_byte opcode)
    ++ bytes "  "
    ++ pad_right 12 text
    ++ bytes " A:"
    ++ bytes (hex_byte c.regs.a)
    ++ bytes " X:"
    ++ bytes (hex_byte c.regs.x)
    ++ bytes " Y:"
    ++ bytes (hex_byte c.regs.y)
    ++ bytes " P:"
    ++ bytes (hex_byte (pack false c.regs))
    ++ bytes " SP:"
    ++ bytes (hex_byte c.regs.s)
    ++ bytes " CYC:"
    ++ decimal c.cycles

module _ {B : Type 0} (bus : BusLike B) where
  -- Behind the guard of `onInstruction`.
  unfoldable pub emit_line : Cpu B TracingHooks → ℕ → ℕ → Cpu B TracingHooks
  unfolding peek_instruction trace_line
  emit_line c pc opcode =
      let (found, b) = peek_instruction bus pc c.bus in
      let line = trace_line c pc opcode (text_of found) in
      record c { bus = b; hooks = record c.hooks { lines = c.hooks.lines ++ line ∷ [] } }

  unfoldable pub on_instruction : Cpu B TracingHooks → ℕ → ℕ → Cpu B TracingHooks
  unfolding emit_line
  on_instruction c pc opcode = if c.hooks.enabled then emit_line c pc opcode else c

  -- The other hooks do nothing.
  abbrev pub tracing_hooks : Hooks B TracingHooks
  tracing_hooks = record null_hooks { on_instruction = on_instruction }

  -- A core that is traced.
  abbrev pub traced : Variant → Policies B TracingHooks
  traced variant = record { bus = bus; variant = variant; hooks = tracing_hooks }
