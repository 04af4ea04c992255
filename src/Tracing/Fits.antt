-- ===== src/Tracing/Fits.antt =====
-- The lines of include/mos6502/tracing.hpp and its buffer.
use emulator.Prelude.{
  false, refl, ℕ, ◌+◌, ◌^◌, ◌≤◌, ◌<◌, ◌≡◌, ◌-◌, ◌==◌, leb, u16, if◌then◌else◌, arith, some, inl,
  inr, Option-cases, List, [], ◌∷◌, ◌++◌, length, length-append, get_elem?,
}
use emulator.Registers.{pack}
use emulator.Bus.{BusLike}
use emulator.Cpu.{Cpu}
use emulator.Disassembler.{InstructionInfo, instruction_info}
use emulator.Disassembler.Lengths.{hex_byte-length, hex_word-length, listing-length}
use emulator.Text.{bytes}
use emulator.Text.Lengths.{decimal-length, spaces-length}
use emulator.Tracing.{TracingHooks, peek_instruction, peek_operands, text_of, trace_line, emit_line}

peek_operands-length :
    {B : Type 0} (bus : BusLike B) (pc opcode : ℕ) (info : InstructionInfo) (b : B)
    → get_elem? instruction_info opcode ≡ some info
    → length (bytes (peek_operands bus pc info b).0.text) ≤ 12
unfolding peek_operands
peek_operands-length bus pc opcode info b e =
    let (lo, b') = if leb 1 info.operand_bytes then bus.read b (u16 (pc + 1)) else (0, b) in
    let (hi, _) = if leb 2 info.operand_bytes then bus.read b' (u16 (pc + 2)) else (0, b') in
    listing-length (λ addr. if addr == u16 (pc + 1) then lo else hi) pc opcode info e

peek_instruction-length :
    {B : Type 0} (bus : BusLike B) (pc : ℕ) (b : B)
    → length (text_of (peek_instruction bus pc b).0) ≤ 12
unfolding peek_instruction
peek_instruction-length bus pc b =
    let (opcode, b') = bus.read b pc in
    elim (Option-cases (get_elem? instruction_info opcode)) [
      | inl e ↦ rw (peek_instruction, e) (omega arith)
      | inr (info, e) ↦ rw (peek_instruction, e) (peek_operands-length bus pc opcode info b' e)
    ]

trace_line-length :
    {B H : Type 0} (c : Cpu B H) (pc opcode : ℕ) (text : List ℕ)
    → c.cycles < 2 ^ 64
    → length text ≤ 12
    → length (trace_line c pc opcode text) ≤ 75
unfolding trace_line
trace_line-length c pc opcode text h k =
    let r = c.regs in
    simp length-append (
      omega (
        arith,
        hex_word-length pc,
        hex_byte-length opcode,
        k,
        spaces-length (12 - length text),
        hex_byte-length r.a,
        hex_byte-length r.x,
        hex_byte-length r.y,
        hex_byte-length (pack false r),
        hex_byte-length r.s,
        decimal-length c.cycles h,
      ))

-- No line that the tracing hooks write is cut off: whatever bus is read and whatever opcode, for a
-- counter of 64 bits, the text of the instruction has at most 12 characters, for a buffer of 48, and
-- the line at most 75, for a buffer of 128.
pub emit_line-fits :
    {B : Type 0} (bus : BusLike B) (c : Cpu B TracingHooks) (pc opcode : ℕ)
    → c.cycles < 2 ^ 64
    → let text = text_of (peek_instruction bus pc c.bus).0 in
      let line = trace_line c pc opcode text in
      ((emit_line bus c pc opcode).hooks.lines ≡ c.hooks.lines ++ line ∷ [])
      × (length text ≤ 12)
      × (length line ≤ 75)
unfolding emit_line
emit_line-fits bus c pc opcode h =
    let short = peek_instruction-length bus pc c.bus in
    (refl, short, trace_line-length c pc opcode (text_of (peek_instruction bus pc c.bus).0) h short)
