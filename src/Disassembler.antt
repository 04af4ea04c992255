-- ===== src/Disassembler.antt =====
-- include/mos6502/disassembler.hpp: the text of one instruction, and where the next one begins.
pub mod Agreement
pub mod Lengths
use Prim.Native.String.{String}
use Prim.Native.String
use emulator.Prelude.{
  ℕ, ◌+◌, ◌-◌, ◌*◌, ◌/◌, ◌%◌, ◌^◌, Option, none, some, List, [], ◌∷◌, map, get_elem?, u16, word,
  ltb, leb, ◌>>>◌, if◌then◌else◌,
}
use emulator.Addressing.{Mode, Syntax, syntax, operand_bytes}
use emulator.Instructions.{mode_of}
use emulator.Table.{instruction_table}
use emulator.Table.Entry.{Row}

pub record InstructionInfo : Type 0 where
  pub mnemonic : String
  pub syntax : Syntax
  pub operand_bytes : ℕ

-- `InstructionInfo{mnemonic, mode::addressing::syntax, mode::addressing::operandBytes}`.
abbrev pub info_of : Row → InstructionInfo
info_of r = record {
  mnemonic = r.mnemonic;
  syntax = syntax (mode_of r.instr);
  operand_bytes = operand_bytes (mode_of r.instr);
}

-- `kInstructionInfo`.
unfoldable pub instruction_info : List InstructionInfo
instruction_info = map info_of instruction_table

-- `none` stands for an index outside the array, which a `u8` is not.
unfoldable pub instruction_length : ℕ → Option ℕ
instruction_length opcode = elim (get_elem? instruction_info opcode) [
  | none ↦ none
  | some info ↦ some (1 + info.operand_bytes)
]

-- The upper-case digits of `%X`.
abbrev pub hex_digits : List String
hex_digits =
    "0" ∷ "1" ∷ "2" ∷ "3" ∷ "4" ∷ "5" ∷ "6" ∷ "7" ∷ "8" ∷ "9" ∷ "A" ∷ "B" ∷ "C" ∷ "D" ∷ "E" ∷ "F"
    ∷ []

unfoldable pub hex_digit : ℕ → String
hex_digit n = elim (get_elem? hex_digits n) [ none ↦ "" | some s ↦ s ]

-- `%02X` of a byte and `%04X` of a word.
unfoldable pub hex_byte : ℕ → String
unfolding hex_digit
hex_byte n = String.◌++◌ (hex_digit (n / 16)) (hex_digit (n % 16))

unfoldable pub hex_word : ℕ → String
unfolding hex_byte
hex_word n = String.◌++◌ (hex_byte (n / 256)) (hex_byte (n % 256))

-- `static_cast<u16>(pc + 2 + static_cast<i8>(lo))`.
unfoldable pub relative_target : ℕ → ℕ → ℕ
relative_target pc lo = u16 (if ltb lo 0x80 then pc + 2 + lo else pc + 2 + lo + 2 ^ 16 - 2 ^ 8)

-- The operand as it is printed; `Implied` prints none.
unfoldable pub operand_text : Syntax → ℕ → ℕ → ℕ → Option String
unfolding hex_byte hex_word relative_target
operand_text Syntax.implied pc lo word = none
operand_text Syntax.accumulator pc lo word = some "A"
operand_text Syntax.immediate pc lo word = some (String.◌++◌ "#$" (hex_byte lo))
operand_text Syntax.zero_page pc lo word = some (String.◌++◌ "$" (hex_byte lo))
operand_text Syntax.zero_page_x pc lo word = some (String.◌++◌ "$" (String.◌++◌ (hex_byte lo) ",X"))
operand_text Syntax.zero_page_y pc lo word = some (String.◌++◌ "$" (String.◌++◌ (hex_byte lo) ",Y"))
operand_text Syntax.absolute pc lo word = some (String.◌++◌ "$" (hex_word word))
operand_text Syntax.absolute_x pc lo word =
    some (String.◌++◌ "$" (String.◌++◌ (hex_word word) ",X"))
operand_text Syntax.absolute_y pc lo word =
    some (String.◌++◌ "$" (String.◌++◌ (hex_word word) ",Y"))
operand_text Syntax.indirect pc lo word = some (String.◌++◌ "($" (String.◌++◌ (hex_word word) ")"))
operand_text Syntax.indirect_x pc lo word =
    some (String.◌++◌ "($" (String.◌++◌ (hex_byte lo) ",X)"))
operand_text Syntax.indirect_y pc lo word =
    some (String.◌++◌ "($" (String.◌++◌ (hex_byte lo) "),Y"))
operand_text Syntax.relative pc lo word = some (String.◌++◌ "$" (hex_word (relative_target pc lo)))

-- The two results of `disassemble`: the text, and what `next` receives.
pub record Listing : Type 0 where
  pub text : String
  pub next : ℕ

-- The rest of `disassemble`, for the opcode's entry.
unfoldable pub listing : (ℕ → ℕ) → ℕ → InstructionInfo → Listing
unfolding operand_text
listing peek pc info =
    let lo = if leb 1 info.operand_bytes then peek (u16 (pc + 1)) else 0 in
    let hi = if leb 2 info.operand_bytes then peek (u16 (pc + 2)) else 0 in
    record {
      text = elim (operand_text info.syntax pc lo (word lo hi)) [
        | none ↦ info.mnemonic
        | some operand ↦ String.◌++◌ info.mnemonic (String.◌++◌ " " operand)
      ];
      next = u16 (pc + 1 + info.operand_bytes);
    }

unfoldable pub disassemble : (ℕ → ℕ) → ℕ → Option Listing
unfolding listing instruction_info
disassemble peek pc = elim (get_elem? instruction_info (peek pc)) [
  | none ↦ none
  | some info ↦ some (listing peek pc info)
]
