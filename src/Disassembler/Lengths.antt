-- ===== src/Disassembler/Lengths.antt =====
-- How long the texts of include/mos6502/disassembler.hpp are, beside their buffers.
use Prim.Native.String.{String}
use Prim.Native.String
use emulator.Prelude.{
  ℕ, ◌+◌, ◌/◌, ◌%◌, ◌≤◌, ◌≡◌, refl, arith, true, leb, length, get_elem?, all, all-get_elem?, Option,
  none, some, inl, inr, Option-cases,
}
use emulator.Text.{bytes}
use emulator.Text.Lengths.{bytes-append}
use emulator.Addressing.{Syntax}
use emulator.Table.{instruction_table}
use emulator.Disassembler.{
  InstructionInfo, instruction_info, hex_digits, hex_digit, hex_byte, hex_word, relative_target,
  operand_text, listing,
}

hex_digit-length : (n : ℕ) → length (bytes (hex_digit n)) ≤ 1
unfolding hex_digit
hex_digit-length n = elim (Option-cases (get_elem? hex_digits n)) [
  | inl e ↦ rw (hex_digit, e) (omega arith)
  | inr (s, e) ↦
      let short = all-get_elem? (λ s. leb (length (bytes s)) 1) hex_digits n s refl e in
      rw (hex_digit, e) (ground (arith, short))
]

pub hex_byte-length : (n : ℕ) → length (bytes (hex_byte n)) ≤ 2
unfolding hex_byte
hex_byte-length n = omega (
  arith,
  bytes-append (hex_digit (n / 16)) (hex_digit (n % 16)),
  hex_digit-length (n / 16),
  hex_digit-length (n % 16),
)

pub hex_word-length : (n : ℕ) → length (bytes (hex_word n)) ≤ 4
unfolding hex_word
hex_word-length n = omega (
  arith,
  bytes-append (hex_byte (n / 256)) (hex_byte (n % 256)),
  hex_byte-length (n / 256),
  hex_byte-length (n % 256),
)

-- A text between two others.
between :
    (s t u : String)
    → length (bytes (String.◌++◌ s (String.◌++◌ t u)))
      ≡ length (bytes s) + length (bytes t) + length (bytes u)
between s t u = omega (arith, bytes-append s (String.◌++◌ t u), bytes-append t u)

-- The length of an operand, none for `Implied`.
abbrev pub operand_length : Option String → ℕ
operand_length none = 0
operand_length (some s) = length (bytes s)

-- `char operand[24]` holds every operand, with its terminator.
pub operand_text-length :
    (shape : Syntax) (pc lo w : ℕ) → operand_length (operand_text shape pc lo w) ≤ 7
unfolding operand_text
operand_text-length Syntax.implied pc lo w = omega arith
operand_text-length Syntax.accumulator pc lo w = omega arith
operand_text-length Syntax.immediate pc lo w =
    omega (arith, bytes-append "#$" (hex_byte lo), hex_byte-length lo)
operand_text-length Syntax.zero_page pc lo w =
    omega (arith, bytes-append "$" (hex_byte lo), hex_byte-length lo)
operand_text-length Syntax.zero_page_x pc lo w =
    omega (arith, between "$" (hex_byte lo) ",X", hex_byte-length lo)
operand_text-length Syntax.zero_page_y pc lo w =
    omega (arith, between "$" (hex_byte lo) ",Y", hex_byte-length lo)
operand_text-length Syntax.absolute pc lo w =
    omega (arith, bytes-append "$" (hex_word w), hex_word-length w)
operand_text-length Syntax.absolute_x pc lo w =
    omega (arith, between "$" (hex_word w) ",X", hex_word-length w)
operand_text-length Syntax.absolute_y pc lo w =
    omega (arith, between "$" (hex_word w) ",Y", hex_word-length w)
operand_text-length Syntax.indirect pc lo w =
    omega (arith, between "($" (hex_word w) ")", hex_word-length w)
operand_text-length Syntax.indirect_x pc lo w =
    omega (arith, between "($" (hex_byte lo) ",X)", hex_byte-length lo)
operand_text-length Syntax.indirect_y pc lo w =
    omega (arith, between "($" (hex_byte lo) "),Y", hex_byte-length lo)
operand_text-length Syntax.relative pc lo w =
    let target = relative_target pc lo in
    omega (arith, bytes-append "$" (hex_word target), hex_word-length target)

-- The four letters of the longest mnemonic.
mnemonics_short : all (λ info. leb (length (bytes info.mnemonic)) 4) instruction_info ≡ true
unfolding instruction_info instruction_table
mnemonics_short = refl

line_length :
    (mnemonic : String) (operand : Option String)
    → length (bytes mnemonic) ≤ 4
    → operand_length operand ≤ 7
    → length (
        bytes
          (elim operand [ none ↦ mnemonic | some s ↦ String.◌++◌ mnemonic (String.◌++◌ " " s) ]))
      ≤ 12
line_length mnemonic none h k = omega (arith, h)
line_length mnemonic (some s) h k = omega (arith, between mnemonic " " s, h, k)

-- The text of every entry of the table, wherever it stands and whatever its operand bytes are.
pub listing-length :
    (peek : ℕ → ℕ) (pc opcode : ℕ) (info : InstructionInfo)
    → get_elem? instruction_info opcode ≡ some info
    → length (bytes (listing peek pc info).text) ≤ 12
unfolding listing
listing-length peek pc opcode info e =
    let short =
      all-get_elem? (λ info. leb (length (bytes info.mnemonic)) 4) instruction_info opcode info
        mnemonics_short e in
    line_length info.mnemonic _ (ground (arith, short)) (operand_text-length info.syntax pc _ _)
