-- ===== src/Klaus.antt =====
-- tools/run_klaus.cpp: the runner of an image that ends by branching to itself. The image is what the
-- system gave for the file, and the two addresses are what `strtoul` makes of the arguments.
pub mod Boot
pub mod Hunt
pub mod Traps
use emulator.Prelude.{
  ℕ, zero, suc, Bool, true, false, Option, none, some, List, [], ◌∷◌, ◌++◌, ◌==◌, if◌then◌else◌,
  u16, take, length,
}
use emulator.Registers.{Registers, pack}
use emulator.Variant.{nmos6502}
use emulator.Bus.Flat.{FlatBus, flat_bus, load}
use emulator.Bus.Flat
use emulator.Cpu.{Cpu}
use emulator.Cpu
use emulator.Cpu.Laws.{plain}
use emulator.Disassembler.{hex_byte, hex_word}
use emulator.Text.{bytes, decimal}
use emulator.Step.{advance, reset}

abbrev pub Core : Type 0
Core = Cpu FlatBus (Unit {0})

-- The ways in which the loop ends.
pub data Verdict : Type 0 where
  passed : (pc cycles : ℕ) → Verdict
  trapped : (pc expected : ℕ) → Registers → Verdict
  jammed : (pc : ℕ) → Verdict
  no_trap : (last : ℕ) → Verdict

-- `cpu.step()` with the default variant and hooks.
unfoldable pub next : Core → Core
unfolding advance
next c = advance (plain flat_bus nmos6502) c

-- What is said of a trap in the core that was reached.
unfoldable pub at_trap : ℕ → ℕ → Core → Verdict
at_trap success pc c = if pc == success then passed pc c.cycles else trapped pc success c.regs

-- The loop, for a number of instructions.
unfoldable pub hunt : ℕ → ℕ → Core → Verdict
unfolding at_trap next
hunt success zero c = no_trap c.regs.pc
hunt success (suc limit) c =
    let c' = next c in
    elim (c'.regs.pc == c.regs.pc) [
      | true ↦ at_trap success c.regs.pc c'
      | false ↦ elim c'.jammed [ true ↦ jammed c.regs.pc | false ↦ hunt success limit c' ]
    ]

abbrev pub instruction_limit : ℕ
instruction_limit = 500000000

-- The core on the image, which stands in the memory as far as 64 KiB go.
unfoldable pub boot : ℕ → List ℕ → Core
unfolding load reset Flat.new Cpu.new
boot start_pc image =
    let c =
      reset (plain flat_bus nmos6502) (Cpu.new (load 0x0000 (take 65536 image) Flat.new) tt) in
    record c { regs = record c.regs { pc = start_pc } }

unfoldable pub verdict_text : Verdict → List ℕ
unfolding hex_byte hex_word decimal pack
verdict_text (passed pc cycles) =
    bytes "PASS - trapped at success address $"
    ++ bytes (hex_word pc)
    ++ bytes " after "
    ++ decimal cycles
    ++ bytes " cycles\n"
verdict_text (trapped pc expected r) =
    bytes "FAIL - trapped at $"
    ++ bytes (hex_word pc)
    ++ bytes " (expected $"
    ++ bytes (hex_word expected)
    ++ bytes ")\n       A:"
    ++ bytes (hex_byte r.a)
    ++ bytes " X:"
    ++ bytes (hex_byte r.x)
    ++ bytes " Y:"
    ++ bytes (hex_byte r.y)
    ++ bytes " P:"
    ++ bytes (hex_byte (pack false r))
    ++ bytes " SP:"
    ++ bytes (hex_byte r.s)
    ++ bytes "\n"
verdict_text (jammed pc) = bytes "FAIL - jammed at $" ++ bytes (hex_word pc) ++ bytes "\n"
verdict_text (no_trap last) =
    bytes "FAIL - no trap reached; last PC $" ++ bytes (hex_word last) ++ bytes "\n"

unfoldable pub exit_code : Verdict → ℕ
exit_code (passed pc cycles) = 0
exit_code (trapped pc expected r) = 1
exit_code (jammed pc) = 1
exit_code (no_trap last) = 1

-- The arguments behind the program's name: a path, and the two addresses.
pub data Arguments : Type 0 where
  missing : Arguments
  given : (image : List ℕ) (start_pc success_pc : Option ℕ) → Arguments

-- `static_cast<u16>`, or the default.
unfoldable pub address_or : ℕ → Option ℕ → ℕ
address_or default none = default
address_or default (some n) = u16 n

-- A run of the program: what is printed on the two streams, and the exit code.
pub record Run : Type 0 where
  pub out : List ℕ
  pub error : List ℕ
  pub code : ℕ

-- `program` is `argv[0]`, and `read_file` what a file holds, or nothing where it cannot be opened.
unfoldable pub main : List ℕ → (List ℕ → Option (List ℕ)) → Arguments → Run
unfolding hunt boot verdict_text exit_code address_or decimal
main program read_file missing = record {
  out = [];
  error = bytes "usage: " ++ program ++ bytes " <image.bin> [start_pc] [success_pc]\n";
  code = 2;
}
main program read_file (given path start_pc success_pc) = elim (read_file path) [
  | none ↦ record { out = []; error = bytes "cannot open " ++ path ++ bytes "\n"; code = 2 }
  | some image ↦
      let verdict =
        hunt (address_or 0x3469 success_pc) instruction_limit
          (boot (address_or 0x0400 start_pc) image) in
      record {
        out =
            bytes "loaded "
            ++ decimal (length (take 65536 image))
            ++ bytes " bytes from "
            ++ path
            ++ bytes "\n"
            ++ verdict_text verdict;
        error = [];
        code = exit_code verdict;
      }
]
