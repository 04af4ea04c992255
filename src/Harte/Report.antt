-- ===== src/Harte/Report.antt =====
-- What tools/run_harte.cpp prints, as bytes. The formats of `printf` are written out; the buffer of
-- 512 bytes that a line is built in is longer than any of them.
use Prim.Native.String.{String}
use emulator.Prelude.{ℕ, ◌+◌, true, List, [], ◌∷◌, ◌++◌, ◌==◌, bit_and, length, if◌then◌else◌}
use emulator.Registers.{pack}
use emulator.Bus.Recording.{CycleRecord, TestBus}
use emulator.Cpu.{Cpu}
use emulator.Disassembler.{hex_byte, hex_word}
use emulator.Text.{bytes, decimal}
use emulator.Harte.Case.{TestCase}
use emulator.Harte.Judge.{status_mask, same_entry}

-- `c_str` as `%s` prints it: the bytes up to the first zero.
unfoldable pub c_string : List ℕ → List ℕ
c_string [] = []
c_string (c ∷ text) = let rest = c_string text in if c == 0 then [] else c ∷ rest

abbrev byte_text : String → ℕ → List ℕ
byte_text label n = bytes label ++ bytes (hex_byte n)

-- One of the two lines with the registers.
unfoldable pub register_line : String → ℕ → ℕ → ℕ → ℕ → ℕ → ℕ → ℕ → List ℕ
unfolding hex_byte hex_word decimal
register_line label pc a x y s p cycles =
    bytes label
    ++ bytes (hex_word pc)
    ++ byte_text " A:" a
    ++ byte_text " X:" x
    ++ byte_text " Y:" y
    ++ byte_text " S:" s
    ++ byte_text " P:" p
    ++ bytes "  cycles:"
    ++ decimal cycles
    ++ bytes "\n"

abbrev access_text : CycleRecord → List ℕ
access_text entry =
    (if entry.is_write then bytes "write" else bytes "read ")
    ++ bytes " $"
    ++ bytes (hex_word entry.addr)
    ++ byte_text "=" entry.value

-- The lines of the cycles that differ, as far as both lists go; `k` counts them.
unfoldable pub cycle_lines : ℕ → List CycleRecord → List CycleRecord → List ℕ
unfolding decimal hex_byte hex_word
cycle_lines k [] cycles = []
cycle_lines k (got ∷ log) [] = []
cycle_lines k (got ∷ log) (want ∷ cycles) =
    let rest = cycle_lines (k + 1) log cycles in
    if same_entry got want
    then rest
    else bytes "    cycle "
      ++ decimal k
      ++ bytes ": got "
      ++ access_text got
      ++ bytes ", want "
      ++ access_text want
      ++ bytes "\n"
      ++ rest

unfoldable pub describe_mismatch : TestCase → Cpu TestBus (Unit {0}) → List ℕ
unfolding pack register_line cycle_lines
describe_mismatch test cpu =
    let r = cpu.regs in
    let final = test.final in
    register_line "    got  PC:" r.pc r.a r.x r.y r.s (bit_and (pack true r) status_mask)
      (length cpu.bus.log)
    ++ register_line "    want PC:" final.pc final.a final.x final.y final.s
        (bit_and final.p status_mask) (length test.cycles)
    ++ cycle_lines 0 cpu.bus.log test.cycles

-- What is printed of a case that fails.
unfoldable pub fail_text : TestCase → Cpu TestBus (Unit {0}) → List ℕ
unfolding c_string describe_mismatch
fail_text test cpu =
    bytes "  FAIL " ++ c_string test.name ++ bytes "\n" ++ c_string (describe_mismatch test cpu)
