-- ===== src/Lib.antt =====
-- A model of the 6502 emulator under include/mos6502 and of its tools, and what is proved of them.
--
-- The program is a header-only core, the class template `Cpu` of include/mos6502/cpu.hpp, over
-- three policies: a bus, a chip variant and hooks. An instruction is a shape
-- (include/mos6502/instructions.hpp) that composes an addressing mode
-- (include/mos6502/addressing.hpp) with an operation (include/mos6502/operations.hpp); one table,
-- include/mos6502/instruction_table.def, names the 256 combinations, and the dispatch switch
-- expands it. No cycle count is looked up: the counter goes up with each bus access.
--
--   Prelude        tests, lists, bits and machine words on the native numbers: `u8`, `u16`, `u32`
--                  and `u64` are the wrap-around of the code's types
--   Text           texts as bytes, with the formats `%d`, `%-12s` and `%5d`
--   Types          types.hpp: vectors, access kinds, the page test
--   Registers      registers.hpp and `Cpu::setZN`; a byte is a number below 256 (Cpu/Invariant)
--   Variant        variants.hpp: the flags of a variant, so that theorems hold for each setting
--   Bus            bus.hpp: `BusLike` is a record of operations, `BusLaws` what a core relies on;
--                  Bus/Flat is `FlatBus`, Bus/Recording is `TestBus` of tools/run_harte.cpp
--   Cpu            cpu.hpp and hooks.hpp: the state of a core and the primitives of the policies.
--                  A member function is a function from the core to a result and the core; a hook
--                  is handed the core and gives it back
--   Addressing     addressing.hpp: `effective` and `resolve` of each mode
--   Operations     operations.hpp, a file for each kind of operation
--   Instructions   instructions.hpp: `execute` of the eight shapes
--   Table          instruction_table.def in four quarters, and the counts of tests/test_cpu.cpp
--   Step           cpu.hpp: reset, the dispatch, the poll, `step` and `run`
--   Isa            the instruction set as a program sees it, without cycles, dummy accesses and
--                  polls: a description, not code, that the core is held against. It shares with the
--                  model of the code the table and the functions from registers to registers of
--                  the reads, the writes, the shifts and the branches
--   Disassembler   disassembler.hpp: the listing of one instruction and the next address; the formats
--                  `%02X` and `%04X` of the standard library are written out
--   Tracing        tracing.hpp: the hooks that write a line for each instruction
--   Json           tools/json.hpp: the cursor is a parser of the bytes that remain, an exception is a
--                  result with its message and offset
--   Harte          tools/run_harte.cpp: Harte/Case parses a test case, Harte/Judge loads, steps and
--                  compares it, Harte/Report is what is printed of it, Harte/File runs a file and
--                  Harte/Main is `main`
--   Klaus          tools/run_klaus.cpp: the image, the loop that looks for a branch to itself, `main`
--   Benchmark      tools/benchmark.cpp: the workload and its loop of steps
--   Examples       states on which the theorems are applied
--
-- The files below a component hold its proofs and are named for what they are about:
-- Operations/Alu/Decimal for decimal addition, Instructions/Timing for the cycle counts that an
-- instruction is compared with, Step/Jam for the wedged core.
--
-- The loop of `run` is on fuel, one unit for each step; as a step takes a cycle at least, one unit
-- more than the budget has cycles is enough. The loops of `object` and `array` are on fuel as well,
-- one unit more than there are bytes left, as each round takes a byte at least. The loop of
-- tools/run_klaus.cpp counts its instructions down. Every other function is structural. `history` is
-- the calls that the owner of a core makes, one after the other: resets, steps and changes of the two
-- interrupt lines. The bus is a parameter of the core; the theorems that speak of memory take the flat
-- bus or the logging bus, and those about ranges any bus with laws that a single access keeps. The
-- theorems of the core are about the empty hooks, `plain`, those of Tracing about the tracing hooks.
-- `view` of a core on the flat bus is what its program sees: registers, memory and jam.
--
-- `static_cast<u8>` and the like are a remainder. The `int` subtractions of decimal mode are their
-- 32-bit patterns (`sub_int`). `FlatBus::operator[]` is the field `memory` itself.
--
-- What the tools ask of the system is a parameter: the contents of a file, directories, the
-- environment, the sort of paths, `atoi` and the `strtoul` of the arguments of tools/run_klaus.cpp.
-- `strtoll` and the formats of `printf` are written out. Texts are lists of bytes, and the buffers of
-- `snprintf` have no end in the model.
--
-- Not modelled: what tools/run_harte.cpp printed before an exception ends it, the wrap-around of its
-- `int` counters, the clock and the figures of tools/benchmark.cpp, the test cases themselves (tests),
-- and the build files. They print, measure time, or only call the core.
pub mod Prelude
pub mod Text
pub mod Types
pub mod Registers
pub mod Variant
pub mod Bus
pub mod Cpu
pub mod Addressing
pub mod Operations
pub mod Instructions
pub mod Table
pub mod Step
pub mod Isa
pub mod Disassembler
pub mod Tracing
pub mod Json
pub mod Harte
pub mod Klaus
pub mod Benchmark
pub mod Examples
