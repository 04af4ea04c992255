-- ===== src/Benchmark.antt =====
-- tools/benchmark.cpp: the workload. The clock and the figures that are printed are left out.
pub mod Loop
use emulator.Prelude.{ℕ, zero, suc, List, [], ◌∷◌}
use emulator.Types.{reset_vector}
use emulator.Variant.{nmos6502}
use emulator.Bus.Flat.{FlatBus, flat_bus, load, set_vector}
use emulator.Bus.Flat
use emulator.Cpu.{Cpu}
use emulator.Cpu
use emulator.Cpu.Laws.{plain}
use emulator.Step.{advance, reset}

abbrev pub program : List ℕ
program =
    0xa9 ∷ 0x00 ∷ 0xa2 ∷ 0x00 ∷ 0xa0 ∷ 0x00 ∷ 0x18 ∷ 0x69 ∷ 0x01 ∷ 0x85 ∷ 0x10 ∷ 0xe6 ∷ 0x11 ∷ 0xbd
    ∷ 0x00 ∷ 0x02 ∷ 0xe8 ∷ 0xc8 ∷ 0x4c ∷ 0x06 ∷ 0x04 ∷ []

-- The bus with the program and the reset vector.
unfoldable pub loaded : FlatBus
unfolding load set_vector Flat.new
loaded = set_vector reset_vector 0x0400 (load 0x0400 program Flat.new)

unfoldable pub ready : Cpu FlatBus (Unit {0})
unfolding loaded Cpu.new reset
ready = reset (plain flat_bus nmos6502) (Cpu.new loaded tt)

-- The timed loop.
unfoldable pub step_all : ℕ → Cpu FlatBus (Unit {0}) → Cpu FlatBus (Unit {0})
unfolding advance
step_all zero c = c
step_all (suc k) c = step_all k (advance (plain flat_bus nmos6502) c)

abbrev pub instructions : ℕ
instructions = 200000000
