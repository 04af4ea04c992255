-- ===== src/Step/Lockstep.antt =====
-- The cycles that the core of include/mos6502/cpu.hpp counts, beside the accesses that the bus of
-- tools/run_harte.cpp logs and the ticks that the flat bus counts.
use emulator.Prelude.{ℕ, ◌+◌, ◌<◌, ◌≡◌, arith, List, [], ◌∷◌, ◌++◌, length, length-append, u64}
use emulator.Variant.{Variant}
use emulator.Bus.{BusLaws}
use emulator.Bus.Bytes.{store-lt}
use emulator.Bus.Recording.{TestBus, CycleRecord, test_bus}
use emulator.Bus.Recording
use emulator.Cpu.{Cpu}
use emulator.Cpu.Laws.{plain}
use emulator.Cpu.Invariant.{InRange, Inv}
use emulator.Step.{Call, history}
use emulator.Step.Invariant.{history-Inv}

-- One record more.
one_more :
    (start k : ℕ) (log : List CycleRecord) (e : CycleRecord)
    → k ≡ u64 (start + length log)
    → u64 (k + 1) ≡ u64 (start + length (log ++ e ∷ []))
one_more start k log e h = omega (arith, h, length-append log (e ∷ []))

-- The counter is the number of records in the log, from some start on; the memory holds bytes.
unfoldable logged : ℕ → BusLaws test_bus
unfolding Recording.read Recording.write Recording.tick
logged start = record {
  Holds = λ k b. ((at : ℕ) → b.memory at < 256) × (k ≡ u64 (start + length b.log));
  read_lt = λ k b addr (small, h). small addr;
  read_keeps = λ k b addr (small, h). (small, one_more start k b.log _ h);
  write_keeps = λ k b addr value v (small, h).
      (store-lt b.memory addr value v small, one_more start k b.log _ h);
}

-- Every cycle that a core counts is one access on its bus, and every access one cycle: through any
-- history of resets, steps and changes of the interrupt lines, on either variant, the counter moves
-- with the number of logged accesses, modulo 2^64, whatever opcodes run and whether the core is jammed
-- or not. At the start the registers and the memory are within their widths.
pub history-lockstep :
    {H : Type 0} (variant : Variant) (start : ℕ) (ks : List Call) (c : Cpu TestBus H)
    → InRange c.regs
    → ((at : ℕ) → c.bus.memory at < 256)
    → c.cycles ≡ u64 (start + length c.bus.log)
    → let c' = history (plain test_bus variant) ks c in c'.cycles ≡ u64 (start + length c'.bus.log)
unfolding logged
history-lockstep variant start ks c regs small h =
    let before : Inv (logged start) c = record {
      regs = regs;
      cycles = omega (arith, h);
      account = (small, h);
    } in
    (history-Inv (logged start) variant ks c before).account.1
