-- ===== src/Bus/Bytes.antt =====
-- The flat bus of include/mos6502/bus.hpp as a bus of bytes.
use emulator.Prelude.{ℕ, ◌<◌, arith, ◌==◌, if_cases}
use emulator.Bus.{BusLaws}
use emulator.Bus.Flat.{FlatBus, store, flat_bus, read, write, tick, new}

-- Every cell of the memory is a byte.
abbrev pub Bytes : FlatBus → Type 0
Bytes b = (at : ℕ) → b.memory at < 256

pub store-lt :
    (memory : ℕ → ℕ) (addr value : ℕ)
    → value < 256
    → ((at : ℕ) → memory at < 256)
    → (at : ℕ) → store memory addr value at < 256
store-lt memory addr value v h at =
    if_cases (λ x. x < 256) (at == addr) value (memory at) (λ _. v) (λ _. h at)

unfoldable pub flat_bytes : BusLaws flat_bus
unfolding read write tick
flat_bytes = record {
  Holds = λ k b. Bytes b;
  read_lt = λ k b addr h. h addr;
  read_keeps = λ k b addr h. h;
  write_keeps = λ k b addr value v h. store-lt b.memory addr value v h;
}

pub new-Bytes : Bytes new
unfolding new
new-Bytes at = omega arith
