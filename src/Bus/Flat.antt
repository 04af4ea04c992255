-- ===== src/Bus/Flat.antt =====
-- `FlatBus` of include/mos6502/bus.hpp: 64 KiB of memory and a count of its ticks.
pub mod Loading
use emulator.Prelude.{ℕ, ◌+◌, List, [], ◌∷◌, bit_and, u8, u16, u64, ◌>>>◌, ◌==◌, if◌then◌else◌}
use emulator.Bus.{BusLike}

pub record FlatBus : Type 0 where
  pub memory : ℕ → ℕ
  pub cycles : ℕ

-- The assignment `memory_[addr] = value`.
abbrev pub store : (ℕ → ℕ) → ℕ → ℕ → ℕ → ℕ
store memory addr value at = if at == addr then value else memory at

-- The constructor.
unfoldable pub new : FlatBus
new = record { memory = λ _. 0; cycles = 0 }

unfoldable pub read : FlatBus → ℕ → ℕ × FlatBus
read b addr = (b.memory addr, b)

unfoldable pub write : FlatBus → ℕ → ℕ → FlatBus
write b addr value = record b { memory = store b.memory addr value }

unfoldable pub tick : FlatBus → FlatBus
tick b = record b { cycles = u64 (b.cycles + 1) }

unfoldable pub reset_cycles : FlatBus → FlatBus
reset_cycles b = record b { cycles = 0 }

-- `load`, from offset `k` on.
unfoldable pub load_from : ℕ → ℕ → List ℕ → FlatBus → FlatBus
load_from k addr [] b = b
load_from k addr (value ∷ rest) b =
    load_from (k + 1) addr rest (record b { memory = store b.memory (u16 (addr + k)) value })

unfoldable pub load : ℕ → List ℕ → FlatBus → FlatBus
unfolding load_from
load addr values b = load_from 0 addr values b

unfoldable pub set_vector : ℕ → ℕ → FlatBus → FlatBus
set_vector vector target b = record b {
  memory =
      store (store b.memory vector (u8 (bit_and target 0xff))) (u16 (vector + 1))
        (u8 (target >>> 8));
}

abbrev pub flat_bus : BusLike FlatBus
flat_bus = record { read = read; write = write; tick = tick }
