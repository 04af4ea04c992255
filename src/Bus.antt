-- ===== src/Bus.antt =====
-- include/mos6502/bus.hpp: what the core asks of its bus (the concept `BusLike`), and what the
-- concept's types say of every bus.
pub mod Bytes
pub mod Flat
pub mod Recording
use emulator.Prelude.{ℕ, ◌+◌, ◌<◌, u64}

-- `read`, `write` and `tick` of a bus whose state is `B`. A read may change the state.
pub record BusLike (B : Type 0) : Type 0 where
  pub read : B → ℕ → ℕ × B
  pub write : B → ℕ → ℕ → B
  pub tick : B → B

-- What a program relies on in a bus, beside the counter of the core: each cycle counts one, ticks the
-- bus, and makes one access. `read` returns a `u8`, so that what is read is a byte.
pub record BusLaws {B : Type 0} (bus : BusLike B) : Type 1 where
  pub Holds : (cycles : ℕ) → B → Type 0
  pub read_lt : (k : ℕ) (b : B) (addr : ℕ) → Holds k b → (bus.read (bus.tick b) addr).0 < 256
  pub read_keeps :
      (k : ℕ) (b : B) (addr : ℕ) → Holds k b → Holds (u64 (k + 1)) (bus.read (bus.tick b) addr).1
  pub write_keeps :
      (k : ℕ) (b : B) (addr value : ℕ)
      → value < 256
      → Holds k b
      → Holds (u64 (k + 1)) (bus.write (bus.tick b) addr value)
