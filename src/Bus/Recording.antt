-- ===== src/Bus/Recording.antt =====
-- `TestBus` of tools/run_harte.cpp: a memory that logs every access.
use emulator.Prelude.{ℕ, Bool, true, false, List, [], ◌∷◌, ◌++◌}
use emulator.Bus.{BusLike}
use emulator.Bus.Flat.{store}

pub record CycleRecord : Type 0 where
  pub addr : ℕ
  pub value : ℕ
  pub is_write : Bool

pub record TestBus : Type 0 where
  pub memory : ℕ → ℕ
  pub log : List CycleRecord

-- The newest record stands last, as `push_back` leaves it.
unfoldable pub read : TestBus → ℕ → ℕ × TestBus
read b addr =
    let value = b.memory addr in
    (
      value,
      record b { log = b.log ++ record { addr = addr; value = value; is_write = false } ∷ [] },
    )

unfoldable pub write : TestBus → ℕ → ℕ → TestBus
write b addr value = record b {
  memory = store b.memory addr value;
  log = b.log ++ record { addr = addr; value = value; is_write = true } ∷ [];
}

unfoldable pub tick : TestBus → TestBus
tick b = b

unfoldable pub clear : TestBus → TestBus
clear b = record { memory = λ _. 0; log = [] }

abbrev pub test_bus : BusLike TestBus
test_bus = record { read = read; write = write; tick = tick }
