-- ===== src/Types.antt =====
-- include/mos6502/types.hpp: the access kinds, the vectors and the page test. Bytes and words are
-- native numbers; each cast of the source is written out (`Prelude.Words`).
use emulator.Prelude.{ℕ, Bool, not, bit_and, ◌==◌}

-- How an instruction touches the effective address.
pub data Access : Type 0 where
  reading writing modifying : Access

abbrev pub nmi_vector : ℕ
nmi_vector = 0xfffa

abbrev pub reset_vector : ℕ
reset_vector = 0xfffc

abbrev pub irq_vector : ℕ
irq_vector = 0xfffe

abbrev pub stack_base : ℕ
stack_base = 0x0100

-- `(base & 0xFF00) != (effective & 0xFF00)`.
unfoldable pub crosses_page : ℕ → ℕ → Bool
crosses_page base effective = not (bit_and base 0xff00 == bit_and effective 0xff00)
