-- ===== src/Operations/Writes.antt =====
-- The write operations and the unstable stores of include/mos6502/operations.hpp.
use emulator.Prelude.{ℕ, ◌+◌, bit_and, u8}
use emulator.Registers.{Registers}

pub data WriteOp : Type 0 where
  sta stx sty sax : WriteOp

-- `Op::value`; none of the four uses the address.
unfoldable pub write_value : WriteOp → Registers → ℕ
write_value sta r = r.a
write_value stx r = r.x
write_value sty r = r.y
write_value sax r = u8 (bit_and r.a r.x)

pub data UnstableOp : Type 0 where
  sha shx shy tas : UnstableOp

-- The registers after `Op::value`: `TAS` sets the stack pointer first.
unfoldable pub unstable_regs : UnstableOp → Registers → Registers
unstable_regs tas r = record r { s = u8 (bit_and r.a r.x) }
unstable_regs _ r = r

-- `Op::value`, from the high byte of the address before indexing.
unfoldable pub unstable_value : UnstableOp → Registers → ℕ → ℕ
unfolding unstable_regs
unstable_value sha r base_high = u8 (bit_and (bit_and r.a r.x) (base_high + 1))
unstable_value shx r base_high = u8 (bit_and r.x (base_high + 1))
unstable_value shy r base_high = u8 (bit_and r.y (base_high + 1))
unstable_value tas r base_high = u8 (bit_and (unstable_regs tas r).s (base_high + 1))
