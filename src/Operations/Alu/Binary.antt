-- ===== src/Operations/Alu/Binary.antt =====
-- Compare and binary addition, against arithmetic on the numbers.
use emulator.Prelude.{ℕ, ◌+◌, ◌-◌, ◌%◌, ◌<◌, Bool, ◌||◌, ◌≡◌, arith, of_flag, ltb, leb, ◌==◌}
use emulator.Prelude.Words.{top_bit, signs_agree}
use emulator.Registers.{Registers}
use emulator.Operations.Alu.{compare, add_binary}

-- The signed value of a byte, counted from -128: 128 stands for 0.
abbrev pub excess : ℕ → ℕ
excess x = (x + 128) % 256

-- The registers after a sum, or a difference, of which the true value is given: the byte, the
-- borrow or carry, and whether the true signed result lies outside -128 to 127.
abbrev pub with_result : ℕ → Bool → Bool → Registers → Registers
with_result byte carry overflow r = record r {
  a = byte;
  c = carry;
  v = overflow;
  z = byte == 0;
  n = leb 128 byte;
}

-- Of two bytes, binary addition stores the true sum modulo 256 and carries at 256; V is set exactly when the sum of the
-- signed values leaves the range of a signed byte, Z and N describe the stored byte, and no other
-- register changes.
pub add_binary-sum :
    (value : ℕ) (r : Registers)
    → r.a < 256
    → value < 256
    → let sum = r.a + value + of_flag r.c in
      let signed_sum = excess r.a + excess value + of_flag r.c in
      add_binary value r
      ≡ with_result (sum % 256) (leb 256 sum) (ltb signed_sum 128 || leb 384 signed_sum) r
unfolding add_binary
add_binary-sum value r ha hv = ground (
  arith,
  signs_agree r.a value ((r.a + value + of_flag r.c) % 256),
  top_bit ((r.a + value + of_flag r.c) % 256),
)

-- Of two bytes, compare sets C when the register is not below the value, Z when they are equal, and N from the
-- difference modulo 256; no other register changes.
pub compare-order :
    (reg value : ℕ) (r : Registers)
    → reg < 256
    → value < 256
    → compare reg value r
      ≡ record r { c = leb value reg; z = reg == value; n = leb 128 ((reg + 256 - value) % 256) }
unfolding compare
compare-order reg value r hr hv = ground (arith, top_bit ((reg + 256 - value) % 256))
