-- ===== src/Operations/Alu/Subtract.antt =====
-- The binary subtraction of include/mos6502/operations.hpp.
use emulator.Prelude.{
  ℕ, ◌+◌, ◌-◌, ◌%◌, ◌<◌, Bool, false, ◌&&◌, ◌||◌, ◌≡◌, refl, arith, of_flag, ltb, leb, u8, u16,
  bit_and, bit_xor, complement, nonzero,
}
use emulator.Prelude.Words.{top_bit, signs_differ}
use emulator.Registers.{Registers}
use emulator.Variant.{Variant}
use emulator.Operations.Alu.{subtract_with_borrow}
use emulator.Operations.Alu.Binary.{excess, with_result}

-- The sum that the code forms, `a + (~value & 0xFF) + c`, gives the byte and the borrow.
module _ (a value : ℕ) (c : Bool) (ha : a < 256) (hv : value < 256) where
  difference_byte :
      u8 (u16 (a + u8 (complement value) + of_flag c)) ≡ (a + 256 - value - (1 - of_flag c)) % 256
  difference_byte = ground arith

  pub difference_carry :
      ltb 0xff (u16 (a + u8 (complement value) + of_flag c)) ≡ leb (value + (1 - of_flag c)) a
  difference_carry = ground arith

  difference_overflow :
      let s = (a + 256 - value - (1 - of_flag c)) % 256 in
      nonzero (bit_and (bit_and (bit_xor a value) (bit_xor a s)) 0x80)
      ≡ ltb (excess a + 256 - excess value - (1 - of_flag c)) 128
        || leb 384 (excess a + 256 - excess value - (1 - of_flag c))
  difference_overflow =
      let s : ℕ = (a + 256 - value - (1 - of_flag c)) % 256 in
      rw (signs_differ a value s ha hv (omega arith)) (ground arith)

-- Of two bytes, subtraction in binary mode stores the true difference modulo 256 and sets C when there is no
-- borrow; V is set exactly when the difference of the signed values leaves the range of a signed
-- byte, Z and N describe the stored byte, and no other register changes.
pub subtract_binary-difference :
    (variant : Variant) (value : ℕ) (r : Registers)
    → r.a < 256
    → value < 256
    → variant.decimal_mode && r.d ≡ false
    → let borrow = 1 - of_flag r.c in
      let signed_difference = excess r.a + 256 - excess value - borrow in
      subtract_with_borrow variant value r
      ≡ with_result
          ((r.a + 256 - value - borrow) % 256)
          (leb (value + borrow) r.a)
          (ltb signed_difference 128 || leb 384 signed_difference)
          r
unfolding subtract_with_borrow
subtract_binary-difference variant value r ha hv d =
    rw
      (
        d,
        difference_byte r.a value r.c ha hv,
        difference_carry r.a value r.c ha hv,
        difference_overflow r.a value r.c ha hv,
        top_bit ((r.a + 256 - value - (1 - of_flag r.c)) % 256) (omega arith),
      )
      refl
