-- ===== src/Operations/Alu/Borrow.antt =====
-- Decimal mode of `subtractWithBorrow`, against the numbers that two decimal digits stand for.
use emulator.Prelude.{
  ℕ, ◌+◌, ◌-◌, ◌*◌, ◌%◌, ◌/◌, ◌≤◌, Bool, true, ◌&&◌, ◌≡◌, arith, of_flag, ltb, leb, ◌<<<◌, u8,
  bit_and, bit_or, nonzero, if◌then◌else◌,
}
use emulator.Prelude.Words.{bit_and-0x0f, bit_and-0x10}
use emulator.Registers.{Registers}
use emulator.Variant.{Variant}
use emulator.Operations.Alu.{subtract_decimal, subtract_with_borrow, sub_int}
use emulator.Operations.Alu.Decimal.{IsBcd, of_bcd, join_nibbles}
use emulator.Operations.Alu.Subtract.{difference_carry}

-- The test `& 0x10` of a small `int` finds its sign.
negative : (a b c : ℕ) → a ≤ 9 → b + c ≤ 16 → nonzero (bit_and (sub_int a b c) 0x10) ≡ ltb a (b + c)
negative a b c h h' = ground (arith, bit_and-0x10 (sub_int a b c))

-- The correction of `subtractWithBorrow` at the digits of its operands.
module _ (la lv ha hv b : ℕ) (h1 : la ≤ 9) (h2 : lv ≤ 9) (h3 : ha ≤ 9) (h4 : hv ≤ 9)
    (h5 : b ≤ 1) where
  abbrev below : Bool
  below = nonzero (bit_and (sub_int la lv b) 0x10)

  abbrev low : ℕ
  low = if below then sub_int (sub_int la lv b) 0x06 0 else sub_int la lv b

  abbrev borrowed : ℕ
  borrowed = if below then sub_int (sub_int ha hv 0) 1 0 else sub_int ha hv 0

  abbrev high : ℕ
  high = if nonzero (bit_and borrowed 0x10) then sub_int borrowed 0x06 0 else borrowed

  abbrev joined : ℕ
  joined = u8 (bit_or (bit_and high 0x0f <<< 4) (bit_and low 0x0f))

  low-digit : low % 16 ≡ (la + 10 - lv - b) % 10
  low-digit = rw (negative la lv b h1 (omega arith)) (ground arith)

  borrowed-eq : borrowed ≡ sub_int ha hv (of_flag (ltb la (lv + b)))
  borrowed-eq = rw (negative la lv b h1 (omega arith)) (ground arith)

  high-digit : high % 16 ≡ (ha + 10 - hv - of_flag (ltb la (lv + b))) % 10
  high-digit =
      let k : ℕ = of_flag (ltb la (lv + b)) in
      let k-le : k ≤ 1 = ground arith in
      rw (borrowed-eq, negative ha hv k h3 (omega arith)) (ground arith)

  joined-eq : joined ≡ high % 16 * 16 + low % 16
  joined-eq = rw (join_nibbles (bit_and high 0x0f) low, bit_and-0x0f high) (omega arith)

  corrected : IsBcd joined × (of_bcd joined ≡ (ha * 10 + la + 100 - (hv * 10 + lv) - b) % 100)
  corrected = rw (joined-eq, high-digit, low-digit) (ground arith)

module _ (value : ℕ) (r : Registers) (ha : IsBcd r.a) (hv : IsBcd value) where
  subtract_decimal-difference :
      let borrow = 1 - of_flag r.c in
      let byte = subtract_decimal r.a value (of_flag r.c) in
      IsBcd byte × (of_bcd byte ≡ (of_bcd r.a + 100 - of_bcd value - borrow) % 100)
  unfolding subtract_decimal
  subtract_decimal-difference =
      rw (bit_and-0x0f r.a, bit_and-0x0f value)
        (corrected (r.a % 16) (value % 16) (r.a / 16) (value / 16) (1 - of_flag r.c) ha.1 hv.1 ha.0
          hv.0 (omega arith))

-- In decimal mode, subtraction of two bytes of decimal digits stores the digits of the difference
-- modulo 100, and sets C exactly when there is no borrow.
pub subtract_decimal-borrow :
    (variant : Variant) (value : ℕ) (r : Registers)
    → variant.decimal_mode && r.d ≡ true
    → IsBcd r.a
    → IsBcd value
    → let borrow = 1 - of_flag r.c in
      let r' = subtract_with_borrow variant value r in
      IsBcd r'.a
      × (of_bcd r'.a ≡ (of_bcd r.a + 100 - of_bcd value - borrow) % 100)
      × (r'.c ≡ leb (of_bcd value + borrow) (of_bcd r.a))
unfolding subtract_with_borrow
subtract_decimal-borrow variant value r d ha hv =
    let e = subtract_decimal-difference value r ha hv in
    (
      rw d e.0,
      rw d e.1,
      rw (difference_carry r.a value r.c (omega arith) (omega arith)) (ground arith),
    )
