-- ===== src/Operations/Alu/Decimal.antt =====
-- Decimal mode of `addWithCarry`, against the numbers that two decimal digits stand for.
use emulator.Prelude.{
  ℕ, ◌+◌, ◌*◌, ◌%◌, ◌/◌, ◌≤◌, ◌≡◌, arith, of_flag, ltb, leb, ◌==◌, ◌<<<◌, ◌>>>◌, u8, u16, bit_and,
  bit_or, if◌then◌else◌,
}
use emulator.Prelude.Bits.{bit_or_fields}
use emulator.Prelude.Words.{bit_and-0x0f, bit_and-0xff}
use emulator.Registers.{Registers}
use emulator.Operations.Alu.{add_decimal}

-- Both nibbles are decimal digits.
abbrev pub IsBcd : ℕ → Type 0
IsBcd x = (x / 16 ≤ 9) × (x % 16 ≤ 9)

-- The number that two decimal digits stand for.
abbrev pub of_bcd : ℕ → ℕ
of_bcd x = x / 16 * 10 + x % 16

-- A byte put together from its nibbles.
pub join_nibbles : (hi lo : ℕ) → bit_or (hi * 16) (bit_and lo 0x0f) ≡ hi * 16 + lo % 16
join_nibbles hi lo = ground (arith, bit_and-0x0f lo, bit_or_fields 4 hi (lo % 16))

-- The correction of `addWithCarry`, of any sum `lo` of two digits and a carry and any sum `hi` of two
-- digits: the byte has the digits of the sum modulo 100, and the carry is the hundred.
module _ (lo hi : ℕ) (small : lo ≤ 19) (small' : hi ≤ 18) where
  abbrev low : ℕ
  low = if ltb 0x09 lo then u16 (lo + 0x06) else lo

  abbrev carried : ℕ
  carried = if ltb 0x09 lo then u16 (hi + 1) else hi

  abbrev high : ℕ
  high = if ltb 0x09 carried then u16 (carried + 0x06) else carried

  abbrev joined : ℕ
  joined = u8 (bit_or (high <<< 4) (bit_and low 0x0f))

  joined-eq : joined ≡ high % 16 * 16 + low % 16
  joined-eq = rw (join_nibbles high low) (omega arith)

  corrected :
      IsBcd joined
      × (of_bcd joined ≡ (hi * 10 + lo) % 100)
      × (ltb 0x0f high ≡ leb 100 (hi * 10 + lo))
  corrected = rw joined-eq (ground arith)

module _ (value : ℕ) (r : Registers) (ha : IsBcd r.a) (hv : IsBcd value) where
  abbrev lo_sum : ℕ
  lo_sum = u16 (bit_and r.a 0x0f + bit_and value 0x0f + of_flag r.c)

  abbrev hi_sum : ℕ
  hi_sum = u16 ((r.a >>> 4) + (value >>> 4))

  lo_sum-eq : lo_sum ≡ r.a % 16 + value % 16 + of_flag r.c
  lo_sum-eq = ground (arith, bit_and-0x0f r.a, bit_and-0x0f value)

  hi_sum-eq : hi_sum ≡ r.a / 16 + value / 16
  hi_sum-eq = omega arith

  flag-le : of_flag r.c ≤ 1
  flag-le = ground arith

  -- Decimal addition of two bytes of decimal digits stores the digits of the sum modulo 100 and
  -- carries at 100; the Z flag comes from the binary sum, so it says whether the sum of the two
  -- bytes is 0 modulo 256.
  pub add_decimal-sum :
      let sum = of_bcd r.a + of_bcd value + of_flag r.c in
      let r' = add_decimal value r in
      IsBcd r'.a
      × (of_bcd r'.a ≡ sum % 100)
      × (r'.c ≡ leb 100 sum)
      × (r'.z ≡ ((r.a + value + of_flag r.c) % 256 == 0))
  unfolding add_decimal
  add_decimal-sum =
      let e =
        corrected lo_sum hi_sum (omega (arith, lo_sum-eq, flag-le)) (omega (arith, hi_sum-eq)) in
      let total : hi_sum * 10 + lo_sum ≡ of_bcd r.a + of_bcd value + of_flag r.c =
        omega (arith, lo_sum-eq, hi_sum-eq) in
      (
        e.0,
        rw total at e.1,
        rw total at e.2,
        ground (arith, bit_and-0xff (u16 (r.a + value + of_flag r.c)), flag-le),
      )
