-- ===== src/Operations/Alu.antt =====
-- The helpers of include/mos6502/operations.hpp: compare, add with carry, subtract with borrow.
pub mod Binary
pub mod Borrow
pub mod Decimal
pub mod Subtract
use emulator.Prelude.{
  ℕ, ◌+◌, ◌-◌, ◌*◌, ◌/◌, ◌^◌, Bool, true, false, ◌&&◌, if◌then◌else◌, bit_and, bit_or, bit_xor, u8,
  u16, u32, ◌<<<◌, ◌>>>◌, complement, nonzero, of_flag, ltb, leb, ◌==◌,
}
use emulator.Registers.{Registers, set_zn}
use emulator.Variant.{Variant}

-- The 16-bit difference wraps, as unsigned subtraction does.
unfoldable pub compare : ℕ → ℕ → Registers → Registers
unfolding set_zn
compare reg value r =
    let diff = u16 (reg + 2 ^ 16 - value) in set_zn (u8 diff) (record r { c = leb value reg })

-- The decimal branch of `addWithCarry`.
unfoldable pub add_decimal : ℕ → Registers → Registers
add_decimal value r =
    let carry = of_flag r.c in
    let bin = u16 (r.a + value + carry) in
    let lo = u16 (bit_and r.a 0x0f + bit_and value 0x0f + carry) in
    let hi = u16 ((r.a >>> 4) + (value >>> 4)) in
    let lo' = if ltb 0x09 lo then u16 (lo + 0x06) else lo in
    let hi' = if ltb 0x09 lo then u16 (hi + 1) else hi in
    let hi'' = if ltb 0x09 hi' then u16 (hi' + 0x06) else hi' in
    record r {
      z = bit_and bin 0xff == 0;
      n = nonzero (bit_and (hi' <<< 4) 0x80);
      v =
          nonzero (
            bit_and (bit_and (complement (bit_xor r.a value)) (bit_xor r.a (u8 (hi' <<< 4)))) 0x80);
      c = ltb 0x0f hi'';
      a = u8 (bit_or (hi'' <<< 4) (bit_and lo' 0x0f));
    }

-- The binary branch of `addWithCarry`.
unfoldable pub add_binary : ℕ → Registers → Registers
unfolding set_zn
add_binary value r =
    let bin = u16 (r.a + value + of_flag r.c) in
    let sum = u8 bin in
    set_zn sum (record r {
      c = ltb 0xff bin;
      v = nonzero (bit_and (bit_and (complement (bit_xor r.a value)) (bit_xor r.a sum)) 0x80);
      a = sum;
    })

unfoldable pub add_with_carry : Variant → ℕ → Registers → Registers
unfolding add_decimal add_binary
add_with_carry variant value r =
    if variant.decimal_mode && r.d then add_decimal value r else add_binary value r

-- `a - b - c` in an `int`, as its 32-bit pattern.
abbrev pub sub_int : ℕ → ℕ → ℕ → ℕ
sub_int a b c = u32 (a + 2 ^ 32 - b + 2 ^ 32 - c)

-- The accumulator after the decimal correction of `subtractWithBorrow`; `lo` and `hi` are `int`s.
unfoldable pub subtract_decimal : ℕ → ℕ → ℕ → ℕ
subtract_decimal a value carry =
    let lo = sub_int (bit_and a 0x0f) (bit_and value 0x0f) (1 - carry) in
    let hi = sub_int (a >>> 4) (value >>> 4) 0 in
    let borrow = nonzero (bit_and lo 0x10) in
    let lo' = if borrow then sub_int lo 0x06 0 else lo in
    let hi' = if borrow then sub_int hi 1 0 else hi in
    let hi'' = if nonzero (bit_and hi' 0x10) then sub_int hi' 0x06 0 else hi' in
    u8 (bit_or (bit_and hi'' 0x0f <<< 4) (bit_and lo' 0x0f))

-- The flags of `subtractWithBorrow` come from the binary difference, also in decimal mode.
unfoldable pub subtract_with_borrow : Variant → ℕ → Registers → Registers
unfolding subtract_decimal set_zn
subtract_with_borrow variant value r =
    let bin = u16 (r.a + u8 (complement value) + of_flag r.c) in
    let flagged = set_zn (u8 bin) (record r {
      c = ltb 0xff bin;
      v = nonzero (bit_and (bit_and (bit_xor r.a value) (bit_xor r.a (u8 bin))) 0x80);
    }) in
    record flagged {
      a = if variant.decimal_mode && r.d then subtract_decimal r.a value (of_flag r.c) else u8 bin;
    }
