-- ===== src/Operations/Reads.antt =====
-- The read operations of include/mos6502/operations.hpp.
use emulator.Prelude.{
  ℕ, ◌+◌, ◌-◌, ◌^◌, ◌&&◌, if◌then◌else◌, bit_and, bit_or, bit_xor, u8, ◌>>>◌, nonzero, ltb, leb,
  ◌==◌,
}
use emulator.Registers.{Registers, set_zn}
use emulator.Variant.{Variant}
use emulator.Operations.Alu.{compare, add_with_carry, subtract_with_borrow}

pub data ReadOp : Type 0 where
  lda ldx ldy ora and eor adc sbc cmp cpx cpy bit lax nop_r anc alr arr sbx las ane lxa : ReadOp

-- `ARR` in decimal mode: the flags come from the rotated value, then each nibble is corrected.
unfoldable pub arr_decimal : ℕ → Registers → Registers
arr_decimal value r =
    let t = u8 (bit_and r.a value) in
    let result = u8 (bit_or (t >>> 1) (if r.c then 0x80 else 0)) in
    let low_nibble = u8 (bit_and t 0x0f) in
    let high_nibble = u8 (t >>> 4) in
    let low_fixed =
      if ltb 5 (low_nibble + bit_and low_nibble 1)
      then u8 (bit_or (bit_and result 0xf0) (bit_and (result + 6) 0x0f))
      else result in
    let carry = ltb 5 (high_nibble + bit_and high_nibble 1) in
    record r {
      n = r.c;
      z = result == 0;
      v = nonzero (bit_and (bit_xor t result) 0x40);
      c = carry;
      a = if carry then u8 (low_fixed + 0x60) else low_fixed;
    }

unfoldable pub arr_binary : ℕ → Registers → Registers
unfolding set_zn
arr_binary value r =
    let t = u8 (bit_and r.a value) in
    let result = u8 (bit_or (t >>> 1) (if r.c then 0x80 else 0)) in
    record (set_zn result (record r { a = result })) {
      c = nonzero (bit_and (result >>> 6) 1);
      v = nonzero (bit_and (bit_xor (result >>> 6) (result >>> 5)) 1);
    }

-- `Op::apply` of each read operation.
unfoldable pub apply_read : Variant → ReadOp → ℕ → Registers → Registers
unfolding set_zn compare add_with_carry subtract_with_borrow arr_decimal arr_binary
apply_read variant lda value r = set_zn value (record r { a = value })
apply_read variant ldx value r = set_zn value (record r { x = value })
apply_read variant ldy value r = set_zn value (record r { y = value })
apply_read variant ora value r = let m = bit_or r.a value in set_zn m (record r { a = m })
apply_read variant and value r = let m = bit_and r.a value in set_zn m (record r { a = m })
apply_read variant eor value r = let m = bit_xor r.a value in set_zn m (record r { a = m })
apply_read variant adc value r = add_with_carry variant value r
apply_read variant sbc value r = subtract_with_borrow variant value r
apply_read variant cmp value r = compare r.a value r
apply_read variant cpx value r = compare r.x value r
apply_read variant cpy value r = compare r.y value r
apply_read variant bit value r = record r {
  z = bit_and r.a value == 0;
  n = nonzero (bit_and value 0x80);
  v = nonzero (bit_and value 0x40);
}
apply_read variant lax value r = set_zn value (record r { a = value; x = value })
apply_read variant nop_r value r = r
apply_read variant anc value r =
    let m = bit_and r.a value in
    let flagged = set_zn m (record r { a = m }) in record flagged { c = flagged.n }
apply_read variant alr value r =
    let m = bit_and r.a value in
    let shifted = u8 (m >>> 1) in
    set_zn shifted (record r { c = nonzero (bit_and m 0x01); a = shifted })
apply_read variant arr value r =
    if variant.decimal_mode && r.d then arr_decimal value r else arr_binary value r
apply_read variant sbx value r =
    let lhs = u8 (bit_and r.a r.x) in
    let diff = u8 (lhs + 2 ^ 8 - value) in set_zn diff (record r { c = leb value lhs; x = diff })
apply_read variant las value r =
    let result = u8 (bit_and value r.s) in
    set_zn result (record r { a = result; x = result; s = result })
apply_read variant ane value r =
    let m = u8 (bit_and (bit_and (bit_or r.a 0xee) r.x) value) in set_zn m (record r { a = m })
apply_read variant lxa value r =
    let result = u8 (bit_and (bit_or r.a 0xee) value) in
    set_zn result (record r { a = result; x = result })
