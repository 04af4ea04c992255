-- ===== src/Operations/Ranges.antt =====
-- The widths of the registers through the operations of include/mos6502/operations.hpp.
use emulator.Prelude.{ℕ, arith, ◌&&◌, if_cases}
use emulator.Prelude.Bits.{bit_and-lt, bit_or-lt, bit_xor-lt}
use emulator.Registers.{Registers, set_zn, unpack}
use emulator.Variant.{Variant}
use emulator.Cpu.Invariant.{InRange, IsByte}
use emulator.Operations.Alu.{compare, add_with_carry, add_decimal, add_binary, subtract_with_borrow}
use emulator.Operations.Reads.{
  ReadOp, ora, and, eor, adc, sbc, anc, arr, apply_read, arr_decimal, arr_binary,
}
use emulator.Operations.Writes.{
  WriteOp, UnstableOp, sta, stx, sty, sax, sha, tas, write_value, unstable_value, unstable_regs,
}
use emulator.Operations.Shifts.{
  RmwOp, asl, lsr, rol, ror, inc, dec, slo, rla, sre, rra, dcp, isc, apply_rmw, shift_left,
  shift_right, rotate_left, rotate_right,
}

module _ (r : Registers) (v : InRange r) where
  pub set_zn-InRange : (value : ℕ) → InRange (set_zn value r)
  unfolding set_zn
  set_zn-InRange value = record { a = v.a; x = v.x; y = v.y; s = v.s; pc = v.pc }

  pub unpack-InRange : (p : ℕ) → InRange (unpack p r)
  unfolding unpack
  unpack-InRange value = record { a = v.a; x = v.x; y = v.y; s = v.s; pc = v.pc }

  compare-InRange : (reg value : ℕ) → InRange (compare reg value r)
  unfolding compare
  compare-InRange reg value = record { a = v.a; x = v.x; y = v.y; s = v.s; pc = v.pc }

  pub add_with_carry-InRange :
      (variant : Variant) (value : ℕ) → InRange (add_with_carry variant value r)
  unfolding add_with_carry
  add_with_carry-InRange variant value =
      if_cases InRange (variant.decimal_mode && r.d) (add_decimal value r) (add_binary value r)
        (λ _. record { a = omega arith; x = v.x; y = v.y; s = v.s; pc = v.pc })
        (λ _. record { a = omega arith; x = v.x; y = v.y; s = v.s; pc = v.pc })

  pub subtract_with_borrow-InRange :
      (variant : Variant) (value : ℕ) → InRange (subtract_with_borrow variant value r)
  unfolding subtract_with_borrow
  subtract_with_borrow-InRange variant value = record {
    a = if_cases IsByte (variant.decimal_mode && r.d) _ _ (λ _. omega arith) (λ _. omega arith);
    x = v.x;
    y = v.y;
    s = v.s;
    pc = v.pc;
  }

  arr_decimal-InRange : (value : ℕ) → InRange (arr_decimal value r)
  unfolding arr_decimal
  arr_decimal-InRange value = record { a = ground arith; x = v.x; y = v.y; s = v.s; pc = v.pc }

  -- Every read operation, of any byte.
  pub apply_read-InRange :
      (variant : Variant) (op : ReadOp) (value : ℕ)
      → IsByte value
      → InRange (apply_read variant op value r)
  unfolding apply_read
  apply_read-InRange variant adc value h = add_with_carry-InRange variant value
  apply_read-InRange variant sbc value h = subtract_with_borrow-InRange variant value
  apply_read-InRange variant ora value h = record {
    a = bit_or-lt 8 r.a value v.a h;
    x = v.x;
    y = v.y;
    s = v.s;
    pc = v.pc;
  }
  apply_read-InRange variant and value h = record {
    a = bit_and-lt 8 r.a value v.a;
    x = v.x;
    y = v.y;
    s = v.s;
    pc = v.pc;
  }
  apply_read-InRange variant anc value h = record {
    a = bit_and-lt 8 r.a value v.a;
    x = v.x;
    y = v.y;
    s = v.s;
    pc = v.pc;
  }
  apply_read-InRange variant eor value h = record {
    a = bit_xor-lt 8 r.a value v.a h;
    x = v.x;
    y = v.y;
    s = v.s;
    pc = v.pc;
  }
  apply_read-InRange variant arr value h =
      if_cases InRange (variant.decimal_mode && r.d) (arr_decimal value r) (arr_binary value r)
        (λ _. arr_decimal-InRange value)
        (λ _. record { a = omega arith; x = v.x; y = v.y; s = v.s; pc = v.pc })
  apply_read-InRange variant _ value h = omega arith

  pub write_value-IsByte : (op : WriteOp) → IsByte (write_value op r)
  unfolding write_value
  write_value-IsByte sta = v.a
  write_value-IsByte stx = v.x
  write_value-IsByte sty = v.y
  write_value-IsByte sax = omega arith

  pub unstable_value-IsByte : (op : UnstableOp) (high : ℕ) → IsByte (unstable_value op r high)
  unfolding unstable_value
  unstable_value-IsByte sha high = omega arith
  unstable_value-IsByte _ high = omega arith

  pub unstable_regs-InRange : (op : UnstableOp) → InRange (unstable_regs op r)
  unfolding unstable_regs
  unstable_regs-InRange tas = record { a = v.a; x = v.x; y = v.y; s = omega arith; pc = v.pc }
  unstable_regs-InRange _ = v

-- Every read-modify-write operation stores a byte and keeps the registers in range.
module _ (variant : Variant) (value : ℕ) (h : IsByte value) (r : Registers) (v : InRange r) where
  shift_left-IsByte : IsByte (shift_left value r).0 × InRange (shift_left value r).1
  unfolding shift_left
  shift_left-IsByte = (omega arith, record { a = v.a; x = v.x; y = v.y; s = v.s; pc = v.pc })

  shift_right-IsByte : IsByte (shift_right value r).0 × InRange (shift_right value r).1
  unfolding shift_right
  shift_right-IsByte = (omega arith, record { a = v.a; x = v.x; y = v.y; s = v.s; pc = v.pc })

  rotate_left-IsByte : IsByte (rotate_left value r).0 × InRange (rotate_left value r).1
  unfolding rotate_left
  rotate_left-IsByte = (omega arith, record { a = v.a; x = v.x; y = v.y; s = v.s; pc = v.pc })

  rotate_right-IsByte : IsByte (rotate_right value r).0 × InRange (rotate_right value r).1
  unfolding rotate_right
  rotate_right-IsByte = (omega arith, record { a = v.a; x = v.x; y = v.y; s = v.s; pc = v.pc })

  pub apply_rmw-IsByte :
      (op : RmwOp)
      → IsByte (apply_rmw variant op value r).0 × InRange (apply_rmw variant op value r).1
  unfolding apply_rmw
  apply_rmw-IsByte asl = shift_left-IsByte
  apply_rmw-IsByte lsr = shift_right-IsByte
  apply_rmw-IsByte rol = rotate_left-IsByte
  apply_rmw-IsByte ror = rotate_right-IsByte
  apply_rmw-IsByte inc = (omega arith, set_zn-InRange r v _)
  apply_rmw-IsByte dec = (omega arith, set_zn-InRange r v _)
  apply_rmw-IsByte slo = (
    shift_left-IsByte.0,
    record { a = bit_or-lt 8 _ _ v.a shift_left-IsByte.0; x = v.x; y = v.y; s = v.s; pc = v.pc },
  )
  apply_rmw-IsByte rla = (
    rotate_left-IsByte.0,
    record { a = bit_and-lt 8 _ _ v.a; x = v.x; y = v.y; s = v.s; pc = v.pc },
  )
  apply_rmw-IsByte sre = (
    shift_right-IsByte.0,
    record { a = bit_xor-lt 8 _ _ v.a shift_right-IsByte.0; x = v.x; y = v.y; s = v.s; pc = v.pc },
  )
  apply_rmw-IsByte rra =
      (rotate_right-IsByte.0, add_with_carry-InRange _ rotate_right-IsByte.1 variant _)
  apply_rmw-IsByte dcp = (omega arith, compare-InRange r v r.a _)
  apply_rmw-IsByte isc = (omega arith, subtract_with_borrow-InRange r v variant _)
