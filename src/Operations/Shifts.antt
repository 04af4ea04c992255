-- ===== src/Operations/Shifts.antt =====
-- The read-modify-write operations of include/mos6502/operations.hpp.
use emulator.Prelude.{
  ℕ, ◌+◌, ◌-◌, ◌^◌, if◌then◌else◌, bit_and, bit_or, bit_xor, u8, ◌<<<◌, ◌>>>◌, nonzero,
}
use emulator.Registers.{Registers, set_zn}
use emulator.Variant.{Variant}
use emulator.Operations.Alu.{compare, add_with_carry, subtract_with_borrow}

pub data RmwOp : Type 0 where
  asl lsr rol ror inc dec slo rla sre rra dcp isc : RmwOp

-- `ASL::apply`, `LSR::apply`, `ROL::apply` and `ROR::apply`: the byte and the registers.
unfoldable pub shift_left : ℕ → Registers → ℕ × Registers
unfolding set_zn
shift_left value r =
    let m = u8 (value <<< 1) in (m, set_zn m (record r { c = nonzero (bit_and value 0x80) }))

unfoldable pub shift_right : ℕ → Registers → ℕ × Registers
unfolding set_zn
shift_right value r =
    let m = u8 (value >>> 1) in (m, set_zn m (record r { c = nonzero (bit_and value 0x01) }))

unfoldable pub rotate_left : ℕ → Registers → ℕ × Registers
unfolding set_zn
rotate_left value r =
    let m = u8 (bit_or (value <<< 1) (if r.c then 1 else 0)) in
    (m, set_zn m (record r { c = nonzero (bit_and value 0x80) }))

unfoldable pub rotate_right : ℕ → Registers → ℕ × Registers
unfolding set_zn
rotate_right value r =
    let m = u8 (bit_or (value >>> 1) (if r.c then 0x80 else 0)) in
    (m, set_zn m (record r { c = nonzero (bit_and value 0x01) }))

-- `Op::apply` of each read-modify-write operation. The illegal ones fold the byte into A.
unfoldable pub apply_rmw : Variant → RmwOp → ℕ → Registers → ℕ × Registers
unfolding shift_left shift_right rotate_left rotate_right compare add_with_carry
    subtract_with_borrow
apply_rmw variant asl value r = shift_left value r
apply_rmw variant lsr value r = shift_right value r
apply_rmw variant rol value r = rotate_left value r
apply_rmw variant ror value r = rotate_right value r
apply_rmw variant inc value r = let m = u8 (value + 1) in (m, set_zn m r)
apply_rmw variant dec value r = let m = u8 (value + 2 ^ 8 - 1) in (m, set_zn m r)
apply_rmw variant slo value r =
    let (m, r') = shift_left value r in
    let acc = bit_or r'.a m in (m, set_zn acc (record r' { a = acc }))
apply_rmw variant rla value r =
    let (m, r') = rotate_left value r in
    let acc = bit_and r'.a m in (m, set_zn acc (record r' { a = acc }))
apply_rmw variant sre value r =
    let (m, r') = shift_right value r in
    let acc = bit_xor r'.a m in (m, set_zn acc (record r' { a = acc }))
apply_rmw variant rra value r =
    let (m, r') = rotate_right value r in (m, add_with_carry variant m r')
apply_rmw variant dcp value r = let m = u8 (value + 2 ^ 8 - 1) in (m, compare r.a m r)
apply_rmw variant isc value r = let m = u8 (value + 1) in (m, subtract_with_borrow variant m r)
