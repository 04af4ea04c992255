-- ===== src/Examples/Arithmetic.antt =====
-- The arithmetic of include/mos6502/operations.hpp and the status byte, on two registers' values.
use emulator.Prelude.{true, false, ◌≡◌, refl, arith}
use emulator.Registers.{Registers}
use emulator.Variant.{nmos6502}
use emulator.Operations.Alu.{add_decimal, add_binary, subtract_with_borrow}
use emulator.Operations.Alu.Decimal.{IsBcd, of_bcd, add_decimal-sum}
use emulator.Operations.Alu.Borrow.{subtract_decimal-borrow}
use emulator.Operations.Alu.Binary.{with_result, add_binary-sum}
use emulator.Operations.Alu.Subtract.{subtract_binary-difference}
use emulator.Examples.{registers}

-- 79 + 48 + 1 in decimal mode: 128.
abbrev decimal : Registers
decimal = record registers { a = 0x79; d = true }

add_decimal-sum_example :
    IsBcd (add_decimal 0x48 decimal).a
    × (of_bcd (add_decimal 0x48 decimal).a ≡ 28)
    × ((add_decimal 0x48 decimal).c ≡ true)
    × ((add_decimal 0x48 decimal).z ≡ false)
add_decimal-sum_example =
    add_decimal-sum 0x48 decimal (omega arith, omega arith) (omega arith, omega arith)

-- 79 - 98: a borrow.
subtract_decimal-borrow_example :
    let r' = subtract_with_borrow nmos6502 0x98 decimal in
    IsBcd r'.a × (of_bcd r'.a ≡ 81) × (r'.c ≡ false)
subtract_decimal-borrow_example =
    subtract_decimal-borrow nmos6502 0x98 decimal refl (omega arith, omega arith)
      (omega arith, omega arith)

-- 18 + 112 + 1 leaves the signed byte.
add_binary-sum_example : add_binary 0x70 registers ≡ with_result 0x83 false true registers
add_binary-sum_example = add_binary-sum 0x70 registers (omega arith) (omega arith)

subtract_binary-difference_example :
    subtract_with_borrow nmos6502 0x90 registers ≡ with_result 0x82 false true registers
subtract_binary-difference_example =
    subtract_binary-difference nmos6502 0x90 registers (omega arith) (omega arith) refl
