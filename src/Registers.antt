-- ===== src/Registers.antt =====
-- include/mos6502/registers.hpp: the register file, with the flags unpacked.
pub mod Status
use emulator.Prelude.{ℕ, Bool, true, false, if◌then◌else◌, bit_and, bit_or, u8, nonzero, ◌==◌}

pub record Registers : Type 0 where
  pub a : ℕ
  pub x : ℕ
  pub y : ℕ
  pub s : ℕ
  pub pc : ℕ
  pub n : Bool
  pub v : Bool
  pub d : Bool
  pub i : Bool
  pub z : Bool
  pub c : Bool

-- The defaults of the fields.
unfoldable pub power_on : Registers
power_on = record {
  a = 0;
  x = 0;
  y = 0;
  s = 0;
  pc = 0;
  n = false;
  v = false;
  d = false;
  i = true;
  z = false;
  c = false;
}

-- The byte P as it is pushed; the argument is bit 4, which is no register.
unfoldable pub pack : Bool → Registers → ℕ
pack break_flag r = u8 (
    bit_or
      (bit_or
        (bit_or
          (bit_or
            (bit_or (bit_or (bit_or (if r.n then 0x80 else 0) (if r.v then 0x40 else 0)) 0x20)
              (if break_flag then 0x10 else 0))
            (if r.d then 0x08 else 0))
          (if r.i then 0x04 else 0))
        (if r.z then 0x02 else 0))
      (if r.c then 0x01 else 0))

unfoldable pub unpack : ℕ → Registers → Registers
unpack p r = record r {
  n = nonzero (bit_and p 0x80);
  v = nonzero (bit_and p 0x40);
  d = nonzero (bit_and p 0x08);
  i = nonzero (bit_and p 0x04);
  z = nonzero (bit_and p 0x02);
  c = nonzero (bit_and p 0x01);
}

-- `Cpu::setZN`, which touches the registers alone.
unfoldable pub set_zn : ℕ → Registers → Registers
set_zn value r = record r { z = value == 0; n = nonzero (bit_and value 0x80) }
