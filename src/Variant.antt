-- ===== src/Variant.antt =====
-- include/mos6502/variants.hpp: the chip families as records of flags.
use emulator.Prelude.{Bool, true, false}

pub record Variant : Type 0 where
  pub decimal_mode : Bool
  pub jmp_indirect_page_bug : Bool
  pub clear_decimal_on_interrupt : Bool
  pub illegal_opcodes : Bool
  pub rmw_dummy_write_back : Bool

abbrev pub nmos6502 : Variant
nmos6502 = record {
  decimal_mode = true;
  jmp_indirect_page_bug = true;
  clear_decimal_on_interrupt = false;
  illegal_opcodes = true;
  rmw_dummy_write_back = true;
}

abbrev pub cmos65c02 : Variant
cmos65c02 = record {
  decimal_mode = true;
  jmp_indirect_page_bug = false;
  clear_decimal_on_interrupt = true;
  illegal_opcodes = false;
  rmw_dummy_write_back = false;
}
