-- ===== src/Examples.antt =====
-- States on which the theorems are applied: a core with an opcode at $0400.
pub mod Arithmetic
pub mod Histories
pub mod Programs
pub mod Harness
pub mod Drivers
pub mod Whole
use emulator.Prelude.{ℕ, ◌-◌, ◌^◌, true, false, List, [], ◌==◌, if◌then◌else◌}
use emulator.Registers.{Registers}
use emulator.Bus.Flat.{FlatBus}
use emulator.Bus.Recording.{TestBus}
use emulator.Cpu.{Cpu}

-- A core about to fetch from page 4.
abbrev pub registers : Registers
registers = record {
  a = 0x12;
  x = 0x34;
  y = 0xff;
  s = 0x01;
  pc = 0x0400;
  n = false;
  v = false;
  d = false;
  i = false;
  z = false;
  c = true;
}

abbrev pub opcode_only : ℕ → ℕ → ℕ
opcode_only opcode at = if at == 0x0400 then opcode else 0x80

abbrev pub core : ℕ → Cpu FlatBus (Unit {0})
core opcode = record {
  regs = registers;
  bus = record { memory = opcode_only opcode; cycles = 0 };
  hooks = tt;
  cycles = 2 ^ 64 - 3;
  jammed = false;
  nmi_line = false;
  nmi_edge = false;
  irq_line = true;
  pending_nmi = false;
  pending_irq = false;
  poll_i = false;
}

abbrev pub recorder : Cpu TestBus (Unit {0})
recorder = record {
  regs = registers;
  bus = record { memory = opcode_only 0x80; log = [] };
  hooks = tt;
  cycles = 0;
  jammed = false;
  nmi_line = false;
  nmi_edge = false;
  irq_line = false;
  pending_nmi = false;
  pending_irq = false;
  poll_i = false;
}
