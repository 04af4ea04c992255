-- ===== src/Operations/Special/Stack.antt =====
-- The stack of include/mos6502/cpu.hpp on the flat bus: what is pushed is pulled, and RTS returns
-- to where JSR left.
use emulator.Prelude.{
  ℕ, ◌+◌, ◌-◌, ◌%◌, ◌^◌, ◌<◌, ◌≡◌, ◌∙◌, ap, arith, false, u8, u16, bit_or, bit_and, ◌>>>◌, word,
  ◌==◌,
}
use emulator.Prelude.Bits.{bit_or_fields}
use emulator.Prelude.Words.{word-eq, bit_and-0xff}
use emulator.Types.{stack_base}
use emulator.Registers.{Registers}
use emulator.Variant.{Variant}
use emulator.Bus.Flat.{FlatBus, store, flat_bus, read, write, tick}
use emulator.Cpu.{Cpu}
use emulator.Cpu.Laws.{plain}
use emulator.Operations.Special.{execute_jsr, execute_rts}

-- The address of the stack's cell.
pub stack_base-lem : (s : ℕ) → s < 256 → u16 (bit_or stack_base s) ≡ 256 + s
stack_base-lem s h = ground (arith, bit_or_fields 8 1 s h)

pub store-same : (m : ℕ → ℕ) (a v : ℕ) → store m a v a ≡ v
store-same m a v = ground arith

pub store-other : (m : ℕ → ℕ) (a v b : ℕ) → ((b == a) ≡ false) → store m a v b ≡ m b
store-other m a v b h = ground arith

-- The stack pointer after a push.
abbrev pub below : ℕ → ℕ
below s = u8 (s + 2 ^ 8 - 1)

pub below-lt : (s : ℕ) → below s < 256
below-lt s = omega arith

pub up-down : (s : ℕ) → s < 256 → u8 (u8 (s + 2 ^ 8 - 1) + 1) ≡ s
up-down s h = omega arith

pub apart :
    (s : ℕ) → s < 256 → (u16 (bit_or stack_base s) == u16 (bit_or stack_base (below s))) ≡ false
apart s h = rw (stack_base-lem s h, stack_base-lem (below s) (below-lt s)) (ground arith)

pub split : (pc : ℕ) → pc < 2 ^ 16 → word (u8 (bit_and pc 0xff)) (u8 (pc >>> 8)) ≡ pc
split pc h = rw (bit_and-0xff, word-eq (u8 (pc % 256)) (u8 (pc >>> 8)) (omega arith)) (omega arith)

abbrev pub slot : ℕ → ℕ
slot s = u16 (bit_or stack_base s)

-- Two pushes.
abbrev pub pushed : (ℕ → ℕ) → ℕ → ℕ → ℕ → ℕ → ℕ
pushed m s hi lo = store (store m (slot s) hi) (slot (below s)) lo

low-back : (m : ℕ → ℕ) (s hi lo : ℕ) → pushed m s hi lo (slot (u8 (below (below s) + 1))) ≡ lo
low-back m s hi lo =
    ap (λ t. pushed m s hi lo (slot t)) (up-down (below s) (below-lt s))
    ∙ store-same (store m (slot s) hi) (slot (below s)) lo

up-down-twice : (s : ℕ) → s < 256 → u8 (u8 (below (below s) + 1) + 1) ≡ s
up-down-twice s h = omega arith

high-back :
    (m : ℕ → ℕ) (s hi lo : ℕ)
    → s < 256
    → pushed m s hi lo (slot (u8 (u8 (below (below s) + 1) + 1))) ≡ hi
high-back m s hi lo h =
    ap (λ t. pushed m s hi lo (slot t)) (up-down-twice s h)
    ∙ store-other (store m (slot s) hi) (slot (below s)) lo (slot s) (apart s h)
    ∙ store-same m (slot s) hi

-- The registers that RTS ends with.
abbrev returned : Registers → ℕ → ℕ → ℕ → Registers
returned r s lo hi = record r { s = s; pc = u16 (word lo hi + 1) }

returned-eq :
    (r : Registers) {s s' lo lo' hi hi' : ℕ}
    → s ≡ s'
    → lo ≡ lo'
    → hi ≡ hi'
    → returned r s lo hi ≡ returned r s' lo' hi'
returned-eq r e f g = cc

module _ {H : Type 0} (variant : Variant) where
  -- A subroutine that returns at once: RTS after JSR restores every register but the program
  -- counter, which is past the two bytes of JSR's operand, wherever the stack pointer wraps. The registers hold numbers of
  -- their width.
  pub jsr-rts :
      (c : Cpu FlatBus H)
      → c.regs.s < 256
      → c.regs.pc < 2 ^ 16
      → (execute_rts (plain flat_bus variant) (execute_jsr (plain flat_bus variant) c).1).1.regs
        ≡ record c.regs { pc = u16 (c.regs.pc + 2) }
  unfolding execute_jsr execute_rts read write tick
  jsr-rts c hs hp =
      let s = c.regs.s in
      let pc = u16 (c.regs.pc + 1) in
      let hi = u8 (pc >>> 8) in
      let lo = u8 (bit_and pc 0xff) in
      returned-eq c.regs (up-down-twice s hs) (low-back c.bus.memory s hi lo)
        (high-back c.bus.memory s hi lo hs)
      ∙ ap (λ t. record c.regs { pc = u16 (t + 1) }) (split pc (omega arith))
      ∙ ap (λ t. record c.regs { pc = t }) (omega arith)
