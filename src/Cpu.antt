-- ===== src/Cpu.antt =====
-- include/mos6502/cpu.hpp: the state of the core and the primitives that the addressing modes, the
-- operations and the instructions are made of. The template's three arguments are a record; hooks.hpp
-- is the type of its `hooks`.
pub mod Laws
pub mod Invariant
use emulator.Prelude.{
  ℕ, ◌+◌, ◌-◌, ◌*◌, ◌/◌, ◌^◌, Bool, true, false, ◌&&◌, not, if◌then◌else◌, bit_and, bit_or, u8, u16,
  u32, u64, ◌>>>◌, word,
}
use emulator.Types.{stack_base}
use emulator.Registers.{Registers, power_on, pack, unpack}
use emulator.Variant.{Variant}
use emulator.Bus.{BusLike}

-- `B` is the state of the bus, `H` that of the hooks.
pub record Cpu (B H : Type 0) : Type 0 where
  pub regs : Registers
  pub bus : B
  pub hooks : H
  pub cycles : ℕ
  pub jammed : Bool
  pub nmi_line : Bool
  pub nmi_edge : Bool
  pub irq_line : Bool
  pub pending_nmi : Bool
  pub pending_irq : Bool
  pub poll_i : Bool

-- Each hook is handed the core by reference, so it gives the core back.
pub record Hooks (B H : Type 0) : Type 0 where
  pub on_instruction : Cpu B H → ℕ → ℕ → Cpu B H
  pub on_read : Cpu B H → ℕ → ℕ → Cpu B H
  pub on_write : Cpu B H → ℕ → ℕ → Cpu B H
  pub on_interrupt : Cpu B H → Bool → Cpu B H
  pub on_jam : Cpu B H → ℕ → Cpu B H

-- `NullHooks`.
abbrev pub null_hooks : {B H : Type 0} → Hooks B H
null_hooks = record {
  on_instruction = λ c _ _. c;
  on_read = λ c _ _. c;
  on_write = λ c _ _. c;
  on_interrupt = λ c _. c;
  on_jam = λ c _. c;
}

-- The template arguments `BusT`, `VariantT` and `HooksT`.
pub record Policies (B H : Type 0) : Type 0 where
  pub bus : BusLike B
  pub variant : Variant
  pub hooks : Hooks B H

-- A member function of the core, or code that is handed the core.
abbrev pub M : Type 0 → Type 0 → Type 0 → Type 0
M B H A = Cpu B H → A × Cpu B H

infixl 5 ◌>>=◌ ◌>>◌
abbrev pub ◌>>=◌ : {B H A C : Type 0} → M B H A → (A → M B H C) → M B H C
◌>>=◌ m f c = f (m c).0 (m c).1

-- The first result is discarded.
abbrev pub ◌>>◌ : {B H A C : Type 0} → M B H A → M B H C → M B H C
◌>>◌ m k c = k (m c).1

abbrev pub pure : {B H A : Type 0} → A → M B H A
pure a c = (a, c)

abbrev pub get_regs : {B H : Type 0} → M B H Registers
get_regs c = (c.regs, c)

-- What touches the registers alone.
abbrev pub on_regs : {B H : Type 0} → (Registers → Registers) → M B H (Unit {0})
on_regs f c = (tt, record c { regs = f c.regs })

abbrev pub set_pc : {B H : Type 0} → ℕ → M B H (Unit {0})
set_pc pc = on_regs (λ r. record r { pc = pc })

-- The constructor, on a given bus and hooks.
unfoldable pub new : {B H : Type 0} → B → H → Cpu B H
new bus hooks = record {
  regs = power_on;
  bus = bus;
  hooks = hooks;
  cycles = 0;
  jammed = false;
  nmi_line = false;
  nmi_edge = false;
  irq_line = false;
  pending_nmi = false;
  pending_irq = false;
  poll_i = true;
}

unfoldable pub set_nmi : {B H : Type 0} → Bool → Cpu B H → Cpu B H
set_nmi asserted c =
    let edge = if asserted && not c.nmi_line then true else c.nmi_edge in
    record c { nmi_edge = edge; nmi_line = asserted }

unfoldable pub set_irq : {B H : Type 0} → Bool → Cpu B H → Cpu B H
set_irq asserted c = record c { irq_line = asserted }

unfoldable pub poll_immediate : {B H : Type 0} → M B H (Unit {0})
poll_immediate c = (tt, record c { poll_i = c.regs.i })

module _ {B H : Type 0} (p : Policies B H) where
  unfoldable pub tick : Cpu B H → Cpu B H
  tick c = record c { cycles = u64 (c.cycles + 1); bus = p.bus.tick c.bus }

  unfoldable pub read : ℕ → M B H ℕ
  unfolding tick
  read addr c =
      let (value, bus) = p.bus.read (tick c).bus addr in
      (value, p.hooks.on_read (record (tick c) { bus = bus }) addr value)

  -- `if (b) read(addr);`.
  unfoldable pub read_if : Bool → ℕ → M B H (Unit {0})
  unfolding read
  read_if b addr c = if b then (tt, (read addr c).1) else (tt, c)

  unfoldable pub write : ℕ → ℕ → M B H (Unit {0})
  unfolding tick
  write addr value c =
      let bus = p.bus.write (tick c).bus addr value in
      (tt, p.hooks.on_write (record (tick c) { bus = bus }) addr value)

  unfoldable pub fetch : M B H ℕ
  unfolding read
  fetch = do r ← get_regs; set_pc (u16 (r.pc + 1)); read r.pc

  unfoldable pub fetch_word : M B H ℕ
  unfolding fetch
  fetch_word = do lo ← fetch; hi ← fetch; pure (word lo hi)

  -- Pointer fetches wrap in page zero.
  unfoldable pub read_zero_page_word : ℕ → M B H ℕ
  unfolding read
  read_zero_page_word addr = do lo ← read addr; hi ← read (u8 (addr + 1)); pure (word lo hi)

  unfoldable pub push : ℕ → M B H (Unit {0})
  unfolding write
  push value = do
    r ← get_regs
    write (u16 (bit_or stack_base r.s)) value
    on_regs (λ r. record r { s = u8 (r.s + 2 ^ 8 - 1) })

  unfoldable pub pull : M B H ℕ
  unfolding read
  pull = do
    on_regs (λ r. record r { s = u8 (r.s + 1) })
    r ← get_regs
    read (u16 (bit_or stack_base r.s))

  unfoldable pub peek_stack : M B H ℕ
  unfolding read
  peek_stack = do r ← get_regs; read (u16 (bit_or stack_base r.s))

  -- `jam`, which tells the hook an opcode of 0.
  unfoldable pub set_jammed : M B H (Unit {0})
  set_jammed c = (tt, p.hooks.on_jam (record c { jammed = true }) 0)

  -- What `interruptSequence` does before the pushes.
  unfoldable pub enter_interrupt : Bool → M B H (Unit {0})
  unfolding fetch
  enter_interrupt true = do fetch; pure tt
  enter_interrupt false = do r ← get_regs; read r.pc; r' ← get_regs; read r'.pc; pure tt

  unfoldable pub interrupt_sequence : Bool → ℕ → M B H (Unit {0})
  unfolding enter_interrupt push read
  interrupt_sequence is_break vector = do
    enter_interrupt is_break
    r ← get_regs
    push (u8 (r.pc >>> 8))
    r ← get_regs
    push (u8 (bit_and r.pc 0xff))
    r ← get_regs
    push (pack is_break r)
    on_regs (λ r. record r { i = true })
    on_regs (λ r. if p.variant.clear_decimal_on_interrupt then record r { d = false } else r)
    lo ← read vector
    hi ← read (u16 (vector + 1))
    set_pc (word lo hi)
