-- ===== src/Operations/Special.antt =====
-- The control flow of include/mos6502/operations.hpp, whose operations own their bus cycles.
pub mod Return
pub mod Stack
use emulator.Prelude.{
  ℕ, zero, suc, ◌+◌, ◌/◌, ◌^◌, Bool, true, false, not, if◌then◌else◌, bit_and, u8, u16, ◌>>>◌, word,
  same_page,
}
use emulator.Types.{irq_vector}
use emulator.Registers.{Registers, unpack}
use emulator.Variant.{Variant}
use emulator.Cpu.{
  Policies, M, ◌>>=◌, ◌>>◌, pure, get_regs, set_pc, on_regs, read, read_if, fetch, fetch_word, push,
  pull, peek_stack, poll_immediate, set_jammed, interrupt_sequence,
}

pub data SpecialOp : Type 0 where
  brk jsr rts rti jmp_abs jmp_ind jam : SpecialOp

module _ {B H : Type 0} (p : Policies B H) where
  unfoldable pub execute_brk : M B H (Unit {0})
  unfolding interrupt_sequence
  execute_brk = interrupt_sequence p true irq_vector

  unfoldable pub execute_jsr : M B H (Unit {0})
  unfolding fetch peek_stack push
  execute_jsr = do
    lo ← fetch p
    peek_stack p
    r ← get_regs
    push p (u8 (r.pc >>> 8))
    r' ← get_regs
    push p (u8 (bit_and r'.pc 0xff))
    hi ← fetch p
    set_pc (word lo hi)

  unfoldable pub execute_rts : M B H (Unit {0})
  unfolding read peek_stack pull
  execute_rts = do
    r ← get_regs
    read p r.pc
    peek_stack p
    lo ← pull p
    hi ← pull p
    set_pc (word lo hi)
    read p (word lo hi)
    on_regs (λ r'. record r' { pc = u16 (r'.pc + 1) })

  unfoldable pub execute_rti : M B H (Unit {0})
  unfolding read peek_stack pull unpack poll_immediate
  execute_rti = do
    r ← get_regs
    read p r.pc
    peek_stack p
    status ← pull p
    on_regs (unpack status)
    lo ← pull p
    hi ← pull p
    set_pc (word lo hi)
    poll_immediate

  unfoldable pub execute_jmp_abs : M B H (Unit {0})
  unfolding fetch_word
  execute_jmp_abs = do target ← fetch_word p; set_pc target

  -- The address of the high byte of the pointer: the NMOS part stays in the page, the other pays a
  -- read for leaving it.
  unfoldable pub indirect_high : ℕ → M B H ℕ
  unfolding read_if
  indirect_high ptr = do
    r ← get_regs
    read_if p (not p.variant.jmp_indirect_page_bug) r.pc
    pure (if p.variant.jmp_indirect_page_bug then same_page ptr (ptr + 1) else u16 (ptr + 1))

  unfoldable pub execute_jmp_ind : M B H (Unit {0})
  unfolding fetch_word read indirect_high
  execute_jmp_ind = do
    ptr ← fetch_word p
    lo ← read p ptr
    hi_addr ← indirect_high ptr
    hi ← read p hi_addr
    set_pc (word lo hi)

  -- `for (int k = 0; k < 6; ++k) c.read(0xFFFF)`, with the rounds left.
  unfoldable pub park : ℕ → M B H (Unit {0})
  unfolding read
  park zero = pure tt
  park (suc k) = do read p 0xffff; park k

  unfoldable pub execute_jam : M B H (Unit {0})
  unfolding read park set_jammed
  execute_jam = do
    r ← get_regs
    read p r.pc
    read p 0xffff
    read p 0xfffe
    read p 0xfffe
    park 6
    set_jammed p

  -- `Op::execute` of each.
  unfoldable pub execute_special : SpecialOp → M B H (Unit {0})
  unfolding execute_brk execute_jsr execute_rts execute_rti execute_jmp_abs execute_jmp_ind
      execute_jam
  execute_special brk = execute_brk
  execute_special jsr = execute_jsr
  execute_special rts = execute_rts
  execute_special rti = execute_rti
  execute_special jmp_abs = execute_jmp_abs
  execute_special jmp_ind = execute_jmp_ind
  execute_special jam = execute_jam
