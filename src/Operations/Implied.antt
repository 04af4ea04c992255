-- ===== src/Operations/Implied.antt =====
-- The implied operations of include/mos6502/operations.hpp: transfers, steps, flags, and the stack.
use emulator.Prelude.{◌+◌, ◌-◌, ◌^◌, true, false, u8}
use emulator.Registers.{set_zn, pack, unpack}
use emulator.Cpu.{Policies, M, ◌>>=◌, ◌>>◌, get_regs, on_regs, push, pull, peek_stack}

pub data ImpliedOp : Type 0 where
  tax tay txa tya tsx txs inx iny dex dey clc sec cli sei clv cld sed nop pha php pla plp :
      ImpliedOp

module _ {B H : Type 0} (p : Policies B H) where
  -- `Op::apply` of each implied operation.
  unfoldable pub apply_implied : ImpliedOp → M B H (Unit {0})
  unfolding set_zn pack unpack push pull peek_stack
  apply_implied tax = on_regs λ r. set_zn r.a (record r { x = r.a })
  apply_implied tay = on_regs λ r. set_zn r.a (record r { y = r.a })
  apply_implied txa = on_regs λ r. set_zn r.x (record r { a = r.x })
  apply_implied tya = on_regs λ r. set_zn r.y (record r { a = r.y })
  apply_implied tsx = on_regs λ r. set_zn r.s (record r { x = r.s })
  apply_implied txs = on_regs λ r. record r { s = r.x }
  apply_implied inx = on_regs λ r. let m = u8 (r.x + 1) in set_zn m (record r { x = m })
  apply_implied iny = on_regs λ r. let m = u8 (r.y + 1) in set_zn m (record r { y = m })
  apply_implied dex = on_regs λ r. let m = u8 (r.x + 2 ^ 8 - 1) in set_zn m (record r { x = m })
  apply_implied dey = on_regs λ r. let m = u8 (r.y + 2 ^ 8 - 1) in set_zn m (record r { y = m })
  apply_implied clc = on_regs λ r. record r { c = false }
  apply_implied sec = on_regs λ r. record r { c = true }
  apply_implied cli = on_regs λ r. record r { i = false }
  apply_implied sei = on_regs λ r. record r { i = true }
  apply_implied clv = on_regs λ r. record r { v = false }
  apply_implied cld = on_regs λ r. record r { d = false }
  apply_implied sed = on_regs λ r. record r { d = true }
  apply_implied nop = on_regs λ r. r
  apply_implied pha = do r ← get_regs; push p r.a
  apply_implied php = do r ← get_regs; push p (pack true r)
  apply_implied pla = do
    peek_stack p
    value ← pull p
    on_regs (λ r. set_zn value (record r { a = value }))
  apply_implied plp = do peek_stack p; value ← pull p; on_regs (unpack value)
