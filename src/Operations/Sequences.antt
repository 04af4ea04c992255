-- ===== src/Operations/Sequences.antt =====
-- The invariant of the core through the operations that own bus cycles, implied and special.
use emulator.Prelude.{
  ℕ, suc, zero, ◌+◌, ◌-◌, ◌^◌, true, arith, u8, u16, word, same_page, ◌>>>◌, bit_and, if◌then◌else◌,
  not,
}
use emulator.Types.{irq_vector}
use emulator.Registers.{Registers, set_zn, pack, unpack}
use emulator.Variant.{Variant}
use emulator.Bus.{BusLike, BusLaws}
use emulator.Cpu.{poll_immediate, set_jammed}
use emulator.Cpu.Laws.{plain}
use emulator.Cpu.Invariant.{
  InRange, IsByte, IsAny, Keeps, bind, after, result, get_regs-Keeps, on_regs-Keeps, set_pc-Keeps,
  with_s, read-Keeps, read_if-Keeps, fetch-Keeps, fetch_word-Keeps, push-Keeps, pull-Keeps,
  peek_stack-Keeps, interrupt_sequence-Keeps,
}
use emulator.Operations.Ranges.{set_zn-InRange, unpack-InRange}
use emulator.Operations.Implied.{
  ImpliedOp, tax, tay, txa, tya, tsx, txs, inx, iny, dex, dey, pha, php, pla, plp, apply_implied,
}
use emulator.Operations.Special.{
  SpecialOp, brk, jsr, rts, rti, jmp_abs, jmp_ind, jam, execute_jsr, execute_rts, execute_rti,
  execute_jmp_ind, execute_jam, indirect_high, park, execute_special,
}

-- A new value of A, X or Y, and flags.
with_a : (r : Registers) (n : ℕ) → IsByte n → InRange r → InRange (record r { a = n })
with_a r n h v = record { a = h; x = v.x; y = v.y; s = v.s; pc = v.pc }

with_x : (r : Registers) (n : ℕ) → IsByte n → InRange r → InRange (record r { x = n })
with_x r n h v = record { a = v.a; x = h; y = v.y; s = v.s; pc = v.pc }

with_y : (r : Registers) (n : ℕ) → IsByte n → InRange r → InRange (record r { y = n })
with_y r n h v = record { a = v.a; x = v.x; y = h; s = v.s; pc = v.pc }

module _ {B H : Type 0} {bus : BusLike B} (laws : BusLaws bus) (variant : Variant) where
  pub apply_implied-Keeps :
      (op : ImpliedOp) → Keeps {H = H} laws IsAny (apply_implied (plain bus variant) op)
  unfolding apply_implied
  apply_implied-Keeps tax = on_regs-Keeps laws _ λ r v. set_zn-InRange _ (with_x r _ v.a v) r.a
  apply_implied-Keeps tay = on_regs-Keeps laws _ λ r v. set_zn-InRange _ (with_y r _ v.a v) r.a
  apply_implied-Keeps txa = on_regs-Keeps laws _ λ r v. set_zn-InRange _ (with_a r _ v.x v) r.x
  apply_implied-Keeps tya = on_regs-Keeps laws _ λ r v. set_zn-InRange _ (with_a r _ v.y v) r.y
  apply_implied-Keeps tsx = on_regs-Keeps laws _ λ r v. set_zn-InRange _ (with_x r _ v.s v) r.s
  apply_implied-Keeps txs = on_regs-Keeps laws _ λ r v. with_s r _ v.x v
  apply_implied-Keeps inx =
      on_regs-Keeps laws _ λ r v. set_zn-InRange _ (with_x r (u8 (r.x + 1)) (omega arith) v) _
  apply_implied-Keeps iny =
      on_regs-Keeps laws _ λ r v. set_zn-InRange _ (with_y r (u8 (r.y + 1)) (omega arith) v) _
  apply_implied-Keeps dex =
      on_regs-Keeps laws _
        λ r v. set_zn-InRange _ (with_x r (u8 (r.x + 2 ^ 8 - 1)) (omega arith) v) _
  apply_implied-Keeps dey =
      on_regs-Keeps laws _
        λ r v. set_zn-InRange _ (with_y r (u8 (r.y + 2 ^ 8 - 1)) (omega arith) v) _
  apply_implied-Keeps pha = bind laws (get_regs-Keeps laws) λ r v. push-Keeps laws variant r.a v.a
  apply_implied-Keeps php =
      bind laws (get_regs-Keeps laws)
        λ r v. push-Keeps laws variant (pack true r) (unfold pack in omega arith)
  apply_implied-Keeps pla = after laws (peek_stack-Keeps laws variant) (
      bind laws (pull-Keeps laws variant) λ value p.
        on_regs-Keeps laws (λ r. set_zn value (record r { a = value }))
          λ r v. set_zn-InRange _ (with_a r value p v) value)
  apply_implied-Keeps plp = after laws (peek_stack-Keeps laws variant) (
      bind laws (pull-Keeps laws variant)
        λ value p. on_regs-Keeps laws (unpack value) λ r v. unpack-InRange r v value)
  apply_implied-Keeps _ =
      on_regs-Keeps laws _ λ r v. record { a = v.a; x = v.x; y = v.y; s = v.s; pc = v.pc }

  poll_immediate-Keeps : Keeps {H = H} laws IsAny poll_immediate
  unfolding poll_immediate
  poll_immediate-Keeps = record {
    after = λ c v. (record { regs = v.regs; cycles = v.cycles; account = v.account }, tt);
  }

  set_jammed-Keeps : Keeps {H = H} laws IsAny (set_jammed (plain bus variant))
  unfolding set_jammed
  set_jammed-Keeps = record {
    after = λ c v. (record { regs = v.regs; cycles = v.cycles; account = v.account }, tt);
  }

  execute_jsr-Keeps : Keeps {H = H} laws IsAny (execute_jsr (plain bus variant))
  unfolding execute_jsr
  execute_jsr-Keeps = bind laws (fetch-Keeps laws variant) λ lo p.
      after laws (peek_stack-Keeps laws variant) (
        bind laws (get_regs-Keeps laws) λ r v.
          after laws (push-Keeps laws variant (u8 (r.pc >>> 8)) (omega arith)) (
            bind laws (get_regs-Keeps laws) λ r' v'.
              after laws (push-Keeps laws variant (u8 (bit_and r'.pc 0xff)) (omega arith)) (
                bind laws (fetch-Keeps laws variant)
                  λ hi q. set_pc-Keeps laws (word lo hi) (omega arith))))

  execute_rts-Keeps : Keeps {H = H} laws IsAny (execute_rts (plain bus variant))
  unfolding execute_rts
  execute_rts-Keeps = bind laws (get_regs-Keeps laws) λ r v.
      after laws (read-Keeps laws variant r.pc) (
        after laws (peek_stack-Keeps laws variant) (
          bind laws (pull-Keeps laws variant) λ lo p. bind laws (pull-Keeps laws variant) λ hi q.
            after laws (set_pc-Keeps laws (word lo hi) (omega arith)) (
              after laws (read-Keeps laws variant (word lo hi)) (
                on_regs-Keeps laws (λ r'. record r' { pc = u16 (r'.pc + 1) })
                  λ r' v'. record { a = v'.a; x = v'.x; y = v'.y; s = v'.s; pc = omega arith }))))

  execute_rti-Keeps : Keeps {H = H} laws IsAny (execute_rti (plain bus variant))
  unfolding execute_rti
  execute_rti-Keeps = bind laws (get_regs-Keeps laws) λ r v.
      after laws (read-Keeps laws variant r.pc) (
        after laws (peek_stack-Keeps laws variant) (
          bind laws (pull-Keeps laws variant) λ status p.
            after laws (on_regs-Keeps laws (unpack status) λ r' v'. unpack-InRange r' v' status) (
              bind laws (pull-Keeps laws variant) λ lo p.
                bind laws (pull-Keeps laws variant) λ hi q.
                  after laws (set_pc-Keeps laws (word lo hi) (omega arith)) poll_immediate-Keeps)))

  execute_jmp_ind-Keeps : Keeps {H = H} laws IsAny (execute_jmp_ind (plain bus variant))
  unfolding execute_jmp_ind indirect_high
  execute_jmp_ind-Keeps = bind laws (fetch_word-Keeps laws variant) λ ptr p.
      bind laws (read-Keeps laws variant ptr) λ lo q.
        bind laws
          (bind laws (get_regs-Keeps laws) λ r v.
            after laws (read_if-Keeps laws variant (not variant.jmp_indirect_page_bug) r.pc) (
              result laws {Q = IsAny}
                (if variant.jmp_indirect_page_bug then same_page ptr (ptr + 1) else u16 (ptr + 1))
                tt))
          λ hi_addr _.
            bind laws (read-Keeps laws variant hi_addr)
              λ hi q'. set_pc-Keeps laws (word lo hi) (omega arith)

  park-Keeps : (k : ℕ) → Keeps {H = H} laws IsAny (park (plain bus variant) k)
  unfolding park
  park-Keeps zero = result laws tt tt
  park-Keeps (suc k) = after laws (read-Keeps laws variant 0xffff) (park-Keeps k)

  execute_jam-Keeps : Keeps {H = H} laws IsAny (execute_jam (plain bus variant))
  unfolding execute_jam
  execute_jam-Keeps = bind laws (get_regs-Keeps laws) λ r v.
      after laws (read-Keeps laws variant r.pc) (
        after laws (read-Keeps laws variant 0xffff) (
          after laws (read-Keeps laws variant 0xfffe) (
            after laws (read-Keeps laws variant 0xfffe)
              (after laws (park-Keeps 6) set_jammed-Keeps))))

  pub execute_special-Keeps :
      (op : SpecialOp) → Keeps {H = H} laws IsAny (execute_special (plain bus variant) op)
  unfolding execute_special
  execute_special-Keeps brk = interrupt_sequence-Keeps laws variant true irq_vector
  execute_special-Keeps jsr = execute_jsr-Keeps
  execute_special-Keeps rts = execute_rts-Keeps
  execute_special-Keeps rti = execute_rti-Keeps
  execute_special-Keeps jmp_abs =
      bind laws (fetch_word-Keeps laws variant) λ target p. set_pc-Keeps laws target p
  execute_special-Keeps jmp_ind = execute_jmp_ind-Keeps
  execute_special-Keeps jam = execute_jam-Keeps
