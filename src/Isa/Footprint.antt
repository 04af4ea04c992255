-- ===== src/Isa/Footprint.antt =====
-- Which cells of the memory a step may write.
use emulator.Prelude.{
  ℕ, zero, suc, ◌+◌, ◌-◌, ◌^◌, Bool, true, false, ◌||◌, ◌≡◌, refl, ◌∙◌, ap, arith, if_false, ◌==◌,
  u8, ◌>>>◌, bit_and, none, some, inl, inr, Option-cases, Bool-cases,
}
use emulator.Types.{nmi_vector, irq_vector}
use emulator.Registers.{Registers, pack}
use emulator.Variant.{Variant}
use emulator.Bus.Flat.{FlatBus, flat_bus}
use emulator.Cpu.{Cpu}
use emulator.Cpu.Laws.{plain}
use emulator.Addressing.{Mode, indexed}
use emulator.Operations.Implied.{ImpliedOp, pha, php}
use emulator.Operations.Special.{SpecialOp, brk, jsr}
use emulator.Operations.Writes.{unstable_value}
use emulator.Instructions.{
  Instr, write_instr, rmw_instr, implied_instr, unstable_store_instr, special_instr,
  unstable_address,
}
use emulator.Table.{instruction_table}
use emulator.Step.{find_row, advance}
use emulator.Isa.{
  Machine, Request, push, push_pc, instruction, nmi, irq, slot, base_of, address_of, after,
  on_registers, past, interrupted, implied_meaning, special_meaning, meaning, run_one, step,
}
use emulator.Isa.Operand.{view}
use emulator.Isa.Advance.{request, advance-step, step-wedged, step-nmi, step-irq, step-instruction}

-- The cells that the next `k` pushes write.
abbrev pub stacked : ℕ → Registers → ℕ → Bool
stacked zero r at = false
stacked (suc k) r at = (at == slot r) || stacked k (record r { s = u8 (r.s + 2 ^ 8 - 1) }) at

-- The cells that an instruction writes: the operand of a store or of a read-modify-write, and the
-- stack under a push, a JSR and a BRK.
abbrev pub writes : Instr → Machine → ℕ → Bool
writes (write_instr op mode) m at = at == address_of mode m
writes (rmw_instr op mode) m at = at == address_of mode m
writes (implied_instr pha mode) m at = stacked 1 m.regs at
writes (implied_instr php mode) m at = stacked 1 m.regs at
writes (unstable_store_instr op mode) m at =
    let base = base_of mode m in
    let value = unstable_value op (after (indexed mode) m) (u8 (base >>> 8)) in
    at == unstable_address base (address_of (indexed mode) m) value
writes (special_instr jsr mode) m at = stacked 2 m.regs at
writes (special_instr brk mode) m at = stacked 3 m.regs at
writes _ m at = false

-- The cells that a step writes.
unfoldable pub touches : Request → Machine → ℕ → Bool
touches nmi m at = stacked 3 m.regs at
touches irq m at = stacked 3 m.regs at
touches instruction m at = elim (find_row (m.memory m.regs.pc) instruction_table) [
  | none ↦ false
  | some r ↦ writes r.instr (on_registers (past 1) m) at
]

or-left : (a b : Bool) → a || b ≡ false → a ≡ false
or-left a b h = ground arith

or-right : (a b : Bool) → a || b ≡ false → b ≡ false
or-right a b h = ground arith

-- A push writes the first of the cells, and the others stay.
push-confined :
    (k value : ℕ) (m : Machine) (at : ℕ)
    → stacked (suc k) m.regs at ≡ false
    → ((push value m).memory at ≡ m.memory at) × (stacked k (push value m).regs at ≡ false)
push-confined k value m at h =
    (if_false value (m.memory at) (or-left _ _ h), or-right (at == slot m.regs) _ h)

push_pc-confined :
    (k : ℕ) (m : Machine) (at : ℕ)
    → stacked (suc (suc k)) m.regs at ≡ false
    → ((push_pc m).memory at ≡ m.memory at) × (stacked k (push_pc m).regs at ≡ false)
push_pc-confined k m at h =
    let high = u8 (m.regs.pc >>> 8) in
    let (e, rest) = push-confined (suc k) high m at h in
    let (e', rest') = push-confined k (u8 (bit_and m.regs.pc 0xff)) (push high m) at rest in
    (e' ∙ e, rest')

interrupted-confined :
    (variant : Variant) (is_break : Bool) (vector : ℕ) (m : Machine) (at : ℕ)
    → stacked 3 m.regs at ≡ false
    → (interrupted variant is_break vector m).memory at ≡ m.memory at
unfolding interrupted
interrupted-confined variant is_break vector m at h =
    let (e, rest) = push_pc-confined 1 m at h in
    (push-confined 0 (pack is_break m.regs) (push_pc m) at rest).0 ∙ e

implied-confined :
    (op : ImpliedOp) (mode : Mode) (m : Machine) (at : ℕ)
    → writes (implied_instr op mode) m at ≡ false
    → (implied_meaning op m).memory at ≡ m.memory at
unfolding implied_meaning
implied-confined pha mode m at h = (push-confined 0 m.regs.a m at h).0
implied-confined php mode m at h = (push-confined 0 (pack true m.regs) m at h).0
implied-confined _ mode m at h = refl

special-confined :
    (variant : Variant) (op : SpecialOp) (mode : Mode) (m : Machine) (at : ℕ)
    → writes (special_instr op mode) m at ≡ false
    → (special_meaning variant op m).memory at ≡ m.memory at
unfolding special_meaning
special-confined variant brk mode m at h =
    interrupted-confined variant true irq_vector (on_registers (past 1) m) at h
special-confined variant jsr mode m at h = (push_pc-confined 0 (on_registers (past 1) m) at h).0
special-confined variant _ mode m at h = refl

meaning-confined :
    (variant : Variant) (i : Instr) (m : Machine) (at : ℕ)
    → writes i m at ≡ false
    → (meaning variant i m).memory at ≡ m.memory at
unfolding meaning
meaning-confined variant (write_instr op mode) m at h = if_false _ _ h
meaning-confined variant (rmw_instr op mode) m at h = if_false _ _ h
meaning-confined variant (implied_instr op mode) m at h = implied-confined op mode m at h
meaning-confined variant (unstable_store_instr op mode) m at h = if_false _ _ h
meaning-confined variant (special_instr op mode) m at h = special-confined variant op mode m at h
meaning-confined variant _ m at h = refl

run_one-confined :
    (variant : Variant) (m : Machine) (at : ℕ)
    → touches instruction m at ≡ false
    → (run_one variant m).memory at ≡ m.memory at
unfolding touches run_one
run_one-confined variant m at h =
    elim (Option-cases (find_row (m.memory m.regs.pc) instruction_table)) [
      | inl e ↦ rw (run_one, e) refl
      | inr (r, e) ↦
          rw (run_one, e)
            (meaning-confined variant r.instr (on_registers (past 1) m) at (rw (touches, e) at h))
    ]

step-confined :
    (variant : Variant) (q : Request) (m : Machine) (at : ℕ)
    → touches q m at ≡ false
    → (step variant q m).memory at ≡ m.memory at
unfolding touches
step-confined variant q m at h = elim (Bool-cases m.jammed) [
  | inl j ↦ ap (λ d. d.memory at) (step-wedged variant q m j)
  | inr j ↦ running q h j
]
  where
    running :
        (q : Request)
        → touches q m at ≡ false
        → m.jammed ≡ false
        → (step variant q m).memory at ≡ m.memory at
    running nmi h j =
        ap (λ d. d.memory at) (step-nmi variant m j)
        ∙ interrupted-confined variant false nmi_vector m at h
    running irq h j =
        ap (λ d. d.memory at) (step-irq variant m j)
        ∙ interrupted-confined variant false irq_vector m at h
    running instruction h j =
        ap (λ d. d.memory at) (step-instruction variant m j) ∙ run_one-confined variant m at h

-- A step on the flat bus writes nowhere but where its instruction says: a cell that is neither the
-- operand of a store or of a read-modify-write, nor one of the cells under a push, a JSR (two), a BRK
-- or a service of an interrupt (three each), holds the same byte after the step, on either variant.
pub advance-confined :
    {H : Type 0} (variant : Variant) (c : Cpu FlatBus H) (at : ℕ)
    → touches (request c) (view c) at ≡ false
    → (advance (plain flat_bus variant) c).bus.memory at ≡ c.bus.memory at
advance-confined variant c at h =
    ap (λ m. m.memory at) (advance-step variant c) ∙ step-confined variant (request c) (view c) at h
