-- ===== src/Isa/Families.antt =====
-- The two chip families of include/mos6502/variants.hpp, side by side on the flat bus.
use emulator.Prelude.{
  ℕ, ◌+◌, Bool, true, false, not, ◌||◌, ◌≡◌, refl, sym, ◌∙◌, ap, arith, ◌==◌, u16, word, same_page,
  some, none, bit_and, ◌/◌, ◌%◌, ◌^◌, ◌<◌, List, [], ◌∷◌, inl, inr, Option-cases, Bool-cases,
}
use emulator.Prelude.Words.{bit_and-0xff, bit_and-0xff00}
use emulator.Prelude.Bits.{bit_or_fields}
use emulator.Types.{nmi_vector, irq_vector}
use emulator.Registers.{Registers}
use emulator.Variant.{nmos6502, cmos65c02}
use emulator.Bus.Flat.{FlatBus, flat_bus, store}
use emulator.Cpu.{Cpu}
use emulator.Cpu.Laws.{plain}
use emulator.Operations.Alu.{add_with_carry, subtract_with_borrow}
use emulator.Operations.Reads.{ReadOp, apply_read}
use emulator.Operations.Shifts.{RmwOp, apply_rmw}
use emulator.Operations.Special.{SpecialOp, brk, jmp_ind}
use emulator.Addressing.{Mode}
use emulator.Instructions.{Instr, read_instr, rmw_instr, accum_instr, special_instr}
use emulator.Table.{instruction_table}
use emulator.Step.{find_row, Call, history}
use emulator.Isa.{
  Machine, word_at, address_of, after, on_registers, past, go_to, interrupted, special_meaning,
  meaning, Request, instruction, nmi, irq, step, run_one, restarted, Event, restarts, answers,
  behave,
}
use emulator.Isa.Operand.{view}
use emulator.Isa.Advance.{events, step-wedged, step-nmi, step-irq, step-instruction, history-behave}

-- Whether the families take an instruction alike: a BRK with D set leaves D set on the NMOS chip, and
-- an indirect jump through the last byte of a page finds its high byte in that page.
abbrev pub shared : Instr → Machine → Bool
shared (special_instr brk mode) m = not m.regs.d
shared (special_instr jmp_ind mode) m = not (bit_and (word_at m.memory m.regs.pc) 0xff == 0xff)
shared _ m = true

reads-agree :
    (op : ReadOp) (value : ℕ) (r : Registers)
    → apply_read nmos6502 op value r ≡ apply_read cmos65c02 op value r
unfolding apply_read add_with_carry subtract_with_borrow
reads-agree _ value r = refl

rmw-agree :
    (op : RmwOp) (value : ℕ) (r : Registers)
    → apply_rmw nmos6502 op value r ≡ apply_rmw cmos65c02 op value r
unfolding apply_rmw add_with_carry subtract_with_borrow
rmw-agree _ value r = refl

-- The successor of an address that does not end its page lies in the page.
same_page-suc :
    (p : ℕ) → p < 2 ^ 16 → not (bit_and p 0xff == 0xff) ≡ true → same_page p (p + 1) ≡ u16 (p + 1)
same_page-suc p small inside = ground (
  arith,
  bit_and-0xff p,
  bit_and-0xff (p + 1),
  bit_and-0xff00 p,
  bit_or_fields 8 (p / 256 % 256) ((p + 1) % 256),
)

or-false : (a b : Bool) → a ≡ false → a || b ≡ true → b ≡ true
or-false a b e h = ground arith

-- An entry of the handler with D clear.
interrupted-agree :
    (is_break : Bool) (vector : ℕ) (m : Machine)
    → not m.regs.d ≡ true
    → interrupted nmos6502 is_break vector m ≡ interrupted cmos65c02 is_break vector m
unfolding interrupted
interrupted-agree is_break vector m s =
    let entered = interrupted nmos6502 is_break vector m in
    let clear : m.regs.d ≡ false = ground (arith, s) in
    ap (λ d. on_registers (λ r. record r { d = d }) entered) clear

special-agree :
    (op : SpecialOp) (mode : Mode) (m : Machine)
    → shared (special_instr op mode) m ≡ true
    → special_meaning nmos6502 op m ≡ special_meaning cmos65c02 op m
unfolding special_meaning
special-agree brk mode m s = interrupted-agree true irq_vector (on_registers (past 1) m) s
special-agree jmp_ind mode m s =
    let ptr = word_at m.memory m.regs.pc in
    ap (λ high. go_to (word (m.memory ptr) (m.memory high)) m) (same_page-suc ptr (omega arith) s)
special-agree _ mode m s = refl

meanings-agree :
    (instr : Instr) (m : Machine)
    → shared instr m ≡ true
    → meaning nmos6502 instr m ≡ meaning cmos65c02 instr m
unfolding meaning
meanings-agree (read_instr op mode) m s =
    ap (λ r. record m { regs = r }) (reads-agree op (m.memory (address_of mode m)) (after mode m))
meanings-agree (rmw_instr op mode) m s =
    let addr = address_of mode m in
    ap (λ o. record m { regs = o.1; memory = store m.memory addr o.0 })
      (rmw-agree op (m.memory addr) (after mode m))
meanings-agree (accum_instr op mode) m s =
    ap (λ o. record m { regs = record o.1 { a = o.0 } }) (rmw-agree op m.regs.a m.regs)
meanings-agree (special_instr op mode) m s = special-agree op mode m s
meanings-agree _ m s = refl

-- Whether the families take a step alike.
unfoldable pub shared_step : Request → Machine → Bool
shared_step nmi m = not m.regs.d
shared_step irq m = not m.regs.d
shared_step instruction m = elim (find_row (m.memory m.regs.pc) instruction_table) [
  | none ↦ true
  | some r ↦ shared r.instr (on_registers (past 1) m)
]

run_one-agree :
    (m : Machine) → shared_step instruction m ≡ true → run_one nmos6502 m ≡ run_one cmos65c02 m
unfolding run_one shared_step
run_one-agree m s = elim (Option-cases (find_row (m.memory m.regs.pc) instruction_table)) [
  | inl e ↦ rw (run_one, e) refl
  | inr (r, e) ↦
      rw (run_one, e) (meanings-agree r.instr (on_registers (past 1) m) (rw (shared_step, e) at s))
]

step-agree :
    (q : Request) (m : Machine)
    → m.jammed ≡ false
    → shared_step q m ≡ true
    → step nmos6502 q m ≡ step cmos65c02 q m
unfolding shared_step
step-agree nmi m j s =
    step-nmi nmos6502 m j ∙ interrupted-agree false nmi_vector m s ∙ sym (step-nmi cmos65c02 m j)
step-agree irq m j s =
    step-irq nmos6502 m j ∙ interrupted-agree false irq_vector m s ∙ sym (step-irq cmos65c02 m j)
step-agree instruction m j s =
    step-instruction nmos6502 m j ∙ run_one-agree m s ∙ sym (step-instruction cmos65c02 m j)

-- A run in which each step of a machine that has not jammed is taken alike.
abbrev pub SharedRun : List Event → Machine → Type 0
SharedRun [] m = Unit {0}
SharedRun (restarts ∷ events) m = SharedRun events (restarted m)
SharedRun (answers q ∷ events) m =
    (m.jammed || shared_step q m ≡ true) × SharedRun events (step nmos6502 q m)

behave-agree :
    (events : List Event) (m : Machine)
    → SharedRun events m
    → behave nmos6502 events m ≡ behave cmos65c02 events m
unfolding behave
behave-agree [] m s = refl
behave-agree (restarts ∷ events) m s = behave-agree events (restarted m) s
behave-agree (answers q ∷ events) m (s, rest) =
    behave-agree events (step nmos6502 q m) rest
    ∙ ap (behave cmos65c02 events) (elim (Bool-cases m.jammed) [
      | inl j ↦ step-wedged nmos6502 q m j ∙ sym (step-wedged cmos65c02 q m j)
      | inr j ↦ step-agree q m j (or-false _ _ j s)
    ])

-- On the flat bus, an NMOS and a CMOS core that show the same registers, memory and jam show the same
-- after any history of calls, whatever cycles they spend, if both are asked for the same interrupts at
-- the same steps, and no step of a core that has not jammed meets one of the differences: a BRK or an
-- interrupt with D set, or an indirect jump through the last byte of a page. The undocumented opcodes
-- are none of them.
pub families-agree :
    {H : Type 0} (ks : List Call) (c c' : Cpu FlatBus H)
    → view c ≡ view c'
    → events nmos6502 ks c ≡ events cmos65c02 ks c'
    → SharedRun (events nmos6502 ks c) (view c)
    → view (history (plain flat_bus nmos6502) ks c)
      ≡ view (history (plain flat_bus cmos65c02) ks c')
families-agree ks c c' same asked shared_run =
    history-behave nmos6502 ks c
    ∙ behave-agree (events nmos6502 ks c) (view c) shared_run
    ∙ (λ i. behave cmos65c02 (asked i) (same i))
    ∙ sym (history-behave cmos65c02 ks c')
