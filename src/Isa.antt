-- ===== src/Isa.antt =====
-- The instruction set as a program sees it: what each instruction of include/mos6502 does to registers
-- and memory, without bus cycles, dummy accesses and the interrupt poll. The code has no such function;
-- it is the description that the core is held against.
pub mod Operand
pub mod Interrupt
pub mod Execute
pub mod Advance
pub mod Families
pub mod Footprint
use emulator.Prelude.{
  ℕ, ◌+◌, ◌-◌, ◌^◌, Bool, true, false, if◌then◌else◌, Option, none, some, List, [], ◌∷◌, bit_and,
  bit_or, u8, u16, ◌>>>◌, word, same_page,
}
use emulator.Types.{stack_base, reset_vector, nmi_vector, irq_vector}
use emulator.Registers.{Registers, pack, unpack, set_zn}
use emulator.Variant.{Variant}
use emulator.Bus.Flat.{store}
use emulator.Addressing.{OperandMode, IndexedMode, indexed, index_of, operand, operand_bytes}
use emulator.Operations.Reads.{apply_read}
use emulator.Operations.Writes.{write_value, unstable_regs, unstable_value}
use emulator.Operations.Shifts.{apply_rmw}
use emulator.Operations.Implied.{
  ImpliedOp, tax, tay, txa, tya, tsx, txs, inx, iny, dex, dey, clc, sec, cli, sei, clv, cld, sed,
  nop, pha, php, pla, plp,
}
use emulator.Operations.Branches.{branch_test}
use emulator.Operations.Special.{SpecialOp, brk, jsr, rts, rti, jmp_abs, jmp_ind, jam}
use emulator.Instructions.{
  Instr, read_instr, write_instr, rmw_instr, accum_instr, implied_instr, branch_instr,
  unstable_store_instr, special_instr, branch_target, unstable_address,
}
use emulator.Table.{instruction_table}
use emulator.Step.{find_row}

pub record Machine : Type 0 where
  pub regs : Registers
  pub memory : ℕ → ℕ
  pub jammed : Bool

abbrev pub on_registers : (Registers → Registers) → Machine → Machine
on_registers f m = record m { regs = f m.regs }

-- The program counter behind `n` more bytes.
abbrev pub past : ℕ → Registers → Registers
past n r = record r { pc = u16 (r.pc + n) }

abbrev pub go_to : ℕ → Machine → Machine
go_to pc = on_registers λ r. record r { pc = pc }

-- Little-endian words: anywhere, and in page zero, where the address wraps.
abbrev pub word_at : (ℕ → ℕ) → ℕ → ℕ
word_at memory addr = word (memory addr) (memory (u16 (addr + 1)))

abbrev pub zero_page_word : (ℕ → ℕ) → ℕ → ℕ
zero_page_word memory addr = word (memory addr) (memory (u8 (addr + 1)))

-- The word that an index is added to, and the address of an operand; the program counter stands
-- behind the opcode.
unfoldable pub base_of : IndexedMode → Machine → ℕ
base_of IndexedMode.absolute_x m = word_at m.memory m.regs.pc
base_of IndexedMode.absolute_y m = word_at m.memory m.regs.pc
base_of IndexedMode.indirect_y m = zero_page_word m.memory (m.memory m.regs.pc)

unfoldable pub address_of : OperandMode → Machine → ℕ
unfolding base_of index_of
address_of OperandMode.immediate m = m.regs.pc
address_of OperandMode.zero_page m = m.memory m.regs.pc
address_of OperandMode.zero_page_x m = u8 (m.memory m.regs.pc + m.regs.x)
address_of OperandMode.zero_page_y m = u8 (m.memory m.regs.pc + m.regs.y)
address_of OperandMode.absolute m = word_at m.memory m.regs.pc
address_of OperandMode.indirect_x m = zero_page_word m.memory (u8 (m.memory m.regs.pc + m.regs.x))
address_of (indexed mode) m = u16 (base_of mode m + index_of mode m.regs)

-- The registers behind the operand of a mode.
abbrev pub after : OperandMode → Machine → Registers
after mode m = past (operand_bytes (operand mode)) m.regs

abbrev pub slot : Registers → ℕ
slot r = u16 (bit_or stack_base r.s)

abbrev pub push : ℕ → Machine → Machine
push value m = record m {
  regs = record m.regs { s = u8 (m.regs.s + 2 ^ 8 - 1) };
  memory = store m.memory (slot m.regs) value;
}

-- The stack pointer behind a pull, and the byte that the next pull finds.
abbrev pub popped : Machine → Machine
popped = on_registers λ r. record r { s = u8 (r.s + 1) }

abbrev pub top : Machine → ℕ
top m = m.memory (slot (popped m).regs)

abbrev pub push_pc : Machine → Machine
push_pc m = push (u8 (bit_and m.regs.pc 0xff)) (push (u8 (m.regs.pc >>> 8)) m)

-- What BRK and the service of an interrupt have in common.
unfoldable pub interrupted : Variant → Bool → ℕ → Machine → Machine
unfolding pack
interrupted variant is_break vector m =
    let saved = push (pack is_break m.regs) (push_pc m) in
    on_registers
      (λ r. record r {
        i = true;
        d = if variant.clear_decimal_on_interrupt then false else r.d;
        pc = word_at saved.memory vector;
      })
      saved

unfoldable pub implied_meaning : ImpliedOp → Machine → Machine
unfolding set_zn pack unpack
implied_meaning tax m = on_registers (λ r. set_zn r.a (record r { x = r.a })) m
implied_meaning tay m = on_registers (λ r. set_zn r.a (record r { y = r.a })) m
implied_meaning txa m = on_registers (λ r. set_zn r.x (record r { a = r.x })) m
implied_meaning tya m = on_registers (λ r. set_zn r.y (record r { a = r.y })) m
implied_meaning tsx m = on_registers (λ r. set_zn r.s (record r { x = r.s })) m
implied_meaning txs m = on_registers (λ r. record r { s = r.x }) m
implied_meaning inx m = on_registers (λ r. set_zn (u8 (r.x + 1)) (record r { x = u8 (r.x + 1) })) m
implied_meaning iny m = on_registers (λ r. set_zn (u8 (r.y + 1)) (record r { y = u8 (r.y + 1) })) m
implied_meaning dex m =
    on_registers (λ r. set_zn (u8 (r.x + 255)) (record r { x = u8 (r.x + 255) })) m
implied_meaning dey m =
    on_registers (λ r. set_zn (u8 (r.y + 255)) (record r { y = u8 (r.y + 255) })) m
implied_meaning clc m = on_registers (λ r. record r { c = false }) m
implied_meaning sec m = on_registers (λ r. record r { c = true }) m
implied_meaning cli m = on_registers (λ r. record r { i = false }) m
implied_meaning sei m = on_registers (λ r. record r { i = true }) m
implied_meaning clv m = on_registers (λ r. record r { v = false }) m
implied_meaning cld m = on_registers (λ r. record r { d = false }) m
implied_meaning sed m = on_registers (λ r. record r { d = true }) m
implied_meaning nop m = m
implied_meaning pha m = push m.regs.a m
implied_meaning php m = push (pack true m.regs) m
implied_meaning pla m = on_registers (λ r. set_zn (top m) (record r { a = top m })) (popped m)
implied_meaning plp m = on_registers (unpack (top m)) (popped m)

unfoldable pub special_meaning : Variant → SpecialOp → Machine → Machine
unfolding interrupted unpack
special_meaning variant brk m = interrupted variant true irq_vector (on_registers (past 1) m)
special_meaning variant jsr m =
    let saved = push_pc (on_registers (past 1) m) in
    go_to (word (m.memory m.regs.pc) (saved.memory saved.regs.pc)) saved
special_meaning variant rts m = go_to (u16 (word (top m) (top (popped m)) + 1)) (popped (popped m))
special_meaning variant rti m =
    let back = on_registers (unpack (top m)) (popped m) in
    go_to (word (top back) (top (popped back))) (popped (popped back))
special_meaning variant jmp_abs m = go_to (word_at m.memory m.regs.pc) m
special_meaning variant jmp_ind m =
    let ptr = word_at m.memory m.regs.pc in
    let high = if variant.jmp_indirect_page_bug then same_page ptr (ptr + 1) else u16 (ptr + 1) in
    go_to (word (m.memory ptr) (m.memory high)) m
special_meaning variant jam m = record m { jammed = true }

-- What an instruction does, from the program counter behind its opcode.
unfoldable pub meaning : Variant → Instr → Machine → Machine
unfolding apply_read write_value apply_rmw implied_meaning branch_test branch_target unstable_regs
    unstable_value unstable_address special_meaning address_of operand_bytes base_of
meaning variant (read_instr op mode) m = record m {
  regs = apply_read variant op (m.memory (address_of mode m)) (after mode m);
}
meaning variant (write_instr op mode) m = record m {
  regs = after mode m;
  memory = store m.memory (address_of mode m) (write_value op (after mode m));
}
meaning variant (rmw_instr op mode) m =
    let addr = address_of mode m in
    let (value, regs) = apply_rmw variant op (m.memory addr) (after mode m) in
    record m { regs = regs; memory = store m.memory addr value }
meaning variant (accum_instr op mode) m =
    let (value, regs) = apply_rmw variant op m.regs.a m.regs in
    record m { regs = record regs { a = value } }
meaning variant (implied_instr op mode) m = implied_meaning op m
meaning variant (branch_instr cond mode) m =
    let r = past 1 m.regs in
    go_to (if branch_test cond r then branch_target r.pc (m.memory m.regs.pc) else r.pc) m
meaning variant (unstable_store_instr op mode) m =
    let r = after (indexed mode) m in
    let base = base_of mode m in
    let value = unstable_value op r (u8 (base >>> 8)) in
    record m {
      regs = unstable_regs op r;
      memory = store m.memory (unstable_address base (address_of (indexed mode) m) value) value;
    }
meaning variant (special_instr op mode) m = special_meaning variant op m

-- One instruction: the opcode at the program counter, and its meaning.
unfoldable pub run_one : Variant → Machine → Machine
unfolding meaning
run_one variant m =
    let next = on_registers (past 1) m in
    elim (find_row (m.memory m.regs.pc) instruction_table) [
      | none ↦ next
      | some r ↦ meaning variant r.instr next
    ]

-- What a step is asked for: an instruction, or the service of an interrupt.
pub data Request : Type 0 where
  instruction nmi irq : Request

-- A step; a machine that has jammed does nothing.
unfoldable pub step : Variant → Request → Machine → Machine
unfolding run_one interrupted
step variant request m = if m.jammed then m else elim request [
  | instruction ↦ run_one variant m
  | nmi ↦ interrupted variant false nmi_vector m
  | irq ↦ interrupted variant false irq_vector m
]

-- A reset: three bytes are left on the stack, and the program starts at the vector.
abbrev pub restarted : Machine → Machine
restarted m = record {
  regs = record m.regs {
    s = u8 (m.regs.s + 2 ^ 8 - 3);
    i = true;
    pc = word_at m.memory reset_vector;
  };
  memory = m.memory;
  jammed = false;
}

-- What happens to a machine from outside.
pub data Event : Type 0 where
  restarts : Event
  answers : Request → Event

unfoldable pub behave : Variant → List Event → Machine → Machine
unfolding step
behave variant [] m = m
behave variant (restarts ∷ events) m = behave variant events (restarted m)
behave variant (answers request ∷ events) m = behave variant events (step variant request m)
