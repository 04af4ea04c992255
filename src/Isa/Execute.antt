-- ===== src/Isa/Execute.antt =====
-- The core's instructions on the flat bus, beside their meaning.
use emulator.Prelude.{
  ℕ, ◌+◌, Bool, true, false, ◌≡◌, refl, ◌∙◌, ap, arith, u8, ◌>>>◌, u16, u64, word, not, if_cases,
  same_page, if◌then◌else◌,
}
use emulator.Types.{reading, writing, modifying, crosses_page, irq_vector}
use emulator.Registers.{set_zn}
use emulator.Variant.{Variant}
use emulator.Bus.Flat.{FlatBus, flat_bus, store}
use emulator.Bus.Flat
use emulator.Cpu.{
  Cpu, Policies, read_if, fetch, fetch_word, read_zero_page_word, read, write, tick, pull,
  peek_stack, set_jammed, poll_immediate, interrupt_sequence, enter_interrupt,
}
use emulator.Cpu
use emulator.Cpu.Laws.{plain}
use emulator.Addressing.{Mode, OperandMode, IndexedMode, indexed, resolve, effective}
use emulator.Operations.Reads.{ReadOp, apply_read}
use emulator.Operations.Writes.{WriteOp, unstable_value, unstable_regs, write_value, UnstableOp}
use emulator.Operations.Shifts.{RmwOp, apply_rmw}
use emulator.Operations.Implied.{ImpliedOp, tax, dex, dey, apply_implied}
use emulator.Operations.Branches.{Cond, branch_test}
use emulator.Operations.Special.{
  SpecialOp, brk, jsr, rts, rti, jmp_abs, jmp_ind, jam, execute_special, execute_brk, execute_jsr,
  execute_rts, execute_rti, execute_jmp_abs, execute_jmp_ind, execute_jam, park,
}
use emulator.Instructions.{
  Instr, read_instr, write_instr, rmw_instr, accum_instr, implied_instr, branch_instr,
  unstable_store_instr, special_instr, execute, execute_read, execute_write, execute_rmw,
  execute_accum, execute_implied, execute_branch, execute_unstable_store, dummy_access, take_branch,
  branch_target, unstable_address,
}
use emulator.Isa.{Machine, meaning, address_of, base_of, go_to, implied_meaning, special_meaning}
use emulator.Isa.Operand.{view, read_if-view, resolve-view, resolved}
use emulator.Isa.Interrupt.{interrupt_sequence-view}

store_twice : (m : ℕ → ℕ) (addr v w : ℕ) → store (store m addr v) addr w ≡ store m addr w
store_twice m addr v w = λ i at. once at i
  where
    once : (at : ℕ) → store (store m addr v) addr w at ≡ store m addr w at
    once at = ground arith

-- A read-modify-write operation on the byte `old`, at an address.
abbrev modified : Variant → RmwOp → ℕ → ℕ → Machine → Machine
modified variant op old addr m =
    let (value, regs) = apply_rmw variant op old m.regs in
    record m { regs = regs; memory = store m.memory addr value }

one_way :
    (b : Bool) (target next : ℕ) (m : Machine)
    → (if b then go_to target (go_to next m) else go_to next m)
      ≡ go_to (if b then target else next) m
one_way true target next m = refl
one_way false target next m = refl

module _ {H : Type 0} (variant : Variant) where
  abbrev core : Policies FlatBus H
  core = plain flat_bus variant

  execute_read-meaning :
      (op : ReadOp) (mode : OperandMode) (c : Cpu FlatBus H)
      → view (execute_read core op mode c).1 ≡ meaning variant (read_instr op mode) (view c)
  unfolding execute_read meaning read tick Flat.read Flat.tick
  execute_read-meaning op mode c =
      resolved variant (λ addr m. record m { regs = apply_read variant op (m.memory addr) m.regs })
        reading mode c

  execute_write-meaning :
      (op : WriteOp) (mode : OperandMode) (c : Cpu FlatBus H)
      → view (execute_write core op mode c).1 ≡ meaning variant (write_instr op mode) (view c)
  unfolding execute_write meaning write tick Flat.write Flat.tick
  execute_write-meaning op mode c =
      resolved variant (λ addr m. record m { memory = store m.memory addr (write_value op m.regs) })
        writing mode c

  -- What the dummy access does is not seen behind the write.
  dummy_access-unseen :
      (op : RmwOp) (old addr : ℕ) (c : Cpu FlatBus H)
      → modified variant op old addr (
          view
            (dummy_access core addr old
              (record c { bus = Flat.tick c.bus; cycles = u64 (c.cycles + 1) })).1)
        ≡ modified variant op old addr (view c)
  unfolding dummy_access read write tick Flat.read Flat.write Flat.tick
  dummy_access-unseen op old addr c =
      if_cases
        (λ (t : Unit {0} × Cpu FlatBus H).
          modified variant op old addr (view t.1) ≡ modified variant op old addr (view c))
        variant.rmw_dummy_write_back _ _
        (λ _.
          ap (λ t. record (modified variant op old addr (view c)) { memory = t })
            (store_twice c.bus.memory addr old (apply_rmw variant op old c.regs).0))
        (λ _. refl)

  execute_rmw-meaning :
      (op : RmwOp) (mode : OperandMode) (c : Cpu FlatBus H)
      → view (execute_rmw core op mode c).1 ≡ meaning variant (rmw_instr op mode) (view c)
  unfolding execute_rmw meaning read write tick Flat.read Flat.write Flat.tick
  execute_rmw-meaning op mode c =
      let (addr, c') = effective core modifying mode c in
      dummy_access-unseen op (c'.bus.memory addr) addr c'
      ∙ resolved variant (λ addr m. modified variant op (m.memory addr) addr m) modifying mode c

  take_branch-view :
      (from target : ℕ) (c : Cpu FlatBus H)
      → view (take_branch core from target c).1 ≡ go_to target (view c)
  unfolding take_branch read tick Flat.read Flat.tick
  take_branch-view from target c = ap (go_to target) (
      read_if-view variant (crosses_page from target) (same_page from target)
        (Cpu.read core from c).1)

  branched :
      (b : Bool) (from target : ℕ) (c : Cpu FlatBus H)
      → view (if b then take_branch core from target c else (tt, c)).1
        ≡ (if b then go_to target (view c) else view c)
  branched true from target c = take_branch-view from target c
  branched false from target c = refl

  execute_branch-meaning :
      (cond : Cond) (mode : Mode) (c : Cpu FlatBus H)
      → view (execute_branch core cond c).1 ≡ meaning variant (branch_instr cond mode) (view c)
  unfolding execute_branch take_branch meaning fetch read read_if tick Flat.read Flat.tick
  execute_branch-meaning cond mode c =
      let (offset, c') = fetch core c in
      branched (branch_test cond c'.regs) c'.regs.pc (branch_target c'.regs.pc offset) c'
      ∙ one_way (branch_test cond c'.regs) (branch_target c'.regs.pc offset) c'.regs.pc (view c)

  execute_unstable_store-meaning :
      (op : UnstableOp) (mode : IndexedMode) (c : Cpu FlatBus H)
      → view (execute_unstable_store core op mode c).1
        ≡ meaning variant (unstable_store_instr op mode) (view c)
  unfolding execute_unstable_store meaning write tick Flat.write Flat.tick
  execute_unstable_store-meaning op mode c =
      let (e, c') = resolve core writing mode c in
      let (base, addr, left) = resolve-view variant writing mode c in
      let f : ℕ → ℕ → Machine → Machine = λ base addr m.
        let value = unstable_value op m.regs (u8 (base >>> 8)) in
        record m {
          regs = unstable_regs op m.regs;
          memory = store m.memory (unstable_address base addr value) value;
        } in
      ap (λ b. f b e.addr (view c')) base
      ∙ ap (λ a. f (base_of mode (view c)) a (view c')) addr
      ∙ ap (f (base_of mode (view c)) (address_of (indexed mode) (view c))) left

  execute_implied-meaning :
      (op : ImpliedOp) (mode : Mode) (c : Cpu FlatBus H)
      → view (execute_implied core op c).1 ≡ meaning variant (implied_instr op mode) (view c)
  unfolding execute_implied apply_implied meaning implied_meaning Cpu.push pull peek_stack write
      read tick Flat.write Flat.read Flat.tick
  execute_implied-meaning tax mode c = refl
  execute_implied-meaning dex mode c =
      ap (λ t. record (view c) { regs = set_zn t (record c.regs { x = t }) }) (omega arith)
  execute_implied-meaning dey mode c =
      ap (λ t. record (view c) { regs = set_zn t (record c.regs { y = t }) }) (omega arith)
  execute_implied-meaning _ mode c = refl

  execute_special-meaning :
      (op : SpecialOp) (mode : Mode) (c : Cpu FlatBus H)
      → view (execute_special core op c).1 ≡ meaning variant (special_instr op mode) (view c)
  unfolding execute_special execute_brk execute_jsr execute_rts execute_rti execute_jmp_abs
      execute_jmp_ind execute_jam park set_jammed meaning special_meaning Cpu.push pull peek_stack
      poll_immediate fetch fetch_word write read tick Flat.write Flat.read Flat.tick
  execute_special-meaning brk mode c = interrupt_sequence-view variant true irq_vector c
  execute_special-meaning jsr mode c = refl
  execute_special-meaning rts mode c = refl
  execute_special-meaning rti mode c = refl
  execute_special-meaning jmp_abs mode c = refl
  execute_special-meaning jmp_ind mode c =
      let (ptr, c1) = fetch_word core c in
      let (lo, c2) = Cpu.read core ptr c1 in
      let bug = variant.jmp_indirect_page_bug in
      let high = if bug then same_page ptr (ptr + 1) else u16 (ptr + 1) in
      ap (λ m. go_to (word lo (m.memory high)) m) (read_if-view variant (not bug) c2.regs.pc c2)
  execute_special-meaning jam mode c = refl

  execute_accum-meaning :
      (op : RmwOp) (mode : Mode) (c : Cpu FlatBus H)
      → view (execute_accum core op c).1 ≡ meaning variant (accum_instr op mode) (view c)
  unfolding execute_accum meaning read tick Flat.read Flat.tick
  execute_accum-meaning op mode c = refl

  pub execute-meaning :
      (i : Instr) (c : Cpu FlatBus H) → view (execute core i c).1 ≡ meaning variant i (view c)
  unfolding execute
  execute-meaning (read_instr op mode) c = execute_read-meaning op mode c
  execute-meaning (write_instr op mode) c = execute_write-meaning op mode c
  execute-meaning (rmw_instr op mode) c = execute_rmw-meaning op mode c
  execute-meaning (accum_instr op mode) c = execute_accum-meaning op mode c
  execute-meaning (implied_instr op mode) c = execute_implied-meaning op mode c
  execute-meaning (branch_instr cond mode) c = execute_branch-meaning cond mode c
  execute-meaning (unstable_store_instr op mode) c = execute_unstable_store-meaning op mode c
  execute-meaning (special_instr op mode) c = execute_special-meaning op mode c
