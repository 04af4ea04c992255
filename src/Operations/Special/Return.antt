-- ===== src/Operations/Special/Return.antt =====
-- The entry of an interrupt in include/mos6502/cpu.hpp and RTI, on the flat bus: what the handler
-- returns to.
use emulator.Prelude.{
  ℕ, ◌+◌, ◌^◌, ◌<◌, ◌≡◌, refl, ◌∙◌, ap, arith, Bool, true, false, u8, u16, bit_and, ◌>>>◌, word,
  ◌==◌, if◌then◌else◌,
}
use emulator.Registers.{Registers, pack, unpack}
use emulator.Registers.Status.{unpack-pack}
use emulator.Variant.{Variant}
use emulator.Bus.Flat.{FlatBus, store, flat_bus, read, write, tick}
use emulator.Cpu.{Cpu, interrupt_sequence}
use emulator.Cpu.Laws.{plain}
use emulator.Operations.Special.{execute_rti}
use emulator.Operations.Special.Stack.{
  slot, below, pushed, store-same, store-other, split, stack_base-lem, below-lt,
}

-- Three pushes.
abbrev pushed_three : (ℕ → ℕ) → ℕ → ℕ → ℕ → ℕ → ℕ → ℕ
pushed_three m s hi lo p = store (pushed m s hi lo) (slot (below (below s))) p

-- Three slots in a row are three cells.
apart_three : (s t : ℕ) → s < 256 → t < 256 → ((s == t) ≡ false) → (slot s == slot t) ≡ false
apart_three s t h k e = rw (stack_base-lem s h, stack_base-lem t k) (ground arith)

-- The registers and the memory after the entry: the return address is on the stack.
abbrev pub return_address : Bool → ℕ → ℕ
return_address is_break pc = if is_break then u16 (pc + 1) else pc

abbrev up : ℕ → ℕ
up s = u8 (s + 1)

-- The registers that RTI ends with.
abbrev popped_regs : ℕ → ℕ → ℕ → ℕ → Registers → Registers
popped_regs s p lo hi r = record (unpack p r) { s = s; pc = word lo hi }

abbrev popped : (ℕ → ℕ) → ℕ → Registers → Registers
popped m s r =
    popped_regs (up (up (up s))) (m (slot (up s))) (m (slot (up (up s))))
      (m (slot (up (up (up s))))) r

abbrev lowest : ℕ → ℕ
lowest s = below (below (below s))

up_one : (s : ℕ) → s < 256 → up (lowest s) ≡ below (below s)
up_one s h = omega arith

up_two : (s : ℕ) → s < 256 → up (up (lowest s)) ≡ below s
up_two s h = omega arith

up_three : (s : ℕ) → s < 256 → up (up (up (lowest s))) ≡ s
up_three s h = omega arith

popped_regs-eq :
    (r : Registers) {s s' p p' lo lo' hi hi' : ℕ}
    → s ≡ s'
    → p ≡ p'
    → lo ≡ lo'
    → hi ≡ hi'
    → popped_regs s p lo hi r ≡ popped_regs s' p' lo' hi' r
popped_regs-eq r e f g k = cc

rebuilt :
    (r t : Registers) {q q' : ℕ}
    → t.a ≡ r.a
    → t.x ≡ r.x
    → t.y ≡ r.y
    → q ≡ q'
    → record t { s = r.s; pc = q; n = r.n; v = r.v; d = r.d; i = r.i; z = r.z; c = r.c }
      ≡ record r { pc = q' }
rebuilt r t ea ex ey e = cc

-- What is pulled is what was pushed.
module _ (m : ℕ → ℕ) (s hi lo p : ℕ) (h : s < 256) where
  abbrev pushes : ℕ → ℕ
  pushes = pushed_three m s hi lo p

  status-back : pushes (slot (up (lowest s))) ≡ p
  status-back =
      ap (λ t. pushes (slot t)) (up_one s h)
      ∙ store-same (pushed m s hi lo) (slot (below (below s))) p

  low_byte-back : pushes (slot (up (up (lowest s)))) ≡ lo
  low_byte-back =
      ap (λ t. pushes (slot t)) (up_two s h)
      ∙ store-other (pushed m s hi lo) (slot (below (below s))) p (slot (below s))
          (apart_three (below s) (below (below s)) (below-lt s) (below-lt (below s)) (ground arith))
      ∙ store-same (store m (slot s) hi) (slot (below s)) lo

  high_byte-back : pushes (slot (up (up (up (lowest s))))) ≡ hi
  high_byte-back =
      ap (λ t. pushes (slot t)) (up_three s h)
      ∙ store-other (pushed m s hi lo) (slot (below (below s))) p (slot s)
          (apart_three s (below (below s)) h (below-lt (below s)) (ground arith))
      ∙ store-other (store m (slot s) hi) (slot (below s)) lo (slot s)
          (apart_three s (below s) h (below-lt s) (ground arith))
      ∙ store-same m (slot s) hi

return_address-lt : (b : Bool) (pc : ℕ) → pc < 2 ^ 16 → return_address b pc < 2 ^ 16
return_address-lt b pc h = ground arith

module _ {H : Type 0} (variant : Variant) (c : Cpu FlatBus H) where
  abbrev pub entered : Bool → ℕ → Cpu FlatBus H
  entered b vector = (interrupt_sequence (plain flat_bus variant) b vector c).1

  entered-memory :
      (b : Bool) (vector : ℕ)
      → (entered b vector).bus.memory ≡ (
          let pc = return_address b c.regs.pc in
          pushed_three c.bus.memory c.regs.s (u8 (pc >>> 8)) (u8 (bit_and pc 0xff)) (pack b c.regs))
  unfolding interrupt_sequence read write tick pack
  entered-memory true vector = refl
  entered-memory false vector = refl

  entered-regs :
      (b : Bool) (vector : ℕ)
      → ((entered b vector).regs.s ≡ below (below (below c.regs.s)))
        × ((entered b vector).regs.a ≡ c.regs.a)
        × ((entered b vector).regs.x ≡ c.regs.x)
        × ((entered b vector).regs.y ≡ c.regs.y)
  unfolding interrupt_sequence read write tick
  entered-regs true vector = ground arith
  entered-regs false vector = ground arith

  rti-regs :
      (d : Cpu FlatBus H)
      → let m = d.bus.memory in
        let s = d.regs.s in (execute_rti (plain flat_bus variant) d).1.regs ≡ popped m s d.regs
  unfolding execute_rti read write tick
  rti-regs d = refl

  -- RTI after the entry of an interrupt, with a handler that does nothing: every register and
  -- every flag is the old one, also D where the variant clears it, and the program counter is that
  -- of the instruction that was interrupted; after BRK it is past the byte that follows the opcode. The
  -- stack pointer is a byte and the program counter a word.
  pub interrupt-rti :
      (is_break : Bool) (vector : ℕ)
      → c.regs.s < 256
      → c.regs.pc < 2 ^ 16
      → (execute_rti (plain flat_bus variant) (entered is_break vector)).1.regs
        ≡ record c.regs { pc = return_address is_break c.regs.pc }
  interrupt-rti b vector hs hp =
      let d = entered b vector in
      let (es, ea, ex, ey) = entered-regs b vector in
      let pc = return_address b c.regs.pc in
      let s = c.regs.s in
      let m = c.bus.memory in
      let hi = u8 (pc >>> 8) in
      let lo = u8 (bit_and pc 0xff) in
      let p = pack b c.regs in
      rti-regs d
      ∙ ap (λ s. popped d.bus.memory s d.regs) es
      ∙ ap (λ m. popped m (lowest s) d.regs) (entered-memory b vector)
      ∙ popped_regs-eq d.regs (up_three s hs) (status-back m s hi lo p hs)
          (low_byte-back m s hi lo p hs) (high_byte-back m s hi lo p hs)
      ∙ ap {A = Registers} (λ t. record t { s = s; pc = word lo hi }) (unpack-pack b c.regs d.regs)
      ∙ rebuilt c.regs d.regs ea ex ey (split pc (return_address-lt b c.regs.pc hp))
