-- ===== src/Isa/Operand.antt =====
-- Where the core's instructions find their operands on the flat bus, beside the instruction set.
use emulator.Prelude.{ℕ, Bool, true, false, ◌≡◌, refl, ◌∙◌, ap, arith, same_page}
use emulator.Types.{Access, reading, crosses_page}
use emulator.Variant.{Variant}
use emulator.Bus.Flat.{FlatBus, flat_bus, store}
use emulator.Bus.Flat
use emulator.Cpu.{Cpu, Policies, read_if, fetch, fetch_word, read_zero_page_word, read, tick}
use emulator.Cpu.Laws.{plain}
use emulator.Addressing.{
  OperandMode, IndexedMode, immediate, indexed, absolute, absolute_x, absolute_y, indirect_y,
  index_base, index_of, fix_up, resolve, effective, operand_bytes,
}
use emulator.Isa.{Machine, address_of, base_of, after, past, go_to}

-- What a program sees of a core.
abbrev pub view : {H : Type 0} → Cpu FlatBus H → Machine
view c = record { regs = c.regs; memory = c.bus.memory; jammed = c.jammed }

-- Two fetches of a word.
two_past :
    (m : Machine) → record m { regs = past 1 (past 1 m.regs) } ≡ record m { regs = past 2 m.regs }
two_past m = ap (λ pc. go_to pc m) (omega arith)

module _ {H : Type 0} (variant : Variant) where
  abbrev core : Policies FlatBus H
  core = plain flat_bus variant

  pub read_if-view :
      (b : Bool) (addr : ℕ) (c : Cpu FlatBus H) → view (read_if core b addr c).1 ≡ view c
  unfolding read_if read tick Flat.read Flat.tick
  read_if-view true addr c = refl
  read_if-view false addr c = refl

  fix_up-view :
      (access : Access) (base addr : ℕ) (c : Cpu FlatBus H)
      → view (fix_up core access base addr c).1 ≡ view c
  unfolding fix_up
  fix_up-view reading base addr c = read_if-view (crosses_page base addr) (same_page base addr) c
  fix_up-view _ base addr c = read_if-view true (same_page base addr) c

  -- An indexed resolution: the word, the address, and what it leaves.
  pub resolve-view :
      (access : Access) (mode : IndexedMode) (c : Cpu FlatBus H)
      → let (e, c') = resolve core access mode c in
        (e.base ≡ base_of mode (view c))
        × (e.addr ≡ address_of (indexed mode) (view c))
        × (view c' ≡ record (view c) { regs = after (indexed mode) (view c) })
  unfolding resolve base_of address_of index_base index_of operand_bytes fetch fetch_word
      read_zero_page_word read tick Flat.read Flat.tick
  resolve-view access absolute_x c = (refl, refl, fix_up-view access _ _ _ ∙ two_past (view c))
  resolve-view access absolute_y c = (refl, refl, fix_up-view access _ _ _ ∙ two_past (view c))
  resolve-view access indirect_y c = (refl, refl, fix_up-view access _ _ _)

  effective-view :
      (access : Access) (mode : OperandMode) (c : Cpu FlatBus H)
      → let (addr, c') = effective core access mode c in
        (addr ≡ address_of mode (view c))
        × (view c' ≡ record (view c) { regs = after mode (view c) })
  unfolding effective address_of operand_bytes fetch fetch_word read_zero_page_word read tick
      Flat.read Flat.tick
  effective-view access immediate c = (refl, refl)
  effective-view access (indexed mode) c =
      let (base, addr, left) = resolve-view access mode c in (addr, left)
  effective-view access absolute c = (refl, two_past (view c))
  effective-view access _ c = (refl, refl)

  -- What follows the resolution, as a function of the address and what a program sees.
  pub resolved :
      (f : ℕ → Machine → Machine) (access : Access) (mode : OperandMode) (c : Cpu FlatBus H)
      → let (addr, c') = effective core access mode c in
        f addr (view c')
        ≡ f (address_of mode (view c)) (record (view c) { regs = after mode (view c) })
  resolved f access mode c =
      let (e, left) = effective-view access mode c in
      let c' = (effective core access mode c).1 in
      ap (λ a. f a (view c')) e ∙ ap (f (address_of mode (view c))) left
