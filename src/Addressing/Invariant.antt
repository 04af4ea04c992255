-- ===== src/Addressing/Invariant.antt =====
-- The invariant of the core through the addressing modes, and the range of what they find.
use emulator.Prelude.{ℕ, ◌+◌, true, arith, u8, u16}
use emulator.Types.{Access, reading, writing, modifying, crosses_page}
use emulator.Variant.{Variant}
use emulator.Bus.{BusLike, BusLaws}
use emulator.Cpu.Laws.{plain}
use emulator.Cpu.Invariant.{
  IsWord, IsAny, Keeps, bind, after, result, weaken, get_regs-Keeps, set_pc-Keeps, read-Keeps,
  read_if-Keeps, fetch-Keeps, fetch_word-Keeps, read_zero_page_word-Keeps,
}
use emulator.Addressing.{
  IndexedMode, OperandMode, indexed, Effective, index_base, index_of, fix_up, resolve, effective,
}

-- Both addresses of a resolution are words.
abbrev pub IsResolved : Effective → Type 0
IsResolved e = IsWord e.base × IsWord e.addr

module _ {B H : Type 0} {bus : BusLike B} (laws : BusLaws bus) (variant : Variant) where
  index_base-Keeps :
      (m : IndexedMode) → Keeps {H = H} laws IsWord (index_base (plain bus variant) m)
  unfolding index_base
  index_base-Keeps IndexedMode.absolute_x = fetch_word-Keeps laws variant
  index_base-Keeps IndexedMode.absolute_y = fetch_word-Keeps laws variant
  index_base-Keeps IndexedMode.indirect_y =
      bind laws (fetch-Keeps laws variant) λ zp p. read_zero_page_word-Keeps laws variant zp

  fix_up-Keeps :
      (access : Access) (base addr : ℕ)
      → Keeps {H = H} laws IsAny (fix_up (plain bus variant) access base addr)
  unfolding fix_up
  fix_up-Keeps reading base addr = read_if-Keeps laws variant (crosses_page base addr) _
  fix_up-Keeps writing base addr = read_if-Keeps laws variant true _
  fix_up-Keeps modifying base addr = read_if-Keeps laws variant true _

  pub resolve-Keeps :
      (access : Access) (m : IndexedMode)
      → Keeps {H = H} laws IsResolved (resolve (plain bus variant) access m)
  unfolding resolve
  resolve-Keeps access m = bind laws (index_base-Keeps m) λ base p.
      bind laws (get_regs-Keeps laws) λ r v.
        let addr = u16 (base + index_of m r) in
        after laws (fix_up-Keeps access base addr)
          (result laws (record { base = base; addr = addr }) (p, omega arith))

  pub effective-Keeps :
      (access : Access) (m : OperandMode)
      → Keeps {H = H} laws IsWord (effective (plain bus variant) access m)
  unfolding effective
  effective-Keeps access OperandMode.immediate =
      bind laws (get_regs-Keeps laws)
        λ r v. after laws (set_pc-Keeps laws (u16 (r.pc + 1)) (omega arith)) (result laws r.pc v.pc)
  effective-Keeps access OperandMode.zero_page =
      weaken laws (fetch-Keeps laws variant) λ a h. omega arith
  effective-Keeps access OperandMode.zero_page_x = bind laws (fetch-Keeps laws variant) λ base p.
      after laws (read-Keeps laws variant base)
        (bind laws (get_regs-Keeps laws) λ r v. result laws (u8 (base + r.x)) (omega arith))
  effective-Keeps access OperandMode.zero_page_y = bind laws (fetch-Keeps laws variant) λ base p.
      after laws (read-Keeps laws variant base)
        (bind laws (get_regs-Keeps laws) λ r v. result laws (u8 (base + r.y)) (omega arith))
  effective-Keeps access OperandMode.absolute = fetch_word-Keeps laws variant
  effective-Keeps access OperandMode.indirect_x = bind laws (fetch-Keeps laws variant) λ zp p.
      after laws (read-Keeps laws variant zp) (
        bind laws (get_regs-Keeps laws)
          λ r v. read_zero_page_word-Keeps laws variant (u8 (zp + r.x)))
  effective-Keeps access (indexed m) =
      bind laws (resolve-Keeps access m) λ e p. result laws e.addr p.1
