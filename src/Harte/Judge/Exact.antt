-- ===== src/Harte/Judge/Exact.antt =====
-- What it means that a test case passes.
use emulator.Prelude.{
  ℕ, ◌<◌, Bool, true, false, ◌&&◌, List, [], ◌∷◌, ◌≡◌, refl, sym, ap, ◌∙◌, ◌↔◌, arith, ◌==◌, ==_iff,
  bit_and, bit_or, same_iff, length, all_below, all_below_sound,
}
use emulator.Registers.{Registers, pack, unpack, power_on}
use emulator.Registers.Status.{unpack-pack, pack-unpack}
use emulator.Bus.Recording.{CycleRecord, TestBus}
use emulator.Cpu.{Cpu}
use emulator.Json.Reading.{Each}
use emulator.Harte.Case.{State, TestCase}
use emulator.Harte.Judge.{status_mask, same_cells, same_entry, same_entries, same_registers, passes}

-- A memory cell that holds what the case says.
abbrev pub Holds : TestBus → ℕ × ℕ → Type 0
Holds bus (addr, value) = bus.memory addr ≡ value

-- A core in the final state of a case, with the bus accesses of the case behind it. The flags are
-- those of the byte P.
pub record Matches (test : TestCase) (cpu : Cpu TestBus (Unit {0})) : Type 0 where
  pub pc : cpu.regs.pc ≡ test.final.pc
  pub a : cpu.regs.a ≡ test.final.a
  pub x : cpu.regs.x ≡ test.final.x
  pub y : cpu.regs.y ≡ test.final.y
  pub s : cpu.regs.s ≡ test.final.s
  pub flags : unpack test.final.p cpu.regs ≡ cpu.regs
  pub memory : Each (Holds cpu.bus) test.final.ram
  pub log : cpu.bus.log ≡ test.cycles

and_iff :
    {P Q : Type 0} {a b : Bool} → (a ≡ true) ↔ P → (b ≡ true) ↔ Q → ((a && b) ≡ true) ↔ (P × Q)
and_iff {a = true} f g = (λ h. (f.0 refl, g.0 h), λ pq. g.1 pq.1)
and_iff {a = false} f g = (λ h. absurd (ground (arith, h)), λ pq. f.1 pq.0)

same_cells_iff :
    (cells : List (ℕ × ℕ)) (bus : TestBus) → (same_cells cells bus ≡ true) ↔ Each (Holds bus) cells
unfolding same_cells
same_cells_iff [] bus = (λ _. tt, λ _. refl)
same_cells_iff ((addr, value) ∷ cells) bus =
    and_iff (==_iff (bus.memory addr) value) (same_cells_iff cells bus)

entry_eq :
    {got want : CycleRecord}
    → got.addr ≡ want.addr
    → got.value ≡ want.value
    → got.is_write ≡ want.is_write
    → got ≡ want
entry_eq addr value is_write = λ i. record { addr = addr i; value = value i; is_write = is_write i }

same_entry_iff : (got want : CycleRecord) → (same_entry got want ≡ true) ↔ (got ≡ want)
same_entry_iff got want =
    let iff =
      and_iff (==_iff got.addr want.addr)
        (and_iff (==_iff got.value want.value) (same_iff got.is_write want.is_write)) in
    (
      λ h. let (addr, (value, is_write)) = iff.0 h in entry_eq addr value is_write,
      λ e. iff.1 (ap (λ t. t.addr) e, (ap (λ t. t.value) e, ap (λ t. t.is_write) e)),
    )

-- Two logs of one length agree in each entry exactly when they are one log.
entries_iff :
    (log cycles : List CycleRecord)
    → length log ≡ length cycles
    → (same_entries log cycles ≡ true) ↔ (log ≡ cycles)
unfolding same_entries
entries_iff [] [] e = ground arith
entries_iff [] (want ∷ cycles) e = absurd (omega (arith, e))
entries_iff (got ∷ log) [] e = absurd (omega (arith, e))
entries_iff (got ∷ log) (want ∷ cycles) e =
    let iff = and_iff (same_entry_iff got want) (entries_iff log cycles (omega (arith, e))) in
    (λ h. let (first, rest) = iff.0 h in rw (first, rest) refl, λ h. iff.1 (cc h, cc h))

same_log_iff :
    (log cycles : List CycleRecord)
    → ((length log == length cycles && same_entries log cycles) ≡ true) ↔ (log ≡ cycles)
same_log_iff log cycles =
    let lengths = and_iff (==_iff (length log) (length cycles)) (λ h. h, λ h. h) in
    (
      λ h. let (l, e) = lengths.0 h in (entries_iff log cycles l).0 e,
      λ h. lengths.1 (ap length h, (entries_iff log cycles (ap length h)).1 h),
    )

pack_lt : (b : Bool) (r : Registers) → pack b r < 256
unfolding pack
pack_lt b r = omega arith

-- Unpacking reads the masked bits alone.
unpack-masked :
    (p : ℕ) (r : Registers) → p < 256 → unpack p r ≡ unpack (bit_or (bit_and p status_mask) 0x20) r
unfolding unpack
unpack-masked p r h =
    sym (unpack-pack false (unpack p r) r) ∙ ap (λ q. unpack q r) (pack-unpack p r h)

masked_table :
    all_below 256
      (λ p. bit_and (pack true (unpack p power_on)) status_mask == bit_and p status_mask)
    ≡ true
unfolding all_below pack unpack power_on
masked_table = refl

masked-unpack :
    (p : ℕ) (r : Registers)
    → p < 256
    → bit_and (pack true (unpack p r)) status_mask ≡ bit_and p status_mask
unfolding pack unpack
masked-unpack p r h = (==_iff _ _).0 (
    all_below_sound 256
      (λ p. bit_and (pack true (unpack p power_on)) status_mask == bit_and p status_mask) p
      masked_table h)

flags_iff :
    (p : ℕ) (r : Registers)
    → p < 256
    → (bit_and (pack true r) status_mask ≡ bit_and p status_mask) ↔ (unpack p r ≡ r)
flags_iff p r h = (
  λ e.
      unpack-masked p r h
      ∙ ap (λ q. unpack (bit_or q 0x20) r) (sym e)
      ∙ sym (unpack-masked (pack true r) r (pack_lt true r))
      ∙ unpack-pack true r r,
  λ e. ap (λ t. bit_and (pack true t) status_mask) (sym e) ∙ masked-unpack p r h,
)

-- The comparison of the registers is that of the fields and the flags.
registers_iff :
    (state : State) (r : Registers)
    → state.p < 256
    → (same_registers state r ≡ true) ↔ (
        (r.pc ≡ state.pc)
        × ((r.a ≡ state.a)
            × ((r.x ≡ state.x) × ((r.y ≡ state.y) × ((r.s ≡ state.s) × (unpack state.p r ≡ r))))))
registers_iff state r h =
    let flags = flags_iff state.p r h in
    let masked = ==_iff (bit_and (pack true r) status_mask) (bit_and state.p status_mask) in
    and_iff (==_iff r.pc state.pc) (
      and_iff (==_iff r.a state.a) (
        and_iff (==_iff r.x state.x) (
          and_iff (==_iff r.y state.y)
            (and_iff (==_iff r.s state.s) (λ e. flags.0 (masked.0 e), λ e. masked.1 (flags.1 e))))))

-- A case whose final P is a byte passes exactly when the core stands in the final state, the six
-- flags included, every listed cell holds its byte and the log of the bus is the list of cycles.
pub passes-Matches :
    (test : TestCase) (cpu : Cpu TestBus (Unit {0}))
    → test.final.p < 256
    → (passes test cpu ≡ true) ↔ Matches test cpu
unfolding passes
passes-Matches test cpu h =
    let iff =
      and_iff (registers_iff test.final cpu.regs h)
        (and_iff (same_cells_iff test.final.ram cpu.bus) (same_log_iff cpu.bus.log test.cycles)) in
    (
      λ e.
          let ((pc, (a, (x, (y, (s, flags))))), (memory, log)) = iff.0 e in
          record { pc = pc; a = a; x = x; y = y; s = s; flags = flags; memory = memory; log = log },
      λ m. iff.1 ((m.pc, (m.a, (m.x, (m.y, (m.s, m.flags))))), (m.memory, m.log)),
    )
