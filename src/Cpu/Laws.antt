-- ===== src/Cpu/Laws.antt =====
-- The core with no instrumentation, and what each primitive does to the cycle counter and to the
-- registers.
use emulator.Prelude.{ℕ, ◌+◌, Bool, true, false, ◌≡◌, u64, if◌then◌else◌}
use emulator.Variant.{Variant}
use emulator.Bus.{BusLike}
use emulator.Cpu.{Cpu, Policies, null_hooks, interrupt_sequence}
use native.Mathlib.Nat.{mod-add-mod, add_assoc}

-- `Cpu<BusT, VariantT>`: any bus, any variant, and `NullHooks`.
abbrev pub plain : {B H : Type 0} → BusLike B → Variant → Policies B H
plain bus variant = record { bus = bus; variant = variant; hooks = null_hooks }

module _ {B H : Type 0} (bus : BusLike B) (variant : Variant) where
  pub interrupt_sequence-cycles :
      (b : Bool) (v : ℕ) (c : Cpu B H)
      → (interrupt_sequence (plain bus variant) b v c).1.cycles
        ≡ u64 (c.cycles + (if b then 6 else 7))
  unfolding interrupt_sequence
  interrupt_sequence-cycles true v c = simp (mod-add-mod, add_assoc)
  interrupt_sequence-cycles false v c = simp (mod-add-mod, add_assoc)
