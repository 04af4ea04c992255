-- ===== src/Step/Run.antt =====
-- `run` of include/mos6502/cpu.hpp: its end, and how far it overshoots.
use emulator.Prelude.{
  ℕ, zero, suc, ◌+◌, ◌-◌, ◌^◌, ◌≤◌, ◌<◌, ◌≡◌, refl, arith, u64, Option, some, ltb, Bool-cases, inl,
  inr, ltb→lt,
}
use emulator.Variant.{Variant}
use emulator.Bus.{BusLike}
use emulator.Cpu.{Cpu}
use emulator.Cpu.Laws.{plain}
use emulator.Step.{advance, run_from, run}
use emulator.Step.Cycles.{advance-Elapses}

-- The difference of the wrapped counters grows as the counter does, until it wraps itself.
elapsed-step :
    (c c' start k : ℕ)
    → start < 2 ^ 64
    → u64 c' ≡ u64 (c + k)
    → u64 (c + 2 ^ 64 - start) + k < 2 ^ 64
    → u64 (c' + 2 ^ 64 - start) ≡ u64 (c + 2 ^ 64 - start) + k
elapsed-step c c' start k h e small = omega arith

module _ {B H : Type 0} (bus : BusLike B) (variant : Variant) where
  -- The cycles since the counter stood at `start`.
  abbrev pub elapsed : ℕ → Cpu B H → ℕ
  elapsed start c = u64 (c.cycles + 2 ^ 64 - start)

  -- The state after `k` steps.
  abbrev pub after_steps : ℕ → Cpu B H → Cpu B H
  after_steps zero c = c
  after_steps (suc k) c = after_steps k (advance (plain bus variant) c)

  -- At the start of each of the next `k` steps, the budget is not spent.
  abbrev pub Unspent : (start budget k : ℕ) → Cpu B H → Type 0
  Unspent start budget zero c = Unit {0}
  Unspent start budget (suc k) c =
      (elapsed start c < budget) × Unspent start budget k (advance (plain bus variant) c)

  -- The loop ended within its fuel, after the steps that began within the budget, and behind the
  -- budget by less than one instruction.
  abbrev Ended : ℕ → ℕ → Cpu B H → Option (Cpu B H) → Type 0
  Ended start budget c o =
      (k : ℕ) × Unspent start budget k c
      × (o ≡ some (after_steps k c))
      × (budget ≤ elapsed start (after_steps k c))
      × (elapsed start (after_steps k c) < budget + 11)

  run_from-ends :
      (fuel start budget : ℕ) (c : Cpu B H)
      → start < 2 ^ 64
      → budget + 11 ≤ 2 ^ 64
      → elapsed start c < budget + 11
      → budget - elapsed start c < fuel
      → Ended start budget c (run_from (plain bus variant) fuel start budget c)
  unfolding run_from
  run_from-ends zero start budget c s b near enough = absurd (omega arith)
  run_from-ends (suc fuel) start budget c s b near enough =
      elim (Bool-cases (ltb (elapsed start c) budget)) [
        | inl more ↦
            let below = ltb→lt _ _ more in
            let e = advance-Elapses bus variant c in
            let grown =
              elapsed-step c.cycles _ start e.count s e.moved (omega (arith, e.at_most)) in
            let (k, unspent, ended, spent, near') =
              run_from-ends fuel start budget (advance (plain bus variant) c) s b
                (omega (arith, e.at_most)) (omega (arith, e.at_least)) in
            rw (more, run_from) (suc k, (below, unspent), ended, spent, near')
        | inr done ↦ rw (done, run_from) (0, tt, refl, ground arith, near)
      ]

  -- `run` comes to an end, from a counter that fits 64 bits and with a budget of at most 2^64 - 11:
  -- fuel for one step more than the budget has cycles is enough. It takes the steps that begin while
  -- the budget is not spent, and no other, and returns the cycles that they took: at least the budget,
  -- and less than eleven cycles more.
  pub run-ends :
      (fuel budget : ℕ) (c : Cpu B H)
      → c.cycles < 2 ^ 64
      → budget + 11 ≤ 2 ^ 64
      → budget < fuel
      → (k : ℕ) × (run (plain bus variant) fuel budget c
          ≡ some (elapsed c.cycles (after_steps k c), after_steps k c))
        × Unspent c.cycles budget k c
        × (budget ≤ elapsed c.cycles (after_steps k c))
        × (elapsed c.cycles (after_steps k c) < budget + 11)
  unfolding run
  run-ends fuel budget c h b enough =
      let (k, unspent, ended, spent, near) =
        run_from-ends fuel c.cycles budget c h b (omega arith) (omega arith) in
      (k, rw (ended, run) refl, unspent, spent, near)
