-- ===== src/Klaus/Hunt.antt =====
-- The loop of tools/run_klaus.cpp, against the sequence of states that it goes through.
use emulator.Prelude.{
  ℕ, zero, suc, ◌<◌, true, false, ◌≡◌, ◌≢◌, refl, ◌∙◌, ap, sym, ◌↔◌, ◌⊎◌, inl, inr, arith, ◌==◌,
  ==_iff, Bool-cases, if_true,
}
use emulator.Klaus.{Core, jammed, next, at_trap, hunt, exit_code}

-- The state after `k` instructions.
unfoldable pub nth : ℕ → Core → Core
nth zero c = c
nth (suc k) c = nth k (next c)

-- An instruction that leaves the program counter where it was.
abbrev pub Traps : Core → Type 0
Traps c = (next c).regs.pc ≡ c.regs.pc

-- An instruction that moves the program counter and does not jam the core.
pub record Moves (c : Core) : Type 0 where
  pub pc : (next c).regs.pc ≢ c.regs.pc
  pub runs : (next c).jammed ≡ false

-- The first `k` instructions move on.
abbrev pub MovesFor : ℕ → Core → Type 0
MovesFor zero c = Unit {0}
MovesFor (suc k) c = Moves c × MovesFor k (next c)

==_other : (a b : ℕ) → a ≢ b → (a == b) ≡ false
==_other a b h = ground (arith, h)

hunt-Moves :
    (success limit : ℕ) (c : Core)
    → Moves c
    → hunt success (suc limit) c ≡ hunt success limit (next c)
unfolding hunt
hunt-Moves success limit c m = rw (hunt, ==_other (next c).regs.pc c.regs.pc m.pc, m.runs) refl

pub hunt-Traps :
    (success limit : ℕ) (c : Core)
    → Traps c
    → hunt success (suc limit) c ≡ at_trap success c.regs.pc (next c)
unfolding hunt
hunt-Traps success limit c e =
    let same = (==_iff (next c).regs.pc c.regs.pc).1 e in rw (hunt, same) refl

-- If the first instruction that traps is the one behind `k` others, within the limit, and none of
-- these jams the core, the verdict is on that trap: the loop reports every trap that it can reach.
pub hunt-trap :
    (k success limit : ℕ) (c : Core)
    → k < limit
    → MovesFor k c
    → Traps (nth k c)
    → hunt success limit c ≡ at_trap success (nth k c).regs.pc (nth (suc k) c)
unfolding nth
hunt-trap k success zero c h ms t = absurd (omega arith)
hunt-trap zero success (suc limit) c h ms t = hunt-Traps success limit c t
hunt-trap (suc k) success (suc limit) c h (m, ms) t =
    hunt-Moves success limit c m ∙ hunt-trap k success limit (next c) (omega arith) ms t

-- The end that the exit code 0 stands for: a trap at the address of success, reached within the limit
-- by instructions that move on.
pub record Succeeds (success limit : ℕ) (c : Core) : Type 0 where
  pub count : ℕ
  pub within : count < limit
  pub moves : MovesFor count c
  pub traps : Traps (nth count c)
  pub there : (nth count c).regs.pc ≡ success

-- What the loop does at a state, by what the next instruction does.
Next : Core → Type 0
Next c = Traps c ⊎ (((next c).regs.pc ≢ c.regs.pc) × ((next c).jammed ≡ true)) ⊎ Moves c

Next-cases : (c : Core) → Next c
unfolding Next
Next-cases c = elim (Bool-cases ((next c).regs.pc == c.regs.pc)) [
  | inl same ↦ inl ((==_iff (next c).regs.pc c.regs.pc).0 same)
  | inr other ↦
      let moved : (next c).regs.pc ≢ c.regs.pc = λ e. ground (arith, other, e) in
      elim (Bool-cases (next c).jammed) [
        | inl jams ↦ inr (inl (moved, jams))
        | inr runs ↦ inr (inr (record { pc = moved; runs = runs }))
      ]
]

pub hunt-jams :
    (success limit : ℕ) (c : Core)
    → (next c).regs.pc ≢ c.regs.pc
    → (next c).jammed ≡ true
    → hunt success (suc limit) c ≡ jammed c.regs.pc
unfolding hunt
hunt-jams success limit c m j = rw (hunt, ==_other (next c).regs.pc c.regs.pc m, j) refl

at_trap-code : (success pc : ℕ) (c : Core) → exit_code (at_trap success pc c) ≡ 0 → pc ≡ success
unfolding exit_code at_trap
at_trap-code success pc c h = elim (Bool-cases (pc == success)) [
  | inl there ↦ (==_iff pc success).0 there
  | inr other ↦ absurd (omega (arith, rw (other, at_trap) at h))
]

exit_code-Succeeds :
    (success limit : ℕ) (c : Core) → exit_code (hunt success limit c) ≡ 0 → Succeeds success limit c
unfolding hunt exit_code nth Next
exit_code-Succeeds success zero c h = absurd (omega (arith, h))
exit_code-Succeeds success (suc limit) c h = elim (Next-cases c) [
  | inl t ↦ record {
    count = 0;
    within = omega arith;
    moves = tt;
    traps = t;
    there =
        at_trap-code success c.regs.pc (next c)
          (sym (ap exit_code (hunt-Traps success limit c t)) ∙ h);
  }
  | inr (inl (m, j)) ↦
      absurd (omega (arith, sym (ap exit_code (hunt-jams success limit c m j)) ∙ h))
  | inr (inr m) ↦
      let rest =
        exit_code-Succeeds success limit (next c)
          (sym (ap exit_code (hunt-Moves success limit c m)) ∙ h) in
      record {
        count = suc rest.count;
        within = omega (arith, rest.within);
        moves = (m, rest.moves);
        traps = rest.traps;
        there = rest.there;
      }
]

-- The exit code is 0 exactly when the image traps at the address of success, within the limit, before
-- it traps elsewhere or jams the core.
pub exit_code_iff :
    (success limit : ℕ) (c : Core)
    → (exit_code (hunt success limit c) ≡ 0) ↔ Succeeds success limit c
unfolding exit_code at_trap
exit_code_iff success limit c = (
  exit_code-Succeeds success limit c,
  λ s.
      ap exit_code (hunt-trap s.count success limit c s.within s.moves s.traps)
      ∙ ap exit_code (if_true _ _ ((==_iff _ _).1 s.there)),
)
