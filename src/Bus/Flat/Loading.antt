-- ===== src/Bus/Flat/Loading.antt =====
-- What `load` of include/mos6502/bus.hpp leaves in the memory, byte by byte.
use emulator.Prelude.{
  ℕ, zero, suc, ◌+◌, ◌≤◌, ◌<◌, ◌^◌, ◌≡◌, refl, ◌∙◌, arith, List, [], ◌∷◌, Option, none, some,
  length, get_elem?, u16, Option-cases, inl, inr,
}
use emulator.Bus.Flat.{FlatBus, load, load_from, store}

-- The bus behind one turn of the loop.
abbrev stored : ℕ → ℕ → FlatBus → FlatBus
stored addr value b = record b { memory = store b.memory (u16 addr) value }

load_from-below :
    (values : List ℕ) (base k at : ℕ) (b : FlatBus)
    → base + k + length values ≤ 2 ^ 16
    → at < base + k
    → (load_from k base values b).memory at ≡ b.memory at
unfolding load_from
load_from-below [] base k at b fits before = refl
load_from-below (v ∷ vs) base k at b fits before =
    load_from-below vs base (k + 1) at (stored (base + k) v b) (omega (arith, fits))
      (omega (arith, before))
    ∙ ground arith

load_from-some :
    (values : List ℕ) (base k j v : ℕ) (b : FlatBus)
    → base + k + length values ≤ 2 ^ 16
    → get_elem? values j ≡ some v
    → (load_from k base values b).memory (base + k + j) ≡ v
unfolding load_from
load_from-some [] base k j v b fits e = absurd (ground (arith, e))
load_from-some (x ∷ xs) base k zero v b fits e =
    load_from-below xs base (k + 1) (base + k + 0) (stored (base + k) x b) (omega (arith, fits))
      (omega arith)
    ∙ ground (arith, fits, e)
load_from-some (x ∷ xs) base k (suc j) v b fits e =
    let split : base + k + suc j ≡ base + (k + 1) + j = omega arith in
    rw split (load_from-some xs base (k + 1) j v (stored (base + k) x b) (omega (arith, fits)) e)

load_from-none :
    (values : List ℕ) (base k j : ℕ) (b : FlatBus)
    → base + k + length values ≤ 2 ^ 16
    → get_elem? values j ≡ none
    → (load_from k base values b).memory (base + k + j) ≡ b.memory (base + k + j)
unfolding load_from
load_from-none [] base k j b fits e = refl
load_from-none (x ∷ xs) base k zero b fits e = absurd (ground (arith, e))
load_from-none (x ∷ xs) base k (suc j) b fits e =
    let split : base + k + suc j ≡ base + (k + 1) + j = omega arith in
    rw split (
      load_from-none xs base (k + 1) j (stored (base + k) x b) (omega (arith, fits)) e
      ∙ ground (arith, fits))

-- A byte of a list, or another where the list has ended.
abbrev pub byte_or : ℕ → Option ℕ → ℕ
byte_or default none = default
byte_or default (some value) = value

-- Bytes that do not run beyond 64 KiB stand in the memory in their order, from the address that they
-- are loaded at, and what lies behind them is left as it was.
pub load-memory :
    (base : ℕ) (values : List ℕ) (j : ℕ) (b : FlatBus)
    → base + length values ≤ 2 ^ 16
    → (load base values b).memory (base + j) ≡ byte_or (b.memory (base + j)) (get_elem? values j)
unfolding load
load-memory base values j b fits =
    let start : base + j ≡ base + 0 + j = omega arith in
    elim (Option-cases (get_elem? values j)) [
      | inl e ↦ rw (e, start) (load_from-none values base 0 j b (omega (arith, fits)) e)
      | inr (v, e) ↦ rw (e, start) (load_from-some values base 0 j v b (omega (arith, fits)) e)
    ]
