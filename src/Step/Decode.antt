-- ===== src/Step/Decode.antt =====
-- The switch and the array that the table expands to, and the base counts of its rows.
use emulator.Prelude.{
  ℕ, zero, suc, ◌+◌, ◌<◌, Bool, true, ◌&&◌, ◌≡◌, refl, arith, some, List, [], ◌∷◌, map, length,
  get_elem?, ◌==◌, ◌∙◌,
}
use native.Mathlib.Nat.{zero-add}
use emulator.Variant.{nmos6502}
use emulator.Table.{instruction_table}
use emulator.Table.Entry.{Row}
use emulator.Table.Published.{published_counts}
use emulator.Instructions.Timing.{base_cycles}
use emulator.Step.{find_row}

-- The opcodes of the rows are consecutive numbers.
is_numbered : ℕ → List Row → Bool
is_numbered n [] = true
is_numbered n (r ∷ rs) = r.code == n && is_numbered (suc n) rs

find_row-get_elem? :
    (rows : List Row) (n k : ℕ)
    → is_numbered n rows ≡ true
    → find_row (n + k) rows ≡ get_elem? rows k
unfolding is_numbered find_row
find_row-get_elem? [] n k h = refl
find_row-get_elem? (r ∷ rs) n zero h = ground arith
find_row-get_elem? (r ∷ rs) n (suc k) h = ground (arith, find_row-get_elem? rs (suc n) k)

find_row-code :
    (opcode : ℕ) (rows : List Row) (r : Row) → find_row opcode rows ≡ some r → r.code ≡ opcode
unfolding find_row
find_row-code opcode [] r e = cc
find_row-code opcode (x ∷ rows) r e = ground (arith, find_row-code opcode rows r)

table_numbered : is_numbered 0 instruction_table ≡ true
unfolding is_numbered instruction_table
table_numbered = refl

table_length : length instruction_table ≡ 256
unfolding instruction_table
table_length = refl

-- Which row the dispatch switch takes for an opcode, by its constant, is the row at that index,
-- which the disassembler takes: for every number, and both have none from 256 on.
pub dispatch_row-index :
    (opcode : ℕ) → find_row opcode instruction_table ≡ get_elem? instruction_table opcode
dispatch_row-index opcode =
    rw zero-add at (find_row-get_elem? instruction_table 0 opcode table_numbered)

get_elem?-lt {ℓ} :
    {A : Type ℓ} (xs : List A) (k : ℕ) → k < length xs → (a : A) × (get_elem? xs k ≡ some a)
get_elem?-lt [] k h = elim h [ ]
get_elem?-lt (x ∷ xs) zero h = (x, refl)
get_elem?-lt (x ∷ xs) (suc k) h = get_elem?-lt xs k (omega arith)

pub get_elem?-map {ℓ κ} :
    {A : Type ℓ} {B : Type κ} (f : A → B) (xs : List A) (k : ℕ) {a : A}
    → get_elem? xs k ≡ some a
    → get_elem? (map f xs) k ≡ some (f a)
get_elem?-map f [] k e = cc
get_elem?-map f (x ∷ xs) zero e = cc
get_elem?-map f (x ∷ xs) (suc k) e = get_elem?-map f xs k e

counts_match : map (λ r. base_cycles nmos6502 r.instr) instruction_table ≡ published_counts
unfolding instruction_table published_counts base_cycles
counts_match = refl

-- All 256 opcodes are decoded, each by a row with its own code, whose base count, by which
-- `Step.Cycles.step-cycles` is stated, is the published one.
pub decoded-published :
    (opcode : ℕ)
    → opcode < 256
    → (r : Row) × (find_row opcode instruction_table ≡ some r)
      × (r.code ≡ opcode)
      × (get_elem? published_counts opcode ≡ some (base_cycles nmos6502 r.instr))
decoded-published opcode h =
    let (r, e) = get_elem?-lt instruction_table opcode (rw table_length h) in
    let found = dispatch_row-index opcode ∙ e in
    (
      r,
      found,
      find_row-code opcode instruction_table r found,
      rw (← counts_match) (get_elem?-map _ instruction_table opcode e),
    )
