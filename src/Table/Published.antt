-- ===== src/Table/Published.antt =====
-- `kBaseCycles` of tests/test_cpu.cpp: the published base count of every opcode, which the emulator
-- does not use.
use emulator.Prelude.{ℕ, List, [], ◌∷◌, ◌++◌}

low_counts : List ℕ
low_counts =
    7 ∷ 6 ∷ 11 ∷ 8 ∷ 3 ∷ 3 ∷ 5 ∷ 5 ∷ 3 ∷ 2 ∷ 2 ∷ 2 ∷ 4 ∷ 4 ∷ 6 ∷ 6 ∷ 2 ∷ 5 ∷ 11 ∷ 8 ∷ 4 ∷ 4 ∷ 6 ∷ 6
    ∷ 2 ∷ 4 ∷ 2 ∷ 7 ∷ 4 ∷ 4 ∷ 7 ∷ 7 ∷ 6 ∷ 6 ∷ 11 ∷ 8 ∷ 3 ∷ 3 ∷ 5 ∷ 5 ∷ 4 ∷ 2 ∷ 2 ∷ 2 ∷ 4 ∷ 4 ∷ 6 ∷ 6
    ∷ 2 ∷ 5 ∷ 11 ∷ 8 ∷ 4 ∷ 4 ∷ 6 ∷ 6 ∷ 2 ∷ 4 ∷ 2 ∷ 7 ∷ 4 ∷ 4 ∷ 7 ∷ 7 ∷ 6 ∷ 6 ∷ 11 ∷ 8 ∷ 3 ∷ 3 ∷ 5
    ∷ 5 ∷ 3 ∷ 2 ∷ 2 ∷ 2 ∷ 3 ∷ 4 ∷ 6 ∷ 6 ∷ 2 ∷ 5 ∷ 11 ∷ 8 ∷ 4 ∷ 4 ∷ 6 ∷ 6 ∷ 2 ∷ 4 ∷ 2 ∷ 7 ∷ 4 ∷ 4 ∷ 7
    ∷ 7 ∷ 6 ∷ 6 ∷ 11 ∷ 8 ∷ 3 ∷ 3 ∷ 5 ∷ 5 ∷ 4 ∷ 2 ∷ 2 ∷ 2 ∷ 5 ∷ 4 ∷ 6 ∷ 6 ∷ 2 ∷ 5 ∷ 11 ∷ 8 ∷ 4 ∷ 4
    ∷ 6 ∷ 6 ∷ 2 ∷ 4 ∷ 2 ∷ 7 ∷ 4 ∷ 4 ∷ 7 ∷ 7 ∷ []

high_counts : List ℕ
high_counts =
    2 ∷ 6 ∷ 2 ∷ 6 ∷ 3 ∷ 3 ∷ 3 ∷ 3 ∷ 2 ∷ 2 ∷ 2 ∷ 2 ∷ 4 ∷ 4 ∷ 4 ∷ 4 ∷ 2 ∷ 6 ∷ 11 ∷ 6 ∷ 4 ∷ 4 ∷ 4 ∷ 4
    ∷ 2 ∷ 5 ∷ 2 ∷ 5 ∷ 5 ∷ 5 ∷ 5 ∷ 5 ∷ 2 ∷ 6 ∷ 2 ∷ 6 ∷ 3 ∷ 3 ∷ 3 ∷ 3 ∷ 2 ∷ 2 ∷ 2 ∷ 2 ∷ 4 ∷ 4 ∷ 4 ∷ 4
    ∷ 2 ∷ 5 ∷ 11 ∷ 5 ∷ 4 ∷ 4 ∷ 4 ∷ 4 ∷ 2 ∷ 4 ∷ 2 ∷ 4 ∷ 4 ∷ 4 ∷ 4 ∷ 4 ∷ 2 ∷ 6 ∷ 2 ∷ 8 ∷ 3 ∷ 3 ∷ 5 ∷ 5
    ∷ 2 ∷ 2 ∷ 2 ∷ 2 ∷ 4 ∷ 4 ∷ 6 ∷ 6 ∷ 2 ∷ 5 ∷ 11 ∷ 8 ∷ 4 ∷ 4 ∷ 6 ∷ 6 ∷ 2 ∷ 4 ∷ 2 ∷ 7 ∷ 4 ∷ 4 ∷ 7 ∷ 7
    ∷ 2 ∷ 6 ∷ 2 ∷ 8 ∷ 3 ∷ 3 ∷ 5 ∷ 5 ∷ 2 ∷ 2 ∷ 2 ∷ 2 ∷ 4 ∷ 4 ∷ 6 ∷ 6 ∷ 2 ∷ 5 ∷ 11 ∷ 8 ∷ 4 ∷ 4 ∷ 6 ∷ 6
    ∷ 2 ∷ 4 ∷ 2 ∷ 7 ∷ 4 ∷ 4 ∷ 7 ∷ 7 ∷ []

unfoldable pub published_counts : List ℕ
unfolding low_counts high_counts
published_counts = low_counts ++ high_counts
