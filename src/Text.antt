-- ===== src/Text.antt =====
-- Texts as bytes, and the formats of `printf` that tracing.hpp and the tools print with.
pub mod Lengths
use Prim.Native.Char.{code}
use Prim.Native.String.{String}
use emulator.Prelude.{
  ℕ, zero, suc, ◌+◌, ◌-◌, length, ◌/◌, ◌%◌, List, [], ◌∷◌, ◌++◌, ltb, if◌then◌else◌,
}

-- The bytes of a literal.
abbrev pub bytes : String → List ℕ
bytes String.[] = []
bytes (String.◌∷◌ c rest) = code c ∷ bytes rest

-- The digits, with fuel for them.
unfoldable pub decimal_from : ℕ → ℕ → List ℕ
decimal_from zero n = []
decimal_from (suc fuel) n =
    let leading = decimal_from fuel (n / 10) in
    if ltb n 10 then (0x30 + n) ∷ [] else leading ++ (0x30 + n % 10) ∷ []

-- `%d` of a number that is not negative; a number has fewer digits than it counts.
unfoldable pub decimal : ℕ → List ℕ
unfolding decimal_from
decimal n = decimal_from (suc n) n

unfoldable pub spaces : ℕ → List ℕ
spaces zero = []
spaces (suc n) = 0x20 ∷ spaces n

-- `%-12s` and `%5d` are `pad_right 12` and `pad_left 5`.
unfoldable pub pad_right : ℕ → List ℕ → List ℕ
unfolding spaces
pad_right width text = text ++ spaces (width - length text)

unfoldable pub pad_left : ℕ → List ℕ → List ℕ
unfolding spaces
pad_left width text = spaces (width - length text) ++ text
