-- ===== src/Text/Lengths.antt =====
-- How long the texts are that the formats of `printf` give.
use Prim.Native.String.{String}
use Prim.Native.String
use Prim.Native.String.append
use native.Mathlib.Nat.{pow-suc}
use emulator.Prelude.{
  ℕ, zero, suc, ◌+◌, ◌/◌, ◌%◌, ◌^◌, ◌≤◌, ◌<◌, ◌≡◌, refl, ◌∙◌, ap, arith, [], ◌∷◌, ◌++◌, length,
  length-append, if_cases, ltb,
}
use emulator.Text.{bytes, decimal_from, decimal, spaces}

pub bytes-append :
    (s t : String) → length (bytes (String.◌++◌ s t)) ≡ length (bytes s) + length (bytes t)
bytes-append String.[] t = ap (λ r. length (bytes r)) (append.nil t) ∙ omega arith
bytes-append (String.◌∷◌ c s) t =
    ap (λ r. length (bytes r)) (append.cons c s t) ∙ omega (arith, bytes-append s t)

one_fewer : (n k : ℕ) → n < 10 ^ suc k → n / 10 < 10 ^ k
one_fewer n k h = omega (arith, h, pow-suc 10 k)

-- A number below `10 ^ suc k` has at most `suc k` digits.
decimal_from-length : (fuel n k : ℕ) → n < 10 ^ suc k → length (decimal_from fuel n) ≤ suc k
unfolding decimal_from
decimal_from-length zero n k small = omega arith
decimal_from-length (suc fuel) n zero small =
    if_cases (λ t. length t ≤ 1) (ltb n 10) ((0x30 + n) ∷ [])
      (decimal_from fuel (n / 10) ++ (0x30 + n % 10) ∷ []) (λ _. omega arith)
      (λ large. ground (arith, small))
decimal_from-length (suc fuel) n (suc k) small =
    if_cases (λ t. length t ≤ suc (suc k)) (ltb n 10) ((0x30 + n) ∷ [])
      (decimal_from fuel (n / 10) ++ (0x30 + n % 10) ∷ []) (λ _. omega arith)
      (λ _. omega (
        arith,
        length-append (decimal_from fuel (n / 10)) ((0x30 + n % 10) ∷ []),
        decimal_from-length fuel (n / 10) k (one_fewer n (suc k) small),
      ))

pub decimal-length : (n : ℕ) → n < 2 ^ 64 → length (decimal n) ≤ 20
unfolding decimal
decimal-length n h = decimal_from-length (suc n) n 19 (omega (arith, h))

pub spaces-length : (n : ℕ) → length (spaces n) ≡ n
unfolding spaces
spaces-length zero = refl
spaces-length (suc n) = ap suc (spaces-length n)
