-- ===== src/Prelude/Bits.antt =====
-- The bit operations at variables: the law of the lowest digit, of all the others, of the masks that
-- the emulator uses, and the bounds that keep a byte a byte.
use Prim.Native.Nat.{
  ℕ, zero, suc, ◌+◌, ◌-◌, ◌*◌, ◌/◌, ◌%◌, ◌^◌, ◌≤◌, ◌<◌, min, max, bit_and, bit_or, bit_xor, digits,
  bitwise, differ, bit_and-bitwise, bit_or-bitwise, bit_xor-bitwise,
}
use mathlib.Core.Path.{◌≡◌, refl, ap}
use native.Mathlib.Nat.{le_refl, pow-suc, one-le-pow, pow-succ', div-add-mod, div-div-eq-div-mul}
use native.Mathlib.Omega.{arith}

-- A digit recursion gives the same result on any fuel that covers its first number, so it satisfies
-- the equation that its definition states with the fuel counted down.
module _ (rest : ℕ → ℕ) (digit : ℕ → ℕ → ℕ) where
  digits_fuel : (n k a b : ℕ) → a ≤ k → a ≤ n → digits rest digit n a b ≡ digits rest digit k a b
  digits_fuel zero zero a b _ _ = refl
  digits_fuel (suc n) zero zero b _ _ = refl
  digits_fuel (suc n) zero (suc a) b h _ = absurd (omega arith)
  digits_fuel zero (suc k) zero b _ _ = refl
  digits_fuel zero (suc k) (suc a) b _ h = absurd (omega arith)
  digits_fuel (suc n) (suc k) zero b _ _ = refl
  digits_fuel (suc n) (suc k) (suc a) b h h' =
      let half : suc a / 2 ≤ a = omega arith in
      omega (arith, digits_fuel n k (suc a / 2) (b / 2) (omega arith) (omega arith))

  pub bitwise-step :
      (a b : ℕ)
      → bitwise rest digit (suc a) b
        ≡ bitwise rest digit (suc a / 2) (b / 2) * 2 + digit (suc a % 2) (b % 2)
  bitwise-step a b =
      omega (arith, digits_fuel a (suc a / 2) (suc a / 2) (b / 2) (le_refl _) (omega arith))

pub bit_and_step : (x y : ℕ) → bit_and x y ≡ bit_and (x / 2) (y / 2) * 2 + min (x % 2) (y % 2)
bit_and_step zero y = simp bit_and-bitwise (omega arith)
bit_and_step (suc x) y = simp bit_and-bitwise (bitwise-step (λ _. 0) min x y)

pub bit_or_step : (x y : ℕ) → bit_or x y ≡ bit_or (x / 2) (y / 2) * 2 + max (x % 2) (y % 2)
bit_or_step zero y = simp bit_or-bitwise (omega arith)
bit_or_step (suc x) y = simp bit_or-bitwise (bitwise-step (λ t. t) max x y)

differ-zero : (b : ℕ) → b ≡ b / 2 * 2 + differ 0 (b % 2)
differ-zero b = omega arith

pub bit_xor_step : (a b : ℕ) → bit_xor a b ≡ bit_xor (a / 2) (b / 2) * 2 + differ (a % 2) (b % 2)
bit_xor_step zero b = simp bit_xor-bitwise (differ-zero b)
bit_xor_step (suc a) b = simp bit_xor-bitwise (bitwise-step (λ y. y) differ a b)

differ-le-one : (a b : ℕ) → a < 2 → b < 2 → differ a b < 2
differ-le-one zero b p q = q
differ-le-one (suc zero) zero p q = omega arith
differ-le-one (suc zero) (suc b) p q = omega arith
differ-le-one (suc (suc a)) b p q = absurd (omega arith)

-- Halving goes through each operation.
pub bit_and-half : (a b : ℕ) → bit_and a b / 2 ≡ bit_and (a / 2) (b / 2)
bit_and-half a b = omega (arith, bit_and_step a b)

pub bit_or-half : (a b : ℕ) → bit_or a b / 2 ≡ bit_or (a / 2) (b / 2)
bit_or-half a b = omega (arith, bit_or_step a b)

pub bit_xor-half : (a b : ℕ) → bit_xor a b / 2 ≡ bit_xor (a / 2) (b / 2)
bit_xor-half a b =
    omega (arith, bit_xor_step a b, differ-le-one (a % 2) (b % 2) (omega arith) (omega arith))

double : (q k : ℕ) → q * 2 ^ suc k ≡ q * 2 ^ k * 2
double q k = omega (arith, ap (λ (t : ℕ). q * t) (pow-suc 2 k))

-- The operations do not lengthen a number.
pub bit_and-lt : (k a b : ℕ) → a < 2 ^ k → bit_and a b < 2 ^ k
bit_and-lt zero zero b h = omega (arith, bit_and-bitwise 0 b)
bit_and-lt zero (suc a) b h = absurd (omega arith)
bit_and-lt (suc k) a b h = omega (
  arith,
  bit_and_step a b,
  pow-suc 2 k,
  bit_and-lt k (a / 2) (b / 2) (omega (arith, pow-suc 2 k)),
)

pub bit_or-lt : (k a b : ℕ) → a < 2 ^ k → b < 2 ^ k → bit_or a b < 2 ^ k
bit_or-lt zero zero b h h' = omega (arith, bit_or-bitwise 0 b)
bit_or-lt zero (suc a) b h h' = absurd (omega arith)
bit_or-lt (suc k) a b h h' =
    let e = pow-suc 2 k in
    omega (arith, bit_or_step a b, bit_or-lt k (a / 2) (b / 2) (omega arith) (omega arith))

pub bit_xor-lt : (k a b : ℕ) → a < 2 ^ k → b < 2 ^ k → bit_xor a b < 2 ^ k
bit_xor-lt zero zero b h h' = omega (arith, bit_xor-bitwise 0 b)
bit_xor-lt zero (suc a) b h h' = absurd (omega arith)
bit_xor-lt (suc k) a b h h' =
    let e = pow-suc 2 k in
    omega (
      arith,
      bit_xor_step a b,
      differ-le-one (a % 2) (b % 2) (omega arith) (omega arith),
      bit_xor-lt k (a / 2) (b / 2) (omega arith) (omega arith),
    )

-- Zero on the right clears every digit of one operation and keeps every digit of the other.
zero_right : (bound x : ℕ) → x ≤ bound → (bit_and x 0 ≡ 0) × (bit_or x 0 ≡ x)
zero_right bound zero _ = (refl, refl)
zero_right zero (suc x) h = absurd (omega arith)
zero_right (suc bound) (suc x) h =
    let (cleared, kept) = zero_right bound (suc x / 2) (omega arith) in
    (omega (arith, bit_and_step (suc x) 0, cleared), omega (arith, bit_or_step (suc x) 0, kept))

pub bit_and-zero : (x : ℕ) → bit_and x 0 ≡ 0
bit_and-zero x = (zero_right x x (le_refl x)).0

pub bit_or-zero : (x : ℕ) → bit_or x 0 ≡ x
bit_or-zero x = (zero_right x x (le_refl x)).1

mod-double : (a p : ℕ) → a % (2 * p) ≡ a / 2 % p * 2 + a % 2
mod-double a p = omega (
  arith,
  div-div-eq-div-mul a 2 p,
  div-add-mod a (2 * p),
  div-add-mod (a / 2) p,
  ap (λ (t : ℕ). 2 * p * t) (div-div-eq-div-mul a 2 p),
)

-- A mask of `k` ones keeps the remainder by `2 ^ k`.
pub bit_and_low : (k a : ℕ) → bit_and a (2 ^ k - 1) ≡ a % 2 ^ k
bit_and_low zero a = omega (arith, bit_and-zero a)
bit_and_low (suc k) a = ground (
  arith,
  pow-suc 2 k,
  one-le-pow k 2,
  pow-succ' 2 k,
  mod-double a (2 ^ k),
  bit_and_step a (2 ^ suc k - 1),
  bit_and_low k (a / 2),
)

-- A mask whose lowest `k` digits are 0 acts on the digits above them.
div-double : (a k : ℕ) → a / 2 ^ suc k ≡ a / 2 / 2 ^ k
div-double a k = rw (pow-succ' 2 k, div-div-eq-div-mul)

pub bit_and_high : (k a m : ℕ) → bit_and a (m * 2 ^ k) ≡ bit_and (a / 2 ^ k) m * 2 ^ k
bit_and_high zero a m = ground arith
bit_and_high (suc k) a m = ground (
  arith,
  pow-suc 2 k,
  bit_and_step a (m * 2 ^ suc k),
  bit_and_high k (a / 2) m,
  div-double a k,
  double (bit_and (a / 2 / 2 ^ k) m) k,
  double m k,
)

-- Disjoint fields add up: one is a multiple of `2 ^ k`, and the other is less than that.
pub bit_or_fields : (k q r : ℕ) → r < 2 ^ k → bit_or (q * 2 ^ k) r ≡ q * 2 ^ k + r
bit_or_fields zero q r h = ground (arith, bit_or-zero q)
bit_or_fields (suc k) q r h = ground (
  arith,
  pow-suc 2 k,
  double q k,
  bit_or_step (q * 2 ^ suc k) r,
  bit_or_fields k q (r / 2) (omega (arith, pow-suc 2 k)),
)

-- The same with the low field first, as the emulator joins two bytes of an address.
pub bit_or_comm : (k q r : ℕ) → r < 2 ^ k → bit_or r (q * 2 ^ k) ≡ q * 2 ^ k + r
bit_or_comm zero q r h = ground (arith, bit_or-bitwise 0 q)
bit_or_comm (suc k) q r h = ground (
  arith,
  pow-suc 2 k,
  double q k,
  bit_or_step r (q * 2 ^ suc k),
  bit_or_comm k q (r / 2) (omega (arith, pow-suc 2 k)),
)

-- Each digit of a conjunction, and of an exclusive disjunction, comes from those at its place.
pub bit_and_digit : (k a b : ℕ) → bit_and a b / 2 ^ k % 2 ≡ min (a / 2 ^ k % 2) (b / 2 ^ k % 2)
bit_and_digit zero a b = ground (arith, bit_and_step a b)
bit_and_digit (suc k) a b = ground (
  arith,
  div-double (bit_and a b) k,
  div-double a k,
  div-double b k,
  bit_and-half a b,
  bit_and_digit k (a / 2) (b / 2),
)

pub bit_xor_digit : (k a b : ℕ) → bit_xor a b / 2 ^ k % 2 ≡ differ (a / 2 ^ k % 2) (b / 2 ^ k % 2)
bit_xor_digit zero a b =
    ground (arith, bit_xor_step a b, differ-le-one (a % 2) (b % 2) (omega arith) (omega arith))
bit_xor_digit (suc k) a b = ground (
  arith,
  div-double (bit_xor a b) k,
  div-double a k,
  div-double b k,
  bit_xor-half a b,
  bit_xor_digit k (a / 2) (b / 2),
)
