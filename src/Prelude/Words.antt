-- ===== src/Prelude/Words.antt =====
-- Casts to the fixed widths, shifts, the test `!= 0`, and the arithmetic form of the masks that the
-- emulator applies to bytes and addresses.
use Prim.Native.Nat.{ℕ, ◌+◌, ◌-◌, ◌*◌, ◌/◌, ◌%◌, ◌^◌, ◌<◌, bit_and, bit_or, bit_xor}
use mathlib.Core.Path.{◌≡◌}
use mathlib.Core.Bool.{Bool, not, ◌&&◌}
use native.Mathlib.Omega.{arith}
use emulator.Prelude.Tests.{◌==◌, leb, same}
use emulator.Prelude.Bits.{
  bit_and_low, bit_and_high, bit_or_comm, bit_xor-lt, bit_and_digit, bit_xor_digit,
}

abbrev pub u8 : ℕ → ℕ
u8 n = n % 2 ^ 8

abbrev pub u16 : ℕ → ℕ
u16 n = n % 2 ^ 16

abbrev pub u32 : ℕ → ℕ
u32 n = n % 2 ^ 32

abbrev pub u64 : ℕ → ℕ
u64 n = n % 2 ^ 64

infixl 75 ◌<<<◌ ◌>>>◌
abbrev pub ◌<<<◌ : ℕ → ℕ → ℕ
x <<< k = x * 2 ^ k

abbrev pub ◌>>>◌ : ℕ → ℕ → ℕ
x >>> k = x / 2 ^ k

-- `~x` of a value that was promoted to a 32-bit `int`, as its bit pattern.
abbrev pub complement : ℕ → ℕ
complement x = 2 ^ 32 - 1 - x

-- `n != 0`.
abbrev pub nonzero : ℕ → Bool
nonzero n = not (n == 0)

-- `static_cast<u16>(lo | (hi << 8))`.
abbrev pub word : ℕ → ℕ → ℕ
word lo hi = u16 (bit_or lo (hi <<< 8))

-- `static_cast<u16>((a & 0xFF00) | (b & 0x00FF))`: the page of `a` with the offset of `b`.
abbrev pub same_page : ℕ → ℕ → ℕ
same_page a b = u16 (bit_or (bit_and a 0xff00) (bit_and b 0xff))

pub word-eq : (lo hi : ℕ) → lo < 256 → word lo hi ≡ u16 (hi * 256 + lo)
word-eq lo hi h = ground (arith, bit_or_comm 8 hi lo)

pub bit_and-0xff : (a : ℕ) → bit_and a 0xff ≡ a % 256
bit_and-0xff a = bit_and_low 8 a

pub bit_and-0x0f : (a : ℕ) → bit_and a 0x0f ≡ a % 16
bit_and-0x0f a = bit_and_low 4 a

pub bit_and-0xff00 : (a : ℕ) → bit_and a 0xff00 ≡ a / 256 % 256 * 256
bit_and-0xff00 a = ground (arith, bit_and_high 8 a 0xff, bit_and_low 8 (a / 256))

pub bit_and-0x80 : (a : ℕ) → bit_and a 0x80 ≡ a / 128 % 2 * 128
bit_and-0x80 a = ground (arith, bit_and_high 7 a 1, bit_and_low 1 (a / 128))

pub bit_and-0x10 : (a : ℕ) → bit_and a 0x10 ≡ a / 16 % 2 * 16
bit_and-0x10 a = ground (arith, bit_and_high 4 a 1, bit_and_low 1 (a / 16))

-- `(x & 0x80) != 0` of a byte: it is 128 or more.
pub top_bit : (x : ℕ) → x < 256 → nonzero (bit_and x 0x80) ≡ leb 128 x
top_bit x h = ground (arith, bit_and-0x80 x)

abbrev digit7 : ℕ → ℕ
digit7 x = x / 128 % 2

-- `(~(a ^ b) & (a ^ s)) & 0x80`: the signs of `a` and `b` agree, and that of `s` does not.
pub signs_agree :
    (a b s : ℕ)
    → a < 256
    → b < 256
    → s < 256
    → nonzero (bit_and (bit_and (complement (bit_xor a b)) (bit_xor a s)) 0x80)
      ≡ same (leb 128 a) (leb 128 b) && not (same (leb 128 a) (leb 128 s))
signs_agree a b s ha hb hs = ground (
  arith,
  bit_and-0x80 (bit_and (complement (bit_xor a b)) (bit_xor a s)),
  bit_and_digit 7 (complement (bit_xor a b)) (bit_xor a s),
  bit_xor_digit 7 a b,
  bit_xor_digit 7 a s,
  bit_xor-lt 8 a b,
)

-- `((a ^ b) & (a ^ s)) & 0x80`: the signs of `a` and `b` differ, and those of `a` and `s`.
pub signs_differ :
    (a b s : ℕ)
    → a < 256
    → b < 256
    → s < 256
    → nonzero (bit_and (bit_and (bit_xor a b) (bit_xor a s)) 0x80)
      ≡ not (same (leb 128 a) (leb 128 b)) && not (same (leb 128 a) (leb 128 s))
signs_differ a b s ha hb hs = ground (
  arith,
  bit_and-0x80 (bit_and (bit_xor a b) (bit_xor a s)),
  bit_and_digit 7 (bit_xor a b) (bit_xor a s),
  bit_xor_digit 7 a b,
  bit_xor_digit 7 a s,
)
