-- ===== src/Registers/Status.antt =====
-- Packing the flags into a byte and back.
use emulator.Prelude.{
  ℕ, ◌<◌, ◌≡◌, refl, Bool, true, false, bit_and, bit_or, arith, all_below, all_below_sound, ◌==◌,
  ==_iff,
}
use emulator.Registers.{power_on, Registers, pack, unpack}

-- Unpacking what `pack` gives restores the six flags, whatever the registers held before and
-- whichever B flag was pushed, and leaves the other registers alone.
pub unpack-pack :
    (b : Bool) (r t : Registers)
    → unpack (pack b r) t ≡ record t { n = r.n; v = r.v; d = r.d; i = r.i; z = r.z; c = r.c }
unfolding pack unpack
unpack-pack true r t = ground arith
unpack-pack false r t = ground arith

-- What comes back of a byte that is unpacked and packed again.
abbrev through_flags : ℕ → ℕ
through_flags p = bit_or (bit_and p 0xcf) 0x20

table_agrees : all_below 256 (λ p. pack false (unpack p power_on) == through_flags p) ≡ true
unfolding all_below pack unpack power_on
table_agrees = refl

-- Packing, with B clear, what `unpack` took from a byte gives the byte back but for bits 4 and 5, which are no
-- registers: bit 5 reads as 1, and bit 4 as 0.
pub pack-unpack :
    (p : ℕ) (r : Registers) → p < 256 → pack false (unpack p r) ≡ bit_or (bit_and p 0xcf) 0x20
unfolding pack unpack
pack-unpack p r h =
    (==_iff _ _).0 (
      all_below_sound 256 (λ p. pack false (unpack p power_on) == through_flags p) p table_agrees h)
