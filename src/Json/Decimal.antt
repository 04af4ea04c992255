-- ===== src/Json/Decimal.antt =====
-- The digits of a number, and `strtoll` on them, for tools/json.hpp.
use emulator.Prelude.{
  ℕ, zero, suc, ◌+◌, ◌-◌, ◌*◌, ◌/◌, ◌%◌, ◌≤◌, ◌<◌, ◌^◌, true, false, List, [], ◌∷◌, ◌++◌, ◌≡◌, refl,
  ◌∙◌, ap, arith, ltb, if_cases, if_true, if_false, ltb→lt, lt→ltb, some,
}
use emulator.Json.{
  is_digit, skip_whitespace, drop_c_space, read_sign, span_digits, value_from, saturate, converted,
  strtoll,
}
use emulator.Text.{decimal, decimal_from}

-- Every byte is a digit.
abbrev pub Digits : List ℕ → Type 0
Digits [] = Unit {0}
Digits (c ∷ rest) = (is_digit c ≡ true) × Digits rest

Digits-append : (xs : List ℕ) (d : ℕ) → Digits xs → is_digit d ≡ true → Digits (xs ++ d ∷ [])
Digits-append [] d h k = (k, tt)
Digits-append (c ∷ xs) d h k = (h.0, Digits-append xs d h.1 k)

digit : (n : ℕ) → n < 10 → is_digit (0x30 + n) ≡ true
digit n h = ground arith

decimal_from-Digits : (fuel n : ℕ) → Digits (decimal_from fuel n)
unfolding decimal_from
decimal_from-Digits zero n = tt
decimal_from-Digits (suc fuel) n =
    if_cases Digits (ltb n 10) _ _ (λ h. (digit n (ltb→lt n 10 h), tt))
      λ _.
        Digits-append (decimal_from fuel (n / 10)) _ (decimal_from-Digits fuel (n / 10))
          (digit (n % 10) (omega arith))

pub decimal-Digits : (n : ℕ) → Digits (decimal n)
unfolding decimal
decimal-Digits n = decimal_from-Digits (suc n) n

value_from-append :
    (xs : List ℕ) (acc d : ℕ) → value_from acc (xs ++ d ∷ []) ≡ value_from acc xs * 10 + (d - 0x30)
unfolding value_from
value_from-append [] acc d = refl
value_from-append (c ∷ xs) acc d = value_from-append xs (acc * 10 + (c - 0x30)) d

one_digit : (n : ℕ) → value_from 0 ((0x30 + n) ∷ []) ≡ n
unfolding value_from
one_digit n = omega arith

ltb-false : (a b : ℕ) → ltb a b ≡ false → b ≤ a
ltb-false a b h = ground arith

tenth : (n fuel : ℕ) → n < suc fuel → 10 ≤ n → n / 10 < fuel
tenth n fuel h big = omega arith

value_from-decimal_from : (fuel n : ℕ) → n < fuel → value_from 0 (decimal_from fuel n) ≡ n
unfolding decimal_from
value_from-decimal_from zero n h = absurd (omega arith)
value_from-decimal_from (suc fuel) n h =
    if_cases (λ xs. value_from 0 xs ≡ n) (ltb n 10) _ _ (λ _. one_digit n)
      λ big.
        value_from-append (decimal_from fuel (n / 10)) 0 (0x30 + n % 10)
        ∙ ap (λ t. t * 10 + (0x30 + n % 10 - 0x30))
            (value_from-decimal_from fuel (n / 10) (tenth n fuel h (ltb-false n 10 big)))
        ∙ omega arith

-- There is a first digit.
abbrev Leads : List ℕ → Type 0
Leads xs = (c : ℕ) × (rest : List ℕ) × (xs ≡ c ∷ rest)

Leads-append : (xs ys : List ℕ) → Leads xs → Leads (xs ++ ys)
Leads-append xs ys (c, rest, e) = (c, rest ++ ys, ap (λ t. t ++ ys) e)

decimal_from-Leads : (fuel n : ℕ) → n < fuel → Leads (decimal_from fuel n)
unfolding decimal_from
decimal_from-Leads zero n h = absurd (omega arith)
decimal_from-Leads (suc fuel) n h =
    if_cases Leads (ltb n 10) _ _ (λ _. (0x30 + n, [], refl))
      λ big.
        Leads-append (decimal_from fuel (n / 10)) _
          (decimal_from-Leads fuel (n / 10) (tenth n fuel h (ltb-false n 10 big)))

span_digits-append :
    (xs : List ℕ) (c : ℕ) (rest : List ℕ)
    → Digits xs
    → is_digit c ≡ false
    → span_digits (xs ++ c ∷ rest) ≡ (xs, c ∷ rest)
unfolding span_digits
span_digits-append [] c rest h k = if_false _ _ k
span_digits-append (d ∷ xs) c rest h k =
    if_true _ _ h.0 ∙ rw (span_digits-append xs c rest h.1 k) refl

decimal-Leads : (n : ℕ) → Leads (decimal n)
unfolding decimal
decimal-Leads n = decimal_from-Leads (suc n) n (omega arith)

value_from-decimal : (n : ℕ) → value_from 0 (decimal n) ≡ n
unfolding decimal
value_from-decimal n = value_from-decimal_from (suc n) n (omega arith)

-- A digit is neither white space nor a sign.
not_c_space : (c : ℕ) (rest : List ℕ) → is_digit c ≡ true → drop_c_space (c ∷ rest) ≡ c ∷ rest
unfolding drop_c_space
not_c_space c rest h = ground arith

not_sign : (c : ℕ) (rest : List ℕ) → is_digit c ≡ true → read_sign (c ∷ rest) ≡ (false, c ∷ rest)
unfolding read_sign
not_sign c rest h = ground arith

not_space : (c : ℕ) (rest : List ℕ) → is_digit c ≡ true → skip_whitespace (c ∷ rest) ≡ c ∷ rest
unfolding skip_whitespace
not_space c rest h = ground arith

strtoll-Digits :
    (d : ℕ) (ds : List ℕ) (c : ℕ) (rest : List ℕ)
    → Digits (d ∷ ds)
    → is_digit c ≡ false
    → strtoll (d ∷ ds ++ c ∷ rest) ≡ some (saturate false (value_from 0 (d ∷ ds)), c ∷ rest)
unfolding converted strtoll
strtoll-Digits d ds c rest h k =
    rw
      (
        not_c_space d (ds ++ c ∷ rest) h.0,
        not_sign d (ds ++ c ∷ rest) h.0,
        span_digits-append (d ∷ ds) c rest h k,
        strtoll,
      )
      refl

-- A number in decimal that fits a `long long` is read back, in front of anything but a digit.
pub strtoll-decimal :
    (n c : ℕ) (rest : List ℕ)
    → n < 2 ^ 63
    → is_digit c ≡ false
    → (skip_whitespace (decimal n ++ c ∷ rest) ≡ decimal n ++ c ∷ rest)
      × (strtoll (decimal n ++ c ∷ rest) ≡ some (n, c ∷ rest))
strtoll-decimal n c rest h k =
    go (decimal n) (decimal-Digits n) (decimal-Leads n) (value_from-decimal n)
  where
    go :
        (xs : List ℕ)
        → Digits xs
        → Leads xs
        → value_from 0 xs ≡ n
        → (skip_whitespace (xs ++ c ∷ rest) ≡ xs ++ c ∷ rest)
          × (strtoll (xs ++ c ∷ rest) ≡ some (n, c ∷ rest))
    go [] ds (c', rest', e) v = cc
    go (d ∷ ds) digits leads v = (
      not_space d (ds ++ c ∷ rest) digits.0,
      strtoll-Digits d ds c rest digits k
          ∙ ap (λ t. some (saturate false t, c ∷ rest)) v
          ∙ ap (λ t. some (t, c ∷ rest)) (if_true _ _ (lt→ltb n (2 ^ 63) h)),
    )
