-- ===== src/Json/Bounds.antt =====
-- How much of the text each function of tools/json.hpp takes.
pub mod Loops
use emulator.Prelude.{
  ℕ, zero, suc, ◌+◌, ◌≤◌, ◌<◌, Bool, true, false, List, [], ◌∷◌, arith, length, ◌==◌, if_cases,
}
use emulator.Json.{
  Message, Result, ok, failed, out_of_fuel, Parser, ◌>>=◌, ◌>>◌, pure, skip_whitespace, until_quote,
  drop_c_space, read_sign, span_digits, strtoll, fail, peek_at, expect_at, consume_at, close_string,
  number_at, converted, expect, consume, string_body, string, number, finish_round, enter, members,
  object, elements, array,
}

pub skip_whitespace-length : (rest : List ℕ) → length (skip_whitespace rest) ≤ length rest
unfolding skip_whitespace
skip_whitespace-length [] = omega arith
skip_whitespace-length (c ∷ rest) = ground (arith, skip_whitespace-length rest)

until_quote-length : (rest : List ℕ) → length (until_quote rest).1 ≤ length rest
unfolding until_quote
until_quote-length [] = omega arith
until_quote-length (c ∷ rest) = ground (arith, until_quote-length rest)

drop_c_space-length : (rest : List ℕ) → length (drop_c_space rest) ≤ length rest
unfolding drop_c_space
drop_c_space-length [] = omega arith
drop_c_space-length (c ∷ rest) = ground (arith, drop_c_space-length rest)

read_sign-length : (rest : List ℕ) → length (read_sign rest).1 ≤ length rest
unfolding read_sign
read_sign-length [] = omega arith
read_sign-length (c ∷ rest) = ground arith

span_digits-length :
    (rest : List ℕ) → length (span_digits rest).0 + length (span_digits rest).1 ≤ length rest
unfolding span_digits
span_digits-length [] = omega arith
span_digits-length (c ∷ rest) = ground (arith, span_digits-length rest)

module _ (size : ℕ) where
  -- A result that leaves at most `n` bytes but `k`, or a failure at an offset in the text.
  abbrev pub Within : {A : Type 0} → ℕ → ℕ → Result A → Type 0
  Within k n (ok a rest) = length rest + k ≤ n
  Within k n (failed e) = e.offset ≤ size
  Within k n out_of_fuel = ⊥

  -- A parser takes at least `k` bytes and always ends.
  pub record Consumes {A : Type 0} (k : ℕ) (m : Parser A) : Type 0 where
    pub after : (rest : List ℕ) → Within k (length rest) (m rest)

  within-trans :
      {A : Type 0} (j k n n' : ℕ) (r : Result A) → n' + j ≤ n → Within k n' r → Within (j + k) n r
  within-trans j k n n' (ok a rest) h w = omega (arith, w)
  within-trans j k n n' (failed e) h w = w
  within-trans j k n n' out_of_fuel h w = w

  -- The same of the texts that are shorter than a bound.
  pub record ConsumesBelow {A : Type 0} (bound k : ℕ) (m : Parser A) : Type 0 where
    pub after : (rest : List ℕ) → length rest < bound → Within k (length rest) (m rest)

  pub anywhere : {A : Type 0} {bound k : ℕ} {m : Parser A} → Consumes k m → ConsumesBelow bound k m
  anywhere km = record { after = λ rest _. km.after rest }

  module _ {A C : Type 0} {j k : ℕ} where
    pub bind_below :
        {m : Parser A} {f : A → Parser C} (bound bound' : ℕ)
        → bound ≤ bound' + j
        → ConsumesBelow bound j m
        → ((a : A) → ConsumesBelow bound' k (f a))
        → ConsumesBelow bound (j + k) (m >>= f)
    bind_below {m = m} {f = f} bound bound' b km kf = record {
      after = λ rest h. go rest h (m rest) (km.after rest h);
    }
      where
        go :
            (rest : List ℕ)
            → length rest < bound
            → (r : Result A) → Within j (length rest) r
            → Within (j + k) (length rest) (elim r [
              | ok a rest' ↦ f a rest'
              | failed e ↦ failed e
              | out_of_fuel ↦ out_of_fuel
            ])
        go rest h (ok a rest') w =
            within-trans j k (length rest) (length rest') (f a rest') w
              ((kf a).after rest' (omega (arith, b, h, w)))
        go rest h (failed e) w = w
        go rest h out_of_fuel w = w

    pub bind :
        {m : Parser A} {f : A → Parser C}
        → Consumes j m
        → ((a : A) → Consumes k (f a))
        → Consumes (j + k) (m >>= f)
    bind km kf = record {
      after = λ rest.
          let bound = suc (length rest) in
          (bind_below bound bound (omega arith) (anywhere km) (λ a. anywhere (kf a))).after rest
            (omega arith);
    }

  pub within_less : {A : Type 0} (k j n : ℕ) (r : Result A) → j ≤ k → Within k n r → Within j n r
  within_less k j n (ok a rest) h w = omega (arith, h, w)
  within_less k j n (failed e) h w = w
  within_less k j n out_of_fuel h w = w

  pub weaken : {A : Type 0} {m : Parser A} (j k : ℕ) → j ≤ k → Consumes k m → Consumes j m
  weaken j k h km = record { after = λ rest. within_less k j (length rest) _ h (km.after rest) }

  pub pure-Consumes : {A : Type 0} (a : A) → Consumes 0 (pure a)
  pure-Consumes a = record { after = λ rest. omega arith }

  pub fail-Consumes :
      {A : Type 0} (k : ℕ) (message : Message) → Consumes k (fail size {A = A} message)
  unfolding fail
  fail-Consumes k message = record { after = λ rest. omega arith }

  expect_from :
      (c : ℕ) (rest : List ℕ) (n : ℕ)
      → length rest ≤ n
      → Within 1 n ((peek_at size >>= expect_at size c) rest)
  unfolding peek_at expect_at fail
  expect_from c [] n h = omega arith
  expect_from c (d ∷ more) n h =
      if_cases (Within 1 n) (d == c) _ _ (λ _. omega (arith, h)) (λ _. omega arith)

  pub expect-Consumes : (c : ℕ) → Consumes 1 (expect size c)
  unfolding expect
  expect-Consumes c = record {
    after =
        λ rest. expect_from c (skip_whitespace rest) (length rest) (skip_whitespace-length rest);
  }

  consume_from :
      (c : ℕ) (rest : List ℕ) (n : ℕ) → length rest ≤ n → Within 0 n (consume_at size c rest)
  unfolding consume_at
  consume_from c [] n h = omega arith
  consume_from c (d ∷ more) n h =
      if_cases (Within 0 n) (d == c) _ _ (λ _. omega (arith, h)) (λ _. omega (arith, h))

  pub consume-Consumes : (c : ℕ) → Consumes 0 (consume size c)
  unfolding consume
  consume-Consumes c = record {
    after =
        λ rest. consume_from c (skip_whitespace rest) (length rest) (skip_whitespace-length rest);
  }

  close_string_from :
      (text rest : List ℕ) (n : ℕ) → length rest ≤ n → Within 1 n (close_string size text rest)
  unfolding close_string fail
  close_string_from text [] n h = omega arith
  close_string_from text (c ∷ more) n h = omega (arith, h)

  string_body-Consumes : Consumes 1 (string_body size)
  unfolding string_body
  string_body-Consumes = record {
    after = λ rest.
        close_string_from (until_quote rest).0 (until_quote rest).1 (length rest)
          (until_quote-length rest);
  }

  pub string-Consumes : Consumes 2 (string size)
  unfolding string
  string-Consumes = bind (expect-Consumes 0x22) λ _. string_body-Consumes

  number_from :
      (negative : Bool) (digits stop rest : List ℕ) (n : ℕ)
      → length digits + length stop ≤ n
      → Within 1 n (number_at size (converted negative digits stop) rest)
  unfolding number_at converted fail
  number_from negative [] stop rest n h = omega arith
  number_from negative (d ∷ more) stop rest n h = omega (arith, h)

  pub number-Consumes : Consumes 1 (number size)
  unfolding number strtoll
  number-Consumes = record {
    after = λ rest.
        let spaces = skip_whitespace rest in
        let signed = drop_c_space spaces in
        let unsigned = (read_sign signed).1 in
        number_from (read_sign signed).0 (span_digits unsigned).0 (span_digits unsigned).1 spaces
          (length rest)
          (omega (
            arith,
            skip_whitespace-length rest,
            drop_c_space-length spaces,
            read_sign-length signed,
            span_digits-length unsigned,
          ));
  }
