-- ===== src/Json.antt =====
-- tools/json.hpp: the cursor that walks a JSON text and hands out values as it meets them. A cursor
-- is the bytes from `p_` to `end_`; `origin_` is in `size`, the number of bytes from `origin_` to
-- `end_`. An exception is a result.
pub mod Decimal
pub mod Bounds
pub mod Reading
pub mod Blank
pub mod Rounds
pub mod Simulation
pub mod Values
use emulator.Prelude.{
  ℕ, zero, suc, ◌+◌, ◌-◌, ◌*◌, ◌^◌, Bool, true, false, ◌&&◌, ◌||◌, Option, none, some, List, [],
  ◌∷◌, ltb, leb, ◌==◌, if◌then◌else◌, length, u64,
}

-- The texts that `fail` is called with; those of run_harte.cpp are the last two.
pub data Message : Type 0 where
  unexpected_end unterminated_string expected_number : Message
  expected_char : ℕ → Message
  unexpected_state_key unexpected_case_key : Message

-- What is thrown: the message, and the offset that stands behind it.
pub record Failure : Type 0 where
  pub message : Message
  pub offset : ℕ

pub data Result (A : Type 0) : Type 0 where
  ok : A → List ℕ → Result A
  failed : Failure → Result A
  out_of_fuel : Result A

abbrev pub Parser : Type 0 → Type 0
Parser A = List ℕ → Result A

infixl 5 ◌>>=◌ ◌>>◌
abbrev pub ◌>>=◌ : {A B : Type 0} → Parser A → (A → Parser B) → Parser B
◌>>=◌ m f rest = elim (m rest) [
  | ok a rest' ↦ f a rest'
  | failed e ↦ failed e
  | out_of_fuel ↦ out_of_fuel
]

abbrev pub ◌>>◌ : {A B : Type 0} → Parser A → Parser B → Parser B
m >> k = m >>= λ _. k

abbrev pub pure : {A : Type 0} → A → Parser A
pure a rest = ok a rest

abbrev pub is_space : ℕ → Bool
is_space c = c == 0x20 || c == 0x09 || c == 0x0a || c == 0x0d

unfoldable pub skip_whitespace : List ℕ → List ℕ
skip_whitespace [] = []
skip_whitespace (c ∷ rest) = if is_space c then skip_whitespace rest else c ∷ rest

-- The bytes up to the next quote, and what stands from the quote on.
unfoldable pub until_quote : List ℕ → List ℕ × List ℕ
until_quote [] = ([], [])
until_quote (c ∷ rest) =
    let (text, rest') = until_quote rest in if c == 0x22 then ([], c ∷ rest) else (c ∷ text, rest')

-- `isspace` of the C locale, with which `strtoll` begins.
abbrev pub is_c_space : ℕ → Bool
is_c_space c = c == 0x20 || leb 0x09 c && leb c 0x0d

unfoldable pub drop_c_space : List ℕ → List ℕ
drop_c_space [] = []
drop_c_space (c ∷ rest) = if is_c_space c then drop_c_space rest else c ∷ rest

-- Whether the number is negative.
unfoldable pub read_sign : List ℕ → Bool × List ℕ
read_sign [] = (false, [])
read_sign (c ∷ rest) =
    if c == 0x2d then (true, rest) else if c == 0x2b then (false, rest) else (false, c ∷ rest)

abbrev pub is_digit : ℕ → Bool
is_digit c = leb 0x30 c && leb c 0x39

unfoldable pub span_digits : List ℕ → List ℕ × List ℕ
span_digits [] = ([], [])
span_digits (c ∷ rest) =
    let (digits, rest') = span_digits rest in
    if is_digit c then (c ∷ digits, rest') else ([], c ∷ rest)

unfoldable pub value_from : ℕ → List ℕ → ℕ
value_from acc [] = acc
value_from acc (c ∷ rest) = value_from (acc * 10 + (c - 0x30)) rest

-- A `long long` as its 64-bit pattern; out of range, `strtoll` gives the end of the range.
abbrev pub saturate : Bool → ℕ → ℕ
saturate true n = u64 (2 ^ 64 - (if ltb (2 ^ 63) n then 2 ^ 63 else n))
saturate false n = if ltb n (2 ^ 63) then n else 2 ^ 63 - 1

-- No digit is no number.
unfoldable pub converted : Bool → List ℕ → List ℕ → Option (ℕ × List ℕ)
unfolding value_from
converted negative [] stop = none
converted negative (d ∷ more) stop = some (saturate negative (value_from 0 (d ∷ more)), stop)

-- `strtoll(p, &stop, 10)`: the number and what is left at `stop`, or nothing where no number stands.
-- The byte behind the text is the terminator of a `std::string`, which ends a number.
unfoldable pub strtoll : List ℕ → Option (ℕ × List ℕ)
unfolding drop_c_space read_sign span_digits converted
strtoll rest =
    let (negative, unsigned) = read_sign (drop_c_space rest) in
    let (digits, stop) = span_digits unsigned in converted negative digits stop

module _ (size : ℕ) where
  unfoldable pub fail : {A : Type 0} → Message → Parser A
  fail message rest = failed (record { message = message; offset = size - length rest })

  unfoldable pub at_end : Parser Bool
  unfolding skip_whitespace
  at_end rest =
      let rest' = skip_whitespace rest in
      elim rest' [ [] ↦ ok true [] | c ∷ more ↦ ok false (c ∷ more) ]

  -- `peek`, behind the white space.
  unfoldable pub peek_at : Parser ℕ
  unfolding fail
  peek_at [] = fail unexpected_end []
  peek_at (c ∷ more) = ok c (c ∷ more)

  unfoldable pub peek : Parser ℕ
  unfolding skip_whitespace peek_at
  peek rest = peek_at (skip_whitespace rest)

  -- `++p_`, for the byte `d` that `peek` saw, or the failure.
  unfoldable pub expect_at : ℕ → ℕ → Parser (Unit {0})
  unfolding fail
  expect_at c d [] = fail (expected_char c) []
  expect_at c d (e ∷ rest) = if d == c then ok tt rest else fail (expected_char c) (e ∷ rest)

  unfoldable pub expect : ℕ → Parser (Unit {0})
  unfolding peek expect_at
  expect c = do d ← peek; expect_at c d

  -- `consume`, behind the white space.
  unfoldable pub consume_at : ℕ → Parser Bool
  consume_at c [] = ok false []
  consume_at c (d ∷ more) = if d == c then ok true more else ok false (d ∷ more)

  unfoldable pub consume : ℕ → Parser Bool
  unfolding skip_whitespace consume_at
  consume c rest = consume_at c (skip_whitespace rest)

  -- The rest of `string`, behind the opening quote.
  -- The closing quote.
  unfoldable pub close_string : List ℕ → Parser (List ℕ)
  unfolding fail
  close_string text [] = fail unterminated_string []
  close_string text (_ ∷ more) = ok text more

  unfoldable pub string_body : Parser (List ℕ)
  unfolding until_quote close_string
  string_body rest = let (text, rest') = until_quote rest in close_string text rest'

  unfoldable pub string : Parser (List ℕ)
  unfolding expect string_body
  string = do expect 0x22; string_body

  -- `number`, by what `strtoll` found at `rest`.
  unfoldable pub number_at : Option (ℕ × List ℕ) → Parser ℕ
  unfolding fail
  number_at none rest = fail expected_number rest
  number_at (some (value, stop)) rest = ok value stop

  unfoldable pub number : Parser ℕ
  unfolding skip_whitespace strtoll number_at
  number rest = let rest' = skip_whitespace rest in number_at (strtoll rest') rest'

  module _ {S : Type 0} where
    -- `while (consume(','))`, and the closing bracket.
    unfoldable pub finish_round : ℕ → (S → Parser S) → S → Parser S
    unfolding expect consume
    finish_round close loop s = do
      more ← consume 0x2c
      (λ rest. elim more [ true ↦ loop s rest | false ↦ (do expect close; pure s) rest ])

    -- The loop of `object`; what `onMember` changes is a state.
    unfoldable pub members : ℕ → (List ℕ → S → Parser S) → S → Parser S
    unfolding string expect finish_round
    members zero on_member s rest = out_of_fuel
    members (suc fuel) on_member s rest =
        (do
          key ← string
          expect 0x3a
          s' ← on_member key s
          finish_round 0x7d (members fuel on_member) s')
          rest

    -- Behind the opening bracket: nothing, or the loop. Each round takes a byte at least.
    unfoldable pub enter : ℕ → (ℕ → Parser S) → S → Parser S
    unfolding consume
    enter close loop s = do
      empty ← consume close
      (λ rest. elim empty [ true ↦ ok s rest | false ↦ loop (suc (length rest)) rest ])

    unfoldable pub object : (List ℕ → S → Parser S) → S → Parser S
    unfolding members expect enter
    object on_member s = do expect 0x7b; enter 0x7d (λ fuel. members fuel on_member s) s

    -- The loop of `array`.
    unfoldable pub elements : ℕ → (S → Parser S) → S → Parser S
    unfolding finish_round
    elements zero on_element s rest = out_of_fuel
    elements (suc fuel) on_element s rest =
        (do s' ← on_element s; finish_round 0x5d (elements fuel on_element) s') rest

    unfoldable pub array : (S → Parser S) → S → Parser S
    unfolding elements expect enter
    array on_element s = do expect 0x5b; enter 0x5d (λ fuel. elements fuel on_element s) s
