-- ===== src/Json/Reading.antt =====
-- What the functions of tools/json.hpp find in a text in the layout of the test files.
use emulator.Prelude.{
  ℕ, zero, suc, ◌+◌, ◌≤◌, ◌<◌, ◌^◌, Bool, true, false, List, [], ◌∷◌, ◌++◌, ◌≡◌, refl, ◌∙◌, ap,
  arith, if_false, length, ◌==◌,
}
use emulator.Json.{
  Result, ok, Parser, ◌>>=◌, ◌>>◌, is_digit, is_space, skip_whitespace, strtoll, number_at,
  until_quote, expect, consume, consume_at, string, number, finish_round, enter, members, elements,
  array,
}
use emulator.Text.{decimal}
use emulator.Json.Decimal.{strtoll-decimal}
use emulator.Json.Bounds.{Consumes}

-- No byte is a quote.
abbrev pub NoQuote : List ℕ → Type 0
NoQuote [] = Unit {0}
NoQuote (c ∷ rest) = ((c == 0x22) ≡ false) × NoQuote rest

until_quote-append :
    (xs rest : List ℕ) → NoQuote xs → until_quote (xs ++ 0x22 ∷ rest) ≡ (xs, 0x22 ∷ rest)
unfolding until_quote
until_quote-append [] rest h = refl
until_quote-append (c ∷ xs) rest h = rw (h.0, until_quote-append xs rest h.1) refl

skip_whitespace-visible :
    (c : ℕ) (rest : List ℕ) → is_space c ≡ false → skip_whitespace (c ∷ rest) ≡ c ∷ rest
unfolding skip_whitespace
skip_whitespace-visible c rest h = if_false _ _ h

-- A list in brackets, its elements parted by commas. Each element is an opening byte and its body.
unfoldable pub more_elements : {A : Type 0} → ℕ → (A → List ℕ → List ℕ) → List A → List ℕ → List ℕ
more_elements opening body [] tail = 0x5d ∷ tail
more_elements opening body (a ∷ rest) tail =
    0x2c ∷ opening ∷ body a (more_elements opening body rest tail)

unfoldable pub listed : {A : Type 0} → ℕ → (A → List ℕ → List ℕ) → List A → List ℕ → List ℕ
listed opening body [] tail = 0x5b ∷ 0x5d ∷ tail
listed opening body (a ∷ rest) tail = 0x5b ∷ opening ∷ body a (more_elements opening body rest tail)

-- The effect of one element after the other.
unfoldable pub after_all : {A S : Type 0} → (S → A → S) → S → List A → S
after_all step s [] = s
after_all step s (a ∷ rest) = after_all step (step s a) rest

-- A property of each element.
abbrev pub Each : {A : Type 0} → (A → Type 0) → List A → Type 0
Each P [] = Unit {0}
Each P (a ∷ rest) = P a × Each P rest

-- A sequence goes on with what its first parser found.
pub onward :
    {A C : Type 0} (m : Parser A) (f : A → Parser C) (rest rest' : List ℕ) (a : A)
    → m rest ≡ ok a rest'
    → ◌>>=◌ m f rest ≡ f a rest'
onward m f rest rest' a e = ap (λ r. ((λ _. r) >>= f) []) e

module _ (size : ℕ) where
  -- A number behind a space, and behind no space.
  pub number-decimal :
      (n c : ℕ) (rest : List ℕ)
      → n < 2 ^ 63
      → is_digit c ≡ false
      → number size (decimal n ++ c ∷ rest) ≡ ok n (c ∷ rest)
  unfolding number
  number-decimal n c rest h k =
      let (blank, value) = strtoll-decimal n c rest h k in
      ap (λ t. number_at size (strtoll t) t) blank
      ∙ ap (λ o. number_at size o (decimal n ++ c ∷ rest)) value

  pub number-decimal_spaced :
      (n c : ℕ) (rest : List ℕ)
      → n < 2 ^ 63
      → is_digit c ≡ false
      → number size (0x20 ∷ decimal n ++ c ∷ rest) ≡ ok n (c ∷ rest)
  unfolding number
  number-decimal_spaced n c rest h k = number-decimal n c rest h k

  pub string-quoted :
      (xs rest : List ℕ) → NoQuote xs → string size (0x22 ∷ xs ++ 0x22 ∷ rest) ≡ ok xs rest
  unfolding string
  string-quoted xs rest h = rw (until_quote-append xs rest h) refl

  module _ {S : Type 0} where
    -- What follows the value of a member or an element: a comma, or the closing bracket.
    round_next :
        (close : ℕ) (loop : S → Parser S) (s : S) (rest : List ℕ)
        → finish_round size close loop s (0x2c ∷ rest) ≡ loop s rest
    unfolding finish_round
    round_next close loop s rest = refl

    round_last_member :
        (loop : S → Parser S) (s : S) (rest : List ℕ)
        → finish_round size 0x7d loop s (0x7d ∷ rest) ≡ ok s rest
    unfolding finish_round
    round_last_member loop s rest = refl

    round_last_element :
        (loop : S → Parser S) (s : S) (rest : List ℕ)
        → finish_round size 0x5d loop s (0x5d ∷ rest) ≡ ok s rest
    unfolding finish_round
    round_last_element loop s rest = refl

    members-round :
        (on_member : List ℕ → S → Parser S) (fuel : ℕ) (s s' : S) (key text value rest : List ℕ)
        → string size text ≡ ok key (0x3a ∷ value)
        → on_member key s value ≡ ok s' rest
        → members size (suc fuel) on_member s text
          ≡ finish_round size 0x7d (members size fuel on_member) s' rest
    unfolding members
    members-round on_member fuel s s' key text value rest e f =
        let finish = finish_round size 0x7d (members size fuel on_member) in
        ap (λ r. ((λ _. r) >>= λ key. expect size 0x3a >> (on_member key s >>= finish)) []) e
        ∙ ap (λ r. ((λ _. r) >>= finish) []) f

    -- A round of `object` that a comma ends, and the last round.
    pub members-next :
        (on_member : List ℕ → S → Parser S) (fuel : ℕ) (s s' : S) (key text value rest : List ℕ)
        → string size text ≡ ok key (0x3a ∷ value)
        → on_member key s value ≡ ok s' (0x2c ∷ rest)
        → members size (suc fuel) on_member s text ≡ members size fuel on_member s' rest
    members-next on_member fuel s s' key text value rest e f =
        members-round on_member fuel s s' key text value (0x2c ∷ rest) e f
        ∙ round_next 0x7d (members size fuel on_member) s' rest

    pub members-last :
        (on_member : List ℕ → S → Parser S) (fuel : ℕ) (s s' : S) (key text value rest : List ℕ)
        → string size text ≡ ok key (0x3a ∷ value)
        → on_member key s value ≡ ok s' (0x7d ∷ rest)
        → members size (suc fuel) on_member s text ≡ ok s' rest
    members-last on_member fuel s s' key text value rest e f =
        members-round on_member fuel s s' key text value (0x7d ∷ rest) e f
        ∙ round_last_member (members size fuel on_member) s' rest

    -- The loop of an array over the rendered elements: each is read where it stands, whatever
    -- stands behind it.
    module _ {A : Type 0} (P : A → Type 0) (opening : ℕ) (body : A → List ℕ → List ℕ)
        (step : S → A → S) (on_element : S → Parser S)
        (takes : (s : S) → Consumes size 1 (on_element s))
        (reads : (s : S) (a : A) (tail : List ℕ)
          → P a
          → on_element s (opening ∷ body a tail) ≡ ok (step s a) tail) where
      shorter :
          (s : S) (a : A) (tail : List ℕ) → P a → length tail + 1 ≤ length (opening ∷ body a tail)
      shorter s a tail p = rw (reads s a tail p) at ((takes s).after (opening ∷ body a tail))

      elements-listed :
          (more : List A) (a : A) (fuel : ℕ) (s : S) (tail : List ℕ)
          → P a
          → Each P more
          → length (opening ∷ body a (more_elements opening body more tail)) < fuel
          → elements size fuel on_element s
              (opening ∷ body a (more_elements opening body more tail))
            ≡ ok (after_all step s (a ∷ more)) tail
      unfolding elements more_elements after_all
      elements-listed more a zero s tail p ps h = absurd (omega arith)
      elements-listed [] a (suc fuel) s tail p ps h =
          ap (λ r. ((λ _. r) >>= finish_round size 0x5d (elements size fuel on_element)) [])
            (reads s a (0x5d ∷ tail) p)
          ∙ round_last_element (elements size fuel on_element) (step s a) tail
      elements-listed (b ∷ more) a (suc fuel) s tail p ps h =
          let rest = opening ∷ body b (more_elements opening body more tail) in
          ap (λ r. ((λ _. r) >>= finish_round size 0x5d (elements size fuel on_element)) [])
            (reads s a (0x2c ∷ rest) p)
          ∙ round_next 0x5d (elements size fuel on_element) (step s a) rest
          ∙ elements-listed more b fuel (step s a) tail ps.0 ps.1
              (omega (arith, h, shorter s a (0x2c ∷ rest) p))

      consume-opening :
          is_space opening ≡ false
          → (opening == 0x5d) ≡ false
          → (rest : List ℕ) → consume size 0x5d (opening ∷ rest) ≡ ok false (opening ∷ rest)
      unfolding consume
      consume-opening blank close rest =
          ap (consume_at size 0x5d) (skip_whitespace-visible opening rest blank)
          ∙ if_false _ _ close

      enter-opening :
          is_space opening ≡ false
          → (opening == 0x5d) ≡ false
          → (loop : ℕ → Parser S) (s : S) (rest : List ℕ)
          → enter size 0x5d loop s (opening ∷ rest)
            ≡ loop (suc (length (opening ∷ rest))) (opening ∷ rest)
      unfolding enter
      enter-opening blank close loop s rest =
          ap
            (λ (r : Result Bool).
              ((λ _. r) >>= λ empty rest. elim empty [
                | true ↦ ok s rest
                | false ↦ loop (suc (length rest)) rest
              ])
                [])
            (consume-opening blank close rest)

      pub array-listed :
          is_space opening ≡ false
          → (opening == 0x5d) ≡ false
          → (more : List A) (s : S) (tail : List ℕ) → Each P more
          → array size on_element s (listed opening body more tail)
            ≡ ok (after_all step s more) tail
      unfolding array listed after_all
      array-listed blank close [] s tail ps = refl
      array-listed blank close (a ∷ more) s tail ps =
          let rest = body a (more_elements opening body more tail) in
          enter-opening blank close (λ fuel. elements size fuel on_element s) s rest
          ∙ elements-listed more a (suc (length (opening ∷ rest))) s tail ps.0 ps.1 (omega arith)
