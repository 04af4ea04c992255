-- ===== src/Json/Blank.antt =====
-- White space between the parts of an object, as tools/json.hpp passes over it.
use emulator.Prelude.{
  ℕ, List, [], ◌∷◌, ◌++◌, ◌≡◌, refl, ◌∙◌, ap, sym, true, false, if_true, if_false, if_cases,
}
use emulator.Json.{
  ok, ◌>>=◌, is_space, skip_whitespace, peek, peek_at, expect, expect_at, string, string_body,
}
use emulator.Json.Reading.{NoQuote, Each, string-quoted}

-- White space, as `skipWhitespace` takes it.
abbrev pub IsBlank : List ℕ → Type 0
IsBlank = Each (λ c. is_space c ≡ true)

-- `"key" :` behind white space, and what stands behind the colon.
pub record Keyed (key value text : List ℕ) : Type 0 where
  pub before : List ℕ
  pub between : List ℕ
  pub blank_before : IsBlank before
  pub blank_between : IsBlank between
  pub name : NoQuote key
  pub written : text ≡ before ++ 0x22 ∷ (key ++ 0x22 ∷ (between ++ 0x3a ∷ value))

pub skip_whitespace-blank :
    (blank : List ℕ) (c : ℕ) (rest : List ℕ)
    → IsBlank blank
    → is_space c ≡ false
    → skip_whitespace (blank ++ c ∷ rest) ≡ c ∷ rest
unfolding skip_whitespace
skip_whitespace-blank [] c rest h v = if_false _ _ v
skip_whitespace-blank (b ∷ blank) c rest (hb, h) v =
    if_true _ _ hb ∙ skip_whitespace-blank blank c rest h v

pub skip_whitespace-lead :
    (blank rest : List ℕ) → IsBlank blank → skip_whitespace (blank ++ rest) ≡ skip_whitespace rest
unfolding skip_whitespace
skip_whitespace-lead [] rest h = refl
skip_whitespace-lead (b ∷ blank) rest (hb, h) = if_true _ _ hb ∙ skip_whitespace-lead blank rest h

pub skip_whitespace-twice :
    (rest : List ℕ) → skip_whitespace (skip_whitespace rest) ≡ skip_whitespace rest
unfolding skip_whitespace
skip_whitespace-twice [] = refl
skip_whitespace-twice (c ∷ rest) =
    if_cases (λ t. skip_whitespace t ≡ t) (is_space c) _ _ (λ _. skip_whitespace-twice rest)
      (λ v. if_false _ _ v)

-- The first quote.
abbrev quoted : List ℕ → List ℕ → List ℕ → List ℕ
quoted key between value = key ++ 0x22 ∷ (between ++ 0x3a ∷ value)

pub skip_whitespace-Keyed :
    {key value text : List ℕ} (k : Keyed key value text)
    → skip_whitespace text ≡ 0x22 ∷ quoted key k.between value
skip_whitespace-Keyed {key} {value} k =
    ap skip_whitespace k.written
    ∙ skip_whitespace-blank k.before 0x22 (quoted key k.between value) k.blank_before refl

module _ (size : ℕ) where
  expect-skip : (c : ℕ) (rest : List ℕ) → expect size c (skip_whitespace rest) ≡ expect size c rest
  unfolding expect peek
  expect-skip c rest =
      ap (λ w. ◌>>=◌ (λ _. peek_at size w) (expect_at size c) []) (skip_whitespace-twice rest)

  pub string-skip : (rest : List ℕ) → string size (skip_whitespace rest) ≡ string size rest
  unfolding string
  string-skip rest = ap (λ r. ◌>>=◌ (λ _. r) (λ _. string_body size) []) (expect-skip 0x22 rest)

  -- The opening brace and the colon, behind white space.
  pub expect-brace :
      (blank rest : List ℕ) → IsBlank blank → expect size 0x7b (blank ++ 0x7b ∷ rest) ≡ ok tt rest
  unfolding expect peek
  expect-brace blank rest h =
      ap (λ w. ◌>>=◌ (λ _. peek_at size w) (expect_at size 0x7b) [])
        (skip_whitespace-blank blank 0x7b rest h refl)

  pub expect-colon :
      (blank rest : List ℕ) → IsBlank blank → expect size 0x3a (blank ++ 0x3a ∷ rest) ≡ ok tt rest
  unfolding expect peek
  expect-colon blank rest h =
      ap (λ w. ◌>>=◌ (λ _. peek_at size w) (expect_at size 0x3a) [])
        (skip_whitespace-blank blank 0x3a rest h refl)

  pub string-Keyed :
      {key value text : List ℕ} (k : Keyed key value text)
      → string size text ≡ ok key (k.between ++ 0x3a ∷ value)
  string-Keyed {key} {value} {text} k =
      sym (string-skip text)
      ∙ ap (string size) (skip_whitespace-Keyed k)
      ∙ string-quoted size key (k.between ++ 0x3a ∷ value) k.name
