-- ===== src/Json/Rounds.antt =====
-- The rounds of the loop of `object` in tools/json.hpp, one after the other, with any white space.
use emulator.Prelude.{
  ℕ, suc, ◌+◌, ◌-◌, ◌≤◌, List, [], ◌∷◌, ◌++◌, ◌≡◌, refl, ◌∙◌, ap, sym, arith, length, length-append,
  true, false,
}
use mathlib.Core.Path.{subst}
use emulator.Json.{
  Failure, Result, ok, failed, Parser, ◌>>=◌, ◌>>◌, pure, skip_whitespace, peek, expect, consume,
  consume_at, members, finish_round, enter, object,
}
use emulator.Json.Bounds.{Within, Consumes, skip_whitespace-length}
use emulator.Json.Blank.{
  IsBlank, Keyed, skip_whitespace-blank, skip_whitespace-Keyed, string-skip, expect-brace,
  expect-colon, string-Keyed,
}

-- `n` members that are each read to the comma behind them, from one text and state to another.
pub data ReadsOn (size : ℕ) {S : Type 0} (on_member : List ℕ → S → Parser S) (t : S) (stop : List ℕ)
    : ℕ → S → List ℕ → Type 0 where
  here : ReadsOn size on_member t stop 0 t stop
  member :
      {n : ℕ} {s s' : S} {text rest : List ℕ} (key value blank : List ℕ)
      → Keyed key value text
      → on_member key s value ≡ ok s' (blank ++ 0x2c ∷ rest)
      → IsBlank blank
      → ReadsOn size on_member t stop n s' rest
      → ReadsOn size on_member t stop (suc n) s text

module _ (size : ℕ) where
  module _ {S : Type 0} (on_member : List ℕ → S → Parser S) where
    round-next :
        (loop : S → Parser S) (s : S) (blank rest : List ℕ)
        → IsBlank blank
        → finish_round size 0x7d loop s (blank ++ 0x2c ∷ rest) ≡ loop s rest
    unfolding finish_round consume
    round-next loop s blank rest h =
        ap
          (λ w.
            ◌>>=◌ (λ _. consume_at size 0x2c w)
              (λ more rest. elim more [
                | true ↦ loop s rest
                | false ↦ (expect size 0x7d >>= λ _. pure s) rest
              ])
              [])
          (skip_whitespace-blank blank 0x2c rest h refl)

    -- A round, up to what its member gives.
    members-Keyed :
        {key value text : List ℕ} (fuel : ℕ) (s : S) (r : Result S)
        → Keyed key value text
        → on_member key s value ≡ r
        → members size (suc fuel) on_member s text
          ≡ ◌>>=◌ (λ _. r) (finish_round size 0x7d (members size fuel on_member)) []
    unfolding members
    members-Keyed {key} {value} fuel s r k f =
        let finish = finish_round size 0x7d (members size fuel on_member) in
        ap (λ r. ((λ _. r) >>= λ key. expect size 0x3a >> (on_member key s >>= finish)) [])
          (string-Keyed size k)
        ∙ ap (λ r. ((λ _. r) >>= λ _. on_member key s >>= finish) [])
            (expect-colon size k.between value k.blank_between)
        ∙ ap (λ r. ((λ _. r) >>= finish) []) f

    members-skip :
        (fuel : ℕ) (s : S) (text : List ℕ)
        → members size (suc fuel) on_member s (skip_whitespace text)
          ≡ members size (suc fuel) on_member s text
    unfolding members
    members-skip fuel s text =
        let finish = finish_round size 0x7d (members size fuel on_member) in
        ap (λ r. ((λ _. r) >>= λ key. expect size 0x3a >> (on_member key s >>= finish)) [])
          (string-skip size text)

    members-ReadsOn :
        {t : S} {stop : List ℕ} {n : ℕ} {s : S} {text : List ℕ} (fuel : ℕ)
        → ReadsOn size on_member t stop n s text
        → members size (n + fuel) on_member s text ≡ members size fuel on_member t stop
    members-ReadsOn {text = text} fuel here =
        let plus : 0 + fuel ≡ fuel = omega arith in ap (λ k. members size k on_member _ text) plus
    members-ReadsOn fuel (member {n} {s} {s'} {text} {rest} key value blank k f h rs) =
        let split : suc n + fuel ≡ suc (n + fuel) = omega arith in
        ap (λ k. members size k on_member s text) split
        ∙ members-Keyed (n + fuel) s _ k f
        ∙ round-next (members size (n + fuel) on_member) s' blank rest h
        ∙ members-ReadsOn fuel rs

    member-length :
        {key value text : List ℕ} (s s' : S) (blank rest : List ℕ)
        → Consumes size 0 (on_member key s)
        → Keyed key value text
        → on_member key s value ≡ ok s' (blank ++ 0x2c ∷ rest)
        → length rest + 4 ≤ length (skip_whitespace text)
    member-length {key} {value} s s' blank rest takes k f =
        let tail : length (blank ++ 0x2c ∷ rest) + 0 ≤ length value =
          subst (Within size 0 (length value)) f (takes.after value) in
        omega (
          arith,
          tail,
          ap length (skip_whitespace-Keyed k),
          length-append blank (0x2c ∷ rest),
          length-append key (0x22 ∷ (k.between ++ 0x3a ∷ value)),
          length-append k.between (0x3a ∷ value),
        )

    ReadsOn-length :
        {t : S} {stop : List ℕ} {n : ℕ} {s : S} {text : List ℕ}
        → ((key : List ℕ) (s : S) → Consumes size 0 (on_member key s))
        → ReadsOn size on_member t stop n s text
        → n ≤ length (skip_whitespace text)
    ReadsOn-length takes here = omega arith
    ReadsOn-length takes (member {n} {s} {s'} {text} {rest} key value blank k f h rs) = omega (
      arith,
      ReadsOn-length takes rs,
      skip_whitespace-length rest,
      member-length s s' blank rest (takes key s) k f,
    )

    -- The text begins with a key.
    ReadsOn-quote :
        {t : S} {stop : List ℕ} {n : ℕ} {s : S} {text key value : List ℕ}
        → ReadsOn size on_member t stop n s text
        → Keyed key value stop
        → (tail : List ℕ) × (skip_whitespace text ≡ 0x22 ∷ tail)
    ReadsOn-quote here k = (_, skip_whitespace-Keyed k)
    ReadsOn-quote (member key value blank k f h rs) stops = (_, skip_whitespace-Keyed k)

    enter-quote :
        (s : S) (text tail : List ℕ)
        → skip_whitespace text ≡ 0x22 ∷ tail
        → enter size 0x7d (λ fuel. members size fuel on_member s) s text
          ≡ members size (suc (length (skip_whitespace text))) on_member s (skip_whitespace text)
    unfolding enter consume
    enter-quote s text tail e =
        ap
          (λ w.
            ◌>>=◌ (λ _. consume_at size 0x7d w)
              (λ empty rest. elim empty [
                | true ↦ ok s rest
                | false ↦ members size (suc (length rest)) on_member s rest
              ])
              [])
          e
        ∙ ap (λ w. members size (suc (length w)) on_member s w) (sym e)

    -- An object, up to what the member gives that stands behind any number of others, whatever white
    -- space stands between the parts.
    object-ReadsOn :
        {t : S} {stop : List ℕ} {n : ℕ} {s : S} {text key value : List ℕ} (blank : List ℕ)
        (r : Result S)
        → ((key : List ℕ) (s : S) → Consumes size 0 (on_member key s))
        → IsBlank blank
        → ReadsOn size on_member t stop n s text
        → Keyed key value stop
        → on_member key t value ≡ r
        → let spare = length (skip_whitespace text) - n in
          object size on_member s (blank ++ 0x7b ∷ text)
          ≡ ◌>>=◌ (λ _. r) (finish_round size 0x7d (members size spare on_member)) []
    unfolding object
    object-ReadsOn {t} {stop} {n} {s} {text} blank r takes h rs k f =
        let spare = length (skip_whitespace text) - n in
        let bound = ReadsOn-length takes rs in
        let split : suc (length (skip_whitespace text)) ≡ n + suc spare = omega (arith, bound) in
        let (tail, quote) = ReadsOn-quote rs k in
        ap (λ r. ◌>>=◌ (λ _. r) (λ _. enter size 0x7d (λ fuel. members size fuel on_member s) s) [])
          (expect-brace size blank text h)
        ∙ enter-quote s text tail quote
        ∙ members-skip (length (skip_whitespace text)) s text
        ∙ ap (λ j. members size j on_member s text) split
        ∙ members-ReadsOn (suc spare) rs
        ∙ members-Keyed spare t r k f

    -- If that member fails, the object does.
    pub object-refused :
        {t : S} {stop : List ℕ} {n : ℕ} {s : S} {text key value : List ℕ} (blank : List ℕ)
        (e : Failure)
        → ((key : List ℕ) (s : S) → Consumes size 0 (on_member key s))
        → IsBlank blank
        → ReadsOn size on_member t stop n s text
        → Keyed key value stop
        → on_member key t value ≡ failed e
        → object size on_member s (blank ++ 0x7b ∷ text) ≡ failed e
    object-refused blank e takes h rs k f = object-ReadsOn blank (failed e) takes h rs k f

    round-last :
        (loop : S → Parser S) (s : S) (blank rest : List ℕ)
        → IsBlank blank
        → finish_round size 0x7d loop s (blank ++ 0x7d ∷ rest) ≡ ok s rest
    unfolding finish_round consume expect peek
    round-last loop s blank rest h =
        ap
          (λ w.
            ◌>>=◌ (λ _. consume_at size 0x2c w)
              (λ more rest. elim more [
                | true ↦ loop s rest
                | false ↦ (expect size 0x7d >>= λ _. pure s) rest
              ])
              [])
          (skip_whitespace-blank blank 0x7d rest h refl)

    -- If the closing brace stands behind it, the object is read.
    pub object-read :
        {t t' : S} {stop rest : List ℕ} {n : ℕ} {s : S} {text key value : List ℕ}
        (blank behind : List ℕ)
        → ((key : List ℕ) (s : S) → Consumes size 0 (on_member key s))
        → IsBlank blank
        → ReadsOn size on_member t stop n s text
        → Keyed key value stop
        → on_member key t value ≡ ok t' (behind ++ 0x7d ∷ rest)
        → IsBlank behind
        → object size on_member s (blank ++ 0x7b ∷ text) ≡ ok t' rest
    object-read {t' = t'} {rest = rest} blank behind takes h rs k f h' =
        object-ReadsOn blank _ takes h rs k f ∙ round-last _ t' behind rest h'
