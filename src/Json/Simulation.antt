-- ===== src/Json/Simulation.antt =====
-- Two readings of one array by tools/json.hpp, whose elements do corresponding things.
use emulator.Prelude.{ℕ, zero, suc, Bool, true, false, List, [], length, ◌≡◌, refl, ◌∙◌, ap}
use emulator.Json.{
  Result, ok, failed, out_of_fuel, Parser, ◌>>=◌, pure, expect, consume, finish_round, enter,
  elements, array,
}

-- The value of a result, changed.
abbrev pub map_result : {A C : Type 0} → (A → C) → Result A → Result C
map_result f (ok a rest) = ok (f a) rest
map_result f (failed e) = failed e
map_result f out_of_fuel = out_of_fuel

-- The second parser does what the first does, and changes the value.
pub record Follows {A C : Type 0} (f : A → C) (m : Parser A) (m' : Parser C) : Type 0 where
  pub at : (rest : List ℕ) → m' rest ≡ map_result f (m rest)

pub same-Follows : {A : Type 0} (r : Result A) → r ≡ map_result (λ a. a) r
same-Follows (ok a rest) = refl
same-Follows (failed e) = refl
same-Follows out_of_fuel = refl

module _ {S T : Type 0} (f : S → T) where
  result-Follows :
      {A C : Type 0} (g : A → C) {k : A → Parser S} (k' : C → Parser T)
      → ((a : A) → Follows f (k a) (k' (g a)))
      → (r : Result A) → ◌>>=◌ (λ _. map_result g r) k' [] ≡ map_result f (◌>>=◌ (λ _. r) k [])
  result-Follows g k' h (ok a rest) = (h a).at rest
  result-Follows g k' h (failed e) = refl
  result-Follows g k' h out_of_fuel = refl

  -- Parsers that correspond, and what goes on with their values.
  pub bind-Follows :
      {A C : Type 0} (g : A → C) {m : Parser A} {m' : Parser C} {k : A → Parser S}
      (k' : C → Parser T)
      → Follows g m m'
      → ((a : A) → Follows f (k a) (k' (g a)))
      → Follows f (m >>= k) (m' >>= k')
  bind-Follows g {m = m} k' e h = record {
    at = λ rest. ap (λ r. ◌>>=◌ (λ _. r) k' []) (e.at rest) ∙ result-Follows g k' h (m rest);
  }

  -- One parser on both sides.
  after-Follows :
      {A : Type 0} (m : Parser A) {k : A → Parser S} {k' : A → Parser T}
      → ((a : A) → Follows f (k a) (k' a))
      → Follows f (m >>= k) (m >>= k')
  after-Follows m {k' = k'} h =
      bind-Follows (λ a. a) k' (record { at = λ rest. same-Follows (m rest) }) h

  module _ (size : ℕ) where
    round-Follows :
        (close : ℕ) (loop : S → Parser S) (loop' : T → Parser T)
        → ((s : S) → Follows f (loop s) (loop' (f s)))
        → (s : S) → Follows f (finish_round size close loop s) (finish_round size close loop' (f s))
    unfolding finish_round
    round-Follows close loop loop' h s = after-Follows (consume size 0x2c) more
      where
        more :
            (b : Bool)
            → Follows f
                (λ rest. elim b [
                  | true ↦ loop s rest
                  | false ↦ (expect size close >>= λ _. pure s) rest
                ])
                (λ rest. elim b [
                  | true ↦ loop' (f s) rest
                  | false ↦ (expect size close >>= λ _. pure (f s)) rest
                ])
        more true = h s
        more false = after-Follows (expect size close) λ _. record { at = λ rest. refl }

    elements-Follows :
        (on_element : S → Parser S) (on_element' : T → Parser T)
        → ((s : S) → Follows f (on_element s) (on_element' (f s)))
        → (fuel : ℕ) (s : S)
        → Follows f (elements size fuel on_element s) (elements size fuel on_element' (f s))
    unfolding elements
    elements-Follows on_element on_element' h zero s = record { at = λ rest. refl }
    elements-Follows on_element on_element' h (suc fuel) s =
        bind-Follows f (finish_round size 0x5d (elements size fuel on_element')) (h s) (
          round-Follows 0x5d (elements size fuel on_element) (elements size fuel on_element')
            (elements-Follows on_element on_element' h fuel))

    -- If each element is read alike, the array is.
    pub array-Follows :
        (on_element : S → Parser S) (on_element' : T → Parser T)
        → ((s : S) → Follows f (on_element s) (on_element' (f s)))
        → (s : S) → Follows f (array size on_element s) (array size on_element' (f s))
    unfolding array enter
    array-Follows on_element on_element' h s =
        after-Follows (expect size 0x5b) λ _. after-Follows (consume size 0x5d) empty
      where
        empty :
            (b : Bool)
            → Follows f
                (λ rest. elim b [
                  | true ↦ ok s rest
                  | false ↦ elements size (suc (length rest)) on_element s rest
                ])
                (λ rest. elim b [
                  | true ↦ ok (f s) rest
                  | false ↦ elements size (suc (length rest)) on_element' (f s) rest
                ])
        empty true = record { at = λ rest. refl }
        empty false = record {
          at = λ rest. (elements-Follows on_element on_element' h (suc (length rest)) s).at rest;
        }
