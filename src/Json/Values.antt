-- ===== src/Json/Values.antt =====
-- What is true of every value that a parser gives.
use emulator.Prelude.{ℕ, zero, suc, Bool, true, false, List, length}
use emulator.Json.{
  Message, Result, ok, failed, out_of_fuel, Parser, ◌>>=◌, pure, fail, expect, consume, string,
  finish_round, enter, members, object, elements, array,
}

-- The value, where there is one, has the property.
abbrev pub Given : {A : Type 0} → (A → Type 0) → Result A → Type 0
Given P (ok a rest) = P a
Given P (failed e) = Unit {0}
Given P out_of_fuel = Unit {0}

pub record Yields {A : Type 0} (P : A → Type 0) (m : Parser A) : Type 0 where
  pub value : (rest : List ℕ) → Given P (m rest)

-- A parser of which nothing is asked.
pub Anything : {A : Type 0} → A → Type 0
Anything a = Unit {0}

module _ {A : Type 0} where
  Anything-Given : (r : Result A) → Given Anything r
  unfolding Anything
  Anything-Given (ok a rest) = tt
  Anything-Given (failed e) = tt
  Anything-Given out_of_fuel = tt

  pub Anything-Yields : (m : Parser A) → Yields Anything m
  Anything-Yields m = record { value = λ rest. Anything-Given (m rest) }

  module _ {C : Type 0} {P : A → Type 0} {Q : C → Type 0} where
    Given-bind :
        (f : A → Parser C) (r : Result A)
        → ((a : A) → P a → Yields Q (f a))
        → Given P r
        → Given Q (((λ _. r) >>= f) List.[])
    Given-bind f (ok a rest) h p = (h a p).value rest
    Given-bind f (failed e) h p = tt
    Given-bind f out_of_fuel h p = tt

    pub bind-Yields :
        {m : Parser A} {f : A → Parser C}
        → Yields P m
        → ((a : A) → P a → Yields Q (f a))
        → Yields Q (m >>= f)
    bind-Yields {m = m} {f = f} y h = record {
      value = λ rest. Given-bind f (m rest) h (y.value rest);
    }

  pub pure-Yields : {P : A → Type 0} (a : A) → P a → Yields P (pure a)
  pure-Yields a p = record { value = λ rest. p }

-- A parser whose own value does not matter to what follows.
pub after-Yields :
    {A C : Type 0} {Q : C → Type 0} (m : Parser A) {f : A → Parser C}
    → ((a : A) → Yields Q (f a))
    → Yields Q (m >>= f)
after-Yields m h = bind-Yields (Anything-Yields m) λ a _. h a

module _ (size : ℕ) where
  pub fail-Yields : {A : Type 0} {P : A → Type 0} (message : Message) → Yields P (fail size message)
  unfolding fail
  fail-Yields message = record { value = λ rest. tt }

  module _ {S : Type 0} {P : S → Type 0} where
    round-Yields :
        (close : ℕ) (loop : S → Parser S)
        → ((s : S) → P s → Yields P (loop s))
        → (s : S) → P s
        → Yields P (finish_round size close loop s)
    unfolding finish_round
    round-Yields close loop h s p = after-Yields (consume size 0x2c) (λ more. go more)
      where
        go :
            (more : Bool)
            → Yields P (λ rest. elim more [
              | true ↦ loop s rest
              | false ↦ (expect size close >>= λ _. pure s) rest
            ])
        go true = h s p
        go false = after-Yields (expect size close) λ _. pure-Yields s p

    members-Yields :
        (on_member : List ℕ → S → Parser S)
        → ((key : List ℕ) (s : S) → P s → Yields P (on_member key s))
        → (fuel : ℕ) (s : S) → P s
        → Yields P (members size fuel on_member s)
    unfolding members
    members-Yields on_member h zero s p = record { value = λ rest. tt }
    members-Yields on_member h (suc fuel) s p = after-Yields (string size) λ key.
        after-Yields (expect size 0x3a) λ _.
          bind-Yields (h key s p)
            (round-Yields 0x7d (members size fuel on_member) (members-Yields on_member h fuel))

    elements-Yields :
        (on_element : S → Parser S)
        → ((s : S) → P s → Yields P (on_element s))
        → (fuel : ℕ) (s : S) → P s
        → Yields P (elements size fuel on_element s)
    unfolding elements
    elements-Yields on_element h zero s p = record { value = λ rest. tt }
    elements-Yields on_element h (suc fuel) s p =
        bind-Yields (h s p)
          (round-Yields 0x5d (elements size fuel on_element) (elements-Yields on_element h fuel))

    enter-Yields :
        (close : ℕ) (loop : ℕ → Parser S) (s : S)
        → P s
        → ((fuel : ℕ) → Yields P (loop fuel))
        → Yields P (enter size close loop s)
    unfolding enter
    enter-Yields close loop s p h = after-Yields (consume size close) (λ empty. go empty)
      where
        go :
            (empty : Bool)
            → Yields P
                (λ rest. elim empty [ true ↦ ok s rest | false ↦ loop (suc (length rest)) rest ])
        go true = pure-Yields s p
        go false = record { value = λ rest. (h (suc (length rest))).value rest }

    -- What each round keeps, the whole loop keeps.
    pub object-Yields :
        (on_member : List ℕ → S → Parser S) (s : S)
        → P s
        → ((key : List ℕ) (s : S) → P s → Yields P (on_member key s))
        → Yields P (object size on_member s)
    unfolding object
    object-Yields on_member s p h = after-Yields (expect size 0x7b) λ _.
        enter-Yields 0x7d (λ fuel. members size fuel on_member s) s p
          λ fuel. members-Yields on_member h fuel s p

    pub array-Yields :
        (on_element : S → Parser S) (s : S)
        → P s
        → ((s : S) → P s → Yields P (on_element s))
        → Yields P (array size on_element s)
    unfolding array
    array-Yields on_element s p h = after-Yields (expect size 0x5b) λ _.
        enter-Yields 0x5d (λ fuel. elements size fuel on_element s) s p
          λ fuel. elements-Yields on_element h fuel s p
