-- ===== src/Json/Bounds/Loops.antt =====
-- How much of the text the loops of `object` and `array` of tools/json.hpp take.
use emulator.Prelude.{ℕ, zero, suc, Bool, true, false, List, arith, length}
use emulator.Json.{
  ok, Parser, ◌>>◌, pure, expect, finish_round, enter, members, object, elements, array,
}
use emulator.Json.Bounds.{
  Consumes, ConsumesBelow, bind_below, bind, anywhere, pure-Consumes, expect-Consumes,
  consume-Consumes, string-Consumes, within_less,
}

module _ (size : ℕ) where
  module _ {S : Type 0} where
    -- The end of a loop's round: another round behind a comma, or the closing bracket.
    round_end :
        (fuel close : ℕ) (loop : S → Parser S) (s : S)
        → ConsumesBelow size fuel 1 (loop s)
        → ConsumesBelow size fuel 1 (finish_round size close loop s)
    unfolding finish_round
    round_end fuel close loop s k =
        bind_below size fuel fuel (omega arith) (anywhere size (consume-Consumes size 0x2c))
          λ more. go more
      where
        go :
            (more : Bool)
            → ConsumesBelow size fuel 1 (λ rest. elim more [
              | true ↦ loop s rest
              | false ↦ (expect size close >> pure s) rest
            ])
        go true = k
        go false = anywhere size (bind size (expect-Consumes size close) λ _. pure-Consumes size s)

    enter-Consumes :
        (close : ℕ) (loop : ℕ → Parser S) (s : S)
        → ((fuel : ℕ) → ConsumesBelow size fuel 1 (loop fuel))
        → Consumes size 0 (enter size close loop s)
    unfolding enter
    enter-Consumes close loop s k = bind size (consume-Consumes size close) λ empty. go empty
      where
        go :
            (empty : Bool)
            → Consumes size 0
                (λ rest. elim empty [ true ↦ ok s rest | false ↦ loop (suc (length rest)) rest ])
        go true = pure-Consumes size s
        go false = record {
          after = λ rest.
              within_less size 1 0 (length rest) _ (omega arith)
                ((k (suc (length rest))).after rest (omega arith));
        }

    -- Fuel for one round more than there are bytes is enough: each round takes a byte at least.
    pub members-Consumes :
        (on_member : List ℕ → S → Parser S)
        → ((key : List ℕ) (s : S) → Consumes size 0 (on_member key s))
        → (fuel : ℕ) (s : S) → ConsumesBelow size fuel 1 (members size fuel on_member s)
    unfolding members
    members-Consumes on_member km zero s = record { after = λ rest h. absurd (omega (arith, h)) }
    members-Consumes on_member km (suc fuel) s = record {
      after = λ rest h. within_less size 4 1 (length rest) _ (omega arith) (
          (bind_below size (suc fuel) fuel (omega arith) (anywhere size (string-Consumes size))
              λ key.
                bind_below size fuel fuel (omega arith) (anywhere size (expect-Consumes size 0x3a))
                  λ _. bind_below size fuel fuel (omega arith) (anywhere size (km key s)) λ s'.
                    round_end fuel 0x7d (members size fuel on_member) s'
                      (members-Consumes on_member km fuel s')).after
            rest h);
    }

    -- The same of an array, whose elements take a byte themselves.
    pub elements-Consumes :
        (on_element : S → Parser S)
        → ((s : S) → Consumes size 1 (on_element s))
        → (fuel : ℕ) (s : S) → ConsumesBelow size fuel 1 (elements size fuel on_element s)
    unfolding elements
    elements-Consumes on_element km zero s = record { after = λ rest h. absurd (omega (arith, h)) }
    elements-Consumes on_element km (suc fuel) s = record {
      after = λ rest h. within_less size 2 1 (length rest) _ (omega arith) (
          (bind_below size (suc fuel) fuel (omega arith) (anywhere size (km s)) λ s'.
              round_end fuel 0x5d (elements size fuel on_element) s'
                (elements-Consumes on_element km fuel s')).after
            rest h);
    }

    pub object-Consumes :
        (on_member : List ℕ → S → Parser S) (s : S)
        → ((key : List ℕ) (s : S) → Consumes size 0 (on_member key s))
        → Consumes size 1 (object size on_member s)
    unfolding object
    object-Consumes on_member s km = bind size (expect-Consumes size 0x7b) λ _.
        enter-Consumes 0x7d (λ fuel. members size fuel on_member s) s
          (λ fuel. members-Consumes on_member km fuel s)

    pub array-Consumes :
        (on_element : S → Parser S) (s : S)
        → ((s : S) → Consumes size 1 (on_element s))
        → Consumes size 1 (array size on_element s)
    unfolding array
    array-Consumes on_element s km = bind size (expect-Consumes size 0x5b) λ _.
        enter-Consumes 0x5d (λ fuel. elements size fuel on_element s) s
          (λ fuel. elements-Consumes on_element km fuel s)
