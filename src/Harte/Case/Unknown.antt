-- ===== src/Harte/Case/Unknown.antt =====
-- Keys that a test case of tools/run_harte.cpp does not have.
use emulator.Prelude.{ℕ, ◌-◌, Bool, false, ◌||◌, List, [], ◌∷◌, ◌++◌, ◌≡◌, ap, arith, length}
use emulator.Json.{
  Message, Failure, failed, Parser, unexpected_state_key, unexpected_case_key, fail,
}
use emulator.Text.{bytes}
use emulator.Json.Bounds.{weaken}
use emulator.Json.Rounds.{ReadsOn, object-refused}
use emulator.Json.Blank.{IsBlank, Keyed}
use emulator.Harte.Case.Bounds.{state_member-Consumes, case_member-Consumes}
use emulator.Harte.Case.{
  State, TestCase, same_bytes, state_member, case_member, parse_state, parse_case,
}

-- The keys of a state, and those of a case.
abbrev pub state_key : List ℕ → Bool
state_key key =
    same_bytes key (bytes "pc")
    || (same_bytes key (bytes "s")
        || (same_bytes key (bytes "a")
            || (same_bytes key (bytes "x")
                || (same_bytes key (bytes "y")
                    || (same_bytes key (bytes "p") || same_bytes key (bytes "ram"))))))

abbrev pub case_key : List ℕ → Bool
case_key key =
    same_bytes key (bytes "name")
    || (same_bytes key (bytes "initial")
        || (same_bytes key (bytes "final")
            || (same_bytes key (bytes "expected") || same_bytes key (bytes "cycles"))))

module _ (size : ℕ) where
  -- The exception, with the offset of what stands behind the colon.
  abbrev pub refused : Message → List ℕ → Failure
  refused message value = record { message = message; offset = size - length value }

  state_member-unknown :
      (key : List ℕ) (state : State) (value : List ℕ)
      → state_key key ≡ false
      → state_member size key state value ≡ failed (refused unexpected_state_key value)
  unfolding state_member fail
  state_member-unknown key state value h =
      let e : state_member size key state ≡ fail size unexpected_state_key = ground (arith, h) in
      ap (λ (m : Parser State). m value) e

  case_member-unknown :
      (key : List ℕ) (test : TestCase) (value : List ℕ)
      → case_key key ≡ false
      → case_member size key test value ≡ failed (refused unexpected_case_key value)
  unfolding case_member fail
  case_member-unknown key test value h =
      let e : case_member size key test ≡ fail size unexpected_case_key = ground (arith, h) in
      ap (λ (m : Parser TestCase). m value) e

  -- A state in which a key is none of its fields, behind any number of members that are read and with
  -- any white space between the parts, is refused with the message for it, at the offset right behind
  -- the colon of that key; for a key without a quote in it.
  pub parse_state-unknown :
      {reached : State} {n : ℕ} {stop text key value : List ℕ} (blank : List ℕ) (old : State)
      → state_key key ≡ false
      → IsBlank blank
      → ReadsOn size (state_member size) reached stop n (record old { ram = [] }) text
      → Keyed key value stop
      → parse_state size old (blank ++ 0x7b ∷ text) ≡ failed (refused unexpected_state_key value)
  unfolding parse_state
  parse_state-unknown {reached} {n} {stop} {text} {key} {value} blank old unknown h rs k =
      object-refused size (state_member size) blank (refused unexpected_state_key value)
        (λ key s. weaken size 0 1 (omega arith) (state_member-Consumes size key s)) h rs k
        (state_member-unknown key reached value unknown)

  -- A case in which a key is none of its fields, nor `expected`, behind any number of members that are
  -- read and with any white space between the parts, is refused with the message for it, at the offset
  -- right behind the colon of that key; for a key without a quote in it.
  pub parse_case-unknown :
      {reached : TestCase} {n : ℕ} {stop text key value : List ℕ} (blank : List ℕ) (old : TestCase)
      → case_key key ≡ false
      → IsBlank blank
      → ReadsOn size (case_member size) reached stop n (record old { cycles = [] }) text
      → Keyed key value stop
      → parse_case size old (blank ++ 0x7b ∷ text) ≡ failed (refused unexpected_case_key value)
  unfolding parse_case
  parse_case-unknown {reached} {n} {stop} {text} {key} {value} blank old unknown h rs k =
      object-refused size (case_member size) blank (refused unexpected_case_key value)
        (λ key s. weaken size 0 1 (omega arith) (case_member-Consumes size key s)) h rs k
        (case_member-unknown key reached value unknown)
