-- ===== src/Harte/Case/Bounds.antt =====
-- How much of the text the parser of a test case takes.
use emulator.Prelude.{ℕ, ◌||◌, u8, u16, Bool, List, arith, if_cases, if◌then◌else◌}
use emulator.Json.{Parser, ◌>>=◌, pure, unexpected_state_key, unexpected_case_key}
use emulator.Json.Bounds.{
  Consumes, bind, weaken, pure-Consumes, fail-Consumes, expect-Consumes, string-Consumes,
  number-Consumes,
}
use emulator.Json.Bounds.Loops.{object-Consumes, array-Consumes}
use emulator.Text.{bytes}
use emulator.Harte.Case.{
  same_bytes, State, TestCase, parse_ram, state_member, parse_state, parse_cycle, case_member,
  parse_case,
}

module _ (size : ℕ) where
  pub parse_ram-Consumes : (state : State) → Consumes size 1 (parse_ram size state)
  unfolding parse_ram
  parse_ram-Consumes state = weaken size 1 5 (omega arith) (
      bind size (expect-Consumes size 0x5b) λ _. bind size (number-Consumes size) λ addr.
        bind size (expect-Consumes size 0x2c) λ _.
          bind size (number-Consumes size)
            λ value. bind size (expect-Consumes size 0x5d) λ _. pure-Consumes size _)

  stores :
      {S A : Type 0} {m : Parser A} (f : A → S)
      → Consumes size 1 m
      → Consumes size 1 (m >>= λ v. pure (f v))
  stores f km = bind size km λ v. pure-Consumes size (f v)

  -- One branch of a chain of keys.
  branch :
      {S : Type 0} (k : ℕ) (b : Bool) {m m' : Parser S}
      → Consumes size k m
      → Consumes size k m'
      → Consumes size k (if b then m else m')
  branch k b h h' = if_cases (Consumes size k) b _ _ (λ _. h) (λ _. h')

  pub state_member-Consumes :
      (key : List ℕ) (state : State) → Consumes size 1 (state_member size key state)
  unfolding state_member
  state_member-Consumes key state =
      let n = number-Consumes size in
      branch 1 (same_bytes key (bytes "pc")) (stores (λ v. record state { pc = u16 v }) n) (
        branch 1 (same_bytes key (bytes "s")) (stores (λ v. record state { s = u8 v }) n) (
          branch 1 (same_bytes key (bytes "a")) (stores (λ v. record state { a = u8 v }) n) (
            branch 1 (same_bytes key (bytes "x")) (stores (λ v. record state { x = u8 v }) n) (
              branch 1 (same_bytes key (bytes "y")) (stores (λ v. record state { y = u8 v }) n) (
                branch 1 (same_bytes key (bytes "p")) (stores (λ v. record state { p = u8 v }) n) (
                  branch 1 (same_bytes key (bytes "ram"))
                    (array-Consumes size (parse_ram size) state parse_ram-Consumes)
                    (fail-Consumes size 1 unexpected_state_key)))))))

  parse_state-Consumes : (state : State) → Consumes size 1 (parse_state size state)
  unfolding parse_state
  parse_state-Consumes state =
      object-Consumes size (state_member size) _
        λ key s. weaken size 0 1 (omega arith) (state_member-Consumes key s)

  pub parse_cycle-Consumes : (test : TestCase) → Consumes size 1 (parse_cycle size test)
  unfolding parse_cycle
  parse_cycle-Consumes test = weaken size 1 8 (omega arith) (
      bind size (expect-Consumes size 0x5b) λ _. bind size (number-Consumes size) λ addr.
        bind size (expect-Consumes size 0x2c) λ _. bind size (number-Consumes size) λ value.
          bind size (expect-Consumes size 0x2c) λ _.
            bind size (string-Consumes size)
              λ kind. bind size (expect-Consumes size 0x5d) λ _. pure-Consumes size _)

  pub case_member-Consumes :
      (key : List ℕ) (test : TestCase) → Consumes size 1 (case_member size key test)
  unfolding case_member
  case_member-Consumes key test =
      branch 1 (same_bytes key (bytes "name"))
        (stores (λ v. record test { name = v })
          (weaken size 1 2 (omega arith) (string-Consumes size)))
        (branch 1 (same_bytes key (bytes "initial"))
          (stores (λ v. record test { initial = v }) (parse_state-Consumes test.initial))
          (branch 1 (same_bytes key (bytes "final") || same_bytes key (bytes "expected"))
            (stores (λ v. record test { final = v }) (parse_state-Consumes test.final))
            (branch 1 (same_bytes key (bytes "cycles"))
              (array-Consumes size (parse_cycle size) test parse_cycle-Consumes)
              (fail-Consumes size 1 unexpected_case_key))))

  pub parse_case-Consumes : (test : TestCase) → Consumes size 1 (parse_case size test)
  unfolding parse_case
  parse_case-Consumes test =
      object-Consumes size (case_member size) _
        λ key t. weaken size 0 1 (omega arith) (case_member-Consumes key t)
