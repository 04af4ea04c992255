-- ===== src/Harte/Case/Widths.antt =====
-- The widths of the fields of a parsed test case.
use emulator.Prelude.{ℕ, Bool, ◌||◌, List, [], ◌∷◌, ◌++◌, arith, if_cases, if◌then◌else◌, u8, u16}
use emulator.Json.{
  Parser, ◌>>=◌, pure, expect, number, string, unexpected_state_key, unexpected_case_key,
}
use emulator.Json.Reading.{Each}
use emulator.Text.{bytes}
use emulator.Json.Values.{
  Yields, bind-Yields, pure-Yields, after-Yields, fail-Yields, object-Yields, array-Yields,
}
use emulator.Harte.Case.{
  State, TestCase, same_bytes, parse_ram, state_member, parse_state, parse_cycle, case_member,
  parse_case,
}
use emulator.Harte.Case.Render.{IsCell, IsState}
use emulator.Harte.Case.Whole.{IsCycle}

-- A case that the fields' types can hold.
pub record Fits (test : TestCase) : Type 0 where
  pub initial : IsState test.initial
  pub final : IsState test.final
  pub cycles : Each IsCycle test.cycles

pub Each-append :
    {A : Type 0} (P : A → Type 0) (xs : List A) (a : A) → Each P xs → P a → Each P (xs ++ a ∷ [])
Each-append P [] a h p = (p, tt)
Each-append P (x ∷ xs) a (px, h) p = (px, Each-append P xs a h p)

cut_lt : (a v : ℕ) → IsCell (u16 a, u8 v)
cut_lt a v = (omega arith, omega arith)

module _ (size : ℕ) where
  parse_ram-Yields : (state : State) → IsState state → Yields IsState (parse_ram size state)
  unfolding parse_ram
  parse_ram-Yields state h = after-Yields (expect size 0x5b) λ _. after-Yields (number size) λ addr.
      after-Yields (expect size 0x2c) λ _. after-Yields (number size) λ value.
        after-Yields (expect size 0x5d) λ _. pure-Yields _ (record {
          pc = h.pc;
          s = h.s;
          a = h.a;
          x = h.x;
          y = h.y;
          p = h.p;
          ram = Each-append IsCell state.ram (u16 addr, u8 value) h.ram (cut_lt addr value);
        })

  -- One branch of a chain of keys.
  branch :
      {S : Type 0} (P : S → Type 0) (b : Bool) {m m' : Parser S}
      → Yields P m
      → Yields P m'
      → Yields P (if b then m else m')
  branch P b h h' = if_cases (Yields P) b _ _ (λ _. h) (λ _. h')

  -- A number that is stored in a field.
  stores :
      {S : Type 0} {P : S → Type 0} (f : ℕ → S)
      → ((v : ℕ) → P (f v))
      → Yields P (number size >>= λ v. pure (f v))
  stores f h = after-Yields (number size) λ v. pure-Yields (f v) (h v)

  state_member-Yields :
      (key : List ℕ) (state : State) → IsState state → Yields IsState (state_member size key state)
  unfolding state_member
  state_member-Yields key state h =
      let is = λ (k : List ℕ). same_bytes key k in
      branch IsState (is (bytes "pc"))
        (stores (λ v. record state { pc = u16 v }) λ v. ground (arith, h))
        (branch IsState (is (bytes "s"))
          (stores (λ v. record state { s = u8 v }) λ v. ground (arith, h))
          (branch IsState (is (bytes "a"))
            (stores (λ v. record state { a = u8 v }) λ v. ground (arith, h))
            (branch IsState (is (bytes "x"))
              (stores (λ v. record state { x = u8 v }) λ v. ground (arith, h))
              (branch IsState (is (bytes "y"))
                (stores (λ v. record state { y = u8 v }) λ v. ground (arith, h))
                (branch IsState (is (bytes "p"))
                  (stores (λ v. record state { p = u8 v }) λ v. ground (arith, h))
                  (branch IsState (is (bytes "ram"))
                    (array-Yields size (parse_ram size) state h parse_ram-Yields)
                    (fail-Yields size unexpected_state_key)))))))

  parse_state-Yields : (state : State) → IsState state → Yields IsState (parse_state size state)
  unfolding parse_state
  parse_state-Yields state h =
      object-Yields size (state_member size) (record state { ram = [] })
        (record { pc = h.pc; s = h.s; a = h.a; x = h.x; y = h.y; p = h.p; ram = tt })
        state_member-Yields

  parse_cycle-Yields : (test : TestCase) → Fits test → Yields Fits (parse_cycle size test)
  unfolding parse_cycle
  parse_cycle-Yields test h = after-Yields (expect size 0x5b) λ _.
      after-Yields (number size) λ addr. after-Yields (expect size 0x2c) λ _.
        after-Yields (number size) λ value. after-Yields (expect size 0x2c) λ _.
          after-Yields (string size) λ kind. after-Yields (expect size 0x5d) λ _.
            pure-Yields _ (record {
              initial = h.initial;
              final = h.final;
              cycles = Each-append IsCycle test.cycles _ h.cycles (cut_lt addr value);
            })

  case_member-Yields :
      (key : List ℕ) (test : TestCase) → Fits test → Yields Fits (case_member size key test)
  unfolding case_member
  case_member-Yields key test h =
      branch Fits (same_bytes key (bytes "name"))
        (after-Yields (string size)
          λ v. pure-Yields _ (record { initial = h.initial; final = h.final; cycles = h.cycles }))
        (branch Fits (same_bytes key (bytes "initial"))
          (bind-Yields (parse_state-Yields test.initial h.initial)
            λ v p. pure-Yields _ (record { initial = p; final = h.final; cycles = h.cycles }))
          (branch Fits (same_bytes key (bytes "final") || same_bytes key (bytes "expected"))
            (bind-Yields (parse_state-Yields test.final h.final)
              λ v p. pure-Yields _ (record { initial = h.initial; final = p; cycles = h.cycles }))
            (branch Fits (same_bytes key (bytes "cycles"))
              (array-Yields size (parse_cycle size) test h parse_cycle-Yields)
              (fail-Yields size unexpected_case_key))))

  -- A case whose fields fit their types is parsed to another that does, from any text that is
  -- accepted: an address is below 2^16, and a register, a value or P below 2^8.
  pub parse_case-Fits : (test : TestCase) → Fits test → Yields Fits (parse_case size test)
  unfolding parse_case
  parse_case-Fits test h =
      object-Yields size (case_member size) (record test { cycles = [] })
        (record { initial = h.initial; final = h.final; cycles = tt }) case_member-Yields
