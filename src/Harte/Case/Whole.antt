-- ===== src/Harte/Case/Whole.antt =====
-- A whole test case, written out as JSON and read back.
use emulator.Prelude.{
  ℕ, suc, Bool, true, false, List, [], ◌∷◌, ◌++◌, ◌≡◌, refl, ◌∙◌, ap, sym, u8, u16, length,
}
use mathlib.Core.List.{append_assoc, append-nil}
use emulator.Bus.Recording.{CycleRecord}
use emulator.Json.{ok, ◌>>=◌, ◌>>◌, pure, expect, string, members, array}
use emulator.Text.{bytes}
use emulator.Json.Reading.{
  NoQuote, Each, listed, after_all, string-quoted, members-next, members-last, array-listed, onward,
}
use emulator.Harte.Case.{
  State, TestCase, same_bytes, parse_state, parse_cycle, case_member, parse_case,
}
use emulator.Harte.Case.Bounds.{parse_cycle-Consumes}
use emulator.Harte.Case.Render.{
  IsCell, IsState, kind_text, cycle_text, state_text, read_pair, narrow, parse_state-text,
}

-- `"name": "a9 00","initial": {...},"final": {...},"cycles": [[1024,169,"read"]]}`, behind the
-- opening brace.
unfoldable pub case_text : TestCase → List ℕ → List ℕ
unfolding state_text
case_text test tail =
    bytes "\"name\": \""
    ++ (test.name
        ++ 0x22
          ∷ 0x2c
          ∷ (bytes "\"initial\": "
              ++ state_text test.initial (
                  0x2c
                  ∷ (bytes "\"final\": "
                      ++ state_text test.final (
                          0x2c
                          ∷ (bytes "\"cycles\": "
                              ++ listed 0x5b cycle_text test.cycles (0x7d ∷ tail)))))))

-- The address and the value of an access.
abbrev pub IsCycle : CycleRecord → Type 0
IsCycle entry = IsCell (entry.addr, entry.value)

-- A case that the fields' types can hold, with a name that needs no escape.
pub record IsCase (test : TestCase) : Type 0 where
  pub name : NoQuote test.name
  pub initial : IsState test.initial
  pub final : IsState test.final
  pub cycles : Each IsCycle test.cycles

kind_text-NoQuote : (b : Bool) → NoQuote (kind_text b)
kind_text-NoQuote true = (refl, (refl, (refl, (refl, (refl, tt)))))
kind_text-NoQuote false = (refl, (refl, (refl, (refl, tt))))

kind_text-same : (b : Bool) → same_bytes (kind_text b) (bytes "write") ≡ b
kind_text-same true = refl
kind_text-same false = refl

module _ (size : ℕ) where
  abbrev add_cycle : TestCase → CycleRecord → TestCase
  add_cycle test entry = record test { cycles = test.cycles ++ entry ∷ [] }

  -- What `parse_cycle` makes of the three parts.
  abbrev cycle_of : ℕ → ℕ → List ℕ → CycleRecord
  cycle_of a v kind = record {
    addr = u16 a;
    value = u8 v;
    is_write = same_bytes kind (bytes "write");
  }

  cycle_of-text :
      (entry : CycleRecord)
      → IsCycle entry
      → cycle_of entry.addr entry.value (kind_text entry.is_write) ≡ entry
  cycle_of-text entry h =
      let (ea, ev) = narrow size entry.addr entry.value h in
      rw (ea, ev, kind_text-same entry.is_write) refl

  parse_cycle-entry :
      (test : TestCase) (entry : CycleRecord) (tail : List ℕ)
      → IsCycle entry
      → parse_cycle size test (0x5b ∷ cycle_text entry tail) ≡ ok (add_cycle test entry) tail
  unfolding cycle_text parse_cycle
  parse_cycle-entry test entry tail h =
      let kind = kind_text entry.is_write in
      let behind = 0x22 ∷ (kind ++ 0x22 ∷ 0x5d ∷ tail) in
      let add : ℕ → ℕ → List ℕ → TestCase = λ a v kind. add_cycle test (cycle_of a v kind) in
      read_pair size
        (λ a v.
          expect size 0x2c >> (string size >>= λ kind. expect size 0x5d >> pure (add a v kind)))
        entry.addr entry.value 0x2c behind h refl
      ∙ onward (string size) (λ kind. expect size 0x5d >> pure (add entry.addr entry.value kind))
          behind (0x5d ∷ tail) kind
          (string-quoted size kind (0x5d ∷ tail) (kind_text-NoQuote entry.is_write))
      ∙ ap (λ t. ok (add_cycle test t) tail) (cycle_of-text entry h)

  after_all-cycles :
      (test : TestCase) (cycles : List CycleRecord)
      → after_all add_cycle test cycles ≡ record test { cycles = test.cycles ++ cycles }
  unfolding after_all
  after_all-cycles test [] = ap (λ t. record test { cycles = t }) (sym (append-nil test.cycles))
  after_all-cycles test (entry ∷ cycles) =
      after_all-cycles (add_cycle test entry) cycles
      ∙ ap (λ t. record test { cycles = t }) (append_assoc test.cycles (entry ∷ []) cycles)

  parse_cycle-cycles :
      (test : TestCase) (cycles : List CycleRecord) (tail : List ℕ)
      → Each IsCycle cycles
      → array size (parse_cycle size) test (0x20 ∷ listed 0x5b cycle_text cycles tail)
        ≡ ok (record test { cycles = test.cycles ++ cycles }) tail
  unfolding array
  parse_cycle-cycles test cycles tail h =
      array-listed size IsCycle 0x5b cycle_text add_cycle (parse_cycle size)
        (parse_cycle-Consumes size) parse_cycle-entry refl refl cycles test tail h
      ∙ ap (λ t. ok t tail) (after_all-cycles test cycles)

  -- A state behind a space.
  parse_state-spaced :
      (old : State) (rest : List ℕ) → parse_state size old (0x20 ∷ rest) ≡ parse_state size old rest
  unfolding parse_state
  parse_state-spaced old rest = refl

  -- A member of a case that holds a state.
  state_value :
      (set : State → TestCase) (old state : State) (rest : List ℕ)
      → IsState state
      → (parse_state size old >>= λ v. pure (set v)) (0x20 ∷ state_text state (0x2c ∷ rest))
        ≡ ok (set state) (0x2c ∷ rest)
  state_value set old state rest h =
      onward (parse_state size old) (λ v. pure (set v)) (0x20 ∷ state_text state (0x2c ∷ rest))
        (0x2c ∷ rest) state
        (parse_state-spaced old (state_text state (0x2c ∷ rest))
          ∙ parse_state-text size state old (0x2c ∷ rest) h)

  string-spaced : (rest : List ℕ) → string size (0x20 ∷ rest) ≡ string size rest
  unfolding string
  string-spaced rest = refl

  name_value :
      (old : TestCase) (name rest : List ℕ)
      → NoQuote name
      → (string size >>= λ v. pure (record old { name = v })) (0x20 ∷ 0x22 ∷ (name ++ 0x22 ∷ rest))
        ≡ ok (record old { name = name }) rest
  name_value old name rest h =
      onward (string size) (λ v. pure (record old { name = v }))
        (0x20 ∷ 0x22 ∷ (name ++ 0x22 ∷ rest)) rest name
        (string-spaced (0x22 ∷ (name ++ 0x22 ∷ rest)) ∙ string-quoted size name rest h)

  enter_case :
      (old : TestCase) (rest : List ℕ)
      → parse_case size old (0x7b ∷ 0x22 ∷ rest)
        ≡ members size
            (suc (length (0x22 ∷ rest)))
            (case_member size)
            (record old { cycles = [] })
            (0x22 ∷ rest)
  unfolding parse_case
  enter_case old rest = refl

  -- A case is read back from its text, whatever the case before it left and whatever follows.
  pub parse_case-text :
      (test old : TestCase) (tail : List ℕ)
      → IsCase test
      → parse_case size old (0x7b ∷ case_text test tail) ≡ ok test tail
  unfolding case_text case_member
  parse_case-text test old tail v =
      let c0 : TestCase = record old { cycles = [] } in
      let c1 : TestCase = record c0 { name = test.name } in
      let c2 : TestCase = record c1 { initial = test.initial } in
      let c3 : TestCase = record c2 { final = test.final } in
      let entries = listed 0x5b cycle_text test.cycles (0x7d ∷ tail) in
      let t3 = bytes "\"cycles\": " ++ entries in
      let after_final = state_text test.final (0x2c ∷ t3) in
      let t2 = bytes "\"final\": " ++ after_final in
      let after_initial = state_text test.initial (0x2c ∷ t2) in
      let t1 = bytes "\"initial\": " ++ after_initial in
      let t0 = bytes "\"name\": \"" ++ (test.name ++ 0x22 ∷ 0x2c ∷ t1) in
      let f0 = length (bytes "e\": \"" ++ (test.name ++ 0x22 ∷ 0x2c ∷ t1)) in
      let f1 = suc f0 in
      let f2 = suc f1 in
      let f3 = suc f2 in
      enter_case old (bytes "name\": \"" ++ (test.name ++ 0x22 ∷ 0x2c ∷ t1))
      ∙ members-next size (case_member size) (suc f3) c0 c1 (bytes "name") t0
          (0x20 ∷ 0x22 ∷ (test.name ++ 0x22 ∷ 0x2c ∷ t1)) t1
          (string-quoted size (bytes "name") (0x3a ∷ 0x20 ∷ 0x22 ∷ (test.name ++ 0x22 ∷ 0x2c ∷ t1))
            (refl, (refl, (refl, (refl, tt)))))
          (name_value c0 test.name (0x2c ∷ t1) v.name)
      ∙ members-next size (case_member size) f3 c1 c2 (bytes "initial") t1 (0x20 ∷ after_initial) t2
          (string-quoted size (bytes "initial") (0x3a ∷ 0x20 ∷ after_initial)
            (refl, (refl, (refl, (refl, (refl, (refl, (refl, tt))))))))
          (state_value (λ s. record c1 { initial = s }) c1.initial test.initial t2 v.initial)
      ∙ members-next size (case_member size) f2 c2 c3 (bytes "final") t2 (0x20 ∷ after_final) t3
          (string-quoted size (bytes "final") (0x3a ∷ 0x20 ∷ after_final)
            (refl, (refl, (refl, (refl, (refl, tt))))))
          (state_value (λ s. record c2 { final = s }) c2.final test.final t3 v.final)
      ∙ members-last size (case_member size) f1 c3 test (bytes "cycles") t3 (0x20 ∷ entries) tail
          (string-quoted size (bytes "cycles") (0x3a ∷ 0x20 ∷ entries)
            (refl, (refl, (refl, (refl, (refl, (refl, tt)))))))
          (parse_cycle-cycles c3 test.cycles (0x7d ∷ tail) v.cycles)
