-- ===== src/Harte/File/Tally.antt =====
-- What the two counts of a test file mean.
use emulator.Prelude.{
  ◌<◌, ℕ, ◌+◌, true, false, List, [], ◌∷◌, ◌++◌, ◌≡◌, refl, ◌∙◌, ap, Bool-cases, inl, inr, arith,
  length, ltb,
}
use emulator.Bus.Recording.{TestBus, clear}
use emulator.Json.{ok, pure}
use emulator.Json.Reading.{Each, listed, after_all, onward, array-listed}
use emulator.Harte.Case.{TestCase, parse_case}
use emulator.Harte.Case.Whole.{case_text, IsCase, parse_case-text}
use emulator.Harte.Judge.{prepare, run_case, passes}
use emulator.Harte.Judge.Exact.{Matches, passes-Matches}
use emulator.Harte.File.{
  FileResult, Progress, whole, finished, new_bus, start, judge, on_case, run_text, run_file,
  summary,
}
use emulator.Harte.File.Ends.{on_case-Consumes}

-- The step of a case from a cleared bus ends in the case's final state.
abbrev pub Succeeds : TestCase → Type 0
Succeeds test = Matches test (run_case test new_bus)

-- The cases that succeed and those that do not, counted.
pub data Tally : List TestCase → FileResult → Type 0 where
  nothing : Tally [] (record { passed = 0; failed = 0 })
  succeeded :
      {test : TestCase} {tests : List TestCase} {result : FileResult}
      → Succeeds test
      → Tally tests result
      → Tally (test ∷ tests) (record { passed = result.passed + 1; failed = result.failed })
  differed :
      {test : TestCase} {tests : List TestCase} {result : FileResult}
      → ¬ Succeeds test
      → Tally tests result
      → Tally (test ∷ tests) (record { passed = result.passed; failed = result.failed + 1 })

-- No case sees what the one before it left on the bus.
run_case-fresh : (test : TestCase) (bus : TestBus) → run_case test bus ≡ run_case test new_bus
unfolding run_case prepare clear
run_case-fresh test bus = refl

abbrev plus : FileResult → FileResult → FileResult
plus r t = record { passed = r.passed + t.passed; failed = r.failed + t.failed }

result_eq : {r t : FileResult} → r.passed ≡ t.passed → r.failed ≡ t.failed → r ≡ t
result_eq passed failed = λ i. record { passed = passed i; failed = failed i }

-- One more count, moved from what was counted so far to what follows.
added :
    {r now now' all : FileResult} (result : FileResult)
    → r ≡ plus now' result
    → now' ≡ now
    → plus now result ≡ all
    → r ≡ all
added result e f g = e ∙ ap (λ t. plus t result) f ∙ g

pub plus_start : (result : FileResult) → plus start.result result ≡ result
unfolding start
plus_start result = result_eq (omega arith) (omega arith)

module _ (limit : ℕ) where
  pub judge-passed :
      (test : TestCase) (now : Progress)
      → passes test (run_case test new_bus) ≡ true
      → (judge limit test now).result
        ≡ record { passed = now.result.passed + 1; failed = now.result.failed }
  unfolding judge
  judge-passed test now h = rw (run_case-fresh test now.bus, h) refl

  pub judge-failed :
      (test : TestCase) (now : Progress)
      → passes test (run_case test new_bus) ≡ false
      → (judge limit test now).result
        ≡ record { passed = now.result.passed; failed = now.result.failed + 1 }
  unfolding judge
  judge-failed test now h = elim (Bool-cases (ltb now.reported limit)) [
    | inl below ↦ rw (run_case-fresh test now.bus, h, below) refl
    | inr full ↦ rw (run_case-fresh test now.bus, h, full) refl
  ]

  on_case-text :
      (size : ℕ) (now : Progress) (test : TestCase) (tail : List ℕ)
      → IsCase test
      → on_case limit size now (0x7b ∷ case_text test tail) ≡ ok (judge limit test now) tail
  unfolding on_case
  on_case-text size now test tail h =
      onward (parse_case size now.test) (λ test. pure (judge limit test now))
        (0x7b ∷ case_text test tail) tail test (parse_case-text size test now.test tail h)

  -- The cases of a rendered file, judged one after the other.
  run_text-listed :
      (tests : List TestCase) (tail : List ℕ)
      → Each IsCase tests
      → run_text limit (listed 0x7b case_text tests tail)
        ≡ ok (after_all (λ now test. judge limit test now) start tests) tail
  unfolding run_text
  run_text-listed tests tail h =
      let size = length (listed 0x7b case_text tests tail) in
      array-listed size IsCase 0x7b case_text (λ now test. judge limit test now)
        (on_case limit size) (on_case-Consumes limit size) (on_case-text size) refl refl tests start
        tail h

  -- The counts of the remaining cases, on top of those so far, where P is a byte in each.
  pub all-tallied :
      {P : TestCase → Type 0} (tests : List TestCase) (now : Progress)
      → ((test : TestCase) → P test → test.final.p < 256)
      → Each P tests
      → (result : FileResult) × Tally tests result
        × ((after_all (λ now test. judge limit test now) now tests).result ≡ plus now.result result)
  unfolding after_all
  all-tallied [] now byte h = (_, nothing, result_eq (omega arith) (omega arith))
  all-tallied (test ∷ tests) now byte (ht, hs) =
      let (result, counted, e) = all-tallied tests (judge limit test now) byte hs in
      let verdict = passes-Matches test (run_case test new_bus) (byte test ht) in
      elim (Bool-cases (passes test (run_case test new_bus))) [
        | inl passed ↦ (
          _,
          succeeded (verdict.0 passed) counted,
          added result e (judge-passed test now passed) (result_eq (omega arith) (omega arith)),
        )
        | inr failed ↦ (
          _,
          differed (λ m. ground (arith, verdict.1 m, failed)) counted,
          added result e (judge-failed test now failed) (result_eq (omega arith) (omega arith)),
        )
      ]

  -- Of a file in the layout of the suite, of cases within their widths, `passed` is the number of
  -- cases whose step, from a cleared bus, ends in the final state with the listed accesses, and
  -- `failed` the number of the others.
  pub run_file-Tally :
      (path : List ℕ) (tests : List TestCase)
      → Each IsCase tests
      → (result : FileResult) × (output : List ℕ) × (run_file limit path
            (whole (listed 0x7b case_text tests []))
          ≡ finished result output)
        × Tally tests result
  unfolding run_file
  run_file-Tally path tests h =
      let (result, counted, e') = all-tallied tests start (λ test v. v.final.p) h in
      let e = e' ∙ plus_start result in
      let after = after_all (λ now test. judge limit test now) start tests in
      (
        result,
        after.output ++ summary path result,
        rw (run_text-listed tests [] h, run_file, e) refl,
        counted,
      )
