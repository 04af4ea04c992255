-- ===== src/Harte/File/Sound.antt =====
-- What tools/run_harte.cpp makes of any test file, beside the list of cases that stand in its text.
use emulator.Prelude.{ℕ, List, [], ◌∷◌, ◌++◌, ◌≡◌, refl, sym, ◌∙◌, ap, if_cases, ltb, length, arith}
use mathlib.Core.Path.{subst}
use emulator.Json.{Result, ok, failed, out_of_fuel, Parser, ◌>>=◌, pure, array}
use emulator.Json.Reading.{Each, after_all}
use emulator.Json.Bounds.{Within, bind, pure-Consumes}
use emulator.Json.Bounds.Loops.{array-Consumes}
use emulator.Json.Simulation.{map_result, Follows, same-Follows, bind-Follows, array-Follows}
use emulator.Json.Values.{Given, bind-Yields, pure-Yields, array-Yields}
use emulator.Harte.Case.{TestCase, new_case, new_state, parse_case}
use emulator.Harte.Case.Render.{IsState}
use emulator.Harte.Case.Bounds.{parse_case-Consumes}
use emulator.Harte.Case.Widths.{Fits, Each-append, parse_case-Fits}
use emulator.Harte.Judge.{run_case, passes}
use emulator.Harte.File.{
  Progress, whole, Outcome, finished, threw, stuck, start, judge, on_case, run_text, run_file,
  summary,
}
use emulator.Harte.File.Tally.{Tally, all-tallied, plus_start}

-- The case that the next one is read over.
abbrev last_test : TestCase → List TestCase → TestCase
last_test test [] = test
last_test test (t ∷ tests) = last_test t tests

-- The cases of a text, in order, and what is left behind them: the text is only read.
abbrev read_case : ℕ → List TestCase → Parser (List TestCase)
read_case size tests =
    parse_case size (last_test new_case tests) >>= λ test. pure (tests ++ test ∷ [])

unfoldable pub read_tests : List ℕ → Result (List TestCase)
read_tests text = array (length text) (read_case (length text)) [] text

after_all-append :
    {A S : Type 0} (step : S → A → S) (s : S) (xs : List A) (a : A)
    → after_all step s (xs ++ a ∷ []) ≡ step (after_all step s xs) a
unfolding after_all
after_all-append step s [] a = refl
after_all-append step s (x ∷ xs) a = after_all-append step (step s x) xs a

module _ (limit : ℕ) where
  judge-test : (test : TestCase) (now : Progress) → (judge limit test now).test ≡ test
  unfolding judge
  judge-test test now =
      if_cases (λ (t : Progress). t.test ≡ test) (passes test (run_case test now.bus)) _ _
        (λ _. refl)
        (λ _.
          if_cases (λ (t : Progress). t.test ≡ test) (ltb now.reported limit) _ _ (λ _. refl)
            (λ _. refl))

  -- The cases judged one after the other.
  abbrev judged : Progress → List TestCase → Progress
  judged now tests = after_all (λ now test. judge limit test now) now tests

  judged-test :
      (tests : List TestCase) (now : Progress) → (judged now tests).test ≡ last_test now.test tests
  unfolding after_all
  judged-test [] now = refl
  judged-test (test ∷ tests) now =
      judged-test tests (judge limit test now) ∙ ap (λ t. last_test t tests) (judge-test test now)

  on_case-Follows :
      (size : ℕ) (tests : List TestCase)
      → Follows (judged start) (read_case size tests) (on_case limit size (judged start tests))
  unfolding on_case start
  on_case-Follows size tests =
      let now = judged start tests in
      bind-Follows (judged start) (λ test. test) (λ test. pure (judge limit test now))
        (record {
          at = λ rest.
              ap (λ t. parse_case size t rest) (judged-test tests start)
              ∙ same-Follows (parse_case size (last_test new_case tests) rest);
        })
        (λ test. record {
          at = λ rest.
              ap (λ t. ok t rest)
                (sym (after_all-append (λ now test. judge limit test now) start tests test));
        })

  run_text-read_tests :
      (text : List ℕ) → run_text limit text ≡ map_result (judged start) (read_tests text)
  unfolding run_text read_tests after_all
  run_text-read_tests text =
      let size = length text in
      (array-Follows (judged start) size (read_case size) (on_case limit size)
          (on_case-Follows size) []).at
        text

new_state-IsState : IsState new_state
new_state-IsState = ground arith

last_test-Fits :
    (test : TestCase) (tests : List TestCase)
    → Fits test
    → Each Fits tests
    → Fits (last_test test tests)
last_test-Fits test [] h hs = h
last_test-Fits test (t ∷ tests) h (ht, hs) = last_test-Fits t tests ht hs

-- Every case that is read fits the types of its fields.
read_tests-Fits : (text : List ℕ) → Given (Each Fits) (read_tests text)
unfolding read_tests
read_tests-Fits text =
    let size = length text in
    let new_case-Fits : Fits new_case = record {
      initial = new_state-IsState;
      final = new_state-IsState;
      cycles = tt;
    } in
    (array-Yields size (read_case size) [] tt λ tests h.
        bind-Yields
          (parse_case-Fits size (last_test new_case tests) (last_test-Fits _ tests new_case-Fits h))
          λ test fits. pure-Yields (tests ++ test ∷ []) (Each-append Fits tests test h fits)).value
      text

read_tests-Within : (text : List ℕ) → Within (length text) 1 (length text) (read_tests text)
unfolding read_tests
read_tests-Within text =
    let size = length text in
    (array-Consumes size (read_case size) [] λ tests.
        bind size (parse_case-Consumes size (last_test new_case tests))
          λ test. pure-Consumes size (tests ++ test ∷ [])).after
      text

-- What becomes of a file, by what can be read in it: the counts of the cases that stand in it, or the
-- exception that the reading ends in.
abbrev pub Judged : Result (List TestCase) → Outcome → Type 0
Judged (ok tests rest) (finished result output) = Tally tests result
Judged (failed e) (threw e') = e ≡ e'
Judged _ _ = ⊥

module _ (limit : ℕ) (path : List ℕ) where
  -- The end of a file, by the result of its reading.
  abbrev ending : Result Progress → Outcome
  ending (ok now rest) = finished now.result (now.output ++ summary path now.result)
  ending (failed e) = threw e
  ending out_of_fuel = stuck

  run_file-ending :
      (text : List ℕ) → run_file limit path (whole text) ≡ ending (run_text limit text)
  unfolding run_file
  run_file-ending text = ends (run_text limit text)
    where
      ends :
          (r : Result Progress)
          → elim r [
            | ok now rest ↦ finished now.result (now.output ++ summary path now.result)
            | failed e ↦ threw e
            | out_of_fuel ↦ stuck
          ]
            ≡ ending r
      ends (ok now rest) = refl
      ends (failed e) = refl
      ends out_of_fuel = refl

  ending-Judged :
      (n : ℕ) (r : Result (List TestCase))
      → Given (Each Fits) r
      → Within n 1 n r
      → Judged r (ending (map_result (judged limit start) r))
  ending-Judged n (ok tests rest) h w =
      let (result, counted, e) = all-tallied limit tests start (λ test v. v.final.p) h in
      subst (Tally tests) (sym (e ∙ plus_start result)) counted
  ending-Judged n (failed e) h w = refl
  ending-Judged n out_of_fuel h w = w

  -- Of any text, in whatever layout: if cases can be read in it to the end of the array, the run of
  -- the file finishes, `passed` is the number of those very cases whose step, from a cleared bus, ends
  -- in the final state with the listed accesses, and `failed` the number of the others; if not, the
  -- run throws what the reading throws. What was judged before does not change what is read.
  pub run_file-Judged :
      (text : List ℕ) → Judged (read_tests text) (run_file limit path (whole text))
  run_file-Judged text =
      subst (Judged (read_tests text))
        (sym (run_file-ending text ∙ ap ending (run_text-read_tests limit text)))
        (ending-Judged (length text) (read_tests text) (read_tests-Fits text)
          (read_tests-Within text))
