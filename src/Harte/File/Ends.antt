-- ===== src/Harte/File/Ends.antt =====
-- How the run of a test file ends.
use emulator.Prelude.{ℕ, ◌+◌, ◌++◌, ◌≤◌, List, ◌≡◌, refl, ◌⊎◌, inl, inr, length}
use emulator.Json.{Failure, Result, ok, failed, out_of_fuel}
use emulator.Json.Bounds.{Consumes, Within, bind, pure-Consumes}
use emulator.Json.Bounds.Loops.{array-Consumes}
use emulator.Harte.Case.Bounds.{parse_case-Consumes}
use emulator.Harte.File.{
  FileResult, Progress, Contents, cannot_open, short_read, whole, finished, threw, judge, on_case,
  run_text, run_file, start, summary,
}

-- What a parser that takes a byte at least can give: a value, or a failure inside the text.
pub Answer : {A : Type 0} → ℕ → ℕ → Result A → Type 0
Answer {A = A} size n r =
    ((a : A) × (rest : List ℕ) × (r ≡ ok a rest) × (length rest + 1 ≤ n))
    ⊎ ((e : Failure) × (r ≡ failed e) × (e.offset ≤ size))

within-cases : {A : Type 0} (size n : ℕ) (r : Result A) → Within size 1 n r → Answer size n r
unfolding Answer
within-cases size n (ok a rest) w = inl (a, rest, refl, w)
within-cases size n (failed e) w = inr (e, refl, w)
within-cases size n out_of_fuel w = absurd w

module _ (limit : ℕ) where
  pub on_case-Consumes : (size : ℕ) (now : Progress) → Consumes size 1 (on_case limit size now)
  unfolding on_case
  on_case-Consumes size now =
      bind size (parse_case-Consumes size now.test)
        λ test. pure-Consumes size (judge limit test now)

  run_text-answers : (text : List ℕ) → Answer (length text) (length text) (run_text limit text)
  unfolding run_text
  run_text-answers text =
      let size = length text in
      within-cases size size _
        ((array-Consumes size (on_case limit size) start (on_case-Consumes size)).after text)

  -- Every file ends in a result or in an exception, and an exception comes of a file that could be
  -- read, with an offset that is no further than the end of its text.
  pub run_file-ends :
      (path : List ℕ) (contents : Contents)
      → ((result : FileResult) × (output : List ℕ) × (run_file limit path contents
            ≡ finished result output))
        ⊎ ((e : Failure) × (text : List ℕ) × (contents ≡ whole text)
            × (run_file limit path contents ≡ threw e)
            × (e.offset ≤ length text))
  unfolding run_file Answer
  run_file-ends path cannot_open = inl (_, _, refl)
  run_file-ends path short_read = inl (_, _, refl)
  run_file-ends path (whole text) = elim (run_text-answers text) [
    | inl (now, rest, e, _) ↦
        inl (now.result, now.output ++ summary path now.result, rw (e, run_file) refl)
    | inr (e, h, w) ↦ inr (e, text, refl, rw (h, run_file) refl, w)
  ]
