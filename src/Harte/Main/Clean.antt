-- ===== src/Harte/Main/Clean.antt =====
-- What the exit code 0 of tools/run_harte.cpp means.
use emulator.Prelude.{
  Option, none, some, ◌++◌, ℕ, List, [], ◌∷◌, ◌≡◌, refl, ap, ◌↔◌, ◌⊎◌, ◌==◌, ==_iff, Bool-cases,
  inl, inr, arith,
}
use emulator.Json.{Failure}
use emulator.Json.Reading.{Each}
use emulator.Harte.File.{FileResult, Outcome, finished, threw, stuck, run_file}
use emulator.Harte.Main.{FilePath, System, code_of, run_all}

module _ (system : System) (limit : ℕ) where
  -- A file that was read to its end, and in which no case failed.
  pub record Clean (path : FilePath) : Type 0 where
    pub result : FileResult
    pub output : List ℕ
    pub ends : run_file limit path (system.contents path) ≡ finished result output
    pub spotless : result.failed ≡ 0

  run_all-exited :
      (count : ℕ) (files : List FilePath) (total : FileResult) (out error : List ℕ)
      → total.failed ≡ 0
      → Each Clean files
      → code_of (run_all system limit count files total out error) ≡ some 0
  unfolding run_all
  run_all-exited count [] total out error z h = rw (run_all, z) refl
  run_all-exited count (path ∷ files) total out error z (c, cs) =
      let e = c.ends in
      rw (run_all, e)
        (run_all-exited count files _ (out ++ c.output) error (omega (arith, z, c.spotless)) cs)

  outcome-cases :
      (o : Outcome)
      → ((result : FileResult) × (output : List ℕ) × (o ≡ finished result output))
        ⊎ ((e : Failure) × (o ≡ threw e))
        ⊎ (o ≡ stuck)
  outcome-cases (finished result output) = inl (result, output, refl)
  outcome-cases (threw e) = inr (inl (e, refl))
  outcome-cases stuck = inr (inr refl)

  number_of : Option ℕ → ℕ
  number_of none = 1
  number_of (some n) = n

  Clean-run_all :
      (count : ℕ) (files : List FilePath) (total : FileResult) (out error : List ℕ)
      → code_of (run_all system limit count files total out error) ≡ some 0
      → (total.failed ≡ 0) × Each Clean files
  unfolding run_all number_of
  Clean-run_all count [] total out error h = elim (Bool-cases (total.failed == 0)) [
    | inl z ↦ ((==_iff total.failed 0).0 z, tt)
    | inr other ↦ absurd (omega (arith, ap number_of (rw (run_all, other) at h)))
  ]
  Clean-run_all count (path ∷ files) total out error h =
      elim (outcome-cases (run_file limit path (system.contents path))) [
        | inl (result, output, e) ↦
            let (none_failed, rest) =
              Clean-run_all count files _ (out ++ output) error (rw (run_all, e) at h) in
            (
              omega (arith, none_failed),
              (
                record {
                  result = result;
                  output = output;
                  ends = e;
                  spotless = omega (arith, none_failed);
                },
                rest,
              ),
            )
        | inr (inl (f, e)) ↦ absurd (omega (arith, ap number_of (rw (run_all, e) at h)))
        | inr (inr e) ↦ absurd (omega (arith, ap number_of (rw (run_all, e) at h)))
      ]

  -- The exit code of the run over the files is 0 exactly when every one was read to its end and none
  -- of its cases failed; a file that cannot be read, and an exception, make it another.
  pub run_all-Clean :
      (count : ℕ) (files : List FilePath) (out error : List ℕ)
      → (code_of (run_all system limit count files (record { passed = 0; failed = 0 }) out error)
          ≡ some 0)
        ↔ Each Clean files
  run_all-Clean count files out error = (
    λ h. (Clean-run_all count files _ out error h).1,
    run_all-exited count files _ out error refl,
  )
