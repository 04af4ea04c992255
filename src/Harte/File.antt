-- ===== src/Harte/File.antt =====
-- How tools/run_harte.cpp runs one file: the cases are parsed, judged and counted one after the
-- other. The file is what the system gave for it.
pub mod Ends
pub mod Sound
pub mod Tally
use emulator.Prelude.{
  ℕ, zero, suc, ◌+◌, Bool, true, false, Option, none, some, List, [], ◌∷◌, ◌++◌, ◌==◌, ltb, length,
  if◌then◌else◌,
}
use emulator.Bus.Recording.{TestBus}
use emulator.Json.{Failure, Result, ok, failed, out_of_fuel, Parser, ◌>>=◌, pure, array}
use emulator.Text.{bytes, decimal, pad_left, pad_right}
use emulator.Harte.Case.{TestCase, new_case, parse_case}
use emulator.Harte.Judge.{run_case, passes}
use emulator.Harte.Report.{fail_text}

pub record FileResult : Type 0 where
  pub passed : ℕ
  pub failed : ℕ

-- What `fopen` and `fread` find.
pub data Contents : Type 0 where
  cannot_open short_read : Contents
  whole : List ℕ → Contents

-- The local variables of `runFile` that its closure captures, and what was printed.
pub record Progress : Type 0 where
  pub test : TestCase
  pub bus : TestBus
  pub reported : ℕ
  pub result : FileResult
  pub output : List ℕ

-- A file's end: its result and what was printed, or an exception, which nothing catches; what was
-- printed before it is left out.
pub data Outcome : Type 0 where
  finished : FileResult → List ℕ → Outcome
  threw : Failure → Outcome
  stuck : Outcome

abbrev pub new_bus : TestBus
new_bus = record { memory = λ _. 0; log = [] }

unfoldable pub start : Progress
start = record {
  test = new_case;
  bus = new_bus;
  reported = 0;
  result = record { passed = 0; failed = 0 };
  output = [];
}

-- What stands behind the last slash, or the whole path.
unfoldable pub base_name : List ℕ → List ℕ
base_name path = elim (after_slash path) [ none ↦ path | some base ↦ base ]
  where
    after_slash : List ℕ → Option (List ℕ)
    after_slash [] = none
    after_slash (c ∷ rest) = elim (after_slash rest) [
      | none ↦ if c == 0x2f then some rest else none
      | some base ↦ some base
    ]

-- The line behind the reports.
unfoldable pub summary : List ℕ → FileResult → List ℕ
unfolding base_name pad_left pad_right decimal
summary path result =
    pad_right 12 (base_name path)
    ++ bytes " "
    ++ pad_left 5 (decimal result.passed)
    ++ bytes " passed "
    ++ pad_left 5 (decimal result.failed)
    ++ bytes " failed"
    ++ (if result.failed == 0 then [] else bytes "   <<<")
    ++ bytes "\n"

-- The result of a file that cannot be read.
abbrev unreadable : FileResult
unreadable = record { passed = 0; failed = 1 }

-- `limit` is `maxReports`; a negative one is 0, which reports nothing either.
module _ (limit : ℕ) where
  -- The closure of `runFile`, behind `parseCase`.
  unfoldable pub judge : TestCase → Progress → Progress
  unfolding run_case passes fail_text
  judge test now =
      let cpu = run_case test now.bus in
      let passed = now.result.passed in
      let failed = now.result.failed in
      if passes test cpu
      then record now {
        test = test;
        bus = cpu.bus;
        result = record { passed = passed + 1; failed = failed };
      }
      else if ltb now.reported limit
      then record {
        test = test;
        bus = cpu.bus;
        reported = now.reported + 1;
        result = record { passed = passed; failed = failed + 1 };
        output = now.output ++ fail_text test cpu;
      }
      else record now {
        test = test;
        bus = cpu.bus;
        result = record { passed = passed; failed = failed + 1 };
      }

  unfoldable pub on_case : ℕ → Progress → Parser Progress
  unfolding parse_case judge
  on_case size now = parse_case size now.test >>= λ test. pure (judge test now)

  unfoldable pub run_text : List ℕ → Result Progress
  unfolding array start on_case
  run_text text = array (length text) (on_case (length text)) start text

  unfoldable pub run_file : List ℕ → Contents → Outcome
  unfolding run_text summary pad_right
  run_file path cannot_open = finished unreadable (pad_right 28 path ++ bytes " CANNOT OPEN\n")
  run_file path short_read = finished unreadable (pad_right 28 path ++ bytes " SHORT READ\n")
  run_file path (whole text) = elim (run_text text) [
    | ok now rest ↦ finished now.result (now.output ++ summary path now.result)
    | failed e ↦ threw e
    | out_of_fuel ↦ stuck
  ]
