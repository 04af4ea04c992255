-- ===== src/Examples/Harness.antt =====
-- A test file of tools/run_harte.cpp with one case, a NOP at $0400.
use emulator.Prelude.{
  ℕ, ◌≤◌, true, false, List, [], ◌∷◌, ◌++◌, none, some, ◌≡◌, refl, ◌↔◌, ◌⊎◌, arith, length,
}
use emulator.Harte.Case.{case_member}
use emulator.Json.{string, Failure, ok, failed, unexpected_case_key}
use emulator.Text.{bytes}
use emulator.Json.Reading.{Each, listed}
use emulator.Harte.Case.{State, TestCase, new_case, parse_case}
use emulator.Harte.Case.Render.{IsState}
use emulator.Harte.Case.Whole.{case_text, IsCase, parse_case-text}
use emulator.Harte.Case.Order.{parse_state-entries}
use emulator.Harte.Case.Entries.{Field, Entry, holds, Spaced, IsEntry, IsSpaced, entries_text}
use emulator.Harte.Case.{parse_state}
use emulator.Harte.Case.Unknown.{parse_case-unknown}
use emulator.Json.Rounds.{ReadsOn, here, member}
use emulator.Json.Blank.{Keyed}
use emulator.Harte.Judge.{passes, run_case}
use emulator.Harte.Judge.Exact.{Matches, passes-Matches}
use emulator.Harte.File.{FileResult, whole, finished, threw, new_bus, run_file}
use emulator.Harte.File.Ends.{run_file-ends}
use emulator.Harte.File.Tally.{Tally, run_file-Tally}
use emulator.Harte.File.Sound.{Judged, read_tests, run_file-Judged}
use emulator.Harte.Main.{System, code_of, run_all}
use emulator.Harte.Main.Clean.{Clean, run_all-Clean}

abbrev before : State
before = record {
  pc = 0x0400;
  s = 0xfd;
  a = 0x12;
  x = 0x34;
  y = 0x56;
  p = 0xe4;
  ram = (0x0400, 0xea) ∷ (0x0401, 0x07) ∷ [];
}

abbrev nop_case : TestCase
nop_case = record {
  name = bytes "ea 07";
  initial = before;
  final = record before { pc = 0x0401 };
  cycles =
      record { addr = 0x0400; value = 0xea; is_write = false }
      ∷ record { addr = 0x0401; value = 0x07; is_write = false }
      ∷ [];
}

before-IsState : IsState before
before-IsState = ground arith

after-IsState : IsState nop_case.final
after-IsState = ground arith

nop_case-IsCase : IsCase nop_case
nop_case-IsCase = record {
  name = (refl, (refl, (refl, (refl, (refl, tt)))));
  initial = before-IsState;
  final = after-IsState;
  cycles = ((omega arith, omega arith), ((omega arith, omega arith), tt));
}

abbrev nop_path : List ℕ
nop_path = bytes "v1/ea.json"

abbrev nop_file : List ℕ
nop_file = listed 0x7b case_text (nop_case ∷ []) []

-- A file system that holds the one file.
abbrev system : System
system = record {
  getenv = λ _. none;
  is_directory = λ _. false;
  entries = λ _. [];
  sort = λ paths. paths;
  append = λ path name. path ++ name;
  atoi = λ _. 0;
  contents = λ _. whole nop_file;
}

passes-Matches_example :
    (passes nop_case (run_case nop_case new_bus) ≡ true)
    ↔ Matches nop_case (run_case nop_case new_bus)
passes-Matches_example = passes-Matches nop_case (run_case nop_case new_bus) (omega arith)

parse_case-text_example :
    parse_case 300 new_case (0x7b ∷ case_text nop_case (bytes "]")) ≡ ok nop_case (bytes "]")
parse_case-text_example = parse_case-text 300 nop_case new_case (bytes "]") nop_case-IsCase

-- A name, and then a key of another format, with white space around the parts.
name_Keyed :
    Keyed (bytes "name") (bytes " \"ea\" , \"id\" : 1}") (bytes " \"name\" : \"ea\" , \"id\" : 1}")
name_Keyed = record {
  before = bytes " ";
  between = bytes " ";
  blank_before = (refl, tt);
  blank_between = (refl, tt);
  name = (refl, (refl, (refl, (refl, tt))));
  written = refl;
}

id_Keyed : Keyed (bytes "id") (bytes " 1}") (bytes " \"id\" : 1}")
id_Keyed = record {
  before = bytes " ";
  between = bytes " ";
  blank_before = (refl, tt);
  blank_between = (refl, tt);
  name = (refl, (refl, tt));
  written = refl;
}

name_ReadsOn :
    ReadsOn 28
      (case_member 28)
      (record nop_case { name = bytes "ea"; cycles = [] })
      (bytes " \"id\" : 1}")
      1
      (record nop_case { cycles = [] })
      (bytes " \"name\" : \"ea\" , \"id\" : 1}")
unfolding string case_member
name_ReadsOn =
    member (bytes "name") (bytes " \"ea\" , \"id\" : 1}") (bytes " ") name_Keyed refl (refl, tt)
      here

parse_case-unknown_example :
    parse_case 28 nop_case (bytes " { \"name\" : \"ea\" , \"id\" : 1}")
    ≡ failed (record { message = unexpected_case_key; offset = 25 })
parse_case-unknown_example =
    parse_case-unknown 28 (bytes " ") nop_case refl (refl, tt) name_ReadsOn id_Keyed

-- A number that is too wide for A, a program counter, and A once more; the other fields stay.
abbrev spaced : Entry → Spaced
spaced entry = record {
  entry = entry;
  before = bytes " ";
  between = [];
  lead = bytes " ";
  behind = bytes "\n";
}

spaced-IsSpaced : (e : Entry) → IsEntry e → IsSpaced (spaced e)
spaced-IsSpaced e h = record {
  entry = h;
  before = (refl, tt);
  between = tt;
  lead = (refl, tt);
  behind = (refl, tt);
}

parse_state-entries_example :
    parse_state 100 before (
      0x7b
      ∷ entries_text
          (spaced (holds Field.a 300))
          (spaced (holds Field.pc 7) ∷ spaced (holds Field.a 258) ∷ [])
          [])
    ≡ ok (record before { pc = 7; a = 2; ram = [] }) []
parse_state-entries_example =
    parse_state-entries 100 [] (spaced (holds Field.a 300))
      (spaced (holds Field.pc 7) ∷ spaced (holds Field.a 258) ∷ []) before [] tt
      (spaced-IsSpaced (holds Field.a 300) (omega arith))
      (
        spaced-IsSpaced (holds Field.pc 7) (omega arith),
        (spaced-IsSpaced (holds Field.a 258) (omega arith), tt),
      )

run_file-ends_example :
    ((result : FileResult) × (output : List ℕ) × (run_file 3 nop_path
          (whole (bytes "[{\"name\": 5}]"))
        ≡ finished result output))
    ⊎ ((e : Failure) × (text : List ℕ) × (whole (bytes "[{\"name\": 5}]") ≡ whole text)
        × (run_file 3 nop_path (whole (bytes "[{\"name\": 5}]")) ≡ threw e)
        × (e.offset ≤ length text))
run_file-ends_example = run_file-ends 3 nop_path (whole (bytes "[{\"name\": 5}]"))

run_file-Tally_example :
    (result : FileResult) × (output : List ℕ) × (run_file 3 nop_path (whole nop_file)
      ≡ finished result output)
    × Tally (nop_case ∷ []) result
run_file-Tally_example = run_file-Tally 3 nop_path (nop_case ∷ []) (nop_case-IsCase, tt)

-- A case, and then a number where a case should stand.
abbrev broken_file : List ℕ
broken_file = bytes "[ {\"name\" : \"ea\"} , 5]"

run_file-Judged_example : Judged (read_tests broken_file) (run_file 3 nop_path (whole broken_file))
run_file-Judged_example = run_file-Judged 3 nop_path broken_file

run_all-Clean_example :
    (code_of (run_all system 3 1 (nop_path ∷ []) (record { passed = 0; failed = 0 }) [] [])
      ≡ some 0)
    ↔ Each (Clean system 3) (nop_path ∷ [])
run_all-Clean_example = run_all-Clean system 3 1 (nop_path ∷ []) [] []
