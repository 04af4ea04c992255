-- ===== src/Harte/Main.antt =====
-- `main` of tools/run_harte.cpp: which files are run, what is printed and the exit code. What the file
-- system and the C library answer is a record.
pub mod Clean
use emulator.Prelude.{
  ℕ, ◌+◌, ◌-◌, ◌*◌, ◌/◌, ◌%◌, Bool, true, false, ◌&&◌, ◌||◌, Option, none, some, List, [], ◌∷◌,
  ◌++◌, ◌==◌, leb, ltb, length, if◌then◌else◌,
}
use emulator.Json.{Failure, is_digit}
use emulator.Text.{bytes, decimal}
use emulator.Harte.Case.{same_bytes}
use emulator.Harte.File.{FileResult, Contents, finished, threw, stuck, run_file}

abbrev pub FilePath : Type 0
FilePath = List ℕ

-- An entry of a directory.
pub record Entry : Type 0 where
  pub path : FilePath
  pub is_regular : Bool
  pub extension : List ℕ

-- What the program asks of its surroundings: `getenv`, `is_directory`, `directory_iterator`,
-- `std::sort` on paths, `operator/`, `atoi` (a negative number is 0), and the contents of a file.
pub record System : Type 0 where
  pub getenv : List ℕ → Option (List ℕ)
  pub is_directory : FilePath → Bool
  pub entries : FilePath → List Entry
  pub sort : List FilePath → List FilePath
  pub append : FilePath → List ℕ → FilePath
  pub atoi : List ℕ → ℕ
  pub contents : FilePath → Contents

-- The places where the suite is looked for.
abbrev pub candidates : List FilePath
candidates =
    bytes "Harte-65x02/6502/v1"
    ∷ bytes "../Harte-65x02/6502/v1"
    ∷ bytes "../../Harte-65x02/6502/v1"
    ∷ bytes "6502/v1"
    ∷ bytes "../6502/v1"
    ∷ []

-- `isxdigit`.
abbrev pub is_hex_digit : ℕ → Bool
is_hex_digit c = is_digit c || (leb 0x41 c && leb c 0x46 || leb 0x61 c && leb c 0x66)

unfoldable pub all_hex : List ℕ → Bool
all_hex [] = true
all_hex (c ∷ text) = is_hex_digit c && all_hex text

unfoldable pub looks_like_opcode : List ℕ → Bool
unfolding all_hex
looks_like_opcode [] = false
looks_like_opcode (c ∷ text) = if ltb 2 (length (c ∷ text)) then false else all_hex (c ∷ text)

-- `strtoul(text, nullptr, 16)` of hexadecimal digits.
abbrev pub hex_digit_value : ℕ → ℕ
hex_digit_value c = if is_digit c then c - 0x30 else if leb 0x61 c then c - 0x57 else c - 0x37

unfoldable pub hex_from : ℕ → List ℕ → ℕ
hex_from acc [] = acc
hex_from acc (c ∷ text) = hex_from (acc * 16 + hex_digit_value c) text

abbrev lower_digit : ℕ → ℕ
lower_digit n = if ltb n 10 then 0x30 + n else 0x57 + n

-- `%02x.json`.
unfoldable pub opcode_name : List ℕ → List ℕ
unfolding hex_from
opcode_name text =
    let n = hex_from 0 text in lower_digit (n / 16) ∷ lower_digit (n % 16) ∷ bytes ".json"

-- How the program ends: with an exit code and what stands on its two streams, or by an exception.
pub data Exit : Type 0 where
  exited : (code : ℕ) (out error : List ℕ) → Exit
  terminated : Failure → Exit
  endless : Exit

-- The exit code, where there is one.
abbrev pub code_of : Exit → Option ℕ
code_of (exited code out error) = some code
code_of _ = none

-- The files of the arguments, or the opcode that has no directory to stand in.
pub data Resolved : Type 0 where
  found : List FilePath → Resolved
  unresolved : List ℕ → Resolved

-- The files of one argument, before those of the next.
abbrev ahead : List FilePath → Resolved → Resolved
ahead files (found others) = found (files ++ others)
ahead files (unresolved argument) = unresolved argument

-- The last line.
unfoldable pub total_text : ℕ → FileResult → List ℕ
unfolding decimal
total_text count total =
    bytes "\n"
    ++ decimal count
    ++ bytes " file"
    ++ (if count == 1 then [] else bytes "s")
    ++ bytes " - TOTAL: "
    ++ decimal total.passed
    ++ bytes " passed, "
    ++ decimal total.failed
    ++ bytes " failed\n"

abbrev usage_text : List ℕ → List ℕ
usage_text program =
    bytes "no test directory found.\n"
    ++ bytes "  run from the project root, or set HARTE_DIR to a directory\n"
    ++ bytes "  of per-opcode JSON files (e.g. Harte-65x02/6502/v1).\n\nusage: "
    ++ program
    ++ bytes " [opcode | file.json | directory ...]\n"

abbrev unresolved_text : List ℕ → List ℕ
unresolved_text argument =
    bytes "cannot resolve opcode '"
    ++ argument
    ++ bytes "': no test directory found (set HARTE_DIR)\n"

module _ (system : System) where
  unfoldable pub first_directory : List FilePath → FilePath
  first_directory [] = []
  first_directory (candidate ∷ rest) =
      let later = first_directory rest in if system.is_directory candidate then candidate else later

  -- The directory, the empty path where there is none, and what is printed about it.
  unfoldable pub find_default_directory : FilePath × List ℕ
  unfolding first_directory
  find_default_directory = elim (system.getenv (bytes "HARTE_DIR")) [
    | none ↦ (first_directory candidates, [])
    | some from_env ↦
        if system.is_directory from_env
        then (from_env, [])
        else ([], bytes "HARTE_DIR=" ++ from_env ++ bytes " is not a directory\n")
  ]

  unfoldable pub json_paths : List Entry → List FilePath
  json_paths [] = []
  json_paths (entry ∷ rest) =
      let others = json_paths rest in
      if entry.is_regular && same_bytes entry.extension (bytes ".json")
      then entry.path ∷ others
      else others

  unfoldable pub json_files_in : FilePath → List FilePath
  unfolding json_paths
  json_files_in directory = system.sort (json_paths (system.entries directory))

  unfoldable pub resolve : FilePath → List (List ℕ) → Resolved
  unfolding json_files_in looks_like_opcode opcode_name
  resolve directory [] = found []
  resolve directory (argument ∷ more) =
      let later = resolve directory more in
      if system.is_directory argument
      then ahead (json_files_in argument) later
      else if looks_like_opcode argument
      then (if length directory == 0
          then unresolved argument
          else ahead (system.append directory (opcode_name argument) ∷ []) later)
      else ahead (argument ∷ []) later

  -- The loop over the files, on what was printed so far; `count` is `files.size()`.
  unfoldable pub run_all : ℕ → ℕ → List FilePath → FileResult → List ℕ → List ℕ → Exit
  unfolding run_file total_text
  run_all limit count [] total out error =
      exited (if total.failed == 0 then 0 else 1) (out ++ total_text count total) error
  run_all limit count (path ∷ rest) total out error =
      elim (run_file limit path (system.contents path)) [
        | finished one output ↦
            run_all limit count rest
              (record { passed = total.passed + one.passed; failed = total.failed + one.failed })
              (out ++ output) error
        | threw e ↦ terminated e
        | stuck ↦ endless
      ]

  unfoldable pub max_reports : ℕ
  max_reports = elim (system.getenv (bytes "HARTE_MAX_REPORTS")) [
    | none ↦ 3
    | some text ↦ system.atoi text
  ]

  abbrev no_result : FileResult
  no_result = record { passed = 0; failed = 0 }

  -- The whole suite, without arguments.
  unfoldable pub run_suite : List ℕ → FilePath → List ℕ → Exit
  unfolding json_files_in run_all max_reports decimal
  run_suite program directory error =
      let files = json_files_in directory in
      if length directory == 0
      then exited 2 [] (error ++ usage_text program)
      else if length files == 0
      then exited 2 [] (error ++ bytes "no .json files in " ++ directory ++ bytes "\n")
      else run_all max_reports (length files) files no_result
          (bytes "running "
            ++ decimal (length files)
            ++ bytes " opcode files from "
            ++ directory
            ++ bytes "\n\n")
          error

  -- `program` is `argv[0]`, and the list the arguments behind it.
  unfoldable pub main : List ℕ → List (List ℕ) → Exit
  unfolding find_default_directory run_suite resolve run_all max_reports
  main program [] =
      let (directory, error) = find_default_directory in run_suite program directory error
  main program (argument ∷ more) =
      let (directory, error) = find_default_directory in
      elim (resolve directory (argument ∷ more)) [
        | unresolved culprit ↦ exited 2 [] (error ++ unresolved_text culprit)
        | found files ↦ run_all max_reports (length files) files no_result [] error
      ]
