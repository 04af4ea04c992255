-- ===== src/Harte/Case/Entries.antt =====
-- The members of a state of a test case, as tools/run_harte.cpp finds them in a text, and what they say.
use Prim.Native.String.{String}
use emulator.Prelude.{ℕ, ◌^◌, ◌<◌, List, [], ◌∷◌, ◌++◌, u8, u16}
use emulator.Json.Reading.{Each, listed}
use emulator.Text.{bytes, decimal}
use emulator.Harte.Case.{State}
use emulator.Harte.Case.Render.{IsCell, ram_text}
use emulator.Json.Blank.{IsBlank}

pub data Field : Type 0 where
  pc s a x y p : Field

abbrev pub field_name : Field → String
field_name Field.pc = "pc"
field_name Field.s = "s"
field_name Field.a = "a"
field_name Field.x = "x"
field_name Field.y = "y"
field_name Field.p = "p"

-- A member: a number for a field, or cells.
pub data Entry : Type 0 where
  holds : Field → ℕ → Entry
  cells : List (ℕ × ℕ) → Entry

-- With the white space before the key, behind it, before the value and behind it.
pub record Spaced : Type 0 where
  pub entry : Entry
  pub before : List ℕ
  pub between : List ℕ
  pub lead : List ℕ
  pub behind : List ℕ

abbrev pub key_of : Entry → List ℕ
key_of (holds f n) = bytes (field_name f)
key_of (cells c) = bytes "ram"

abbrev pub value_text : Entry → List ℕ → List ℕ
value_text (holds f n) tail = decimal n ++ tail
value_text (cells c) tail = listed 0x5b ram_text c tail

abbrev pub entry_text : Spaced → List ℕ → List ℕ
entry_text m tail =
    m.before
    ++ 0x22
      ∷ (key_of m.entry
          ++ 0x22 ∷ (m.between ++ 0x3a ∷ (m.lead ++ value_text m.entry (m.behind ++ tail))))

-- The members, parted by commas, and the closing brace.
abbrev pub entries_text : Spaced → List Spaced → List ℕ → List ℕ
entries_text m [] tail = entry_text m (0x7d ∷ tail)
entries_text m (k ∷ ms) tail = entry_text m (0x2c ∷ entries_text k ms tail)

-- What a member does to the state: a number is cut to the width of its field, and cells are added.
abbrev pub set : Entry → State → State
set (holds Field.pc n) t = record t { pc = u16 n }
set (holds Field.s n) t = record t { s = u8 n }
set (holds Field.a n) t = record t { a = u8 n }
set (holds Field.x n) t = record t { x = u8 n }
set (holds Field.y n) t = record t { y = u8 n }
set (holds Field.p n) t = record t { p = u8 n }
set (cells c) t = record t { ram = t.ram ++ c }

abbrev pub set_all : Spaced → List Spaced → State → State
set_all m [] t = set m.entry t
set_all m (k ∷ ms) t = set_all k ms (set m.entry t)

-- A number that `long long` holds, and cells within their widths.
abbrev pub IsEntry : Entry → Type 0
IsEntry (holds f n) = n < 2 ^ 63
IsEntry (cells c) = Each IsCell c

pub record IsSpaced (m : Spaced) : Type 0 where
  pub entry : IsEntry m.entry
  pub before : IsBlank m.before
  pub between : IsBlank m.between
  pub lead : IsBlank m.lead
  pub behind : IsBlank m.behind
