-- ===== src/Harte/Case.antt =====
-- A test case of tools/run_harte.cpp, and how it is parsed from its JSON text.
pub mod Bounds
pub mod Entries
pub mod Order
pub mod Render
pub mod Unknown
pub mod Whole
pub mod Widths
use emulator.Prelude.{
  ℕ, Bool, true, false, ◌&&◌, ◌||◌, List, [], ◌∷◌, ◌++◌, ◌==◌, if◌then◌else◌, u8, u16,
}
use emulator.Bus.Recording.{CycleRecord}
use emulator.Json.{
  Parser, ◌>>=◌, ◌>>◌, pure, unexpected_state_key, unexpected_case_key, fail, expect, string,
  number, object, array,
}
use emulator.Text.{bytes}

pub record State : Type 0 where
  pub pc : ℕ
  pub s : ℕ
  pub a : ℕ
  pub x : ℕ
  pub y : ℕ
  pub p : ℕ
  pub ram : List (ℕ × ℕ)

pub record TestCase : Type 0 where
  pub name : List ℕ
  pub initial : State
  pub final : State
  pub cycles : List CycleRecord

-- The defaults of the fields.
abbrev pub new_state : State
new_state = record { pc = 0; s = 0; a = 0; x = 0; y = 0; p = 0; ram = [] }

abbrev pub new_case : TestCase
new_case = record { name = []; initial = new_state; final = new_state; cycles = [] }

-- `==` of two string views.
abbrev pub same_bytes : List ℕ → List ℕ → Bool
same_bytes [] [] = true
same_bytes (c ∷ text) (d ∷ text') = c == d && same_bytes text text'
same_bytes _ _ = false

module _ (size : ℕ) where
  -- `[addr, value]` of `ram`.
  unfoldable pub parse_ram : State → Parser State
  unfolding expect number
  parse_ram state = do
    expect size 0x5b
    addr ← number size
    expect size 0x2c
    value ← number size
    expect size 0x5d
    pure (record state { ram = state.ram ++ (u16 addr, u8 value) ∷ [] })

  -- The closure of `parseState`.
  unfoldable pub state_member : List ℕ → State → Parser State
  unfolding number array parse_ram fail
  state_member key state =
      if same_bytes key (bytes "pc")
      then (do v ← number size; pure (record state { pc = u16 v }))
      else if same_bytes key (bytes "s")
      then (do v ← number size; pure (record state { s = u8 v }))
      else if same_bytes key (bytes "a")
      then (do v ← number size; pure (record state { a = u8 v }))
      else if same_bytes key (bytes "x")
      then (do v ← number size; pure (record state { x = u8 v }))
      else if same_bytes key (bytes "y")
      then (do v ← number size; pure (record state { y = u8 v }))
      else if same_bytes key (bytes "p")
      then (do v ← number size; pure (record state { p = u8 v }))
      else if same_bytes key (bytes "ram")
      then array size parse_ram state
      else fail size unexpected_state_key

  unfoldable pub parse_state : State → Parser State
  unfolding object state_member
  parse_state state = object size state_member (record state { ram = [] })

  -- `[addr, value, "read" or "write"]` of `cycles`.
  unfoldable pub parse_cycle : TestCase → Parser TestCase
  unfolding expect number string
  parse_cycle test = do
    expect size 0x5b
    addr ← number size
    expect size 0x2c
    value ← number size
    expect size 0x2c
    kind ← string size
    expect size 0x5d
    let entry : CycleRecord = record {
      addr = u16 addr;
      value = u8 value;
      is_write = same_bytes kind (bytes "write");
    }
    pure (record test { cycles = test.cycles ++ entry ∷ [] })

  -- The closure of `parseCase`.
  unfoldable pub case_member : List ℕ → TestCase → Parser TestCase
  unfolding string parse_state array parse_cycle fail
  case_member key test =
      if same_bytes key (bytes "name")
      then (do v ← string size; pure (record test { name = v }))
      else if same_bytes key (bytes "initial")
      then (do v ← parse_state test.initial; pure (record test { initial = v }))
      else if same_bytes key (bytes "final") || same_bytes key (bytes "expected")
      then (do v ← parse_state test.final; pure (record test { final = v }))
      else if same_bytes key (bytes "cycles")
      then array size parse_cycle test
      else fail size unexpected_case_key

  unfoldable pub parse_case : TestCase → Parser TestCase
  unfolding object case_member
  parse_case test = object size case_member (record test { cycles = [] })
