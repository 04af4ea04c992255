-- ===== src/Harte/Judge.antt =====
-- How tools/run_harte.cpp judges a test case: it loads the case into a core on the logging bus, takes
-- one step and compares registers, memory and the log of the bus.
pub mod Exact
use emulator.Prelude.{ℕ, Bool, true, false, ◌&&◌, List, [], ◌∷◌, ◌==◌, bit_and, same, length}
use emulator.Registers.{Registers, pack, unpack}
use emulator.Variant.{nmos6502}
use emulator.Bus.Flat.{store}
use emulator.Bus.Recording.{CycleRecord, TestBus, clear, test_bus}
use emulator.Cpu.{Cpu, new}
use emulator.Cpu.Laws.{plain}
use emulator.Step.{advance}
use emulator.Harte.Case.{State, TestCase}

abbrev pub status_mask : ℕ
status_mask = 0xcf

-- `bus[addr] = value` for each cell, which the log does not see.
unfoldable pub load_ram : List (ℕ × ℕ) → TestBus → TestBus
load_ram [] bus = bus
load_ram ((addr, value) ∷ cells) bus =
    load_ram cells (record bus { memory = store bus.memory addr value })

-- The registers of a case, in a register file.
abbrev pub load_registers : State → Registers → Registers
load_registers state r =
    unpack state.p (record r { pc = state.pc; a = state.a; x = state.x; y = state.y; s = state.s })

-- The core before the step: a new one, on the cleared bus with the case's memory.
unfoldable pub prepare : TestCase → TestBus → Cpu TestBus (Unit {0})
unfolding clear load_ram new unpack
prepare test bus =
    let cpu = new (load_ram test.initial.ram (clear bus)) tt in
    record cpu { regs = load_registers test.initial cpu.regs; bus = record cpu.bus { log = [] } }

-- `cpu.step()` with the default variant and hooks.
unfoldable pub run_case : TestCase → TestBus → Cpu TestBus (Unit {0})
unfolding prepare advance
run_case test bus = advance (plain test_bus nmos6502) (prepare test bus)

-- No cell of the final memory differs.
unfoldable pub same_cells : List (ℕ × ℕ) → TestBus → Bool
same_cells [] bus = true
same_cells ((addr, value) ∷ cells) bus = bus.memory addr == value && same_cells cells bus

abbrev pub same_entry : CycleRecord → CycleRecord → Bool
same_entry got want =
    got.addr == want.addr && (got.value == want.value && same got.is_write want.is_write)

-- The loop over the log, which the runner enters when the lengths agree.
unfoldable pub same_entries : List CycleRecord → List CycleRecord → Bool
same_entries [] cycles = true
same_entries (got ∷ log) [] = true
same_entries (got ∷ log) (want ∷ cycles) = same_entry got want && same_entries log cycles

abbrev pub same_registers : State → Registers → Bool
same_registers state r =
    r.pc == state.pc
    && (r.a == state.a
        && (r.x == state.x
            && (r.y == state.y
                && (r.s == state.s
                    && bit_and (pack true r) status_mask == bit_and state.p status_mask))))

-- The verdict `ok` on the core after the step.
unfoldable pub passes : TestCase → Cpu TestBus (Unit {0}) → Bool
unfolding pack same_cells same_entries
passes test cpu =
    same_registers test.final cpu.regs
    && (same_cells test.final.ram cpu.bus
        && (length cpu.bus.log == length test.cycles && same_entries cpu.bus.log test.cycles))
