-- ===== src/Benchmark/Loop.antt =====
-- The loop of the workload of tools/benchmark.cpp, pass by pass.
use emulator.Prelude.{
  ℕ, zero, suc, ◌+◌, ◌*◌, ◌^◌, ◌<◌, Bool, true, false, ◌≡◌, refl, ◌∙◌, ap, arith, u8, u16, u64,
  nonzero, bit_and, ◌==◌, not, ◌&&◌, all_below, all_below_sound, if◌then◌else◌,
}
use emulator.Types.{crosses_page}
use emulator.Registers.{set_zn, power_on}
use emulator.Variant.{nmos6502}
use emulator.Bus.Flat.{FlatBus, flat_bus, store, load, load_from, set_vector}
use emulator.Bus.Flat
use emulator.Cpu.{Cpu, fetch, fetch_word, read, write, read_if, tick}
use emulator.Cpu
use emulator.Cpu.Laws.{plain}
use emulator.Addressing.{effective, resolve, index_base, index_of, fix_up}
use emulator.Operations.Alu.{add_with_carry, add_binary}
use emulator.Operations.Reads.{apply_read}
use emulator.Operations.Writes.{write_value}
use emulator.Operations.Shifts.{apply_rmw}
use emulator.Operations.Implied.{apply_implied}
use emulator.Operations.Special.{execute_special, execute_jmp_abs}
use emulator.Instructions.{
  execute, execute_read, execute_write, execute_rmw, execute_implied, dummy_access,
}
use emulator.Table.{instruction_table}
use emulator.Step.{
  advance, step_instruction, instruction_body, dispatch, find_row, poll_interrupts, reset,
  reset_sequence, phantom_push,
}
use emulator.Benchmark.{loaded, ready, step_all, instructions}

-- The cells that the loop writes: the sum of the ADC, and the number of passes.
abbrev worked : ℕ → ℕ → ℕ
worked n = store (store loaded.memory 0x10 (if n == 0 then 0 else 1)) 0x11 (u8 n)

-- The memory between the INC and the end of the pass.
abbrev busy : ℕ → ℕ → ℕ
busy n = store (store (store (worked n) 0x10 1) 0x11 (u8 n)) 0x11 (u8 (u8 n + 1))

-- A counter after some more cycles.
abbrev spent : ℕ → ℕ → ℕ
spent zero k = k
spent (suc n) k = u64 (spent n k + 1)

-- The core on its way through the loop; `cycles` and `ticks` count for the core and for the bus.
abbrev point :
    (pc a x y : ℕ) (n z : Bool) (memory : ℕ → ℕ) (cycles ticks : ℕ) → Cpu FlatBus (Unit {0})
point pc a x y n z memory cycles ticks = record {
  regs = record {
    a = a;
    x = x;
    y = y;
    s = 0xfd;
    pc = pc;
    n = n;
    v = false;
    d = false;
    i = true;
    z = z;
    c = false;
  };
  bus = record { memory = memory; cycles = ticks };
  hooks = tt;
  cycles = cycles;
  jammed = false;
  nmi_line = false;
  nmi_edge = false;
  irq_line = false;
  pending_nmi = false;
  pending_irq = false;
  poll_i = true;
}

abbrev negative : ℕ → Bool
negative value = nonzero (bit_and value 0x80)

-- The head of the loop, behind `n` passes.
abbrev pub at_loop : (n cycles ticks : ℕ) → Cpu FlatBus (Unit {0})
at_loop n = point 0x0406 0 (u8 n) (u8 n) (negative (u8 n)) (u8 n == 0) (worked n)

abbrev next : Cpu FlatBus (Unit {0}) → Cpu FlatBus (Unit {0})
next c = advance (plain flat_bus nmos6502) c

-- CLC, ADC #$01, STA $10, INC $11.
to_inc :
    (n k b : ℕ)
    → next (next (next (next (at_loop n k b))))
      ≡ point 0x040d 1
          (u8 n)
          (u8 n)
          (negative (u8 (u8 n + 1)))
          (u8 (u8 n + 1) == 0)
          (busy n)
          (spent 12 k)
          (spent 12 b)
unfolding advance step_instruction instruction_body dispatch find_row instruction_table
    poll_interrupts execute execute_implied execute_read execute_write execute_rmw dummy_access
    effective apply_implied apply_read add_with_carry add_binary write_value apply_rmw set_zn fetch
    read write tick Flat.read Flat.write Flat.tick loaded load load_from set_vector Flat.new
to_inc n k b = refl

-- INX, INY, JMP.
to_loop :
    (n k b : ℕ)
    → next (next (next (point 0x0410 0 (u8 n) (u8 n) false true (busy n) k b)))
      ≡ point 0x0406 0
          (u8 (u8 n + 1))
          (u8 (u8 n + 1))
          (negative (u8 (u8 n + 1)))
          (u8 (u8 n + 1) == 0)
          (busy n)
          (spent 7 k)
          (spent 7 b)
unfolding advance step_instruction instruction_body dispatch find_row instruction_table
    poll_interrupts execute execute_implied execute_special execute_jmp_abs apply_implied set_zn
    fetch fetch_word read tick Flat.read Flat.tick loaded load load_from set_vector Flat.new
to_loop n k b = refl

-- The page that LDA reads from: no index leaves it, and the program does not store there.
abbrev clear : ℕ → Bool
clear x =
    not (crosses_page 0x200 (u16 (0x200 + x)))
    && (loaded.memory (u16 (0x200 + x)) == 0)
    && not (u16 (0x200 + x) == 0x10)
    && not (u16 (0x200 + x) == 0x11)

clear_page : all_below 256 clear ≡ true
unfolding all_below crosses_page loaded load load_from set_vector Flat.new
clear_page = refl

operand :
    (n : ℕ) → (crosses_page 0x200 (u16 (0x200 + u8 n)) ≡ false) × (busy n (u16 (0x200 + u8 n)) ≡ 0)
operand n = let small = all_below_sound 256 clear (u8 n) clear_page (omega arith) in ground arith

-- LDA $0200,X, from a page of zeros.
to_lda :
    (n k b : ℕ) (nf zf : Bool)
    → next (point 0x040d 1 (u8 n) (u8 n) nf zf (busy n) k b)
      ≡ point 0x0410 0 (u8 n) (u8 n) false true (busy n) (spent 4 k) (spent 4 b)
unfolding advance step_instruction instruction_body dispatch find_row instruction_table read_if
    poll_interrupts execute execute_read effective resolve index_base index_of fix_up apply_read
    set_zn fetch fetch_word read tick Flat.read Flat.tick loaded load load_from set_vector Flat.new
to_lda n k b nf zf = rw ((operand n).0, (operand n).1) refl

-- The passes count on: the counters modulo a byte, the cells, and the cycles.
byte_on : (n : ℕ) → u8 (u8 n + 1) ≡ u8 (suc n)
byte_on n = omega arith

cells_on : (n : ℕ) → busy n ≡ worked (suc n)
cells_on n = λ i at. cell at i
  where
    cell : (at : ℕ) → busy n at ≡ worked (suc n) at
    cell at = rw (byte_on n) (ground arith)

spent_lem : (n k : ℕ) → k < 2 ^ 64 → spent n k ≡ u64 (k + n)
spent_lem zero k lt = omega arith
spent_lem (suc n) k lt = rw (spent_lem n k lt) (omega arith)

-- One pass: eight instructions, 23 cycles.
pass :
    (n k b : ℕ)
    → k < 2 ^ 64
    → b < 2 ^ 64
    → step_all 8 (at_loop n k b) ≡ at_loop (suc n) (u64 (k + 23)) (u64 (b + 23))
unfolding step_all
pass n k b small small' =
    ap (λ c. next (next (next (next c)))) (to_inc n k b)
    ∙ ap (λ c. next (next (next c))) (to_lda n (spent 12 k) (spent 12 b) _ _)
    ∙ to_loop n (spent 16 k) (spent 16 b)
    ∙ λ i.
        let x = byte_on n i in
        point 0x0406 0 x x (negative x) (x == 0) (cells_on n i) (spent_lem 23 k small i)
          (spent_lem 23 b small' i)

first_cells : (at : ℕ) → loaded.memory at ≡ worked 0 at
unfolding loaded load load_from set_vector Flat.new
first_cells at = ground arith

start : step_all 3 ready ≡ point 0x0406 0 0 0 false true loaded.memory 13 13
unfolding step_all ready reset Cpu.new reset_sequence phantom_push power_on advance step_instruction
    instruction_body dispatch find_row instruction_table poll_interrupts execute execute_read
    effective apply_read set_zn fetch read tick Flat.read Flat.tick loaded load load_from set_vector
    Flat.new
start = refl

five_more : (n k b : ℕ) → (step_all 5 (at_loop n k b)).cycles ≡ spent 16 k
unfolding step_all
five_more n k b =
    ap (λ c. (next c).cycles) (to_inc n k b)
    ∙ ap (λ c. c.cycles) (to_lda n (spent 12 k) (spent 12 b) _ _)

step_all_add :
    (j k : ℕ) (c : Cpu FlatBus (Unit {0})) → step_all (j + k) c ≡ step_all k (step_all j c)
unfolding step_all
step_all_add zero k c = let plus : 0 + k ≡ k = omega arith in ap (λ j. step_all j c) plus
step_all_add (suc j) k c =
    let split : suc j + k ≡ suc (j + k) = omega arith in
    ap (λ i. step_all i c) split ∙ step_all_add j k (next c)

pub step_all-at_loop :
    (n : ℕ) → step_all (3 + 8 * n) ready ≡ at_loop n (u64 (13 + 23 * n)) (u64 (13 + 23 * n))
step_all-at_loop zero = start ∙ λ i. point 0x0406 0 0 0 false true (λ at. first_cells at i) 13 13
step_all-at_loop (suc n) =
    let split : 3 + 8 * suc n ≡ (3 + 8 * n) + 8 = omega arith in
    ap (λ j. step_all j ready) split
    ∙ step_all_add (3 + 8 * n) 8 ready
    ∙ ap (step_all 8) (step_all-at_loop n)
    ∙ pass n (u64 (13 + 23 * n)) (u64 (13 + 23 * n)) (omega arith) (omega arith)
    ∙ ap (λ k. at_loop (suc n) k k) (omega arith)

-- The whole run of the benchmark ends behind the LDA of a pass.
timed : (step_all instructions ready).cycles ≡ 575000006
timed =
    let split : instructions ≡ (3 + 8 * 24999999) + 5 = refl in
    ap (λ j. (step_all j ready).cycles) split
    ∙ ap (λ c. c.cycles) (step_all_add (3 + 8 * 24999999) 5 ready)
    ∙ ap (λ c. (step_all 5 c).cycles) (step_all-at_loop 24999999)
    ∙ five_more 24999999 _ _
