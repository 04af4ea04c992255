-- ===== src/Cpu/Invariant.antt =====
-- The invariant of the core: every register holds a number of its width, the counter has not
-- passed its 64 bits, and counter and bus satisfy the bus's laws. The rules by which a sequence of
-- primitives keeps it.
use emulator.Prelude.{
  ℕ, ◌+◌, ◌-◌, ◌^◌, ◌<◌, Bool, true, false, arith, u8, u16, if◌then◌else◌, word, ◌>>>◌, bit_and,
  bit_or,
}
use emulator.Types.{stack_base}
use emulator.Registers.{Registers, pack}
use emulator.Variant.{Variant}
use emulator.Bus.{BusLike, BusLaws}
use emulator.Cpu.{
  Cpu, M, ◌>>=◌, ◌>>◌, pure, get_regs, on_regs, set_pc, read, read_if, write, fetch, fetch_word,
  read_zero_page_word, push, pull, peek_stack, enter_interrupt, interrupt_sequence,
}
use emulator.Cpu.Laws.{plain}

pub record InRange (r : Registers) : Type 0 where
  pub a : r.a < 2 ^ 8
  pub x : r.x < 2 ^ 8
  pub y : r.y < 2 ^ 8
  pub s : r.s < 2 ^ 8
  pub pc : r.pc < 2 ^ 16

abbrev pub IsByte : ℕ → Type 0
IsByte n = n < 2 ^ 8

abbrev pub IsWord : ℕ → Type 0
IsWord n = n < 2 ^ 16

abbrev pub IsAny {ℓ} : {A : Type ℓ} → A → Type 0
IsAny _ = Unit {0}

-- A function of the registers that keeps them in range.
abbrev pub KeepsRange : (Registers → Registers) → Type 0
KeepsRange f = (r : Registers) → InRange r → InRange (f r)

module _ {B H : Type 0} {bus : BusLike B} (laws : BusLaws bus) where
  pub record Inv (c : Cpu B H) : Type 0 where
    pub regs : InRange c.regs
    pub cycles : c.cycles < 2 ^ 64
    pub account : laws.Holds c.cycles c.bus

  -- Run from a state with the invariant, `m` ends in one, and its result satisfies `Q`.
  pub record Keeps {A : Type 0} (Q : A → Type 0) (m : M B H A) : Type 0 where
    pub after : (c : Cpu B H) → Inv c → Inv (m c).1 × Q (m c).0

  module _ {A C : Type 0} {Q : A → Type 0} {R : C → Type 0} where
    pub bind :
        {m : M B H A} {f : A → M B H C}
        → Keeps Q m
        → ((a : A) → Q a → Keeps R (f a))
        → Keeps R (m >>= f)
    bind km kf = record { after = λ c v. let (v', q) = km.after c v in (kf _ q).after _ v' }

    pub after : {m : M B H A} {k : M B H C} → Keeps Q m → Keeps R k → Keeps R (m >> k)
    after km kk = record { after = λ c v. kk.after _ (km.after c v).0 }

  pub weaken :
      {A : Type 0} {Q R : A → Type 0} {m : M B H A} → Keeps Q m → ((a : A) → Q a → R a) → Keeps R m
  weaken km imp = record { after = λ c v. let (v', q) = km.after c v in (v', imp _ q) }

  pub result : {A : Type 0} {Q : A → Type 0} (a : A) → Q a → Keeps Q (pure a)
  result a q = record { after = λ c v. (v, q) }

  -- A test of the program between two ways on.
  pub choose :
      {A : Type 0} {Q : A → Type 0} (b : Bool) (m k : M B H A)
      → Keeps Q m
      → Keeps Q k
      → Keeps Q (λ c. if b then m c else k c)
  choose true m k km kk = record { after = km.after }
  choose false m k km kk = record { after = kk.after }

  pub get_regs-Keeps : Keeps InRange get_regs
  get_regs-Keeps = record { after = λ c v. (v, v.regs) }

  pub on_regs-Keeps : (f : Registers → Registers) → KeepsRange f → Keeps IsAny (on_regs f)
  on_regs-Keeps f k = record {
    after = λ c v. (record { regs = k c.regs v.regs; cycles = v.cycles; account = v.account }, tt);
  }

  pub set_pc-Keeps : (pc : ℕ) → IsWord pc → Keeps IsAny (set_pc pc)
  set_pc-Keeps pc h =
      on_regs-Keeps (λ r. record r { pc = pc })
        λ r v. record { a = v.a; x = v.x; y = v.y; s = v.s; pc = h }

-- A new value of S.
pub with_s : (r : Registers) (n : ℕ) → IsByte n → InRange r → InRange (record r { s = n })
with_s r n h v = record { a = v.a; x = v.x; y = v.y; s = h; pc = v.pc }

module _ {B H : Type 0} {bus : BusLike B} (laws : BusLaws bus) (variant : Variant) where
  pub read-Keeps : (addr : ℕ) → Keeps {H = H} laws IsByte (read (plain bus variant) addr)
  unfolding read
  read-Keeps addr = record {
    after = λ c v. (
      record {
        regs = v.regs;
        cycles = omega arith;
        account = laws.read_keeps c.cycles c.bus addr v.account;
      },
      laws.read_lt c.cycles c.bus addr v.account,
    );
  }

  -- A read whose value is dropped.
  pub discard :
      (addr : ℕ) → Keeps {H = H} laws IsAny (λ c. (tt, (read (plain bus variant) addr c).1))
  discard addr = record { after = λ c v. (((read-Keeps addr).after c v).0, tt) }

  pub read_if-Keeps :
      (b : Bool) (addr : ℕ) → Keeps {H = H} laws IsAny (read_if (plain bus variant) b addr)
  unfolding read_if
  read_if-Keeps b addr =
      choose laws b (λ c. (tt, (read (plain bus variant) addr c).1)) (pure tt) (discard addr)
        (result laws tt tt)

  pub write-Keeps :
      (addr value : ℕ)
      → IsByte value
      → Keeps {H = H} laws IsAny (write (plain bus variant) addr value)
  unfolding write
  write-Keeps addr value h = record {
    after = λ c v. (
      record {
        regs = v.regs;
        cycles = omega arith;
        account = laws.write_keeps c.cycles c.bus addr value h v.account;
      },
      tt,
    );
  }

  pub fetch-Keeps : Keeps {H = H} laws IsByte (fetch (plain bus variant))
  unfolding fetch
  fetch-Keeps =
      bind laws (get_regs-Keeps laws)
        λ r v. after laws (set_pc-Keeps laws (u16 (r.pc + 1)) (omega arith)) (read-Keeps r.pc)

  pub fetch_word-Keeps : Keeps {H = H} laws IsWord (fetch_word (plain bus variant))
  unfolding fetch_word
  fetch_word-Keeps =
      bind laws fetch-Keeps
        λ lo p. bind laws fetch-Keeps λ hi q. result laws (word lo hi) (omega arith)

  pub read_zero_page_word-Keeps :
      (addr : ℕ) → Keeps {H = H} laws IsWord (read_zero_page_word (plain bus variant) addr)
  unfolding read_zero_page_word
  read_zero_page_word-Keeps addr =
      bind laws (read-Keeps addr) λ lo p.
        bind laws (read-Keeps (u8 (addr + 1))) λ hi q. result laws (word lo hi) (omega arith)

  pub push-Keeps :
      (value : ℕ) → IsByte value → Keeps {H = H} laws IsAny (push (plain bus variant) value)
  unfolding push
  push-Keeps value h = bind laws (get_regs-Keeps laws) λ r v.
      after laws (write-Keeps (u16 (bit_or stack_base r.s)) value h) (
        on_regs-Keeps laws (λ r. record r { s = u8 (r.s + 2 ^ 8 - 1) })
          λ r' v'. with_s r' _ (omega arith) v')

  pub pull-Keeps : Keeps {H = H} laws IsByte (pull (plain bus variant))
  unfolding pull
  pull-Keeps =
      after laws
        (on_regs-Keeps laws (λ r. record r { s = u8 (r.s + 1) })
          λ r' v'. with_s r' _ (omega arith) v')
        (bind laws (get_regs-Keeps laws) λ r v. read-Keeps (u16 (bit_or stack_base r.s)))

  pub peek_stack-Keeps : Keeps {H = H} laws IsByte (peek_stack (plain bus variant))
  unfolding peek_stack
  peek_stack-Keeps = bind laws (get_regs-Keeps laws) λ r v. read-Keeps (u16 (bit_or stack_base r.s))

  enter_interrupt-Keeps :
      (b : Bool) → Keeps {H = H} laws IsAny (enter_interrupt (plain bus variant) b)
  unfolding enter_interrupt
  enter_interrupt-Keeps true = after laws fetch-Keeps (result laws tt tt)
  enter_interrupt-Keeps false = bind laws (get_regs-Keeps laws) λ r v.
      after laws (read-Keeps r.pc)
        (bind laws (get_regs-Keeps laws) λ r' v'. after laws (read-Keeps r'.pc) (result laws tt tt))

  pub interrupt_sequence-Keeps :
      (b : Bool) (vector : ℕ)
      → Keeps {H = H} laws IsAny (interrupt_sequence (plain bus variant) b vector)
  unfolding interrupt_sequence
  interrupt_sequence-Keeps b vector = after laws (enter_interrupt-Keeps b) (
      bind laws (get_regs-Keeps laws) λ r v.
        after laws (push-Keeps (u8 (r.pc >>> 8)) (omega arith)) (
          bind laws (get_regs-Keeps laws) λ r v.
            after laws (push-Keeps (u8 (bit_and r.pc 0xff)) (omega arith)) (
              bind laws (get_regs-Keeps laws) λ r v.
                after laws (push-Keeps (pack b r) (unfold pack in omega arith)) (
                  after laws
                    (on_regs-Keeps laws (λ r. record r { i = true })
                      λ r v. record { a = v.a; x = v.x; y = v.y; s = v.s; pc = v.pc })
                    (after laws
                      (on_regs-Keeps laws
                        (λ r.
                          if variant.clear_decimal_on_interrupt then record r { d = false } else r)
                        λ r v. ground arith)
                      (bind laws (read-Keeps vector) λ lo p.
                        bind laws (read-Keeps (u16 (vector + 1)))
                          λ hi q. set_pc-Keeps laws (word lo hi) (omega arith)))))))
