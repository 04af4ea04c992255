-- ===== src/Harte/Case/Render.antt =====
-- A test case written out as JSON, and read back by the parser of tools/run_harte.cpp.
use Prim.Native.String.{String}
use emulator.Prelude.{
  ℕ, suc, ◌<◌, ◌^◌, Bool, true, false, List, [], ◌∷◌, ◌++◌, ◌≡◌, refl, ◌∙◌, ap, sym, arith, u8, u16,
  length,
}
use mathlib.Core.List.{append_assoc, append-nil}
use emulator.Bus.Recording.{CycleRecord}
use emulator.Json.{Parser, ok, ◌>>=◌, ◌>>◌, pure, expect, is_digit, number, members, array}
use emulator.Text.{bytes, decimal}
use emulator.Json.Reading.{
  NoQuote, Each, listed, after_all, number-decimal, number-decimal_spaced, string-quoted,
  members-next, members-last, array-listed, onward,
}
use emulator.Harte.Case.{State, parse_ram, state_member, parse_state}
use emulator.Harte.Case.Bounds.{parse_ram-Consumes}

-- `addr, value]` of an entry of `ram`, and the entry of `cycles`, behind the opening bracket.
unfoldable pub ram_text : ℕ × ℕ → List ℕ → List ℕ
ram_text (addr, value) tail = decimal addr ++ 0x2c ∷ (decimal value ++ 0x5d ∷ tail)

abbrev pub kind_text : Bool → List ℕ
kind_text true = bytes "write"
kind_text false = bytes "read"

unfoldable pub cycle_text : CycleRecord → List ℕ → List ℕ
cycle_text entry tail =
    decimal entry.addr
    ++ 0x2c
      ∷ (decimal entry.value ++ 0x2c ∷ 0x22 ∷ (kind_text entry.is_write ++ 0x22 ∷ 0x5d ∷ tail))

-- `"key": n,`.
abbrev member : String → ℕ → List ℕ → List ℕ
member key n tail = 0x22 ∷ (bytes key ++ 0x22 ∷ 0x3a ∷ 0x20 ∷ (decimal n ++ 0x2c ∷ tail))

-- `{"pc": 1,"s": 2,"a": 3,"x": 4,"y": 5,"p": 6,"ram": [[7,8],[9,10]]}`.
unfoldable pub state_text : State → List ℕ → List ℕ
state_text state tail =
    bytes "{"
    ++ (member "pc" state.pc (
        member "s" state.s (
          member "a" state.a (
            member "x" state.x (
              member "y" state.y (
                member "p" state.p
                  (bytes "\"ram\": " ++ listed 0x5b ram_text state.ram (0x7d ∷ tail))))))))

-- The address and the byte of a memory cell.
abbrev pub IsCell : ℕ × ℕ → Type 0
IsCell (addr, value) = (addr < 2 ^ 16) × (value < 2 ^ 8)

-- A state that the fields' types can hold.
pub record IsState (state : State) : Type 0 where
  pub pc : state.pc < 2 ^ 16
  pub s : state.s < 2 ^ 8
  pub a : state.a < 2 ^ 8
  pub x : state.x < 2 ^ 8
  pub y : state.y < 2 ^ 8
  pub p : state.p < 2 ^ 8
  pub ram : Each IsCell state.ram

module _ (size : ℕ) where
  stored :
      {S : Type 0} (f : ℕ → S) (n : ℕ) (rest : List ℕ)
      → n < 2 ^ 16
      → (number size >>= λ v. pure (f v)) (0x20 ∷ decimal n ++ 0x2c ∷ rest) ≡ ok (f n) (0x2c ∷ rest)
  stored f n rest h =
      onward (number size) (λ v. pure (f v)) _ _ n
        (number-decimal_spaced size n 0x2c rest (omega (arith, h)) refl)

  -- Two numbers with a comma between them.
  pub read_pair :
      {S : Type 0} (k : ℕ → ℕ → Parser S) (a v c : ℕ) (rest : List ℕ)
      → IsCell (a, v)
      → is_digit c ≡ false
      → (number size >>= λ a. expect size 0x2c >> (number size >>= λ v. k a v))
          (decimal a ++ 0x2c ∷ (decimal v ++ c ∷ rest))
        ≡ k a v (c ∷ rest)
  unfolding expect
  read_pair k a v c rest (ha, hv) e =
      onward (number size) (λ a. expect size 0x2c >> (number size >>= λ v. k a v))
        (decimal a ++ 0x2c ∷ (decimal v ++ c ∷ rest)) (0x2c ∷ (decimal v ++ c ∷ rest)) a
        (number-decimal size a 0x2c (decimal v ++ c ∷ rest) (omega (arith, ha)) refl)
      ∙ onward (number size) (k a) (decimal v ++ c ∷ rest) (c ∷ rest) v
          (number-decimal size v c rest (omega (arith, hv)) e)

  -- The entry that `parse_ram` adds.
  abbrev add_cell : State → ℕ × ℕ → State
  add_cell state cell = record state { ram = state.ram ++ cell ∷ [] }

  pub narrow : (a v : ℕ) → IsCell (a, v) → (u16 a ≡ a) × (u8 v ≡ v)
  narrow a v (ha, hv) = (omega (arith, ha), omega (arith, hv))

  parse_ram-cell :
      (state : State) (cell : ℕ × ℕ) (tail : List ℕ)
      → IsCell cell
      → parse_ram size state (0x5b ∷ ram_text cell tail) ≡ ok (add_cell state cell) tail
  unfolding ram_text parse_ram
  parse_ram-cell state (addr, value) tail h =
      let (ea, ev) = narrow addr value h in
      read_pair
        (λ a v. expect size 0x5d >> pure (record state { ram = state.ram ++ (u16 a, u8 v) ∷ [] }))
        addr value 0x5d tail h refl
      ∙ ap (λ t. ok (record state { ram = state.ram ++ (t, u8 value) ∷ [] }) tail) ea
      ∙ ap (λ t. ok (record state { ram = state.ram ++ (addr, t) ∷ [] }) tail) ev

  after_all-cells :
      (state : State) (cells : List (ℕ × ℕ))
      → after_all add_cell state cells ≡ record state { ram = state.ram ++ cells }
  unfolding after_all
  after_all-cells state [] = ap (λ t. record state { ram = t }) (sym (append-nil state.ram))
  after_all-cells state (cell ∷ cells) =
      after_all-cells (add_cell state cell) cells
      ∙ ap (λ t. record state { ram = t }) (append_assoc state.ram (cell ∷ []) cells)

  pub parse_ram-cells :
      (state : State) (cells : List (ℕ × ℕ)) (tail : List ℕ)
      → Each IsCell cells
      → array size (parse_ram size) state (0x20 ∷ listed 0x5b ram_text cells tail)
        ≡ ok (record state { ram = state.ram ++ cells }) tail
  unfolding array
  parse_ram-cells state cells tail h =
      array-listed size IsCell 0x5b ram_text add_cell (parse_ram size) (parse_ram-Consumes size)
        parse_ram-cell refl refl cells state tail h
      ∙ ap (λ t. ok t tail) (after_all-cells state cells)

  -- A member of a state that holds a number.
  next_number :
      (key : String) (set : ℕ → State) (fuel n : ℕ) (state : State) (rest : List ℕ)
      → NoQuote (bytes key)
      → n < 2 ^ 16
      → state_member size (bytes key) state ≡ (number size >>= λ v. pure (set v))
      → members size (suc fuel) (state_member size) state (member key n rest)
        ≡ members size fuel (state_member size) (set n) rest
  next_number key set fuel n state rest h hn e =
      members-next size (state_member size) fuel state (set n) (bytes key) (member key n rest)
        (0x20 ∷ (decimal n ++ 0x2c ∷ rest)) rest
        (string-quoted size (bytes key) (0x3a ∷ 0x20 ∷ (decimal n ++ 0x2c ∷ rest)) h)
        (ap (λ m. m (0x20 ∷ (decimal n ++ 0x2c ∷ rest))) e ∙ stored set n rest hn)

  -- The state whose numbers were cut to their widths.
  abbrev cut : State → State
  cut state = record {
    pc = u16 state.pc;
    s = u8 state.s;
    a = u8 state.a;
    x = u8 state.x;
    y = u8 state.y;
    p = u8 state.p;
    ram = [] ++ state.ram;
  }

  cut-eq : (state : State) → IsState state → cut state ≡ state
  cut-eq state v = ground arith

  enter_state :
      (old : State) (rest : List ℕ)
      → parse_state size old (0x7b ∷ 0x22 ∷ rest)
        ≡ members size
            (suc (length (0x22 ∷ rest)))
            (state_member size)
            (record old { ram = [] })
            (0x22 ∷ rest)
  unfolding parse_state
  enter_state old rest = refl

  -- A state is read back from its text, whatever the state held before and whatever follows.
  pub parse_state-text :
      (state old : State) (tail : List ℕ)
      → IsState state
      → parse_state size old (state_text state tail) ≡ ok state tail
  unfolding state_text state_member
  parse_state-text state old tail v =
      let s0 : State = record old { ram = [] } in
      let s1 : State = record s0 { pc = u16 state.pc } in
      let s2 : State = record s1 { s = u8 state.s } in
      let s3 : State = record s2 { a = u8 state.a } in
      let s4 : State = record s3 { x = u8 state.x } in
      let s5 : State = record s4 { y = u8 state.y } in
      let s6 : State = record s5 { p = u8 state.p } in
      let cells = listed 0x5b ram_text state.ram (0x7d ∷ tail) in
      let t7 = bytes "\"ram\": " ++ cells in
      let t6 = member "p" state.p t7 in
      let t5 = member "y" state.y t6 in
      let t4 = member "x" state.x t5 in
      let t3 = member "a" state.a t4 in
      let t2 = member "s" state.s t3 in
      let f0 = length (decimal state.pc ++ 0x2c ∷ t2) in
      let f1 = suc f0 in
      let f2 = suc f1 in
      let f3 = suc f2 in
      let f4 = suc f3 in
      let f5 = suc f4 in
      let f6 = suc f5 in
      enter_state old (bytes "pc" ++ 0x22 ∷ 0x3a ∷ 0x20 ∷ (decimal state.pc ++ 0x2c ∷ t2))
      ∙ next_number "pc" (λ v. record s0 { pc = u16 v }) f6 state.pc s0 t2 (refl, (refl, tt)) v.pc
          refl
      ∙ next_number "s" (λ v. record s1 { s = u8 v }) f5 state.s s1 t3 (refl, tt)
          (omega (arith, v.s)) refl
      ∙ next_number "a" (λ v. record s2 { a = u8 v }) f4 state.a s2 t4 (refl, tt)
          (omega (arith, v.a)) refl
      ∙ next_number "x" (λ v. record s3 { x = u8 v }) f3 state.x s3 t5 (refl, tt)
          (omega (arith, v.x)) refl
      ∙ next_number "y" (λ v. record s4 { y = u8 v }) f2 state.y s4 t6 (refl, tt)
          (omega (arith, v.y)) refl
      ∙ next_number "p" (λ v. record s5 { p = u8 v }) f1 state.p s5 t7 (refl, tt)
          (omega (arith, v.p)) refl
      ∙ members-last size (state_member size) f0 s6 (cut state) (bytes "ram") t7 (0x20 ∷ cells) tail
          (string-quoted size (bytes "ram") (0x3a ∷ 0x20 ∷ cells) (refl, (refl, (refl, tt))))
          (parse_ram-cells s6 state.ram (0x7d ∷ tail) v.ram)
      ∙ ap (λ t. ok t tail) (cut-eq state v)
