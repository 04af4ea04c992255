-- ===== src/Harte/Case/Order.antt =====
-- A state of a test case of tools/run_harte.cpp, its members in any order and layout.
use emulator.Prelude.{ℕ, suc, ◌^◌, ◌<◌, true, false, List, [], ◌∷◌, ◌++◌, ◌≡◌, refl, ◌∙◌, ap, arith}
use emulator.Json.{
  ok, ◌>>=◌, pure, is_digit, is_space, skip_whitespace, strtoll, number, number_at, array, enter,
  elements, expect, expect_at, peek, peek_at,
}
use emulator.Json.Reading.{NoQuote, Each, listed, number-decimal, onward}
use emulator.Json.Bounds.{weaken}
use emulator.Json.Rounds.{ReadsOn, here, member, object-read}
use emulator.Json.Blank.{IsBlank, Keyed, skip_whitespace-lead}
use emulator.Text.{decimal}
use emulator.Harte.Case.{State, parse_ram, state_member, parse_state}
use emulator.Harte.Case.Bounds.{state_member-Consumes}
use emulator.Harte.Case.Render.{ram_text, parse_ram-cells}
use emulator.Harte.Case.Entries.{
  Field, Entry, holds, cells, Spaced, key_of, value_text, entry_text, entries_text, set, set_all,
  IsEntry, IsSpaced,
}

key_of-NoQuote : (e : Entry) → NoQuote (key_of e)
key_of-NoQuote (holds Field.pc n) = (refl, (refl, tt))
key_of-NoQuote (holds _ n) = (refl, tt)
key_of-NoQuote (cells c) = (refl, (refl, (refl, tt)))

entry-Keyed :
    (m : Spaced) (tail : List ℕ)
    → IsSpaced m
    → Keyed (key_of m.entry) (m.lead ++ value_text m.entry (m.behind ++ tail)) (entry_text m tail)
entry-Keyed m tail v = record {
  before = m.before;
  between = m.between;
  blank_before = v.before;
  blank_between = v.between;
  name = key_of-NoQuote m.entry;
  written = refl;
}

blank_not_digit : (c : ℕ) → is_space c ≡ true → is_digit c ≡ false
blank_not_digit c h = ground (arith, h)

module _ (size : ℕ) where
  -- A number with white space around it.
  number-spaced :
      (n c : ℕ) (lead behind tail : List ℕ)
      → n < 2 ^ 63
      → IsBlank lead
      → IsBlank behind
      → is_digit c ≡ false
      → number size (lead ++ (decimal n ++ (behind ++ c ∷ tail))) ≡ ok n (behind ++ c ∷ tail)
  unfolding number
  number-spaced n c lead behind tail h hl hb hc =
      ap (λ w. number_at size (strtoll w) w)
        (skip_whitespace-lead lead (decimal n ++ (behind ++ c ∷ tail)) hl)
      ∙ ends behind hb
    where
      ends :
          (behind : List ℕ)
          → IsBlank behind
          → number size (decimal n ++ (behind ++ c ∷ tail)) ≡ ok n (behind ++ c ∷ tail)
      ends [] hb = number-decimal size n c tail h hc
      ends (b ∷ bs) (hb, _) = number-decimal size n b (bs ++ c ∷ tail) h (blank_not_digit b hb)

  stored :
      (f : ℕ → State) (n c : ℕ) (lead behind tail : List ℕ)
      → n < 2 ^ 63
      → IsBlank lead
      → IsBlank behind
      → is_digit c ≡ false
      → (number size >>= λ v. pure (f v)) (lead ++ (decimal n ++ (behind ++ c ∷ tail)))
        ≡ ok (f n) (behind ++ c ∷ tail)
  stored f n c lead behind tail h hl hb hc =
      onward (number size) (λ v. pure (f v)) _ _ n (number-spaced n c lead behind tail h hl hb hc)

  array-lead :
      (t : State) (lead rest : List ℕ)
      → IsBlank lead
      → array size (parse_ram size) t (lead ++ rest) ≡ array size (parse_ram size) t (0x20 ∷ rest)
  unfolding array expect peek skip_whitespace
  array-lead t lead rest h =
      ap
        (λ w.
          ◌>>=◌ (λ _. ◌>>=◌ (λ _. peek_at size w) (expect_at size 0x5b) [])
            (λ _. enter size 0x5d (λ fuel. elements size fuel (parse_ram size) t) t) [])
        (skip_whitespace-lead lead rest h)

  -- One member, up to the byte that follows it.
  entry-read :
      (m : Spaced) (t : State) (c : ℕ) (tail : List ℕ)
      → IsSpaced m
      → is_digit c ≡ false
      → state_member size (key_of m.entry) t (m.lead ++ value_text m.entry (m.behind ++ c ∷ tail))
        ≡ ok (set m.entry t) (m.behind ++ c ∷ tail)
  unfolding state_member
  entry-read m t c tail v hc = reads m.entry v.entry
    where
      reads :
          (e : Entry)
          → IsEntry e
          → state_member size (key_of e) t (m.lead ++ value_text e (m.behind ++ c ∷ tail))
            ≡ ok (set e t) (m.behind ++ c ∷ tail)
      reads (holds Field.pc n) h =
          stored (λ n. set (holds Field.pc n) t) n c m.lead m.behind tail h v.lead v.behind hc
      reads (holds Field.s n) h =
          stored (λ n. set (holds Field.s n) t) n c m.lead m.behind tail h v.lead v.behind hc
      reads (holds Field.a n) h =
          stored (λ n. set (holds Field.a n) t) n c m.lead m.behind tail h v.lead v.behind hc
      reads (holds Field.x n) h =
          stored (λ n. set (holds Field.x n) t) n c m.lead m.behind tail h v.lead v.behind hc
      reads (holds Field.y n) h =
          stored (λ n. set (holds Field.y n) t) n c m.lead m.behind tail h v.lead v.behind hc
      reads (holds Field.p n) h =
          stored (λ n. set (holds Field.p n) t) n c m.lead m.behind tail h v.lead v.behind hc
      reads (cells cs) h =
          array-lead t m.lead (listed 0x5b ram_text cs (m.behind ++ c ∷ tail)) v.lead
          ∙ parse_ram-cells size t cs (m.behind ++ c ∷ tail) h

  -- The last member, and how the others are read up to it.
  record Walk (m : Spaced) (ms : List Spaced) (t : State) (tail : List ℕ) : Type 0 where
    count : ℕ
    reached : State
    last : Spaced
    spaced : IsSpaced last
    reads :
        ReadsOn size
          (state_member size)
          reached
          (entry_text last (0x7d ∷ tail))
          count
          t
          (entries_text m ms tail)
    ends : set last.entry reached ≡ set_all m ms t

  walk :
      (m : Spaced) (ms : List Spaced) (t : State) (tail : List ℕ)
      → IsSpaced m
      → Each IsSpaced ms
      → Walk m ms t tail
  walk m [] t tail v vs = record {
    count = 0;
    reached = t;
    last = m;
    spaced = v;
    reads = here;
    ends = refl;
  }
  walk m (k ∷ ms) t tail v (vk, vs) =
      let w = walk k ms (set m.entry t) tail vk vs in
      let rest = entries_text k ms tail in
      record {
        count = suc w.count;
        reached = w.reached;
        last = w.last;
        spaced = w.spaced;
        reads =
            member (key_of m.entry) (m.lead ++ value_text m.entry (m.behind ++ 0x2c ∷ rest))
              m.behind (entry-Keyed m (0x2c ∷ rest) v) (entry-read m t 0x2c rest v refl) v.behind
              w.reads;
        ends = w.ends;
      }

  -- A state is read from its members in any order and with any white space between the parts. A number
  -- is cut to the width of its field, a later member stands over an earlier one of its field, a field
  -- without a member keeps what the state held before, and the cells are those of all `ram` members,
  -- one behind the other. There is a member at least, each number is one that `long long` holds and
  -- without a sign, and the cells are within their widths and in the layout of the suite.
  pub parse_state-entries :
      (blank : List ℕ) (m : Spaced) (ms : List Spaced) (old : State) (tail : List ℕ)
      → IsBlank blank
      → IsSpaced m
      → Each IsSpaced ms
      → parse_state size old (blank ++ 0x7b ∷ entries_text m ms tail)
        ≡ ok (set_all m ms (record old { ram = [] })) tail
  unfolding parse_state
  parse_state-entries blank m ms old tail h v vs =
      let w = walk m ms (record old { ram = [] }) tail v vs in
      object-read size (state_member size) blank w.last.behind
        (λ key t. weaken size 0 1 (omega arith) (state_member-Consumes size key t)) h w.reads
        (entry-Keyed w.last (0x7d ∷ tail) w.spaced)
        (entry-read w.last w.reached 0x7d tail w.spaced refl) w.spaced.behind
      ∙ ap (λ t. ok t tail) w.ends
