-- ===== src/Klaus/Boot.antt =====
-- The core of tools/run_klaus.cpp at the start of its loop, and the whole run of the program.
use emulator.Prelude.{
  ℕ, ◌+◌, ◌<◌, ◌≤◌, ◌^◌, true, false, ◌≡◌, ◌↔◌, refl, ◌∙◌, ap, sym, arith, List, Option, none, some,
  take, get_elem?, length-take, get_elem?-take, Option-cases, inl, inr,
}
use emulator.Registers.{power_on}
use emulator.Bus.Flat.{load}
use emulator.Bus.Flat
use emulator.Bus.Flat.Loading.{byte_or, load-memory}
use emulator.Cpu
use emulator.Klaus.{boot, hunt, exit_code, instruction_limit, given, address_or, main}
use emulator.Klaus.Hunt.{Succeeds, exit_code_iff}

image-memory :
    (n : ℕ) (image : List ℕ) (at : ℕ)
    → n ≤ 2 ^ 16
    → at < n
    → (load 0 (take n image) Flat.new).memory at ≡ byte_or 0 (get_elem? image at)
unfolding Flat.new
image-memory n image at fits h =
    let start : 0 + at ≡ at = omega arith in
    ap (load 0 (take n image) Flat.new).memory (sym start)
    ∙ load-memory 0 (take n image) at Flat.new (omega (arith, length-take n image))
    ∙ ap (byte_or 0) (get_elem?-take n at image h)

-- The loop starts on an image that stands in the memory from address 0, byte for byte, with zeros
-- behind its end and what lies beyond 64 KiB cut off, and on a core as a reset leaves it, seven cycles
-- on, that is about to run at the given address and has no interrupt pending.
pub boot-outcome :
    (start_pc : ℕ) (image : List ℕ) (at : ℕ)
    → at < 2 ^ 16
    → let c = boot start_pc image in
      (c.bus.memory at ≡ byte_or 0 (get_elem? image at))
      × (c.regs ≡ record power_on { s = 0xfd; i = true; pc = start_pc })
      × (c.cycles ≡ 7)
      × (c.jammed ≡ false)
      × (c.pending_nmi ≡ false)
      × (c.pending_irq ≡ false)
unfolding boot Cpu.new power_on Flat.read Flat.tick
boot-outcome start_pc image at h =
    (image-memory 65536 image at (omega arith) h, refl, refl, refl, refl, refl)

unread-code :
    (program : List ℕ) (read_file : List ℕ → Option (List ℕ)) (path : List ℕ)
    (start_pc success_pc : Option ℕ)
    → read_file path ≡ none
    → (main program read_file (given path start_pc success_pc)).code ≡ 2
unfolding main
unread-code program read_file path start_pc success_pc e = rw (main, e) refl

read-code :
    (program : List ℕ) (read_file : List ℕ → Option (List ℕ)) (path image : List ℕ)
    (start_pc success_pc : Option ℕ)
    → read_file path ≡ some image
    → (main program read_file (given path start_pc success_pc)).code
      ≡ exit_code (
          hunt
            (address_or 0x3469 success_pc)
            instruction_limit
            (boot (address_or 0x0400 start_pc) image))
unfolding main exit_code
read-code program read_file path image start_pc success_pc e = rw (main, e) refl

-- With a file and any two addresses, or their defaults, the program exits with 0 exactly when the file
-- can be read, and the image that it holds, started on a core behind a reset, traps at the address of
-- success, within the limit, before it traps elsewhere or jams the core.
pub main-Succeeds :
    (program : List ℕ) (read_file : List ℕ → Option (List ℕ)) (path : List ℕ)
    (start_pc success_pc : Option ℕ)
    → ((main program read_file (given path start_pc success_pc)).code ≡ 0) ↔ (
        (image : List ℕ) × (read_file path ≡ some image)
        × Succeeds
            (address_or 0x3469 success_pc)
            instruction_limit
            (boot (address_or 0x0400 start_pc) image))
main-Succeeds program read_file path start_pc success_pc = (
  λ h. elim (Option-cases (read_file path)) [
    | inl e ↦
        let failed = unread-code program read_file path start_pc success_pc e in
        absurd (omega (arith, sym failed ∙ h))
    | inr (image, e) ↦
        let same = read-code program read_file path image start_pc success_pc e in
        (image, e, (exit_code_iff _ _ _).0 (sym same ∙ h))
  ],
  λ s.
      let (image, e, there) = s in
      read-code program read_file path image start_pc success_pc e ∙ (exit_code_iff _ _ _).1 there,
)
