-- ===== src/Step/Edge.antt =====
-- The edge of the NMI line, which `setNmi` of include/mos6502/cpu.hpp latches.
use emulator.Prelude.{Bool, true, false, not, ◌&&◌, ◌||◌, ◌≡◌, refl, ◌∙◌, arith, List, [], ◌∷◌}
use emulator.Cpu.{Cpu, set_nmi}

-- The levels of the NMI line, one after the other.
unfoldable pub drive : {B H : Type 0} → List Bool → Cpu B H → Cpu B H
drive [] c = c
drive (level ∷ levels) c = drive levels (set_nmi level c)

-- The line goes from low to high somewhere, starting at a level.
abbrev pub rises : Bool → List Bool → Bool
rises line [] = false
rises line (level ∷ levels) = (level && not line) || rises level levels

or_assoc : (a b c : Bool) → (a || b) || c ≡ a || (b || c)
or_assoc true b c = refl
or_assoc false b c = refl

set_nmi-edge :
    {B H : Type 0} (level : Bool) (c : Cpu B H)
    → ((set_nmi level c).nmi_edge ≡ c.nmi_edge || (level && not c.nmi_line))
      × ((set_nmi level c).nmi_line ≡ level)
unfolding set_nmi
set_nmi-edge level c = ground arith

-- However the NMI line moves between two polls, the edge is latched exactly when the line has gone
-- from low to high at some point, or was latched before: a pulse is never missed.
pub drive-edge :
    {B H : Type 0} (levels : List Bool) (c : Cpu B H)
    → (drive levels c).nmi_edge ≡ c.nmi_edge || rises c.nmi_line levels
unfolding drive
drive-edge [] c = ground arith
drive-edge (level ∷ levels) c =
    let (e, l) = set_nmi-edge level c in
    drive-edge levels (set_nmi level c)
    ∙ rw (e, l) (or_assoc c.nmi_edge (level && not c.nmi_line) (rises level levels))
