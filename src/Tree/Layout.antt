-- ===== src/Tree/Layout.antt =====
-- src/root.cpp: the layout of units that the compilation unit context depends on.
use libdwarfpp.Base.{
  ℕ, ◌+◌, ◌<◌, ◌≡◌, Bool, true, false, ◌||◌, Option, none, some, ◌==◌, if◌then◌else◌, List, [], ◌∷◌,
  err, assertion, Outcome,
}
use libdwarfpp.Tree.{Libdwarf, RootDie}
use libdwarfpp.Tree.Context.{Finds}

module _ (dwarf : Libdwarf) where
  -- libdwarf moves through units at these growing offsets in the section, from the one at `x`, or
  -- from the start (0).
  abbrev pub InOrder : ℕ → List ℕ → Type 0
  InOrder x [] = dwarf.next_cu x ≡ none
  InOrder x (y ∷ ys) = (dwarf.next_cu x ≡ some y) × (x < y) × (y < dwarf.info_size) × InOrder y ys

  -- The first unit has its DIE at 11, and a later one has it 11 bytes behind the offset that the header
  -- before it gives (or at 11).
  unfoldable pub is_laid_out : ℕ → ℕ → Bool
  is_laid_out x y = if x == 0 then y == 11 else y == 11 || y == (dwarf.header x).next_cu_header + 11

  -- The walk over the units to the one at `off`: whether it is found, or none at a unit that is laid out
  -- in another way.
  unfoldable pub walk : ℕ → ℕ → List ℕ → Option Bool
  walk off x [] = some false
  walk off x (y ∷ ys) =
      let onward = walk off y ys in
      if is_laid_out x y then (if y == off then some true else onward) else none

  -- From the unit at `c`, with the units `rest` behind it, and from the start where these do not have it.
  unfoldable pub verdict : ℕ → ℕ → List ℕ → List ℕ → Option Bool
  verdict off c rest cus = if c == off then some true else elim (walk off c rest) [
    | none ↦ none
    | some true ↦ some true
    | some false ↦ walk off 0 cus
  ]

  module _ (handle : dwarf.has_handle ≡ true) where
    -- What the run does by the verdict: an assertion fails, or it finds the unit, or it does not.
    abbrev pub Obeys : ℕ → Option Bool → RootDie → Outcome (Bool × RootDie) → Type 0
    Obeys off none r run = run ≡ err assertion
    Obeys off (some found) r run = Finds dwarf handle off found r run
