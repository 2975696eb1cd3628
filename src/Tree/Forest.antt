-- ===== src/Tree/Forest.antt =====
-- include/dwarfpp/iter.hpp: the DIEs of a file as a forest, and the DIEs that follow in preorder.
use libdwarfpp.Base.{
  ℕ, suc, ◌^◌, ◌<◌, ◌≡◌, Bool, true, Option, none, some, ◌==◌, ok, Outcome, List, [], ◌∷◌, ◌++◌,
  All, length,
}
use libdwarfpp.Tree.{Libdwarf, RootDie, Iter, at_end, at_die}
use libdwarfpp.Tree.Moves.{is_cu}
use libdwarfpp.Tree.Context.{has}
use libdwarfpp.Tree.Caches.{sibling_at}
use libdwarfpp.Tree.Edges.{IsReady}
use libdwarfpp.Tree.Parents.{Chain}

-- A DIE with its children and its later siblings, or no DIE.
pub data Forest : Type 0 where
  leaf : Forest
  node : ℕ → Forest → Forest → Forest

abbrev pub root_of : Forest → Option ℕ
root_of leaf = none
root_of (node x c s) = some x

abbrev pub preorder : Forest → List ℕ
preorder leaf = []
preorder (node x c s) = x ∷ preorder c ++ preorder s

-- The offsets grow.
abbrev pub IsSorted : List ℕ → Type 0
IsSorted [] = Unit {0}
IsSorted (x ∷ xs) = All (λ y. x < y) xs × IsSorted xs

-- What follows the subtrees of ancestors, each with its later siblings.
abbrev pub later : List (ℕ × Forest) → List ℕ
later [] = []
later ((a, s) ∷ st) = preorder s ++ later st

module _ (dwarf : Libdwarf) (up : ℕ → ℕ) (cus : List ℕ) where
  -- libdwarf has these DIEs, at the depth `d`, below the parent `p`. The units are `cus`.
  abbrev pub Describes : ℕ → ℕ → Forest → Type 0
  Describes d p leaf = Unit {0}
  Describes d p (node x c s) =
      (up x ≡ p)
      × (p < x)
      × (is_cu dwarf x ≡ (d == 1))
      × (is_cu dwarf x ≡ true → has x cus ≡ true)
      × (dwarf.child x ≡ root_of c)
      × (sibling_at dwarf x ≡ root_of s)
      × (dwarf.is_die x ≡ true)
      × (d ≡ 2 → dwarf.enclosing_cu x ≡ p)
      × (suc d < 2 ^ 16)
      × Describes (suc d) x c
      × Describes d p s

  -- The ancestors of a DIE with the parent `p`, each with its later siblings.
  abbrev pub Ancestors : ℕ → List (ℕ × Forest) → Type 0
  Ancestors p [] = p ≡ 0
  Ancestors p ((a, s) ∷ st) =
      (p ≡ a)
      × (up a < a)
      × (is_cu dwarf a ≡ (suc (length st) == 1))
      × (is_cu dwarf a ≡ true → has a cus ≡ true)
      × (sibling_at dwarf a ≡ root_of s)
      × (dwarf.is_die a ≡ true)
      × (suc (length st) ≡ 2 → dwarf.enclosing_cu a ≡ up a)
      × (suc (suc (length st)) < 2 ^ 16)
      × Describes (suc (length st)) (up a) s
      × Ancestors (up a) st

  -- The run ends at the first of the DIEs, with the others to come, or at END.
  abbrev pub Next : List ℕ → Outcome (Iter × RootDie) → Type 0
  Next [] run = (r : RootDie) × (run ≡ ok (at_end, r))
  Next (y ∷ ys) run =
      (payload : Bool) × (r : RootDie) × (c s : Forest) × (st : List (ℕ × Forest)) × (run
        ≡ ok (at_die y (some (suc (length st))) payload, r))
      × IsReady dwarf up r
      × Chain r.parent_of y (suc (length st))
      × Describes (suc (length st)) (up y) (node y c s)
      × Ancestors (up y) st
      × (ys ≡ preorder c ++ (preorder s ++ later st))
