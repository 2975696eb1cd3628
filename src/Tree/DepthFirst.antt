-- ===== src/Tree/DepthFirst.antt =====
-- include/dwarfpp/iter.hpp: iterator_df, which goes depth first.
use libdwarfpp.Base.{
  ℕ, zero, suc, true, false, ltb, if◌then◌else◌, ok, err, out_of_fuel, Outcome, List, [], ◌∷◌,
}
use libdwarfpp.Tree.{
  Libdwarf, RootDie, Iter, at_end, at_root, at_die, Action, pure, check, ◌>>=◌, ◌>>◌,
}
use libdwarfpp.Tree.Moves.{offset_here, move_to_first_child, move_to_next_sibling}
use libdwarfpp.Tree.Find.{depth, move_to_parent}

-- The offset here, and those of the rest of the loop.
unfoldable pub visit_next :
    Outcome (Iter × RootDie) → (Iter → RootDie → Outcome (List ℕ)) → ℕ → Outcome (List ℕ)
visit_next (err e) rest off = err e
visit_next (ok (it, r)) rest off = elim (rest it r) [ err e ↦ err e | ok xs ↦ ok (off ∷ xs) ]

module _ (dwarf : Libdwarf) where
  -- `assert(offset_here() > start_offset)`
  unfoldable pub check_grown : ℕ → Iter → Action Iter
  check_grown start it = do off ← offset_here it; check (ltb start off); pure it

  -- The loop: to the next sibling, of the position or of the parent.
  unfoldable pub climb_on : ℕ → ℕ → Iter → Action Iter
  climb_on zero start it r = err out_of_fuel
  climb_on (suc fuel) start it r = elim (move_to_next_sibling dwarf (depth dwarf) it r) [
    | err e ↦ err e
    | ok ((next, true), r') ↦ check_grown start next r'
    | ok ((next, false), r') ↦ elim (move_to_parent dwarf next r') [
      | err e ↦ err e
      | ok ((up, true), r'') ↦ climb_on fuel start up r''
      | ok ((up, false), r'') ↦ ok (at_end, r'')
    ]
  ]

  -- `iterator_df::increment`
  unfoldable pub increment : Iter → Action Iter
  increment it = do
    start_offset ← offset_here it
    (child, moved) ← move_to_first_child dwarf (depth dwarf) it
    if moved then check_grown start_offset child else climb_on (suc start_offset) start_offset child

  -- `for (i = begin(); i != end(); ++i)`: the offsets of the positions.
  unfoldable pub traverse : ℕ → Iter → RootDie → Outcome (List ℕ)
  traverse zero it r = err out_of_fuel
  traverse (suc fuel) it r =
      let onward = visit_next (increment it r) (traverse fuel) in
      elim it [ at_end ↦ ok [] | at_root ↦ onward 0 | at_die off d payload ↦ onward off ]
