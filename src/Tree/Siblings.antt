-- ===== src/Tree/Siblings.antt =====
-- include/dwarfpp/iter.hpp: iterator_sibs, which goes from sibling to sibling.
use libdwarfpp.Base.{ℕ, if◌then◌else◌}
use libdwarfpp.Tree.{Libdwarf, Iter, at_end, Action, pure, ◌>>=◌}
use libdwarfpp.Tree.Moves.{move_to_next_sibling}

module _ (dwarf : Libdwarf) (depth : Iter → Action ℕ) where
  -- `iterator_sibs::increment`
  unfoldable pub increment : Iter → Action Iter
  increment it = do
    (next, moved) ← move_to_next_sibling dwarf depth it
    pure (if moved then next else at_end)
