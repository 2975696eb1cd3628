-- ===== src/Tree/BreadthFirst.antt =====
-- include/dwarfpp/iter.hpp: iterator_bf, which goes breadth first.
use libdwarfpp.Base.{ltb, Bool, true, List, [], ◌∷◌, ◌++◌, ℕ, if◌then◌else◌}
use libdwarfpp.Tree.{Libdwarf, Iter, at_end, at_die, Action, pure, check, ◌>>=◌, ◌>>◌}
use libdwarfpp.Tree.Moves.{first_child, move_to_next_sibling}

-- `iterator_bf`: the position and the queue.
pub record IteratorBf : Type 0 where
  pub position : Iter
  pub m_queue : List Iter

-- `m_queue.push_back`, unless it is END.
unfoldable pub enqueue : List Iter → Iter → List Iter
enqueue queue at_end = queue
enqueue queue it = queue ++ it ∷ []

-- The front of the queue, or END.
unfoldable pub take_front : List Iter → IteratorBf
take_front [] = record { position = at_end; m_queue = [] }
take_front (it ∷ queue) = record { position = it; m_queue = queue }

-- `!is_real_die_position() || offset_here() > 0`
unfoldable pub is_valid_position : Iter → Bool
is_valid_position (at_die off depth payload) = ltb 0 off
is_valid_position it = true

module _ (dwarf : Libdwarf) (depth : Iter → Action ℕ) where
  -- To the next sibling, or to the front of the queue.
  unfoldable pub move_on : IteratorBf → Action IteratorBf
  move_on it = do
    (next, moved) ← move_to_next_sibling dwarf depth it.position
    pure (if moved then record it { position = next } else take_front it.m_queue)

  unfoldable pub increment : IteratorBf → Action IteratorBf
  increment it = do
    child ← first_child dwarf it.position
    move_on (record it { m_queue = enqueue it.m_queue child })

  unfoldable pub increment_skipping_subtree : IteratorBf → Action IteratorBf
  increment_skipping_subtree it = do
    next ← move_on it
    check (is_valid_position next.position)
    pure next

  unfoldable pub increment_skipping_siblings : IteratorBf → Action IteratorBf
  increment_skipping_siblings it = do
    child ← first_child dwarf it.position
    pure (take_front (enqueue it.m_queue child))
