-- ===== src/Tree/Moves.antt =====
-- src/root.cpp, include/dwarfpp/iter.hpp, include/dwarfpp/root-inl.hpp: the moves between a DIE,
-- its first child and its next sibling, and the caches that they fill. `depth` is
-- iterator_base::depth, which searches the tree for a position that does not know its depth.
use libdwarfpp.Base.{
  ℕ, ◌+◌, ◌%◌, ◌^◌, Bool, true, false, not, ◌&&◌, ◌||◌, Option, none, some, ◌==◌, if◌then◌else◌, ok,
}
use libdwarfpp.Tree.{
  Libdwarf, RootDie, Iter, at_end, at_root, at_die, Action, pure, gets, update_root, check, update,
  ◌>>=◌, ◌>>◌,
}
use libdwarfpp.Tree.Cu.{clear_cu_context, advance_cu_context, set_cu_context}

-- `iterator_base::offset_here`
unfoldable pub offset_here : Iter → Action ℕ
offset_here at_end = check false >> pure 0
offset_here at_root = pure 0
offset_here (at_die off depth payload) = pure off

-- `iterator_base::maybe_depth`, and one more.
unfoldable pub maybe_depth : Iter → Option ℕ
maybe_depth at_end = none
maybe_depth at_root = some 0
maybe_depth (at_die off depth payload) = depth

unfoldable pub deeper : Option ℕ → Option ℕ
deeper none = none
deeper (some n) = some ((n + 1) % 2 ^ 16)

-- A DIE that is in a cache, where it is live.
unfoldable pub live_edge : (RootDie → Option ℕ) → Action (Option ℕ)
live_edge edge r = elim (edge r) [
  | none ↦ ok (none, r)
  | some off ↦ ok (if r.live_dies off then some off else none, r)
]

-- The edge from the root to its first unit, where there is a unit.
unfoldable pub store_first_cu : Option ℕ → Action (Option ℕ)
store_first_cu none = pure none
store_first_cu (some off) = do
  update_root (λ r. record r { first_child_of = update r.first_child_of 0 r.current_cu_offset })
  pure (some off)

unfoldable pub agrees : Option ℕ → ℕ → Bool
agrees none off = true
agrees (some cached) off = cached == off

module _ (dwarf : Libdwarf) where
  -- `DW_TAG_compile_unit`
  abbrev pub is_cu : ℕ → Bool
  is_cu off = dwarf.tag off == 0x11

  -- `iterator_base::tag_here`
  unfoldable pub tag_here : Iter → ℕ
  tag_here at_end = 0
  tag_here at_root = 0
  tag_here (at_die off depth payload) = dwarf.tag off

  -- `iterator_base(abstract_die&&, opt<unsigned short>, root_die&)`: a unit becomes sticky.
  unfoldable pub make_iter : ℕ → Option ℕ → Action Iter
  make_iter off depth = do
    live ← gets (λ r. r.live_dies off)
    let stick = update_root (λ r. record r {
      live_dies = λ x. x == off || r.live_dies x;
      sticky_dies = λ x. x == off || r.sticky_dies x;
    })
    let fresh =
        if is_cu off
        then (stick >>= λ u. pure (at_die off depth true))
        else pure (at_die off depth false)
    if live then pure (at_die off depth true) else fresh

  -- `Die::try_construct(root)`: the DIE of the current unit.
  unfoldable pub current_cu_die : Action (Option ℕ)
  current_cu_die r = ok (
    if dwarf.has_handle && not (r.current_cu_offset == 0) then some r.current_cu_offset else none,
    r,
  )

  unfoldable pub first_cu_handle : Action (Option ℕ)
  first_cu_handle = do
    cleared ← clear_cu_context dwarf
    check cleared
    moved ← advance_cu_context dwarf
    handle ← current_cu_die
    if moved then store_first_cu handle else pure none

  -- The handle of the first child: of the root, and of a DIE.
  unfoldable pub first_child_handle : Iter → Action (Option ℕ)
  first_child_handle at_end = check false >> pure none
  first_child_handle (at_die off depth payload) = pure (dwarf.child off)
  first_child_handle at_root = first_cu_handle

  unfoldable pub issue_child : ℕ → Option ℕ → Option ℕ → Action Iter
  issue_child start depth none = pure at_end
  issue_child start depth (some off) = do
    new_it ← make_iter off depth
    update_root (λ r. record r {
      parent_of = update r.parent_of off start;
      first_child_of = update r.first_child_of start off;
    })
    pure new_it

  unfoldable pub first_child : Iter → Action Iter
  first_child it = do
    start_offset ← offset_here it
    live ← live_edge (λ r. r.first_child_of start_offset)
    let depth = deeper (maybe_depth it)
    let fresh = first_child_handle it >>= λ handle. issue_child start_offset depth handle
    elim live [ some off ↦ make_iter off depth | none ↦ fresh ]

  -- The handle of the next sibling of a unit, and of another DIE.
  unfoldable pub store_next_cu : ℕ → Bool → Action (Option ℕ)
  store_next_cu off false = pure none
  store_next_cu off true = do
    handle ← current_cu_die
    let stored =
        update_root
          (λ r. record r { next_sibling_of = update r.next_sibling_of off r.current_cu_offset })
    elim handle [ none ↦ pure none | some next ↦ (stored >> pure (some next)) ]

  unfoldable pub next_cu_handle : ℕ → Action (Option ℕ)
  next_cu_handle off = do
    set ← set_cu_context dwarf off
    let move = advance_cu_context dwarf >>= λ moved. store_next_cu off moved
    if set then move else pure none

  unfoldable pub next_sibling_handle : ℕ → Action (Option ℕ)
  next_sibling_handle off = if is_cu off then next_cu_handle off else pure (dwarf.sibling off)

  module _ (depth : Iter → Action ℕ) where
    unfoldable pub issue_sibling : Iter → ℕ → ℕ → Option ℕ → Action Iter
    issue_sibling it start parent none = pure at_end
    issue_sibling it start parent (some off) = do
      d ← depth it
      new_it ← make_iter off (some d)
      update_root (λ r. record r { parent_of = update r.parent_of off parent })
      cached ← gets (λ r. r.next_sibling_of start)
      check (agrees cached off)
      update_root (λ r. record r { next_sibling_of = update r.next_sibling_of start off })
      pure new_it

    -- Where the edge is not cached, or not live: the parent has to be cached.
    unfoldable pub fresh_sibling : Iter → ℕ → Action Iter
    fresh_sibling it off = do
      parent ← gets (λ r. r.parent_of off)
      let issue = λ (p : ℕ). next_sibling_handle off >>= λ handle. issue_sibling it off p handle
      elim parent [ none ↦ check false >> pure at_end | some p ↦ issue p ]

    unfoldable pub next_sibling : Iter → Action Iter
    next_sibling at_end = check false >> pure at_end
    next_sibling at_root = pure at_end
    next_sibling (at_die off d payload) = do
      live ← live_edge (λ r. r.next_sibling_of off)
      let cached = λ (next : ℕ). depth (at_die off d payload) >>= λ n. make_iter next (some n)
      elim live [ some next ↦ cached next | none ↦ fresh_sibling (at_die off d payload) off ]

    -- `move_to_first_child` and `move_to_next_sibling`: the new position, and whether it moved.
    unfoldable pub move_to_first_child : Iter → Action (Iter × Bool)
    move_to_first_child it = do
      start_depth ← depth it
      child ← first_child it
      let moved = (depth child >>= λ d. check (d == start_depth + 1)) >> pure (child, true)
      elim child [ at_end ↦ pure (it, false) | at_root ↦ moved | at_die off d payload ↦ moved ]

    unfoldable pub move_to_next_sibling : Iter → Action (Iter × Bool)
    move_to_next_sibling it = do
      start_depth ← depth it
      sibling ← next_sibling it
      let moved = (depth sibling >>= λ d. check (d == start_depth)) >> pure (sibling, true)
      elim sibling [ at_end ↦ pure (it, false) | at_root ↦ moved | at_die off d payload ↦ moved ]
