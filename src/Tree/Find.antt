-- ===== src/Tree/Find.antt =====
-- include/dwarfpp/root-inl.hpp, include/dwarfpp/iter.hpp, src/root.cpp: the search for a DIE by its
-- offset, the depth of a position, and its parent.
use libdwarfpp.Base.{
  ℕ, zero, suc, ◌+◌, ◌-◌, ◌%◌, ◌^◌, Bool, true, false, ◌&&◌, Option, none, some, ◌==◌, ltb, [],
  if◌then◌else◌, ok, err, out_of_fuel,
}
use libdwarfpp.Tree.{
  Libdwarf, RootDie, Iter, at_end, at_root, at_die, Action, pure, gets, update_root, fail, check,
  update, ◌>>=◌, ◌>>◌,
}
use libdwarfpp.Tree.Moves.{offset_here, make_iter, tag_here}
use libdwarfpp.Tree.BreadthFirst
use libdwarfpp.Tree.BreadthFirst.{IteratorBf}

unfoldable pub is_end : Iter → Bool
is_end at_end = true
is_end it = false

unfoldable pub learn_given : ℕ → Option ℕ → RootDie → RootDie
learn_given off none r = r
learn_given off (some parent) r = record r { parent_of = update r.parent_of off parent }

-- The loop of `find_upwards`: the height, if it comes to the root.
unfoldable pub climb : ℕ → ℕ → ℕ → Action (Option ℕ)
climb zero cur height r = err out_of_fuel
climb (suc fuel) cur height r =
    if cur == 0
    then ok (some height, r)
    else elim (r.parent_of cur) [ none ↦ ok (none, r) | some p ↦ climb fuel p (height + 1) r ]

-- `parent_of[off]`, which stores 0 where there is nothing.
unfoldable pub parent_entry : ℕ → Action ℕ
parent_entry off r = elim (r.parent_of off) [
  | none ↦ ok (0, record r { parent_of = update r.parent_of off 0 })
  | some p ↦ ok (p, r)
]

abbrev at_iter : Iter → IteratorBf
at_iter it = record { position = it; m_queue = [] }

-- What is found has to be the DIE, with its depth.
unfoldable pub depth_found : ℕ → Iter → Action ℕ
depth_found off (at_die off' (some d) payload) = check (off' == off) >> pure d
depth_found off it = check false >> pure 0

-- The position has the offset that the parent cache holds.
unfoldable pub check_parent : Iter → ℕ → Action (Unit {0})
check_parent found off = do
  there ← offset_here found
  entry ← gets (λ r. r.parent_of off)
  elim entry [ none ↦ check false | some p ↦ check (there == p) ]

module _ (dwarf : Libdwarf) where
  -- What `pos` learns about the parent.
  unfoldable pub learn_parent : ℕ → Option ℕ → Option ℕ → RootDie → RootDie
  learn_parent off none parent r = learn_given off parent r
  learn_parent off (some d) parent r =
      if d == 1
      then record r { parent_of = update r.parent_of off 0 }
      else if d == 2
      then record r { parent_of = update r.parent_of off (dwarf.enclosing_cu off) }
      else learn_given off parent r

  unfoldable pub pos_of_die : ℕ → Option ℕ → Option ℕ → Action Iter
  pos_of_die off depth parent = do
    live ← gets (λ r. r.live_dies off)
    let fresh = (check (dwarf.is_die off) >> make_iter dwarf off depth) >>= λ it.
        update_root (learn_parent off depth parent) >> pure it
    if live then pure (at_die off none true) else fresh

  -- `root_die::pos`, with no referencer.
  unfoldable pub pos : ℕ → Option ℕ → Option ℕ → Action Iter
  pos off none parent = pos_of_die off none parent
  pos off (some d) parent =
      let at_top = check (off == 0) >> pure at_root in
      if d == 0 then at_top else pos_of_die off (some d) parent

  -- `root_die::find_upwards`; the flag tells that a payload is passed.
  unfoldable pub find_upwards : ℕ → Bool → Action Iter
  find_upwards off payload = do
    found ← climb (suc off) off 0
    let at = λ (height : ℕ). parent_entry off >>= λ p. pos off (some height) (some p)
    let here = λ (height : ℕ). if payload then pure (at_die off (some height) true) else at height
    elim found [ none ↦ pure at_end | some h ↦ here (h % 2 ^ 16) ]

  module _ (depth : Iter → Action ℕ) where
    -- Where the next position is a sibling: into the subtree between them, or past it.
    unfoldable pub search_across : ℕ → ℕ → Iter → IteratorBf → Action IteratorBf
    search_across off here next it = do
      there ← offset_here next
      check (ltb here there)
      let into = BreadthFirst.increment dwarf depth (at_iter it.position)
      let past = BreadthFirst.increment_skipping_subtree dwarf depth it
      if ltb off there && ltb here off then into else past

    -- One round of the loop of `find_downwards`, where the position is not yet the one at `off`.
    unfoldable pub search_step : ℕ → IteratorBf → Action IteratorBf
    search_step off it = do
      here ← offset_here it.position
      next ← BreadthFirst.increment dwarf depth it
      let on = BreadthFirst.increment dwarf depth it
      let compare_depths = (do
        next_depth ← depth next.position
        this_depth ← depth it.position
        if next_depth == this_depth then search_across off here next.position it else on)
      if is_end next.position then on else compare_depths

    unfoldable pub search_loop : ℕ → ℕ → IteratorBf → Action Iter
    search_loop zero off it r = err out_of_fuel
    search_loop (suc fuel) off it r =
        let more = (search_step off it >>= search_loop fuel off) r in
        elim it.position [
          | at_end ↦ ok (at_end, r)
          | at_root ↦ if off == 0 then ok (at_root, r) else more
          | at_die here d payload ↦ if here == off then ok (at_die here d payload, r) else more
        ]

    -- `root_die::find_downwards`
    unfoldable pub find_downwards : ℕ → Action Iter
    find_downwards off = search_loop (dwarf.info_size + 2) off (at_iter at_root)

    -- `root_die::find`, with no referencer.
    unfoldable pub find : ℕ → Bool → Action Iter
    find off payload = do
      found ← find_upwards off payload
      if is_end found then find_downwards off else pure found

  -- `iterator_base::depth`: what is not known is searched, by iterators that know their depths.
  unfoldable pub depth_within : ℕ → Iter → Action ℕ
  depth_within fuel at_end = check false >> pure 0
  depth_within fuel at_root = pure 0
  depth_within fuel (at_die off (some d) payload) = pure d
  depth_within zero (at_die off none payload) = fail out_of_fuel
  depth_within (suc fuel) (at_die off none payload) = do
    found ← find (depth_within fuel) off payload
    depth_found off found

  unfoldable pub depth : Iter → Action ℕ
  depth = depth_within 1

  -- What `parent` does where the entry of the parent cache is there.
  unfoldable pub cached_parent : Iter → ℕ → ℕ → Action Iter
  cached_parent it off p = do
    check (ltb p off)
    d ← depth it
    pos p (some ((d + 2 ^ 16 - 1) % 2 ^ 16)) none

  unfoldable pub parent_by_cache : Iter → ℕ → Action Iter
  parent_by_cache it off = do
    d ← depth it
    check (ltb 0 d)
    found ← gets (λ r. r.parent_of off)
    let again = find_downwards depth off >>= λ it'. gets (λ r. r.parent_of off)
    found_again ← elim found [ some p ↦ pure (some p) | none ↦ again ]
    elim found_again [ none ↦ check false >> pure at_end | some p ↦ cached_parent it off p ]

  -- `root_die::parent`
  unfoldable pub parent : Iter → Action Iter
  parent it = do
    off ← offset_here it
    let of_cu = (depth it >>= λ d. check (d == 1)) >> pure at_root
    let of_other = if off == 0 then pure at_end else parent_by_cache it off
    if tag_here dwarf it == 0x11 then of_cu else of_other

  -- `root_die::move_to_parent`: the new position, and whether it moved.
  unfoldable pub move_to_parent : Iter → Action (Iter × Bool)
  move_to_parent it = do
    found ← parent it
    off ← offset_here it
    if is_end found then pure (it, false) else (check_parent found off >> pure (found, true))
