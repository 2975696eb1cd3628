-- ===== src/Tree/Visits.antt =====
-- include/dwarfpp/iter.hpp, src/root.cpp: a loop over the whole tree visits every DIE once, in
-- preorder, whatever is cached.
use libdwarfpp.Base.{
  ℕ, zero, suc, ◌-◌, ◌≤◌, ◌<◌, ◌≡◌, refl, sym, ap, ◌∙◌, arith, Bool, true, none, some, List, [],
  ◌∷◌, ◌++◌, append-nil, All, length, ok,
}
use mathlib.Core.Path.{subst}
use libdwarfpp.Tree.{Libdwarf, RootDie, at_end, at_root, at_die}
use libdwarfpp.Tree.Moves.{offset_here, move_to_first_child, first_child}
use libdwarfpp.Tree.Find.{depth, depth_within}
use libdwarfpp.Tree.DepthFirst.{check_grown, increment, traverse, visit_next}
use libdwarfpp.Tree.Context.{Follow}
use libdwarfpp.Tree.Edges.{IsReady, LeadsTo}
use libdwarfpp.Tree.FirstChild.{first_child_of_root, first_child_of_root_none}
use libdwarfpp.Tree.Parents.{Chain}
use libdwarfpp.Tree.Forest.{
  Forest, leaf, node, root_of, preorder, IsSorted, Describes, Ancestors, later, Next,
}
use libdwarfpp.Tree.Climb.{climb_on_root}
use libdwarfpp.Tree.Preorder.{increment-Next}

module _ (dwarf : Libdwarf) (up : ℕ → ℕ) (cus : List ℕ) (handle : dwarf.has_handle ≡ true)
    (units : Follow dwarf 0 cus) where
  traverse_from :
      (ys : List ℕ) (fuel x : ℕ) (payload : Bool) (r : RootDie) (c s : Forest)
      (st : List (ℕ × Forest))
      → IsReady dwarf up r
      → Chain r.parent_of x (suc (length st))
      → Describes dwarf up cus (suc (length st)) (up x) (node x c s)
      → Ancestors dwarf up cus (up x) st
      → ys ≡ preorder c ++ (preorder s ++ later st)
      → IsSorted (x ∷ ys)
      → suc (suc (length ys)) ≤ fuel
      → traverse dwarf fuel (at_die x (some (suc (length st))) payload) r ≡ ok (x ∷ ys)
  unfolding traverse visit_next
  traverse_from ys zero x payload r c s st ready chain desc above e sorted l = absurd (omega arith)
  traverse_from [] (suc fuel) x payload r c s st ready chain desc above e sorted l =
      let (r', run) =
        subst
          (λ t. Next dwarf up cus t (increment dwarf (at_die x (some (suc (length st))) payload) r))
          (sym e)
          (increment-Next dwarf up cus handle units x payload r c s st ready chain desc above
            (subst (λ t. All (λ y. x < y) t) e sorted.0)) in
      let more : fuel ≡ suc (fuel - 1) = omega arith in rw run (rw more refl)
  traverse_from (y ∷ ys) (suc fuel) x payload r c s st ready chain desc above e sorted l =
      let (payload', r', c', s', st', run, ready', chain', desc', above', e') =
        subst
          (λ t. Next dwarf up cus t (increment dwarf (at_die x (some (suc (length st))) payload) r))
          (sym e)
          (increment-Next dwarf up cus handle units x payload r c s st ready chain desc above
            (subst (λ t. All (λ y. x < y) t) e sorted.0)) in
      rw (run) (
        rw
          (traverse_from ys fuel y payload' r' c' s' st' ready' chain' desc' above' e' sorted.1
            (omega arith))
          refl)

  root_without_units :
      (r : RootDie)
      → IsReady dwarf up r
      → dwarf.next_cu 0 ≡ none
      → (s : RootDie) × (increment dwarf at_root r ≡ ok (at_end, s))
  unfolding increment offset_here move_to_first_child depth depth_within
  root_without_units r ready top =
      let (s, run) = first_child_of_root_none dwarf up handle r ready top in
      (s, ground (arith, run, climb_on_root dwarf up cus handle units 0 0 s))

  first_unit :
      (y : ℕ) (r : RootDie)
      → IsReady dwarf up r
      → dwarf.next_cu 0 ≡ some y
      → up y ≡ 0
      → LeadsTo dwarf up y (some 1) r (first_child dwarf at_root r)
  first_unit y r ready top under = first_of cus units
    where
      first_of :
          (l : List ℕ)
          → Follow dwarf 0 l
          → LeadsTo dwarf up y (some 1) r (first_child dwarf at_root r)
      first_of [] e = absurd (cc (sym top ∙ e))
      first_of (x ∷ l) h =
          let same : x ≡ y = ground (arith, h.0, top) in
          first_child_of_root dwarf up handle y l r ready
            (subst (λ t. Follow dwarf 0 (t ∷ l)) same h) under

  root_with_units :
      (y : ℕ) (r : RootDie)
      → IsReady dwarf up r
      → dwarf.next_cu 0 ≡ some y
      → up y ≡ 0
      → 0 < y
      → (payload : Bool) × (r' : RootDie) × (increment dwarf at_root r
          ≡ ok (at_die y (some 1) payload, r'))
        × IsReady dwarf up r'
        × Chain r'.parent_of y 1
  unfolding increment offset_here check_grown move_to_first_child depth depth_within
  root_with_units y r ready top under pos =
      let (payload, r', run, ready', keeps, issued) = first_unit y r ready top under in
      (payload, r', ground (arith, run), ready', (0, issued ∙ ap (λ t. some t) under, pos, refl))

  -- A loop over the whole tree, `for (i = begin(); i != end(); ++i)`, visits the root and then every
  -- DIE once, in preorder, whatever the caches hold and whichever unit is the current one. The DIEs
  -- have growing offsets in preorder, and depths below 65535, and there are enough rounds. The first
  -- unit has its DIE at 11 and a later one 11 bytes behind the header before it (Follow, also of the
  -- current unit in IsReady), and what the caches hold agrees with the tree (IsReady).
  pub traverse-preorder :
      (f : Forest) (fuel : ℕ) (r : RootDie)
      → Describes dwarf up cus 1 0 f
      → dwarf.next_cu 0 ≡ root_of f
      → IsSorted (preorder f)
      → IsReady dwarf up r
      → suc (suc (suc (length (preorder f)))) ≤ fuel
      → traverse dwarf fuel at_root r ≡ ok (0 ∷ preorder f)
  unfolding traverse visit_next
  traverse-preorder f zero r desc top sorted ready l = absurd (omega arith)
  traverse-preorder leaf (suc fuel) r desc top sorted ready l =
      let (s, run) = root_without_units r ready top in
      let more : fuel ≡ suc (fuel - 1) = omega arith in rw run (rw more refl)
  traverse-preorder (node y c s) (suc fuel) r desc top sorted ready l =
      let (payload, r', run, ready', chain) = root_with_units y r ready top desc.0 desc.1 in
      rw run (
        rw
          (traverse_from (preorder c ++ preorder s) fuel y payload r' c s [] ready' chain
            (subst (λ q. Describes dwarf up cus 1 q (node y c s)) (sym desc.0) desc) desc.0
            (ap (λ t. preorder c ++ t) (sym (append-nil (preorder s)))) sorted (omega arith))
          refl)
