-- ===== src/Tree/Climb.antt =====
-- include/dwarfpp/iter.hpp: the loop of iterator_df leads to the next sibling of an ancestor.
use libdwarfpp.Base.{
  ℕ, zero, suc, ◌-◌, ◌^◌, ◌<◌, ◌≡◌, refl, sym, ap, ◌∙◌, arith, Bool, true, false, Option, some,
  ◌==◌, ok, List, [], ◌∷◌, ◌++◌, append_assoc, All, length,
}
use mathlib.Core.Path.{subst}
use libdwarfpp.Tree.{Libdwarf, RootDie, at_end, at_root, at_die}
use libdwarfpp.Tree.Moves.{is_cu, offset_here, move_to_next_sibling, next_sibling}
use libdwarfpp.Tree.Find.{depth, depth_within}
use libdwarfpp.Tree.DepthFirst.{check_grown, climb_on}
use libdwarfpp.Tree.Context.{Follow, has}
use libdwarfpp.Tree.Caches.{sibling_at}
use libdwarfpp.Tree.Edges.{IsReady}
use libdwarfpp.Tree.NextSibling.{KnowsDepth, next_sibling-some, next_sibling-none}
use libdwarfpp.Tree.Parents.{
  Chain, Chain-mono, KnowsDepth-some, move_up_from_die, move_up_from_cu, move_up_from_root,
}
use libdwarfpp.Tree.Forest.{
  Forest, leaf, node, root_of, preorder, Describes, Ancestors, later, Next,
}

module _ (dwarf : Libdwarf) (up : ℕ → ℕ) (cus : List ℕ) where
  move_across :
      (x y d : ℕ) (od : Option ℕ) (payload payload' : Bool) (r r' : RootDie)
      → depth dwarf (at_die x od payload) r ≡ ok (d, r)
      → next_sibling dwarf (depth dwarf) (at_die x od payload) r
        ≡ ok (at_die y (some d) payload', r')
      → move_to_next_sibling dwarf (depth dwarf) (at_die x od payload) r
        ≡ ok ((at_die y (some d) payload', true), r')
  unfolding move_to_next_sibling
  move_across x y d od payload payload' r r' known run =
      ground (arith, known, run, KnowsDepth-some dwarf y d payload' r'.parent_of r' refl)

  stay_across :
      (x d : ℕ) (od : Option ℕ) (payload : Bool) (r r' : RootDie)
      → depth dwarf (at_die x od payload) r ≡ ok (d, r)
      → next_sibling dwarf (depth dwarf) (at_die x od payload) r ≡ ok (at_end, r')
      → move_to_next_sibling dwarf (depth dwarf) (at_die x od payload) r
        ≡ ok ((at_die x od payload, false), r')
  unfolding move_to_next_sibling
  stay_across x d od payload r r' known run = ground (arith, known, run)

  module _ (handle : dwarf.has_handle ≡ true) (units : Follow dwarf 0 cus) where
    pub climb_on_root :
        (fuel start : ℕ) (r : RootDie) → climb_on dwarf (suc fuel) start at_root r ≡ ok (at_end, r)
    unfolding climb_on move_to_next_sibling next_sibling depth depth_within
    climb_on_root fuel start r = ground (arith, move_up_from_root dwarf r)

    pub climb_on_lem :
        (fuel start x : ℕ) (od : Option ℕ) (payload : Bool) (r : RootDie) (s : Forest)
        (st : List (ℕ × Forest))
        → IsReady dwarf up r
        → KnowsDepth (depth dwarf) (at_die x od payload) (suc (length st)) r.parent_of
        → Chain r.parent_of x (suc (length st))
        → is_cu dwarf x ≡ (suc (length st) == 1)
        → (is_cu dwarf x ≡ true → has x cus ≡ true)
        → sibling_at dwarf x ≡ root_of s
        → suc (suc (length st)) < 2 ^ 16
        → Describes dwarf up cus (suc (length st)) (up x) s
        → Ancestors dwarf up cus (up x) st
        → up x < x
        → All (λ y. start < y) (preorder s ++ later st)
        → suc (length st) < fuel
        → Next dwarf up cus
            (preorder s ++ later st)
            (climb_on dwarf fuel start (at_die x od payload) r)
    unfolding climb_on check_grown offset_here
    climb_on_lem zero start x od payload r s st ready knows c unit listed across bound below above
          less grown enough =
        absurd (omega arith)
    climb_on_lem (suc fuel) start x od payload r (node y c' s') st ready knows (p, e, lt, c) unit
          listed across bound below above less grown enough =
        let parent : up x ≡ p = ready.0.parents x p e in
        let there : r.parent_of x ≡ some (up x) = e ∙ ap (λ t. some t) (sym parent) in
        let (payload', r', run, ready', keeps, issued) =
          next_sibling-some dwarf up (depth dwarf) handle cus units x y (suc (length st)) od payload
            r knows ready there listed across below.0 in
        (
          payload',
          r',
          c',
          s',
          st,
          ground (
            arith,
            move_across x y (suc (length st)) od payload payload' r r' (knows r refl) run,
            grown.0,
          ),
          ready',
          (
            up y,
            issued,
            rw below.0 below.1,
            subst (λ q. Chain r'.parent_of q (length st)) (sym (below.0 ∙ parent))
                (Chain-mono r.parent_of r'.parent_of p (length st) keeps c),
          ),
          subst (λ q. Describes dwarf up cus (suc (length st)) q (node y c' s')) (sym below.0)
              below,
          subst (λ q. Ancestors dwarf up cus q st) (sym below.0) above,
          append_assoc (preorder c') (preorder s') (later st),
        )
    climb_on_lem (suc fuel) start x od payload r leaf [] ready knows (p, e, lt, c) unit listed
          across bound below above less grown enough =
        let there : r.parent_of x ≡ some (up x) =
          e ∙ ap (λ t. some t) (sym (ready.0.parents x p e)) in
        let (s, run, ready', same) =
          next_sibling-none dwarf up (depth dwarf) handle cus units x od payload r ready there
            listed across in
        let stay = stay_across x 1 od payload r s (knows r refl) run in
        let move =
          move_up_from_cu dwarf x od payload s (knows s same) unit
            (ap (λ m. m x) same ∙ e ∙ ap (λ t. some t) c) in
        let more : fuel ≡ suc (fuel - 1) = omega arith in
        (s, ground (arith, stay, move, more, climb_on_root (fuel - 1) start s))
    climb_on_lem (suc fuel) start x od payload r leaf ((a, s) ∷ st) ready knows (p, e, lt, c) unit
          listed across bound below
          (pa, less', unit', listed', across', die', encl', bound', below', above') less grown
          enough =
        let there : r.parent_of x ≡ some (up x) =
          e ∙ ap (λ t. some t) (sym (ready.0.parents x p e)) in
        let parent : p ≡ a = sym (ready.0.parents x p e) ∙ pa in
        let (t, run, ready', same) =
          next_sibling-none dwarf up (depth dwarf) handle cus units x od payload r ready there
            listed across in
        let stay = stay_across x (suc (suc (length st))) od payload r t (knows r refl) run in
        let chain : Chain t.parent_of a (suc (length st)) =
          subst (λ m. Chain m a (suc (length st))) (sym same)
            (subst (λ q. Chain r.parent_of q (suc (length st))) parent c) in
        let (od', payload', u, move, ready'', keeps, knows') =
          move_up_from_die dwarf up x a (length st) od payload t ready'
            (subst (λ m. KnowsDepth (depth dwarf) (at_die x od payload) (suc (suc (length st))) m)
              (sym same) knows)
            (unit ∙ ground arith) (ap (λ m. m x) same ∙ there ∙ ap (λ q. some q) pa) (rw pa at less)
            chain die' (λ k. encl' (omega arith)) (omega arith) in
        subst (Next dwarf up cus (preorder s ++ later st)) (ground (arith, stay, move)) (
          climb_on_lem fuel start a od' payload' u s st ready'' knows'
            (Chain-mono t.parent_of u.parent_of a (suc (length st)) keeps chain) unit' listed'
            across' bound' below' above' less' grown (omega arith))
