-- ===== src/Tree/Preorder.antt =====
-- include/dwarfpp/iter.hpp: iterator_df goes from a DIE to the next one in preorder.
use libdwarfpp.Base.{
  ℕ, suc, ◌+◌, ◌%◌, ◌^◌, ◌<◌, ◌≡◌, refl, sym, ap, ◌∙◌, arith, Bool, true, false, some, ok, List,
  ◌∷◌, ◌++◌, append_assoc, All, length,
}
use mathlib.Core.Path.{subst}
use libdwarfpp.Tree.{Libdwarf, RootDie, at_end, at_die}
use libdwarfpp.Tree.Moves.{offset_here, move_to_first_child, deeper, first_child}
use libdwarfpp.Tree.Find.{depth}
use libdwarfpp.Tree.DepthFirst.{check_grown, climb_on, increment}
use libdwarfpp.Tree.Context.{Follow}
use libdwarfpp.Tree.Edges.{IsReady}
use libdwarfpp.Tree.FirstChild.{first_child_of_die, first_child_of_leaf}
use libdwarfpp.Tree.Parents.{Chain, Chain-mono, Chain-bound, KnowsDepth-some}
use libdwarfpp.Tree.Forest.{Forest, leaf, node, preorder, Describes, Ancestors, later, Next}
use libdwarfpp.Tree.Climb.{climb_on_lem}

module _ (dwarf : Libdwarf) (up : ℕ → ℕ) (cus : List ℕ) (handle : dwarf.has_handle ≡ true)
    (units : Follow dwarf 0 cus) where
  move_down :
      (x y d : ℕ) (payload payload' : Bool) (r r' : RootDie)
      → suc d < 2 ^ 16
      → first_child dwarf (at_die x (some d) payload) r
        ≡ ok (at_die y (deeper (some d)) payload', r')
      → move_to_first_child dwarf (depth dwarf) (at_die x (some d) payload) r
        ≡ ok ((at_die y (some (suc d)) payload', true), r')
  unfolding move_to_first_child deeper
  move_down x y d payload payload' r r' bound run =
      let d' : (d + 1) % 2 ^ 16 ≡ suc d = omega arith in
      ground (
        arith,
        run,
        d',
        KnowsDepth-some dwarf x d payload r.parent_of r refl,
        KnowsDepth-some dwarf y (suc d) payload' r'.parent_of r' refl,
      )

  stay_down :
      (x d : ℕ) (payload : Bool) (r : RootDie)
      → first_child dwarf (at_die x (some d) payload) r ≡ ok (at_end, r)
      → move_to_first_child dwarf (depth dwarf) (at_die x (some d) payload) r
        ≡ ok ((at_die x (some d) payload, false), r)
  unfolding move_to_first_child
  stay_down x d payload r run =
      ground (arith, run, KnowsDepth-some dwarf x d payload r.parent_of r refl)

  increment_down :
      (x y d : ℕ) (payload payload' : Bool) (r r' : RootDie)
      → move_to_first_child dwarf (depth dwarf) (at_die x (some d) payload) r
        ≡ ok ((at_die y (some (suc d)) payload', true), r')
      → x < y
      → increment dwarf (at_die x (some d) payload) r ≡ ok (at_die y (some (suc d)) payload', r')
  unfolding increment offset_here check_grown
  increment_down x y d payload payload' r r' move lt = ground (arith, move)

  increment_up :
      (x d : ℕ) (payload : Bool) (r : RootDie)
      → move_to_first_child dwarf (depth dwarf) (at_die x (some d) payload) r
        ≡ ok ((at_die x (some d) payload, false), r)
      → climb_on dwarf (suc x) x (at_die x (some d) payload) r
        ≡ increment dwarf (at_die x (some d) payload) r
  unfolding increment offset_here
  increment_up x d payload r stay = ground (arith, stay)

  -- From a DIE to the next one in preorder.
  pub increment-Next :
      (x : ℕ) (payload : Bool) (r : RootDie) (c s : Forest) (st : List (ℕ × Forest))
      → IsReady dwarf up r
      → Chain r.parent_of x (suc (length st))
      → Describes dwarf up cus (suc (length st)) (up x) (node x c s)
      → Ancestors dwarf up cus (up x) st
      → All (λ y. x < y) (preorder c ++ (preorder s ++ later st))
      → Next dwarf up cus
          (preorder c ++ (preorder s ++ later st))
          (increment dwarf (at_die x (some (suc (length st))) payload) r)
  increment-Next x payload r leaf s st ready chain
        (same, less, unit, listed, down, across, die, encl, bound, below, beside) above grown =
      let d = suc (length st) in
      subst (Next dwarf up cus (preorder s ++ later st))
        (increment_up x d payload r (
          stay_down x d payload r
            (first_child_of_leaf dwarf up x (some d) payload r ready (omega arith) down)))
        (climb_on_lem dwarf up cus handle units (suc x) x x (some d) payload r s st ready
          (KnowsDepth-some dwarf x d payload r.parent_of) chain unit listed across bound beside
          above less grown (omega (arith, Chain-bound r.parent_of x d chain)))
  increment-Next x payload r (node y c s') s st ready chain
        (same, less, unit, listed, down, across, die, encl, bound, below, beside) above grown =
      let d = suc (length st) in
      let (payload', r', run, ready', keeps, issued) =
        first_child_of_die dwarf up x y (some d) payload r ready (omega arith) down below.0 in
      (
        payload',
        r',
        c,
        s',
        (x, s) ∷ st,
        increment_down x y d payload payload' r r' (move_down x y d payload payload' r r' bound run)
            grown.0,
        ready',
        (
          x,
          issued ∙ ap (λ t. some t) below.0,
          below.1,
          Chain-mono r.parent_of r'.parent_of x d keeps chain,
        ),
        subst (λ q. Describes dwarf up cus (suc d) q (node y c s')) (sym below.0) below,
        (below.0, less, unit, listed, across, die, encl, bound, beside, above),
        append_assoc (preorder c) (preorder s') (preorder s ++ later st),
      )
