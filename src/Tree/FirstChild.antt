-- ===== src/Tree/FirstChild.antt =====
-- src/root.cpp: first_child leads to the first child of a DIE, and of the root to the first unit.
use libdwarfpp.Base.{
  ℕ, ◌<◌, ◌≡◌, refl, sym, ap, ◌∙◌, arith, Bool, true, Option, none, some, inl, inr, List, ◌∷◌, ok,
}
use mathlib.Core.Path.{subst}
use libdwarfpp.Tree.{Libdwarf, RootDie, at_end, at_root, at_die, update}
use libdwarfpp.Tree.Moves.{
  live_edge, offset_here, maybe_depth, deeper, first_child, first_child_handle, issue_child,
  first_cu_handle, store_first_cu, current_cu_die, make_iter,
}
use libdwarfpp.Tree.Cu.{no_cu_context}
use libdwarfpp.Tree.Context.{
  Follow, IsAt, SameCaches, entered, clear_cu_context_lem, advance_none, advance_some,
}
use libdwarfpp.Tree.Caches.{child_at, IsConsistent, IsNew, issue-IsConsistent, update_cases}
use libdwarfpp.Tree.Edges.{
  live_edge_cases, issue_child_lem, IsAt-same, IsReady, LeadsTo, cached_edge,
}

module _ (dwarf : Libdwarf) (up : ℕ → ℕ) where
  -- A child is issued, from a state with consistent caches and a unit that libdwarf goes on from.
  issue_child-LeadsTo :
      (x y c : ℕ) (d : Option ℕ) (rest : List ℕ) (r s : RootDie)
      → IsConsistent dwarf up r
      → child_at dwarf x ≡ some y
      → up y ≡ x
      → s.parent_of ≡ r.parent_of
      → IsNew dwarf up (child_at dwarf) y r.first_child_of s.first_child_of
      → s.next_sibling_of ≡ r.next_sibling_of
      → IsAt dwarf s c
      → Follow dwarf c rest
      → LeadsTo dwarf up y d r (issue_child dwarf x d (some y) s)
  issue_child-LeadsTo x y c d rest r s consistent down under a b e at h =
      let (payload, r', run, a', b', e', same) = issue_child_lem dwarf x y d s in
      let (good, keeps, there) =
        issue-IsConsistent dwarf up r r' y x consistent (a' ∙ ap (λ m. update m y x) a) under
          (λ z w k. elim (update_cases s.first_child_of x y z w (ap (λ m. m z) (sym b') ∙ k)) [
            | inl (zx, yw) ↦ inl (ap (child_at dwarf) zx ∙ down ∙ ap (λ t. some t) yw, sym yw)
            | inr old ↦ b z w old
          ])
          (λ z w k. inr (ap (λ m. m z) (sym (e' ∙ e)) ∙ k)) in
      (payload, r', run, (good, c, rest, IsAt-same dwarf s r' c same at, h), keeps, there)

  by_cache :
      (x y : ℕ) (d : Option ℕ) (payload : Bool) (r : RootDie)
      → live_edge (λ r. r.first_child_of x) r ≡ ok (some y, r)
      → first_child dwarf (at_die x d payload) r ≡ make_iter dwarf y (deeper d) r
  unfolding first_child offset_here maybe_depth
  by_cache x y d payload r e = ground (arith, e)

  by_libdwarf :
      (x : ℕ) (d : Option ℕ) (payload : Bool) (r : RootDie)
      → live_edge (λ r. r.first_child_of x) r ≡ ok (none, r)
      → first_child dwarf (at_die x d payload) r ≡ issue_child dwarf x (deeper d) (dwarf.child x) r
  unfolding first_child offset_here maybe_depth first_child_handle
  by_libdwarf x d payload r e = ground (arith, e)

  -- From a DIE.
  pub first_child_of_die :
      (x y : ℕ) (d : Option ℕ) (payload : Bool) (r : RootDie)
      → IsReady dwarf up r
      → 0 < x
      → dwarf.child x ≡ some y
      → up y ≡ x
      → LeadsTo dwarf up y (deeper d) r (first_child dwarf (at_die x d payload) r)
  first_child_of_die x y d payload r (c, at, rest, h, hs) pos down under =
      let down' : child_at dwarf x ≡ some y = ground (arith, down) in
      elim (live_edge_cases (λ r. r.first_child_of x) r) [
        | inl fresh ↦
            subst (LeadsTo dwarf up y (deeper d) r)
              (sym (
                by_libdwarf x d payload r fresh
                ∙ ap (λ o. issue_child dwarf x (deeper d) o r) down))
              (issue_child-LeadsTo x y at (deeper d) rest r r c down' under refl (λ z w k. inr k)
                refl h hs)
        | inr (z, cached, found) ↦
            (let same : z ≡ y = ground (arith, (c.children x z found).0, down') in
              subst (LeadsTo dwarf up y (deeper d) r)
                (sym
                  (by_cache x z d payload r cached ∙ ap (λ t. make_iter dwarf t (deeper d) r) same))
                (cached_edge dwarf up y (deeper d) r (c, at, rest, h, hs)
                  (subst (λ t. r.parent_of t ≡ some (up t)) same (c.children x z found).1)))
      ]

  pub first_child_of_leaf :
      (x : ℕ) (d : Option ℕ) (payload : Bool) (r : RootDie)
      → IsReady dwarf up r
      → 0 < x
      → dwarf.child x ≡ none
      → first_child dwarf (at_die x d payload) r ≡ ok (at_end, r)
  unfolding issue_child
  first_child_of_leaf x d payload r (c, at, rest, h, hs) pos down =
      let down' : child_at dwarf x ≡ none = ground (arith, down) in
      elim (live_edge_cases (λ r. r.first_child_of x) r) [
        | inl fresh ↦ by_libdwarf x d payload r fresh ∙ rw (down, issue_child) refl
        | inr (z, cached, found) ↦ cc (sym (c.children x z found).0 ∙ down')
      ]

  module _ (handle : dwarf.has_handle ≡ true) where
    first_cu_handle-some :
        (c y : ℕ) (rest ys : List ℕ) (r : RootDie)
        → IsAt dwarf r c
        → Follow dwarf c rest
        → Follow dwarf 0 (y ∷ ys)
        → (s : RootDie) × (first_cu_handle dwarf r ≡ ok (some y, s))
          × (s.parent_of ≡ r.parent_of)
          × (s.first_child_of ≡ update r.first_child_of 0 y)
          × (s.next_sibling_of ≡ r.next_sibling_of)
          × IsAt dwarf s y
    unfolding first_cu_handle current_cu_die store_first_cu
    first_cu_handle-some c y rest ys r at h (first, eleven, pos, below, hs) =
        let (s, run, at', (live, a, b, e)) = clear_cu_context_lem dwarf handle c rest r at h in
        (
          record (entered dwarf y s) { first_child_of = update s.first_child_of 0 y },
          ground (arith, run, advance_some dwarf handle s 0 y at' first eleven),
          a,
          ap (λ m. update m 0 y) b,
          e,
          (refl, ground arith, inr refl),
        )

    first_cu_handle-none :
        (c : ℕ) (rest : List ℕ) (r : RootDie)
        → IsAt dwarf r c
        → Follow dwarf c rest
        → dwarf.next_cu 0 ≡ none
        → (s : RootDie) × (first_cu_handle dwarf r ≡ ok (none, s)) × SameCaches r s × IsAt dwarf s 0
    unfolding first_cu_handle current_cu_die no_cu_context
    first_cu_handle-none c rest r at h e =
        let (s, run, at', keeps) = clear_cu_context_lem dwarf handle c rest r at h in
        (
          no_cu_context s,
          ground (arith, run, advance_none dwarf handle s 0 at' e),
          keeps,
          (refl, refl, inl refl),
        )

    -- From the root.
    pub first_child_of_root :
        (y : ℕ) (ys : List ℕ) (r : RootDie)
        → IsReady dwarf up r
        → Follow dwarf 0 (y ∷ ys)
        → up y ≡ 0
        → LeadsTo dwarf up y (some 1) r (first_child dwarf at_root r)
    unfolding first_child offset_here maybe_depth first_child_handle deeper
    first_child_of_root y ys r (c, at, rest, h, hs) cus under =
        elim (live_edge_cases (λ r. r.first_child_of 0) r) [
          | inl fresh ↦
              (let (s, run, a, b, e, at') = first_cu_handle-some at y rest ys r h hs cus in
                subst (LeadsTo dwarf up y (some 1) r) (ground (arith, fresh, run)) (
                  issue_child-LeadsTo 0 y y (some 1) ys r s c cus.0 under a
                    (λ z w k.
                      elim (update_cases r.first_child_of 0 y z w (ap (λ m. m z) (sym b) ∙ k)) [
                        | inl (zx, yw) ↦
                            inl (ap (child_at dwarf) zx ∙ cus.0 ∙ ap (λ t. some t) yw, sym yw)
                        | inr old ↦ inr old
                      ])
                    e at' cus.4))
          | inr (z, cached, found) ↦
              (let same : z ≡ y = ground (arith, (c.children 0 z found).0, cus.0) in
                subst (LeadsTo dwarf up y (some 1) r) (ground (arith, cached, same)) (
                  cached_edge dwarf up y (some 1) r (c, at, rest, h, hs)
                    (subst (λ t. r.parent_of t ≡ some (up t)) same (c.children 0 z found).1)))
        ]

    pub first_child_of_root_none :
        (r : RootDie)
        → IsReady dwarf up r
        → dwarf.next_cu 0 ≡ none
        → (s : RootDie) × (first_child dwarf at_root r ≡ ok (at_end, s))
    unfolding first_child offset_here maybe_depth first_child_handle issue_child
    first_child_of_root_none r (c, at, rest, h, hs) end =
        elim (live_edge_cases (λ r. r.first_child_of 0) r) [
          | inl fresh ↦
              (let (s, run, keeps, at') = first_cu_handle-none at rest r h hs end in
                (s, ground (arith, fresh, run)))
          | inr (z, cached, found) ↦ absurd (cc (sym (c.children 0 z found).0 ∙ end))
        ]
