-- ===== src/Tree/NextSibling.antt =====
-- src/root.cpp: next_sibling leads to the next sibling of a DIE, and from a unit to the next unit.
use libdwarfpp.Base.{
  ℕ, ◌≡◌, refl, sym, ap, ◌∙◌, arith, Bool, true, Option, none, some, ==_iff, inl, inr, List, ok,
}
use mathlib.Core.Path.{subst}
use libdwarfpp.Tree.{Libdwarf, RootDie, Iter, at_die, update, Action, OffsetMap}
use libdwarfpp.Tree.Moves.{
  is_cu, live_edge, next_sibling, next_sibling_handle, fresh_sibling, issue_sibling, agrees,
  make_iter,
}
use libdwarfpp.Tree.Context.{Follow, has}
use libdwarfpp.Tree.Caches.{
  sibling_at, IsConsistent, issue-IsConsistent, update_cases, Option-cases,
}
use libdwarfpp.Tree.Edges.{
  live_edge_cases, SameContext, make_iter_lem, IsAt-same, IsReady, LeadsTo, LeadsNowhere,
  cached_edge,
}
use libdwarfpp.Tree.NextHandle.{next_sibling_handle_lem}

-- The depth of the position is known, or found in the parent cache.
abbrev pub KnowsDepth : (Iter → Action ℕ) → Iter → ℕ → OffsetMap → Type 0
KnowsDepth depth it d parents = (r : RootDie) → r.parent_of ≡ parents → depth it r ≡ ok (d, r)

module _ (dwarf : Libdwarf) (up : ℕ → ℕ) where
  sibling_is : (x y w : ℕ) → sibling_at dwarf x ≡ some y → sibling_at dwarf x ≡ some w → w ≡ y
  sibling_is x y w h k = ground (arith, h, k)

  agrees_lem : (m : OffsetMap) (x y : ℕ) → ((w : ℕ) → m x ≡ some w → w ≡ y) → agrees (m x) y ≡ true
  unfolding agrees
  agrees_lem m x y h = elim (Option-cases (m x)) [
    | inl absent ↦ rw absent refl
    | inr (w, found) ↦ rw found ((==_iff w y).1 (h w found))
  ]

  IsConsistent-fewer :
      (r s : RootDie)
      → s.parent_of ≡ r.parent_of
      → s.first_child_of ≡ r.first_child_of
      → ((z w : ℕ) → s.next_sibling_of z ≡ some w → r.next_sibling_of z ≡ some w)
      → IsConsistent dwarf up r
      → IsConsistent dwarf up s
  IsConsistent-fewer r s a b e c = record {
    parents = λ x p h. c.parents x p (ap (λ m. m x) (sym a) ∙ h);
    children = λ x y h.
        (let (t, u) = c.children x y (ap (λ m. m x) (sym b) ∙ h) in (t, ap (λ m. m y) a ∙ u));
    siblings = λ x y h. (let (t, u) = c.siblings x y (e x y h) in (t, ap (λ m. m y) a ∙ u));
  }

  module _ (depth : Iter → Action ℕ) where
    by_cache :
        (x y d : ℕ) (od : Option ℕ) (payload : Bool) (r : RootDie)
        → depth (at_die x od payload) r ≡ ok (d, r)
        → live_edge (λ r. r.next_sibling_of x) r ≡ ok (some y, r)
        → next_sibling dwarf depth (at_die x od payload) r ≡ make_iter dwarf y (some d) r
    unfolding next_sibling
    by_cache x y d od payload r k e = ground (arith, e, k)

    by_libdwarf :
        (x p : ℕ) (od : Option ℕ) (payload : Bool) (r s : RootDie) (handle : Option ℕ)
        → live_edge (λ r. r.next_sibling_of x) r ≡ ok (none, r)
        → r.parent_of x ≡ some p
        → next_sibling_handle dwarf x r ≡ ok (handle, s)
        → next_sibling dwarf depth (at_die x od payload) r
          ≡ issue_sibling dwarf depth (at_die x od payload) x p handle s
    unfolding next_sibling fresh_sibling
    by_libdwarf x p od payload r s handle e h k = ground (arith, e, h, k)

    issue_sibling_lem :
        (x y d p : ℕ) (od : Option ℕ) (payload : Bool) (s : RootDie)
        → depth (at_die x od payload) s ≡ ok (d, s)
        → agrees (s.next_sibling_of x) y ≡ true
        → (payload' : Bool) × (r' : RootDie) × (issue_sibling dwarf depth
              (at_die x od payload)
              x
              p
              (some y)
              s
            ≡ ok (at_die y (some d) payload', r'))
          × (r'.parent_of ≡ update s.parent_of y p)
          × (r'.first_child_of ≡ s.first_child_of)
          × (r'.next_sibling_of ≡ update s.next_sibling_of x y)
          × SameContext s r'
    unfolding issue_sibling
    issue_sibling_lem x y d p od payload s known agree =
        let (payload', r', run, (a, b, c, same)) = make_iter_lem dwarf y (some d) s in
        (
          payload',
          record r' {
            parent_of = update r'.parent_of y p;
            next_sibling_of = update r'.next_sibling_of x y;
          },
          ground (arith, known, run, ap (λ m. agrees (m x) y) c, agree),
          ap (λ m. update m y p) a,
          b,
          ap (λ m. update m x y) c,
          same,
        )

    module _ (handle : dwarf.has_handle ≡ true) (cus : List ℕ) (units : Follow dwarf 0 cus) where
      -- From a DIE whose parent is in the cache to its next sibling.
      pub next_sibling-some :
          (x y d : ℕ) (od : Option ℕ) (payload : Bool) (r : RootDie)
          → KnowsDepth depth (at_die x od payload) d r.parent_of
          → IsReady dwarf up r
          → r.parent_of x ≡ some (up x)
          → (is_cu dwarf x ≡ true → has x cus ≡ true)
          → sibling_at dwarf x ≡ some y
          → up y ≡ up x
          → LeadsTo dwarf up y (some d) r (next_sibling dwarf depth (at_die x od payload) r)
      next_sibling-some x y d od payload r knows (c, at, rest, h, hs) p m across beside =
          elim (live_edge_cases (λ r. r.next_sibling_of x) r) [
            | inl fresh ↦
                (let (s, run, a, b, e, at', rest', h', hs') =
                    next_sibling_handle_lem dwarf up handle cus units x r (c, at, rest, h, hs) m in
                  let run' : next_sibling_handle dwarf x r ≡ ok (some y, s) =
                    run ∙ ap (λ o. ok (o, s)) across in
                  let (payload', r', issue, a', b', e', same) =
                    issue_sibling_lem x y d (up x) od payload s (knows s a) (
                      agrees_lem s.next_sibling_of x y (λ w k.
                        sibling_is x y w across (elim (e x w k) [
                          | inl (_, found) ↦ found
                          | inr old ↦ (c.siblings x w old).0
                        ]))) in
                  let (good, keeps, there) =
                    issue-IsConsistent dwarf up r r' y (up x) c (a' ∙ ap (λ m. update m y (up x)) a)
                      beside (λ z w k. inr (ap (λ m. m z) (sym (b' ∙ b)) ∙ k))
                      (λ z w k.
                        elim (update_cases s.next_sibling_of x y z w (ap (λ m. m z) (sym e') ∙ k)) [
                          | inl (zx, yw) ↦
                              inl (ap (sibling_at dwarf) zx ∙ across ∙ ap (λ t. some t) yw, sym yw)
                          | inr stored ↦ elim (e z w stored) [
                            | inl (zx, found) ↦
                                inl
                                  (ap (sibling_at dwarf) zx ∙ found, sibling_is x y w across found)
                            | inr old ↦ inr old
                          ]
                        ]) in
                  (
                    payload',
                    r',
                    by_libdwarf x (up x) od payload r s (some y) fresh p run' ∙ issue,
                    (good, at', rest', IsAt-same dwarf s r' at' same h', hs'),
                    keeps,
                    there,
                  ))
            | inr (z, cached, found) ↦
                (let same : z ≡ y = ground (arith, (c.siblings x z found).0, across) in
                  subst (LeadsTo dwarf up y (some d) r)
                    (sym (
                      by_cache x z d od payload r (knows r refl) cached
                      ∙ ap (λ t. make_iter dwarf t (some d) r) same))
                    (cached_edge dwarf up y (some d) r (c, at, rest, h, hs)
                      (subst (λ t. r.parent_of t ≡ some (up t)) same (c.siblings x z found).1)))
          ]

      pub next_sibling-none :
          (x : ℕ) (od : Option ℕ) (payload : Bool) (r : RootDie)
          → IsReady dwarf up r
          → r.parent_of x ≡ some (up x)
          → (is_cu dwarf x ≡ true → has x cus ≡ true)
          → sibling_at dwarf x ≡ none
          → LeadsNowhere dwarf up r (next_sibling dwarf depth (at_die x od payload) r)
      unfolding issue_sibling
      next_sibling-none x od payload r (c, at, rest, h, hs) p m across =
          elim (live_edge_cases (λ r. r.next_sibling_of x) r) [
            | inl fresh ↦
                (let (s, run, a, b, e, at', rest', h', hs') =
                    next_sibling_handle_lem dwarf up handle cus units x r (c, at, rest, h, hs) m in
                  let run' : next_sibling_handle dwarf x r ≡ ok (none, s) =
                    run ∙ ap (λ o. ok (o, s)) across in
                  (
                    s,
                    by_libdwarf x (up x) od payload r s none fresh p run',
                    (
                      IsConsistent-fewer r s a b
                          (λ z w k. elim (e z w k) [
                            | inl (zx, found) ↦ cc (sym across ∙ found)
                            | inr old ↦ old
                          ])
                          c,
                      at',
                      rest',
                      h',
                      hs',
                    ),
                    a,
                  ))
            | inr (z, cached, found) ↦ absurd (cc (sym (c.siblings x z found).0 ∙ across))
          ]
