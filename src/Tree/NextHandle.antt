-- ===== src/Tree/NextHandle.antt =====
-- src/root.cpp: what libdwarf gives for the next sibling of a DIE or the next unit.
use libdwarfpp.Base.{
  ℕ, ◌<◌, ◌≡◌, refl, sym, ap, ◌∙◌, arith, true, Option, some, ◌==◌, ==_iff, Bool-cases, ◌⊎◌, inl,
  inr, List, [], ◌∷◌, ok, Outcome,
}
use mathlib.Core.Path.{subst}
use libdwarfpp.Tree.{Libdwarf, RootDie, update}
use libdwarfpp.Tree.Moves.{
  is_cu, next_sibling_handle, next_cu_handle, store_next_cu, current_cu_die,
}
use libdwarfpp.Tree.Cu.{no_cu_context, set_cu_context}
use libdwarfpp.Tree.Context.{
  Follow, IsAt, has, entered, set_cu_context-Finds, advance_none, advance_some,
}
use libdwarfpp.Tree.Caches.{sibling_at, update_cases}
use libdwarfpp.Tree.Edges.{IsReady}

module _ (dwarf : Libdwarf) (up : ℕ → ℕ) where
  -- libdwarf goes on from every unit.
  Follow-has :
      (x off : ℕ) (cus : List ℕ)
      → Follow dwarf x cus
      → has off cus ≡ true
      → (0 < off) × (rest : List ℕ) × Follow dwarf off rest
  unfolding has
  Follow-has x off [] h m = cc m
  Follow-has x off (y ∷ ys) (a, b, c, d, h) m = elim (Bool-cases (y == off)) [
    | inl same ↦
        (ground (arith, c, same), ys, subst (λ t. Follow dwarf t ys) ((==_iff y off).0 same) h)
    | inr other ↦ Follow-has y off ys h (ground (arith, m, other))
  ]

  module _ (handle : dwarf.has_handle ≡ true) (cus : List ℕ) (units : Follow dwarf 0 cus) where
    -- What libdwarf gives, and the state that it leaves.
    abbrev pub Gives : Option ℕ → ℕ → RootDie → Outcome (Option ℕ × RootDie) → Type 0
    Gives answer x r run =
        (s : RootDie) × (run ≡ ok (answer, s))
        × (s.parent_of ≡ r.parent_of)
        × (s.first_child_of ≡ r.first_child_of)
        × ((z w : ℕ)
            → s.next_sibling_of z ≡ some w
            → ((z ≡ x) × (answer ≡ some w)) ⊎ (r.next_sibling_of z ≡ some w))
        × (c : ℕ) × (rest : List ℕ) × IsAt dwarf s c
        × Follow dwarf c rest

    next_cu-Gives :
        (x : ℕ) (r s : RootDie) (later : List ℕ)
        → 0 < x
        → set_cu_context dwarf x r ≡ ok (true, s)
        → IsAt dwarf s x
        → s.parent_of ≡ r.parent_of
        → s.first_child_of ≡ r.first_child_of
        → s.next_sibling_of ≡ r.next_sibling_of
        → Follow dwarf x later
        → Gives (dwarf.next_cu x) x r (next_cu_handle dwarf x r)
    unfolding next_cu_handle store_next_cu current_cu_die no_cu_context
    next_cu-Gives x r s [] pos run at a b e end = (
      no_cu_context s,
      ground (arith, run, advance_none dwarf handle s x at end, end),
      a,
      b,
      (λ z w k. inr (ap (λ m. m z) (sym e) ∙ k)),
      0,
      cus,
      (refl, refl, inl refl),
      units,
    )
    next_cu-Gives x r s (y ∷ ys) pos run at a b e (next, behind, up_, below, hs) = (
      record (entered dwarf y s) { next_sibling_of = update s.next_sibling_of x y },
      ground (arith, run, advance_some dwarf handle s x y at next behind),
      a,
      b,
      (λ z w k. elim (update_cases s.next_sibling_of x y z w k) [
        | inl (zx, yw) ↦ inl (zx, next ∙ ap (λ t. some t) yw)
        | inr old ↦ inr (ap (λ m. m z) (sym e) ∙ old)
      ]),
      y,
      ys,
      (refl, ground arith, inr refl),
      hs,
    )

    next_cu_handle_lem :
        (x : ℕ) (r : RootDie)
        → IsReady dwarf up r
        → has x cus ≡ true
        → Gives (dwarf.next_cu x) x r (next_cu_handle dwarf x r)
    next_cu_handle_lem x r (c, at, rest, h, hs) m =
        let (s, run, at', (live, a, b, e)) =
          set_cu_context-Finds dwarf handle at x rest cus r h hs units m in
        let (pos, ys, later) = Follow-has 0 x cus units m in
        next_cu-Gives x r s ys pos run at' a b e later

    pub next_sibling_handle_lem :
        (x : ℕ) (r : RootDie)
        → IsReady dwarf up r
        → (is_cu dwarf x ≡ true → has x cus ≡ true)
        → Gives (sibling_at dwarf x) x r (next_sibling_handle dwarf x r)
    unfolding next_sibling_handle
    next_sibling_handle_lem x r (c, at, rest, h, hs) m = elim (Bool-cases (is_cu dwarf x)) [
      | inl unit ↦ rw unit (next_cu_handle_lem x r (c, at, rest, h, hs) (m unit))
      | inr other ↦ rw other (r, refl, refl, refl, (λ z w k. inr k), at, rest, h, hs)
    ]
