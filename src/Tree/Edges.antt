-- ===== src/Tree/Edges.antt =====
-- src/root.cpp: first_child and next_sibling lead where the tree does, whatever the caches hold.
use libdwarfpp.Base.{
  ℕ, ◌≡◌, refl, sym, ap, ◌∙◌, arith, Bool, true, false, ◌||◌, Option, none, some, ◌==◌, Bool-cases,
  ◌⊎◌, inl, inr, List, ok, Outcome,
}
use mathlib.Core.Path.{subst}
use libdwarfpp.Tree.{Libdwarf, RootDie, Iter, at_end, at_die, update}
use libdwarfpp.Tree.Moves.{is_cu, make_iter, live_edge, issue_child}
use libdwarfpp.Tree.Context.{Follow, IsAt}
use libdwarfpp.Tree.Caches.{IsConsistent, Keeps, Option-cases}

-- The current unit is the same.
abbrev pub SameContext : RootDie → RootDie → Type 0
SameContext r r' =
    (r'.current_cu_offset ≡ r.current_cu_offset)
    × (r'.first_cu_offset ≡ r.first_cu_offset)
    × (r'.last_seen ≡ r.last_seen)

-- Nothing but the set of live DIEs has changed.
abbrev pub SameButLive : RootDie → RootDie → Type 0
SameButLive r r' =
    (r'.parent_of ≡ r.parent_of)
    × (r'.first_child_of ≡ r.first_child_of)
    × (r'.next_sibling_of ≡ r.next_sibling_of)
    × SameContext r r'

pub live_edge_cases :
    (edge : RootDie → Option ℕ) (r : RootDie)
    → (live_edge edge r ≡ ok (none, r))
      ⊎ ((z : ℕ) × (live_edge edge r ≡ ok (some z, r)) × (edge r ≡ some z))
unfolding live_edge
live_edge_cases edge r = elim (Option-cases (edge r)) [
  | inl absent ↦ inl (ground (arith, absent))
  | inr (z, found) ↦ elim (Bool-cases (r.live_dies z)) [
    | inl live ↦ inr (z, ground (arith, found, live), found)
    | inr dead ↦ inl (ground (arith, found, dead))
  ]
]

module _ (dwarf : Libdwarf) where
  pub make_iter_lem :
      (off : ℕ) (d : Option ℕ) (r : RootDie)
      → (payload : Bool) × (r' : RootDie) × (make_iter dwarf off d r
          ≡ ok (at_die off d payload, r'))
        × SameButLive r r'
  unfolding make_iter
  make_iter_lem off d r = elim (Bool-cases (r.live_dies off)) [
    | inl live ↦ (true, r, ground (arith, live), (refl, refl, refl, (refl, refl, refl)))
    | inr fresh ↦ elim (Bool-cases (is_cu dwarf off)) [
      | inl unit ↦ (
        true,
        record r {
          live_dies = λ x. x == off || r.live_dies x;
          sticky_dies = λ x. x == off || r.sticky_dies x;
        },
        ground (arith, fresh, unit),
        (refl, refl, refl, (refl, refl, refl)),
      )
      | inr other ↦ (false, r, ground (arith, fresh, other), (refl, refl, refl, (refl, refl, refl)))
    ]
  ]

  pub issue_child_lem :
      (start y : ℕ) (d : Option ℕ) (r : RootDie)
      → (payload : Bool) × (r' : RootDie) × (issue_child dwarf start d (some y) r
          ≡ ok (at_die y d payload, r'))
        × (r'.parent_of ≡ update r.parent_of y start)
        × (r'.first_child_of ≡ update r.first_child_of start y)
        × (r'.next_sibling_of ≡ r.next_sibling_of)
        × SameContext r r'
  unfolding issue_child
  issue_child_lem start y d r =
      let (payload, r', run, (a, b, c, rest)) = make_iter_lem y d r in
      (
        payload,
        record r' {
          parent_of = update r'.parent_of y start;
          first_child_of = update r'.first_child_of start y;
        },
        ground (arith, run),
        ap (λ m. update m y start) a,
        ap (λ m. update m start y) b,
        c,
        rest,
      )

  pub IsAt-same : (r r' : RootDie) (c : ℕ) → SameContext r r' → IsAt dwarf r c → IsAt dwarf r' c
  IsAt-same r r' c (a, b, e) (x, y, z) =
      (a ∙ x, e ∙ y, subst (λ t. (c ≡ 0) ⊎ (t ≡ some 11)) (sym b) z)

  module _ (up : ℕ → ℕ) where
    -- The caches are consistent, and the current unit is one that libdwarf goes on from.
    abbrev pub IsReady : RootDie → Type 0
    IsReady r =
        IsConsistent dwarf up r × (c : ℕ) × (rest : List ℕ) × IsAt dwarf r c × Follow dwarf c rest

    -- The run leads to the DIE at `y` and has its parent in the cache.
    abbrev pub LeadsTo : ℕ → Option ℕ → RootDie → Outcome (Iter × RootDie) → Type 0
    LeadsTo y d r run =
        (payload : Bool) × (r' : RootDie) × (run ≡ ok (at_die y d payload, r'))
        × IsReady r'
        × Keeps dwarf up r r'
        × (r'.parent_of y ≡ some (up y))

    -- The run gives END, and the parent cache is unchanged.
    abbrev pub LeadsNowhere : RootDie → Outcome (Iter × RootDie) → Type 0
    LeadsNowhere r run =
        (r' : RootDie) × (run ≡ ok (at_end, r')) × IsReady r' × (r'.parent_of ≡ r.parent_of)

    pub IsConsistent-same :
        (r r' : RootDie) → SameButLive r r' → IsConsistent dwarf up r → IsConsistent dwarf up r'
    IsConsistent-same r r' (a, b, e, s) c = record {
      parents = λ x p h. c.parents x p (ap (λ m. m x) (sym a) ∙ h);
      children = λ x y h.
          (let (t, u) = c.children x y (ap (λ m. m x) (sym b) ∙ h) in (t, ap (λ m. m y) a ∙ u));
      siblings = λ x y h.
          (let (t, u) = c.siblings x y (ap (λ m. m x) (sym e) ∙ h) in (t, ap (λ m. m y) a ∙ u));
    }

    -- The DIE of a cached edge.
    pub cached_edge :
        (y : ℕ) (d : Option ℕ) (r : RootDie)
        → IsReady r
        → r.parent_of y ≡ some (up y)
        → LeadsTo y d r (make_iter dwarf y d r)
    cached_edge y d r (c, at, rest, h, hs) there =
        let (payload, r', run, (a, b, e, s)) = make_iter_lem y d r in
        (
          payload,
          r',
          run,
          (IsConsistent-same r r' (a, b, e, s) c, at, rest, IsAt-same r r' at s h, hs),
          λ x p k. ap (λ m. m x) a ∙ k,
          ap (λ m. m y) a ∙ there,
        )
