-- ===== src/Tree/Parents.antt =====
-- src/root.cpp, include/dwarfpp/root-inl.hpp: the parent cache gives depths and parents.
use libdwarfpp.Base.{
  ℕ, zero, suc, ◌+◌, ◌-◌, ◌%◌, ◌^◌, ◌≤◌, ◌<◌, ◌≡◌, refl, sym, ap, ◌∙◌, arith, Bool, true, false,
  Option, none, some, Bool-cases, inl, inr, ok, Outcome,
}
use mathlib.Core.Path.{subst}
use libdwarfpp.Tree.{Libdwarf, RootDie, OffsetMap, Iter, at_root, at_die, update}
use libdwarfpp.Tree.Moves.{is_cu, offset_here, tag_here}
use libdwarfpp.Tree.Find.{
  climb, find_upwards, find, depth, depth_within, depth_found, is_end, parent, parent_by_cache,
  cached_parent, pos, pos_of_die, learn_parent, learn_given, move_to_parent, check_parent,
}
use libdwarfpp.Tree.Caches.{Keeps, issue-IsConsistent}
use libdwarfpp.Tree.Edges.{make_iter_lem, IsReady, IsAt-same, IsConsistent-same}
use libdwarfpp.Tree.NextSibling.{KnowsDepth}

-- The cache leads from `x` to the root in `d` steps, to ever smaller offsets.
abbrev pub Chain : OffsetMap → ℕ → ℕ → Type 0
Chain m x zero = x ≡ 0
Chain m x (suc d) = (p : ℕ) × (m x ≡ some p) × (p < x) × Chain m p d

pub Chain-bound : (m : OffsetMap) (x d : ℕ) → Chain m x d → d ≤ x
Chain-bound m x zero h = omega arith
Chain-bound m x (suc d) (p, e, lt, h) = omega (arith, Chain-bound m p d h)

pub Chain-mono :
    (m m' : OffsetMap) (x d : ℕ)
    → ((y q : ℕ) → m y ≡ some q → m' y ≡ some q)
    → Chain m x d
    → Chain m' x d
Chain-mono m m' x zero keeps h = h
Chain-mono m m' x (suc d) keeps (p, e, lt, h) = (p, keeps x p e, lt, Chain-mono m m' p d keeps h)

climb_lem :
    (fuel d x h : ℕ) (r : RootDie)
    → Chain r.parent_of x d
    → d < fuel
    → climb fuel x h r ≡ ok (some (h + d), r)
unfolding climb
climb_lem zero d x h r c l = absurd (omega arith)
climb_lem (suc fuel) zero x h r c l =
    let same : h + 0 ≡ h = omega arith in rw same (ground (arith, c))
climb_lem (suc fuel) (suc d) x h r (p, e, lt, c) l =
    let sum : h + 1 + d ≡ h + suc d = omega arith in
    ground (arith, e, climb_lem fuel d p (h + 1) r c (omega arith), sum)

module _ (dwarf : Libdwarf) where
  depth_by_cache :
      (x d : ℕ) (r : RootDie)
      → Chain r.parent_of x d
      → 0 < d
      → d < 2 ^ 16
      → depth dwarf (at_die x none true) r ≡ ok (d, r)
  unfolding depth depth_within find find_upwards is_end depth_found
  depth_by_cache x d r c pos bound =
      let run : climb (suc x) x 0 r ≡ ok (some (0 + d), r) =
        climb_lem (suc x) d x 0 r c (omega (arith, Chain-bound r.parent_of x d c)) in
      let sum : (0 + d) % 2 ^ 16 ≡ d = omega arith in ground (arith, run, sum)

  -- A depth is known, or the payload is there and the cache leads to the root.
  pub KnowsDepth-some :
      (x d : ℕ) (payload : Bool) (m : OffsetMap)
      → KnowsDepth (depth dwarf) (at_die x (some d) payload) d m
  unfolding depth depth_within
  KnowsDepth-some x d payload m r e = refl

  pub KnowsDepth-live :
      (x d : ℕ) (m : OffsetMap)
      → Chain m x d
      → 0 < d
      → d < 2 ^ 16
      → KnowsDepth (depth dwarf) (at_die x none true) d m
  KnowsDepth-live x d m c pos bound r e =
      depth_by_cache x d r (subst (λ t. Chain t x d) (sym e) c) pos bound

  module _ (up : ℕ → ℕ) where
    -- The run leads to the DIE at `p`, whose depth is known afterwards.
    abbrev pub Reaches : ℕ → ℕ → RootDie → Outcome (Iter × RootDie) → Type 0
    Reaches p d r run =
        (od : Option ℕ) × (payload : Bool) × (r' : RootDie) × (run ≡ ok (at_die p od payload, r'))
        × IsReady dwarf up r'
        × Keeps dwarf up r r'
        × KnowsDepth (depth dwarf) (at_die p od payload) d r'.parent_of

    learn_again :
        (p q : ℕ) (r : RootDie)
        → IsReady dwarf up r
        → up p ≡ q
        → IsReady dwarf up (record r { parent_of = update r.parent_of p q })
          × Keeps dwarf up r (record r { parent_of = update r.parent_of p q })
    learn_again p q r (c, at, rest, h, hs) e =
        let (good, keeps, there) =
          issue-IsConsistent dwarf up r (record r { parent_of = update r.parent_of p q }) p q c refl
            e (λ z w k. inr k) (λ z w k. inr k) in
        ((good, at, rest, h, hs), keeps)

    learn_parent_lem :
        (p e : ℕ) (r : RootDie)
        → IsReady dwarf up r
        → Chain r.parent_of p (suc e)
        → (e ≡ 1 → dwarf.enclosing_cu p ≡ up p)
        → IsReady dwarf up (learn_parent dwarf p (some (suc e)) none r)
          × Keeps dwarf up r (learn_parent dwarf p (some (suc e)) none r)
    unfolding learn_parent learn_given
    learn_parent_lem p zero r ready (q, m, lt, c) k =
        learn_again p 0 r ready (ready.0.parents p q m ∙ c)
    learn_parent_lem p (suc zero) r ready c k =
        learn_again p (dwarf.enclosing_cu p) r ready (sym (k refl))
    learn_parent_lem p (suc (suc e)) r ready c k =
        let same : r ≡ learn_parent dwarf p (some (suc (suc (suc e)))) none r = ground arith in
        subst (λ s. IsReady dwarf up s × Keeps dwarf up r s) same (ready, λ x q h. h)

    pos_of_die_lem :
        (p e : ℕ) (r : RootDie)
        → IsReady dwarf up r
        → Chain r.parent_of p (suc e)
        → dwarf.is_die p ≡ true
        → (e ≡ 1 → dwarf.enclosing_cu p ≡ up p)
        → suc e < 2 ^ 16
        → Reaches p (suc e) r (pos_of_die dwarf p (some (suc e)) none r)
    unfolding pos_of_die
    pos_of_die_lem p e r ready c die k bound = elim (Bool-cases (r.live_dies p)) [
      | inl live ↦ (
        none,
        true,
        r,
        ground (arith, live),
        ready,
        (λ x q h. h),
        KnowsDepth-live p (suc e) r.parent_of c (omega arith) bound,
      )
      | inr fresh ↦
          (let (payload, s, run, (a, b, n, same)) = make_iter_lem dwarf p (some (suc e)) r in
            let ready' : IsReady dwarf up s = (
              IsConsistent-same dwarf up r s (a, b, n, same) ready.0,
              ready.1,
              ready.2,
              IsAt-same dwarf r s ready.1 same ready.3,
              ready.4,
            ) in
            let c' : Chain s.parent_of p (suc e) = subst (λ t. Chain t p (suc e)) (sym a) c in
            let (good, keeps) = learn_parent_lem p e s ready' c' k in
            (
              some (suc e),
              payload,
              learn_parent dwarf p (some (suc e)) none s,
              ground (arith, fresh, die, run),
              good,
              (λ x q h. keeps x q (ap (λ m. m x) a ∙ h)),
              KnowsDepth-some p (suc e) payload
                  (learn_parent dwarf p (some (suc e)) none s).parent_of,
            ))
    ]

    -- To the parent of a DIE that is no unit.
    parent_of_die :
        (x p e : ℕ) (od : Option ℕ) (payload : Bool) (r : RootDie)
        → IsReady dwarf up r
        → KnowsDepth (depth dwarf) (at_die x od payload) (suc (suc e)) r.parent_of
        → is_cu dwarf x ≡ false
        → r.parent_of x ≡ some p
        → p < x
        → Chain r.parent_of p (suc e)
        → dwarf.is_die p ≡ true
        → (e ≡ 1 → dwarf.enclosing_cu p ≡ up p)
        → suc (suc e) < 2 ^ 16
        → Reaches p (suc e) r (parent dwarf (at_die x od payload) r)
    unfolding parent parent_by_cache cached_parent pos offset_here tag_here
    parent_of_die x p e od payload r ready knows other there lt c die k bound =
        let d' : (suc (suc e) + 2 ^ 16 - 1) % 2 ^ 16 ≡ suc e = omega arith in
        subst (Reaches p (suc e) r) (ground (arith, knows r refl, other, there, lt, d'))
          (pos_of_die_lem p e r ready c die k (omega arith))

    -- A move up from a DIE that is no unit, from a unit, and from the root.
    pub move_up_from_die :
        (x p e : ℕ) (od : Option ℕ) (payload : Bool) (r : RootDie)
        → IsReady dwarf up r
        → KnowsDepth (depth dwarf) (at_die x od payload) (suc (suc e)) r.parent_of
        → is_cu dwarf x ≡ false
        → r.parent_of x ≡ some p
        → p < x
        → Chain r.parent_of p (suc e)
        → dwarf.is_die p ≡ true
        → (e ≡ 1 → dwarf.enclosing_cu p ≡ up p)
        → suc (suc e) < 2 ^ 16
        → (od' : Option ℕ) × (payload' : Bool) × (r' : RootDie) × (move_to_parent dwarf
              (at_die x od payload)
              r
            ≡ ok ((at_die p od' payload', true), r'))
          × IsReady dwarf up r'
          × Keeps dwarf up r r'
          × KnowsDepth (depth dwarf) (at_die p od' payload') (suc e) r'.parent_of
    unfolding move_to_parent offset_here is_end check_parent
    move_up_from_die x p e od payload r ready knows other there lt c die k bound =
        let (od', payload', r', run, ready', keeps, knows') =
          parent_of_die x p e od payload r ready knows other there lt c die k bound in
        (od', payload', r', ground (arith, run, keeps x p there), ready', keeps, knows')

  pub move_up_from_cu :
      (x : ℕ) (od : Option ℕ) (payload : Bool) (r : RootDie)
      → depth dwarf (at_die x od payload) r ≡ ok (1, r)
      → is_cu dwarf x ≡ true
      → r.parent_of x ≡ some 0
      → move_to_parent dwarf (at_die x od payload) r ≡ ok ((at_root, true), r)
  unfolding move_to_parent parent offset_here tag_here is_end check_parent
  move_up_from_cu x od payload r known unit there = ground (arith, known, unit, there)

  pub move_up_from_root : (r : RootDie) → move_to_parent dwarf at_root r ≡ ok ((at_root, false), r)
  unfolding move_to_parent parent offset_here tag_here is_end
  move_up_from_root r = refl
