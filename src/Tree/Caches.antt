-- ===== src/Tree/Caches.antt =====
-- src/root.cpp: the caches of root_die agree with the tree of DIEs.
use libdwarfpp.Base.{
  ℕ, ◌≡◌, refl, sym, ap, ◌∙◌, arith, Option, none, some, ◌==◌, ==_iff, ==_refl, Bool-cases,
  if◌then◌else◌, ◌⊎◌, inl, inr,
}
use libdwarfpp.Tree.{Libdwarf, RootDie, OffsetMap, update}
use libdwarfpp.Tree.Moves.{is_cu}

pub Option-cases : (o : Option ℕ) → (o ≡ none) ⊎ ((z : ℕ) × (o ≡ some z))
Option-cases none = inl refl
Option-cases (some z) = inr (z, refl)

pub update_self : (m : OffsetMap) (k v : ℕ) → update m k v k ≡ some v
update_self m k v = rw (==_refl k) refl

pub update_cases :
    (m : OffsetMap) (k v x w : ℕ) → update m k v x ≡ some w → ((x ≡ k) × (v ≡ w)) ⊎ (m x ≡ some w)
update_cases m k v x w h = elim (Bool-cases (x == k)) [
  | inl same ↦ inl ((==_iff x k).0 same, ground (arith, h))
  | inr other ↦ inr (ground (arith, h))
]

module _ (dwarf : Libdwarf) where
  -- The first child of a DIE, where 0 is the root, and the next sibling.
  abbrev pub child_at : ℕ → Option ℕ
  child_at x = if x == 0 then dwarf.next_cu 0 else dwarf.child x

  abbrev pub sibling_at : ℕ → Option ℕ
  sibling_at x = if is_cu dwarf x then dwarf.next_cu x else dwarf.sibling x

  module _ (up : ℕ → ℕ) where
    -- What the caches hold is so, and a DIE that an edge leads to has its parent in the cache.
    -- `up` is the parent of a DIE in the tree.
    pub record IsConsistent (r : RootDie) : Type 0 where
      pub parents : (x p : ℕ) → r.parent_of x ≡ some p → up x ≡ p
      pub children :
          (x y : ℕ)
          → r.first_child_of x ≡ some y
          → (child_at x ≡ some y) × (r.parent_of y ≡ some (up y))
      pub siblings :
          (x y : ℕ)
          → r.next_sibling_of x ≡ some y
          → (sibling_at x ≡ some y) × (r.parent_of y ≡ some (up y))

    -- No parent is forgotten.
    abbrev pub Keeps : RootDie → RootDie → Type 0
    Keeps r r' = (x p : ℕ) → r.parent_of x ≡ some p → r'.parent_of x ≡ some p

    keeps_parent :
        (r : RootDie)
        → IsConsistent r
        → (m : OffsetMap) (y p : ℕ) → m ≡ update r.parent_of y p
        → up y ≡ p
        → (x q : ℕ) → r.parent_of x ≡ some q
        → m x ≡ some q
    keeps_parent r c m y p e u x q h = elim (Bool-cases (x == y)) [
      | inl same ↦ ground (arith, ap (λ t. t x) e, c.parents x q h, ap up ((==_iff x y).0 same), u)
      | inr other ↦ ap (λ t. t x) e ∙ rw other h
    ]

    -- The edge leads to `y`, or it was in the cache before.
    abbrev pub IsNew : (ℕ → Option ℕ) → ℕ → OffsetMap → OffsetMap → Type 0
    IsNew at y m m' = (z w : ℕ) → m' z ≡ some w → ((at z ≡ some w) × (w ≡ y)) ⊎ (m z ≡ some w)

    module _ (r r' : RootDie) (y p : ℕ) where
      parent_is :
          IsConsistent r
          → up y ≡ p
          → (x q : ℕ) → ((x ≡ y) × (p ≡ q)) ⊎ (r.parent_of x ≡ some q)
          → up x ≡ q
      parent_is c u x q (inl (a, b)) = ap up a ∙ u ∙ b
      parent_is c u x q (inr h) = c.parents x q h

      edge :
          (at : ℕ → Option ℕ) (x z : ℕ) (old : OffsetMap)
          → r'.parent_of y ≡ some (up y)
          → Keeps r r'
          → ((at x ≡ some z) × (z ≡ y)) ⊎ (old x ≡ some z)
          → (old x ≡ some z → (at x ≡ some z) × (r.parent_of z ≡ some (up z)))
          → (at x ≡ some z) × (r'.parent_of z ≡ some (up z))
      edge at x z old there keeps (inl (h, same)) before =
          (h, ap r'.parent_of same ∙ there ∙ ap (λ t. some (up t)) (sym same))
      edge at x z old there keeps (inr h) before = let (a, b) = before h in (a, keeps z (up z) b)

      -- A DIE is issued under its parent, with new edges to it.
      pub issue-IsConsistent :
          IsConsistent r
          → r'.parent_of ≡ update r.parent_of y p
          → up y ≡ p
          → IsNew child_at y r.first_child_of r'.first_child_of
          → IsNew sibling_at y r.next_sibling_of r'.next_sibling_of
          → IsConsistent r' × Keeps r r' × (r'.parent_of y ≡ some (up y))
      issue-IsConsistent c e u fc ns =
          let keeps = keeps_parent r c r'.parent_of y p e u in
          let there : r'.parent_of y ≡ some (up y) =
            ap (λ t. t y) e ∙ update_self r.parent_of y p ∙ ap (λ t. some t) (sym u) in
          (
            record {
              parents = λ x q h.
                  parent_is c u x q (update_cases r.parent_of y p x q (sym (ap (λ t. t x) e) ∙ h));
              children = λ x z h.
                  edge child_at x z r.first_child_of there keeps (fc x z h) (c.children x z);
              siblings = λ x z h.
                  edge sibling_at x z r.next_sibling_of there keeps (ns x z h) (c.siblings x z);
            },
            keeps,
            there,
          )
