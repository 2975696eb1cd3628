-- ===== src/Types/ArrayEquality.antt =====
-- src/dies.cpp: what may_equal of arrays compares.
use libdwarfpp.Base.{
  ℕ, ◌≡◌, refl, sym, ◌∙◌, true, false, Option, some, List, [], ◌∷◌, Option-cases, inl, inr, ok,
}
use libdwarfpp.Types.{TypeDies}
use libdwarfpp.Types.Equality.{
  EqualResult, is_equal, result_of, same_head, pairwise, subranges, subrange_types_equal,
  element_types_equal, array_may_equal,
}

module _ (dies : TypeDies) where
  -- As many subranges, with the same index types.
  abbrev pub HasSameIndexTypes : List ℕ → List ℕ → Type 0
  HasSameIndexTypes [] [] = Unit {0}
  HasSameIndexTypes (c ∷ cs) (d ∷ ds) =
      ((dies c).get_type ≡ (dies d).get_type) × HasSameIndexTypes cs ds
  HasSameIndexTypes cs ds = true ≡ false

  module _ (equal_to : ℕ → Option ℕ → EqualResult)
      (reflexive : (x : ℕ) → is_equal (equal_to x (some x)) ≡ true) where
    index_types_equal :
        (c d : ℕ)
        → (dies c).get_type ≡ (dies d).get_type
        → subrange_types_equal dies equal_to c d ≡ true
    unfolding subrange_types_equal
    index_types_equal c d h = elim (Option-cases (dies c).get_type) [
      | inl e ↦ rw (subrange_types_equal, e) refl
      | inr (x, e) ↦ rw (subrange_types_equal, e) (rw (sym h ∙ e) (reflexive x))
    ]

    subranges_equal :
        (cs ds : List ℕ)
        → HasSameIndexTypes cs ds
        → pairwise (subrange_types_equal dies equal_to) cs ds ≡ true
    unfolding pairwise
    subranges_equal [] [] h = refl
    subranges_equal [] (d ∷ ds) h = absurd (cc h)
    subranges_equal (c ∷ cs) [] h = absurd (cc h)
    subranges_equal (c ∷ cs) (d ∷ ds) (same, h) =
        rw (index_types_equal c d same) (rw (subranges_equal cs ds h) refl)

    -- Where every type equals itself, two arrays of the same tag, name and element type are equal if
    -- they have as many subranges with the same index types, whatever the counts and bounds of these.
    pub array_may_equal_lem :
        (t u e : ℕ)
        → same_head (dies t) (dies u) ≡ true
        → (dies t).get_type ≡ some e
        → (dies u).get_type ≡ some e
        → HasSameIndexTypes (subranges dies t) (subranges dies u)
        → array_may_equal dies equal_to t (some u) ≡ ok EqualResult.equal
    unfolding array_may_equal element_types_equal result_of
    array_may_equal_lem t u e head mine theirs h =
        rw (array_may_equal, head)
          (rw (subranges_equal (subranges dies t) (subranges dies u) h)
            (rw (element_types_equal, mine) (rw theirs (rw (reflexive e) refl))))
