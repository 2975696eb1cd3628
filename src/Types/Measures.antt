-- ===== src/Types/Measures.antt =====
-- src/dies.cpp: an independent description of the sizes of types.
use libdwarfpp.Base.{
  ℕ, zero, suc, ◌+◌, ◌*◌, ◌%◌, ◌^◌, ◌<◌, ◌≤◌, ◌≡◌, ◌≢◌, ◌⊎◌, inl, inr, refl, ap, ◌∙◌, arith, true,
  false, Option, none, some, List, [], ◌∷◌, All, Outcome, ok,
}
use mathlib.Core.Path.{subst}
use libdwarfpp.Spec.{local_tag_is_type}
use libdwarfpp.Types.{TypeDie, TypeDies, TypeClass}
use libdwarfpp.Types.Concrete.{class_at, chained_type, get_concrete_type}
use libdwarfpp.Types.Sizes.{
  bytes_of_bits, base_byte_size, implicit_array_base, subseq_of, dimension_element_counts,
  element_count, total_count, counts_of, array_byte_size, member_size, structure_byte_size,
}
use libdwarfpp.Types.Chains.{IsChain-cases, concrete_self, concrete_chain}
use libdwarfpp.Types.Products.{product, HasExtents, array_size-product}

module _ (dies : TypeDies) where
  -- The attributes, or the types below, from which a type of a class has its size. `below` is the
  -- relation for these.
  abbrev MemberIsSized : (ℕ → ℕ → Type 0) → ℕ → Type 0
  MemberIsSized below m = (u : ℕ) × (n : ℕ) × ((dies m).get_type ≡ some u) × below u n

  abbrev pub IsSized : (ℕ → ℕ → Type 0) → ℕ → ℕ → TypeClass → Type 0
  IsSized below t n TypeClass.base_type =
      ((dies t).get_byte_size ≡ some n)
      ⊎ (((dies t).get_byte_size ≡ none)
          × ((b : ℕ) × ((dies t).get_bit_size ≡ some b) × (b ≤ 8 * n) × (8 * n < b + 8)))
  IsSized below t n TypeClass.string_type =
      ((dies t).has_string_length ≡ false) × ((dies t).get_byte_size ≡ some n)
  IsSized below t n TypeClass.address_holding_type =
      ((dies t).get_byte_size ≡ some n)
      ⊎ (((dies t).get_byte_size ≡ none) × ((dies t).get_address_size ≡ n))
  IsSized below t n TypeClass.array_type =
      (e : ℕ) × (size : ℕ) × (c : ℕ) × (cs : List ℕ) × (d : ℕ) × (ds : List ℕ) × ((dies t).get_type
        ≡ some e)
      × below e size
      × (subseq_of dies 0x21 (dies t).children ≡ c ∷ cs)
      × HasExtents dies (implicit_array_base (dies t).get_language) (c ∷ cs) (d ∷ ds)
      × (product (d ∷ ds) * size ≡ n)
      × (n < 2 ^ 64)
  IsSized below t n TypeClass.structure_type =
      ((dies t).get_byte_size ≡ some n)
      × All (MemberIsSized below) (subseq_of dies 0x0d (dies t).children)
  IsSized below t n TypeClass.type_chain =
      (u : ℕ) × ((dies t).get_type ≡ some u) × (local_tag_is_type (dies u).tag ≡ true) × below u n
  IsSized below t n TypeClass.type = (dies t).get_byte_size ≡ some n

  -- A type with a size; types refer to one another to a depth.
  unfoldable pub HasSize : ℕ → ℕ → ℕ → Type 0
  HasSize zero t n = true ≡ false
  HasSize (suc depth) t n = IsSized (HasSize depth) t n (class_at dies t)

  -- The concrete type of a type with a size has that size.
  pub concrete-HasSize :
      (fuel depth t n : ℕ)
      → HasSize depth t n
      → depth ≤ fuel
      → (c : ℕ) × (depth' : ℕ) × (get_concrete_type dies fuel t ≡ ok (some c))
        × HasSize depth' c n
        × (depth' ≤ depth)
        × (class_at dies c ≢ TypeClass.type_chain)
  unfolding HasSize chained_type
  concrete-HasSize fuel zero t n h l = absurd (cc h)
  concrete-HasSize zero (suc depth) t n h l = absurd (omega arith)
  concrete-HasSize (suc fuel) (suc depth) t n h l = elim (IsChain-cases (class_at dies t)) [
    | inr e ↦ (t, suc depth, concrete_self dies fuel t e, h, omega arith, e)
    | inl e ↦
        let (u, there, typed, below) = subst (λ c. IsSized (HasSize depth) t n c) e h in
        let (c, depth', run, sized, lower, concrete) =
          concrete-HasSize fuel depth u n below (omega arith) in
        (
          c,
          depth',
          rw (concrete_chain dies fuel t e) (rw there (rw typed run)),
          sized,
          omega arith,
          concrete,
        )
  ]

  pub structure_lem :
      (size_of : ℕ → Outcome (Option ℕ)) (below : ℕ → ℕ → Type 0) (answer : Option ℕ) (ms : List ℕ)
      → ((u n : ℕ) → below u n → size_of u ≡ ok (some n))
      → All (MemberIsSized below) ms
      → structure_byte_size dies size_of answer ms ≡ ok answer
  unfolding structure_byte_size member_size
  structure_lem size_of below answer [] each h = refl
  structure_lem size_of below answer (m ∷ ms) each ((u, n, there, sized), h) =
      rw (structure_byte_size, there)
        (rw (each u n sized) (structure_lem size_of below answer ms each h))

  pub base_lem :
      (d : TypeDie) (b n : ℕ)
      → d.get_byte_size ≡ none
      → d.get_bit_size ≡ some b
      → b ≤ 8 * n
      → 8 * n < b + 8
      → base_byte_size d ≡ some n
  unfolding base_byte_size bytes_of_bits
  base_lem d b n no_bytes bits l u = rw no_bytes (rw bits (ap (λ x. some x) (ground arith)))

  pub array_lem :
      (size_of : ℕ → Outcome (Option ℕ)) (t e size c : ℕ) (cs : List ℕ) (d : ℕ) (ds : List ℕ)
      (n : ℕ)
      → (dies t).get_type ≡ some e
      → size_of e ≡ ok (some size)
      → subseq_of dies 0x21 (dies t).children ≡ c ∷ cs
      → HasExtents dies (implicit_array_base (dies t).get_language) (c ∷ cs) (d ∷ ds)
      → product (d ∷ ds) * size ≡ n
      → n < 2 ^ 64
      → array_byte_size dies size_of t ≡ ok (some n)
  unfolding array_byte_size element_count dimension_element_counts
  array_lem size_of t e size c cs d ds n there sized subranges extents total small =
      let implicit : Option ℕ = implicit_array_base (dies t).get_language in
      let counted : element_count dies t
          ≡ ok (total_count none (counts_of dies implicit (c ∷ cs))) =
        rw (element_count, dimension_element_counts, there) (rw subranges refl) in
      let word : product (d ∷ ds) * size % 2 ^ 64 ≡ n = omega (arith, total, small) in
      rw (array_byte_size, there)
        (rw counted (
          rw sized (
            ap (λ x. ok x)
              (array_size-product dies implicit c cs d ds size extents ∙ ap (λ x. some x) word))))
