-- ===== src/Types/ByteSize.antt =====
-- src/dies.cpp: calculate_byte_size against the description of sizes.
use libdwarfpp.Base.{
  ℕ, zero, suc, ◌≤◌, ◌≡◌, inl, inr, refl, ap, ◌∙◌, arith, false, some, ◌==◌, ==_iff, ok, Bool-cases,
}
use mathlib.Core.Path.{subst}
use libdwarfpp.Types.{TypeDies, TypeClass}
use libdwarfpp.Types.Concrete.{class_at, chained_type}
use libdwarfpp.Types.Sizes.{
  base_byte_size, or_else, fixed_length_in_bytes, subseq_of, chain_byte_size, calculate_byte_size,
}
use libdwarfpp.Types.Chains.{concrete_chain}
use libdwarfpp.Types.Measures.{
  IsSized, HasSize, concrete-HasSize, structure_lem, base_lem, array_lem,
}

module _ (dies : TypeDies) where
  -- The step from the types below to a type, by its class.
  size_by_class :
      (fuel depth t n : ℕ) (c : TypeClass)
      → class_at dies t ≡ c
      → ((depth' u m : ℕ)
          → HasSize dies depth' u m
          → depth' ≤ fuel
          → calculate_byte_size dies fuel u ≡ ok (some m))
      → depth ≤ fuel
      → IsSized dies (HasSize dies depth) t n c
      → calculate_byte_size dies (suc fuel) t ≡ ok (some n)
  unfolding calculate_byte_size base_byte_size or_else fixed_length_in_bytes chain_byte_size
      chained_type
  size_by_class fuel depth t n TypeClass.base_type e below l (inl h) =
      rw (calculate_byte_size, e) (rw h refl)
  size_by_class fuel depth t n TypeClass.base_type e below l (inr (h, (b, bits, at_least, less))) =
      rw (calculate_byte_size, e) (ap (λ x. ok x) (base_lem dies (dies t) b n h bits at_least less))
  size_by_class fuel depth t n TypeClass.string_type e below l (h, bytes) =
      rw (calculate_byte_size, e) (rw h (rw bytes refl))
  size_by_class fuel depth t n TypeClass.address_holding_type e below l (inl h) =
      rw (calculate_byte_size, e) (rw h refl)
  size_by_class fuel depth t n TypeClass.address_holding_type e below l (inr (h, a)) =
      rw (calculate_byte_size, e) (rw h (rw a refl))
  size_by_class fuel depth t n TypeClass.array_type e below l
        (el, size, c, cs, d, ds, there, sized, subranges, extents, total, small) =
      rw (calculate_byte_size, e)
        (array_lem dies (calculate_byte_size dies fuel) t el size c cs d ds n there
          (below depth el size sized l) subranges extents total small)
  size_by_class fuel depth t n TypeClass.structure_type e below l (bytes, members) =
      rw (calculate_byte_size, e)
        (structure_lem dies (calculate_byte_size dies fuel) (HasSize dies depth)
            (dies t).get_byte_size (subseq_of dies 0x0d (dies t).children)
            (λ u m sized. below depth u m sized l) members
          ∙ ap (λ x. ok x) bytes)
  size_by_class fuel depth t n TypeClass.type_chain e below l (u, there, typed, sized) =
      let (c, depth', run, sized', lower, concrete) =
        concrete-HasSize dies fuel depth u n sized l in
      let other : (t == c) ≡ false = elim (Bool-cases (t == c)) [
        | inr no_match ↦ no_match
        | inl same ↦
            absurd (
              concrete
                (subst (λ x. class_at dies x ≡ TypeClass.type_chain) ((==_iff t c).0 same) e))
      ] in
      rw (calculate_byte_size, e)
        (rw (concrete_chain dies fuel t e) (
          rw there (
            rw typed (
              rw run (
                rw (chain_byte_size, other) (below depth' c n sized' (omega (arith, lower, l))))))))
  size_by_class fuel depth t n TypeClass.type e below l h = rw (calculate_byte_size, e) (rw h refl)

  -- Of a type with a size by the description, calculate_byte_size ends and gives that size: base types have the bytes
  -- that hold their bits, arrays the product of their extents and the size of an element, structures
  -- their own size if every member has one, and typedefs and qualified types the size of the type
  -- below. Array sizes fit 64 bits; the fuel is no less than the depth of the description.
  pub calculate_byte_size_lem :
      (fuel depth t n : ℕ)
      → HasSize dies depth t n
      → depth ≤ fuel
      → calculate_byte_size dies fuel t ≡ ok (some n)
  unfolding HasSize
  calculate_byte_size_lem fuel zero t n h l = absurd (cc h)
  calculate_byte_size_lem zero (suc depth) t n h l = absurd (omega arith)
  calculate_byte_size_lem (suc fuel) (suc depth) t n h l =
      size_by_class fuel depth t n (class_at dies t) refl
        (λ depth' u m. calculate_byte_size_lem fuel depth' u m) (omega arith) h
