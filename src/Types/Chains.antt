-- ===== src/Types/Chains.antt =====
-- src/dies.cpp: chains of typedefs and qualifiers end in a concrete type.
use libdwarfpp.Base.{
  ℕ, zero, suc, ◌<◌, ◌≡◌, ◌≢◌, ◌⊎◌, inl, inr, refl, arith, false, Option, none, some, Outcome, ok,
  Bool-cases, Option-cases,
}
use mathlib.Core.Path.{subst}
use libdwarfpp.Spec.{local_tag_is_type}
use libdwarfpp.Types.{TypeDies, TypeClass}
use libdwarfpp.Types.Concrete.{class_at, chained_type, get_concrete_type}

pub IsChain-cases : (c : TypeClass) → (c ≡ TypeClass.type_chain) ⊎ (c ≢ TypeClass.type_chain)
IsChain-cases TypeClass.type_chain = inl refl
IsChain-cases TypeClass.array_type = inr (λ h. cc h)
IsChain-cases TypeClass.address_holding_type = inr (λ h. cc h)
IsChain-cases TypeClass.base_type = inr (λ h. cc h)
IsChain-cases TypeClass.string_type = inr (λ h. cc h)
IsChain-cases TypeClass.structure_type = inr (λ h. cc h)
IsChain-cases TypeClass.type = inr (λ h. cc h)

module _ (dies : TypeDies) where
  -- No chain of typedefs and qualifiers comes back to itself.
  abbrev pub IsRanked : (ℕ → ℕ) → Type 0
  IsRanked rank =
      (t u : ℕ)
      → class_at dies t ≡ TypeClass.type_chain
      → (dies t).get_type ≡ some u
      → rank u < rank t

  -- A type at which a chain ends: one of another class, or one that refers to no type; or void.
  abbrev pub IsConcrete : Option ℕ → Type 0
  IsConcrete none = Unit {0}
  IsConcrete (some c) =
      (class_at dies c ≢ TypeClass.type_chain)
      ⊎ ((u : ℕ) × ((dies c).get_type ≡ some u) × (local_tag_is_type (dies u).tag ≡ false))

  pub concrete_self :
      (fuel t : ℕ)
      → class_at dies t ≢ TypeClass.type_chain
      → get_concrete_type dies (suc fuel) t ≡ ok (some t)
  unfolding get_concrete_type
  concrete_self fuel t h = by_class (class_at dies t) h
    where
      by_class :
          (c : TypeClass)
          → c ≢ TypeClass.type_chain
          → (elim c as (λ x. Outcome (Option ℕ)) [
            | TypeClass.type_chain ↦
                chained_type dies (get_concrete_type dies fuel) t (dies t).get_type
            | _ ↦ ok (some t)
          ])
            ≡ ok (some t)
      by_class TypeClass.type_chain n = absurd (n refl)
      by_class TypeClass.array_type n = refl
      by_class TypeClass.address_holding_type n = refl
      by_class TypeClass.base_type n = refl
      by_class TypeClass.string_type n = refl
      by_class TypeClass.structure_type n = refl
      by_class TypeClass.type n = refl

  pub concrete_chain :
      (fuel t : ℕ)
      → class_at dies t ≡ TypeClass.type_chain
      → get_concrete_type dies (suc fuel) t
        ≡ chained_type dies (get_concrete_type dies fuel) t (dies t).get_type
  unfolding get_concrete_type
  concrete_chain fuel t h = rw (get_concrete_type, h) refl

  concrete_fixed :
      (fuel : ℕ) (c : ℕ) → IsConcrete (some c) → get_concrete_type dies (suc fuel) c ≡ ok (some c)
  unfolding chained_type
  concrete_fixed fuel c (inl h) = concrete_self fuel c h
  concrete_fixed fuel c (inr (u, there, other)) = elim (IsChain-cases (class_at dies c)) [
    | inl e ↦ rw (concrete_chain fuel c e) (rw there (rw other refl))
    | inr e ↦ concrete_self fuel c e
  ]

  ended :
      (fuel t : ℕ) (c : Option ℕ)
      → get_concrete_type dies (suc fuel) t ≡ ok c
      → IsConcrete c
      → (c : Option ℕ) × (get_concrete_type dies (suc fuel) t ≡ ok c)
        × IsConcrete c
        × ((d : ℕ) → c ≡ some d → get_concrete_type dies (suc fuel) d ≡ ok (some d))
  ended fuel t none run concrete = (none, run, tt, λ d h. cc h)
  ended fuel t (some x) run concrete = (some x, run, concrete, λ d h. fixed d (ground (arith, h)))
    where
      fixed : (d : ℕ) → x ≡ d → get_concrete_type dies (suc fuel) d ≡ ok (some d)
      fixed d h =
          subst (λ y. get_concrete_type dies (suc fuel) y ≡ ok (some y)) h
            (concrete_fixed fuel x concrete)

  -- Where no chain of typedefs and qualifiers comes back to itself, get_concrete_type ends. It ends in
  -- void or at a concrete type, and the concrete type of that is the type itself.
  pub get_concrete_type-IsConcrete :
      (rank : ℕ → ℕ) (fuel t : ℕ)
      → IsRanked rank
      → rank t < fuel
      → (c : Option ℕ) × (get_concrete_type dies fuel t ≡ ok c)
        × IsConcrete c
        × ((d : ℕ) → c ≡ some d → get_concrete_type dies fuel d ≡ ok (some d))
  unfolding chained_type
  get_concrete_type-IsConcrete rank zero t ranked l = absurd (omega arith)
  get_concrete_type-IsConcrete rank (suc fuel) t ranked l = elim (IsChain-cases (class_at dies t)) [
    | inr e ↦ ended fuel t (some t) (concrete_self fuel t e) (inl e)
    | inl e ↦ elim (Option-cases (dies t).get_type) [
      | inl void ↦ ended fuel t none (rw (concrete_chain fuel t e) (rw void refl)) tt
      | inr (u, there) ↦ elim (Bool-cases (local_tag_is_type (dies u).tag)) [
        | inr other ↦
            ended fuel t (some t) (rw (concrete_chain fuel t e) (rw there (rw other refl)))
              (inr (u, there, other))
        | inl typed ↦
            let below : rank u < fuel = omega (arith, ranked t u e there) in
            let (c, run, concrete, fixed) = get_concrete_type-IsConcrete rank fuel u ranked below in
            ended fuel t c (rw (concrete_chain fuel t e) (rw there (rw typed run))) concrete
      ]
    ]
  ]
