-- ===== src/Types/Alignment.antt =====
-- src/dies.cpp: the alignment of types.
use libdwarfpp.Base.{ℕ, ◌<◌, ◌≤◌, ◌≡◌, ◌≢◌, refl, ap, arith, ok}
use libdwarfpp.Types.{TypeDies, TypeClass}
use libdwarfpp.Types.Concrete.{class_at}
use libdwarfpp.Types.Layout.{alignment_of_size, measured_type, alignment_of_type}
use libdwarfpp.Types.Measures.{HasSize}
use libdwarfpp.Types.ByteSize.{calculate_byte_size_lem}

module _ (dies : TypeDies) where
  -- What is measured of a type that is no array is the type.
  measured_self :
      (fuel t : ℕ) (c : TypeClass)
      → class_at dies t ≡ c
      → c ≢ TypeClass.array_type
      → measured_type dies fuel t ≡ ok t
  unfolding measured_type
  measured_self fuel t TypeClass.array_type e other = absurd (other refl)
  measured_self fuel t TypeClass.address_holding_type e other = rw (measured_type, e) refl
  measured_self fuel t TypeClass.type_chain e other = rw (measured_type, e) refl
  measured_self fuel t TypeClass.base_type e other = rw (measured_type, e) refl
  measured_self fuel t TypeClass.string_type e other = rw (measured_type, e) refl
  measured_self fuel t TypeClass.structure_type e other = rw (measured_type, e) refl
  measured_self fuel t TypeClass.type e other = rw (measured_type, e) refl

  -- A type that is no array and has a size, of whatever number of bytes, is aligned to the address
  -- size of its unit, where that is not 0.
  pub alignment_of_type_lem :
      (fuel depth address_size t n : ℕ)
      → HasSize dies depth t n
      → depth ≤ fuel
      → class_at dies t ≢ TypeClass.array_type
      → 0 < address_size
      → alignment_of_type dies fuel address_size t ≡ ok address_size
  unfolding alignment_of_type alignment_of_size
  alignment_of_type_lem fuel depth address_size t n sized l other pos =
      rw (measured_self fuel t (class_at dies t) refl other)
        (rw (calculate_byte_size_lem dies fuel depth t n sized l) (ap (λ x. ok x) (ground arith)))
