-- ===== src/Types/Layout.antt =====
-- src/dies.cpp: what a compilation unit says of the layout of types.
use libdwarfpp.Base.{
  ℕ, Bool, true, false, ◌&&◌, ◌||◌, Option, none, some, List, [], ◌∷◌, ◌==◌, ltb, if◌then◌else◌,
  Outcome, ok, ◌>>=◌,
}
use libdwarfpp.Spec.{is_one_of}
use libdwarfpp.Types.{TypeDie, TypeDies, TypeClass}
use libdwarfpp.Types.Concrete.{class_at}
use libdwarfpp.Types.Equality.{same_name}
use libdwarfpp.Types.Sizes.{calculate_byte_size, ultimate_element_type}

abbrev min : ℕ → ℕ → ℕ
min a b = if ltb b a then b else a

abbrev max : ℕ → ℕ → ℕ
max a b = if ltb a b then b else a

unfoldable pub is_one_byte : Option ℕ → Bool
is_one_byte none = false
is_one_byte (some n) = n == 1

-- `std::max<unsigned>(get_address_size(), std::min<Dwarf_Unsigned>(1, size))`, or 1 for no size.
unfoldable pub alignment_of_size : ℕ → Option ℕ → ℕ
alignment_of_size address_size none = 1
alignment_of_size address_size (some size) = max address_size (min 1 size)

-- `!name_here() || *name_here() == "void"`
unfoldable pub is_void_name : Option (List ℕ) → Bool
is_void_name none = true
is_void_name (some name) = same_name (some name) (some (0x76 ∷ 0x6f ∷ 0x69 ∷ 0x64 ∷ []))

module _ (dies : TypeDies) where
  -- `compile_unit_die::is_generic_pointee_type`, in a unit with a language.
  unfoldable pub is_generic_pointee_die : TypeDie → Bool
  is_generic_pointee_die d =
      d.tag == 0x3b && is_void_name d.get_name
      || d.tag == 0x24 && is_one_byte d.get_byte_size && is_one_of d.get_encoding (0x06 ∷ 0x08 ∷ [])

  unfoldable pub is_generic_pointee_type : ℕ → Option ℕ → Bool
  is_generic_pointee_type language t =
      if is_one_of language (0x02 ∷ 0x01 ∷ 0x04 ∷ 0x0c ∷ [])
      then elim t [ none ↦ true | some u ↦ is_generic_pointee_die (dies u) ]
      else false

  -- The type that `alignment_of_type` measures: not the array, but what it holds at last.
  unfoldable pub measured_type : ℕ → ℕ → Outcome ℕ
  measured_type fuel t = elim (class_at dies t) [
    | TypeClass.array_type ↦ ultimate_element_type dies fuel t >>= λ element. elim element [
      | none ↦ ok t
      | some u ↦ ok u
    ]
    | _ ↦ ok t
  ]

  -- `compile_unit_die::alignment_of_type`, in a unit with an address size.
  unfoldable pub alignment_of_type : ℕ → ℕ → ℕ → Outcome ℕ
  alignment_of_type fuel address_size t = do
    measured ← measured_type fuel t
    size ← calculate_byte_size dies fuel measured
    ok (alignment_of_size address_size size)
