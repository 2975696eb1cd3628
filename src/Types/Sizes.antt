-- ===== src/Types/Sizes.antt =====
-- src/dies.cpp: the sizes of types.
use libdwarfpp.Base.{
  ℕ, zero, suc, ◌+◌, ◌-◌, ◌*◌, ◌/◌, ◌%◌, ◌^◌, Bool, true, false, ◌&&◌, not, Option, none, some,
  List, [], ◌∷◌, ◌==◌, if◌then◌else◌, Outcome, ok, err, assertion, out_of_fuel, undefined, ◌>>=◌,
}
use libdwarfpp.Spec.{is_one_of}
use libdwarfpp.Types.{TypeDie, TypeDies, TypeClass}
use libdwarfpp.Types.Concrete.{class_at, get_concrete_type, concrete_if}

-- `base_type_die::calculate_byte_size`, without and with DW_AT_byte_size.
unfoldable pub bytes_of_bits : Option ℕ → Option ℕ
bytes_of_bits none = none
bytes_of_bits (some b) = some (if b % 8 == 0 then b / 8 else 1 + b / 8)

unfoldable pub base_byte_size : TypeDie → Option ℕ
base_byte_size d = elim d.get_byte_size [ some n ↦ some n | none ↦ bytes_of_bits d.get_bit_size ]

unfoldable pub or_else : Option ℕ → ℕ → ℕ
or_else none n = n
or_else (some m) n = m

-- `base_type_die::bit_size_and_offset`; `unsigned` has 32 bits.
unfoldable pub whole_bits : Option ℕ → Outcome ℕ
whole_bits none = err undefined
whole_bits (some n) = ok (8 * n % 2 ^ 64)

unfoldable pub bit_size_and_offset : TypeDie → Outcome (ℕ × ℕ)
bit_size_and_offset d = do
  bit_size ← elim d.get_bit_size [ some n ↦ ok n | none ↦ whole_bits (base_byte_size d) ]
  let bit_offset = or_else d.get_data_bit_offset (or_else d.get_bit_offset 0)
  ok (bit_size % 2 ^ 32, bit_offset % 2 ^ 32)

-- `base_type_die::is_bitfield_type`
unfoldable pub is_bitfield_type : TypeDie → Outcome Bool
is_bitfield_type d = do
  (bit_size, bit_offset) ← bit_size_and_offset d
  bits ← whole_bits (base_byte_size d)
  ok (not (bit_offset == 0 && bit_size == bits))

-- `string_type_die::fixed_length_in_bytes`
unfoldable pub fixed_length_in_bytes : TypeDie → Option ℕ
fixed_length_in_bytes d = if d.has_string_length then none else d.get_byte_size

-- `compile_unit_die::implicit_array_base`
unfoldable pub implicit_array_base : ℕ → Option ℕ
implicit_array_base language =
    if is_one_of language (0x02 ∷ 0x01 ∷ 0x04 ∷ 0x0c ∷ [])
    then some 0
    else if is_one_of language (0x07 ∷ 0x08 ∷ 0x0e ∷ [])
    then some 1
    else none

-- The count of a subrange by its bounds.
unfoldable pub count_between : Option ℕ → Option ℕ → Option ℕ
count_between none upper = none
count_between (some lower) none = none
count_between (some lower) (some upper) = some ((upper + 2 ^ 64 - lower + 1) % 2 ^ 64)

unfoldable pub subrange_count : Option ℕ → TypeDie → Option ℕ
subrange_count implicit d =
    let lower : Option ℕ = elim d.get_lower_bound [ some l ↦ some l | none ↦ implicit ] in
    elim d.get_count [ some c ↦ some c | none ↦ count_between lower d.get_upper_bound ]

-- The loop of `element_count`.
unfoldable pub total_count : Option ℕ → List (Option ℕ) → Option ℕ
total_count total [] = total
total_count total (none ∷ counts) = none
total_count none (some c ∷ counts) = total_count (some c) counts
total_count (some n) (some c ∷ counts) = total_count (some (n * c % 2 ^ 64)) counts

-- `count && calculated_byte_size`
unfoldable pub array_size : Option ℕ → Option ℕ → Option ℕ
array_size none size = none
array_size (some count) none = none
array_size (some count) (some n) = some (count * n % 2 ^ 64)

module _ (dies : TypeDies) where
  -- The children with a tag, `children().subseq_of<..>()`.
  unfoldable pub subseq_of : ℕ → List ℕ → List ℕ
  subseq_of tag [] = []
  subseq_of tag (c ∷ cs) =
      let rest = subseq_of tag cs in if (dies c).tag == tag then c ∷ rest else rest

  unfoldable pub counts_of : Option ℕ → List ℕ → List (Option ℕ)
  counts_of implicit [] = []
  counts_of implicit (c ∷ cs) = subrange_count implicit (dies c) ∷ counts_of implicit cs

  unfoldable pub dimension_element_counts : ℕ → Outcome (List (Option ℕ))
  dimension_element_counts t =
      let implicit = implicit_array_base (dies t).get_language in
      elim (dies t).get_type [
        | none ↦ err assertion
        | some e ↦ ok (counts_of implicit (subseq_of 0x21 (dies t).children))
      ]

  unfoldable pub element_count : ℕ → Outcome (Option ℕ)
  element_count t = do counts ← dimension_element_counts t; ok (total_count none counts)

  module _ (size_of : ℕ → Outcome (Option ℕ)) where
    -- `type_chain_die::calculate_byte_size`, of the concrete type. offset_here() fails on END.
    unfoldable pub chain_byte_size : ℕ → Option ℕ → Outcome (Option ℕ)
    chain_byte_size t none = err assertion
    chain_byte_size t (some c) = elim (t == c) [ true ↦ err assertion | false ↦ size_of c ]

    -- `array_type_die::calculate_byte_size`
    unfoldable pub array_byte_size : ℕ → Outcome (Option ℕ)
    array_byte_size t = elim (dies t).get_type [
      | none ↦ err assertion
      | some e ↦ element_count t >>= λ count. size_of e >>= λ size. ok (array_size count size)
    ]

    -- The size of a member, and what remains of the loop.
    unfoldable pub member_size : Option ℕ → Outcome (Option ℕ)
    member_size none = err undefined
    member_size (some u) = size_of u

    -- The loop of `structure_type_die::calculate_byte_size`.
    unfoldable pub structure_byte_size : Option ℕ → List ℕ → Outcome (Option ℕ)
    structure_byte_size answer [] = ok answer
    structure_byte_size answer (m ∷ ms) =
        let rest = structure_byte_size answer ms in
        elim (member_size (dies m).get_type) [
          | err e ↦ err e
          | ok none ↦ ok none
          | ok (some n) ↦ rest
        ]

  -- `calculate_byte_size` of the class of the type.
  unfoldable pub calculate_byte_size : ℕ → ℕ → Outcome (Option ℕ)
  calculate_byte_size zero t = err out_of_fuel
  calculate_byte_size (suc fuel) t = elim (class_at dies t) [
    | TypeClass.base_type ↦ ok (base_byte_size (dies t))
    | TypeClass.string_type ↦ ok (fixed_length_in_bytes (dies t))
    | TypeClass.address_holding_type ↦
        ok (some (or_else (dies t).get_byte_size (dies t).get_address_size))
    | TypeClass.array_type ↦ array_byte_size (calculate_byte_size fuel) t
    | TypeClass.structure_type ↦
        structure_byte_size (calculate_byte_size fuel) (dies t).get_byte_size
          (subseq_of 0x0d (dies t).children)
    | TypeClass.type_chain ↦
        get_concrete_type dies (suc fuel) t >>= chain_byte_size (calculate_byte_size fuel) t
    | TypeClass.type ↦ ok (dies t).get_byte_size
  ]

  -- The loops of `ultimate_element_type` and `ultimate_element_count`.
  unfoldable pub ultimate_type_loop : ℕ → Option ℕ → Outcome (Option ℕ)
  ultimate_type_loop zero cur = err out_of_fuel
  ultimate_type_loop (suc fuel) none = ok none
  ultimate_type_loop (suc fuel) (some t) = elim (class_at dies t) [
    | TypeClass.array_type ↦ concrete_if dies fuel (dies t).get_type >>= ultimate_type_loop fuel
    | _ ↦ ok (some t)
  ]

  unfoldable pub ultimate_element_type : ℕ → ℕ → Outcome (Option ℕ)
  ultimate_element_type fuel t = get_concrete_type dies fuel t >>= ultimate_type_loop fuel

  unfoldable pub counted_further : (ℕ → Outcome (Option ℕ)) → ℕ → Option ℕ → Outcome (Option ℕ)
  counted_further next count none = ok none
  counted_further next count (some c) = next (count * c % 2 ^ 64)

  unfoldable pub ultimate_count_loop : ℕ → ℕ → Option ℕ → Outcome (Option ℕ)
  ultimate_count_loop zero count cur = err out_of_fuel
  ultimate_count_loop (suc fuel) count none = ok (some count)
  ultimate_count_loop (suc fuel) count (some t) =
      let onward =
        λ (n : ℕ). concrete_if dies fuel (dies t).get_type >>= ultimate_count_loop fuel n in
      elim (class_at dies t) [
        | TypeClass.array_type ↦ element_count t >>= counted_further onward count
        | _ ↦ ok (some count)
      ]

  unfoldable pub ultimate_element_count : ℕ → ℕ → Outcome (Option ℕ)
  ultimate_element_count fuel t = get_concrete_type dies fuel t >>= ultimate_count_loop fuel 1
