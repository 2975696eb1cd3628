-- ===== src/Types/Tests.antt =====
-- src/dies.cpp: the concrete types, sizes and alignments of a few types.
use libdwarfpp.Base.{
  arith, inl, inr, ℕ, zero, suc, ◌≡◌, refl, true, false, Option, none, some, List, [], ◌∷◌, ◌==◌,
  if◌then◌else◌, ok,
}
use libdwarfpp.Spec.{is_one_of, local_tag_is_type}
use libdwarfpp.Types.{TypeDie, TypeDies, class_of}
use libdwarfpp.Types.Concrete.{get_concrete_type, chained_type}
use libdwarfpp.Types.Sizes.{calculate_byte_size, implicit_array_base, subseq_of}
use libdwarfpp.Types.Layout.{alignment_of_type}
use libdwarfpp.Types.Chains.{IsRanked, IsConcrete, get_concrete_type-IsConcrete}
use libdwarfpp.Types.Measures.{HasSize}
use libdwarfpp.Types.ByteSize.{calculate_byte_size_lem}
use libdwarfpp.Types.Equality.{
  EqualResult, is_equal, same_head, same_name, base_may_equal, unspecified_may_equal,
  subrange_may_equal, enumeration_may_equal, type_chain_may_equal, typedef_may_equal,
  array_may_equal,
}
use mathlib.Core.Logic.{◌↔◌}
use libdwarfpp.Types.Compared.{
  SameBase, SameSubrange, SameEnumeration, SameChain, SameTypedef, may_equal_iff,
}
use libdwarfpp.Types.ArrayEquality.{array_may_equal_lem}
use libdwarfpp.Types.Alignment.{alignment_of_type_lem}

abbrev pub a_die : ℕ → Option ℕ → Option ℕ → List ℕ → TypeDie
a_die tag type_at size children = record {
  tag = tag;
  get_type = type_at;
  get_byte_size = size;
  get_bit_size = none;
  get_bit_offset = none;
  get_data_bit_offset = none;
  get_encoding = 5;
  get_name = none;
  get_const_value = none;
  has_string_length = false;
  get_count = none;
  get_lower_bound = none;
  get_upper_bound = none;
  children = children;
  get_address_size = 8;
  get_language = 0x0c;
}

-- `typedef int10_t (bit size 30) t; const struct { t a[3][5]; void *p; }`
abbrev sample : TypeDies
sample t =
    if t == 10
    then record (a_die 0x24 none none []) { get_bit_size = some 30 }
    else if t == 20
    then a_die 0x16 (some 10) none []
    else if t == 30
    then a_die 0x01 (some 20) none (31 ∷ 32 ∷ [])
    else if t == 31
    then record (a_die 0x21 none none []) { get_count = some 3 }
    else if t == 32
    then record (a_die 0x21 none none []) { get_upper_bound = some 4 }
    else if t == 40
    then a_die 0x13 none (some 72) (41 ∷ 42 ∷ [])
    else if t == 41
    then a_die 0x0d (some 30) none []
    else if t == 42
    then a_die 0x0d (some 50) none []
    else if t == 50
    then a_die 0x0f none none []
    else a_die 0x26 (some 40) none []

-- A base type at 0, and a typedef at every other offset, of the type before it.
abbrev typedefs : TypeDies
typedefs zero = a_die 0x24 none (some 4) []
typedefs (suc t) = a_die 0x16 (some t) none []

typedefs-IsRanked : IsRanked typedefs (λ t. t)
unfolding class_of is_one_of
typedefs-IsRanked zero u chain there = absurd (cc there)
typedefs-IsRanked (suc t) u chain there = ground arith

get_concrete_type-IsConcrete_example :
    (c : Option ℕ) × (get_concrete_type typedefs 4 3 ≡ ok c)
    × IsConcrete typedefs c
    × ((d : ℕ) → c ≡ some d → get_concrete_type typedefs 4 d ≡ ok (some d))
get_concrete_type-IsConcrete_example =
    get_concrete_type-IsConcrete typedefs (λ t. t) 4 3 typedefs-IsRanked (omega arith)

concrete_60 : get_concrete_type sample 2 60 ≡ ok (some 40)
unfolding get_concrete_type chained_type class_of is_one_of local_tag_is_type
concrete_60 = refl

array-HasSize : HasSize sample 3 30 60
unfolding HasSize class_of is_one_of local_tag_is_type implicit_array_base subseq_of
array-HasSize = (
  20,
  4,
  31,
  32 ∷ [],
  3,
  5 ∷ [],
  refl,
  (10, refl, refl, inr (refl, (30, refl, omega arith, omega arith))),
  refl,
  (inl refl, (inr (refl, (0, 4, inr (refl, refl), refl, refl, omega arith, omega arith)), tt)),
  refl,
  omega arith,
)

struct-HasSize : HasSize sample 5 60 72
unfolding HasSize class_of is_one_of local_tag_is_type subseq_of
struct-HasSize =
    (40, refl, refl, (refl, ((30, 60, refl, array-HasSize), ((50, 8, refl, inr (refl, refl)), tt))))

calculate_byte_size_lem_example : calculate_byte_size sample 9 60 ≡ ok (some 72)
calculate_byte_size_lem_example =
    calculate_byte_size_lem sample 9 5 60 72 struct-HasSize (omega arith)

alignment_of_type_lem_example : alignment_of_type sample 9 8 60 ≡ ok 8
unfolding class_of is_one_of
alignment_of_type_lem_example =
    alignment_of_type_lem sample 9 5 8 60 72 struct-HasSize (omega arith) (λ h. cc h) (omega arith)

-- Types are equal where their offsets are.
abbrev equal_offsets : ℕ → Option ℕ → EqualResult
equal_offsets x none = EqualResult.unequal
equal_offsets x (some y) = if x == y then EqualResult.equal else EqualResult.unequal

equal_offsets_refl : (x : ℕ) → is_equal (equal_offsets x (some x)) ≡ true
unfolding is_equal
equal_offsets_refl x = ground arith

-- `int a[3]` at 30 and `int a[5]` at 33, and two bounds of each kind.
abbrev arrays : TypeDies
arrays t =
    if t == 30
    then a_die 0x01 (some 10) none (31 ∷ [])
    else if t == 33
    then a_die 0x01 (some 10) none (34 ∷ [])
    else if t == 31
    then record (a_die 0x21 none none []) { get_count = some 3 }
    else if t == 34
    then record (a_die 0x21 none none []) { get_count = some 5 }
    else a_die 0x24 none (some 4) []

may_equal_iff_example :
    ((base_may_equal arrays 31 (some 34) ≡ EqualResult.equal) ↔ SameBase (arrays 31) (arrays 34))
    × ((unspecified_may_equal arrays 31 (some 34) ≡ EqualResult.equal)
        ↔ ((arrays 34).tag ≡ (arrays 31).tag))
    × ((subrange_may_equal arrays equal_offsets 31 (some 34) ≡ EqualResult.equal)
        ↔ SameSubrange equal_offsets (arrays 31) (arrays 34))
    × ((enumeration_may_equal arrays equal_offsets 31 (some 34) ≡ EqualResult.equal)
        ↔ SameEnumeration equal_offsets arrays 31 34)
    × ((type_chain_may_equal arrays equal_offsets 31 (some 34) ≡ EqualResult.equal)
        ↔ SameChain equal_offsets (arrays 31) (arrays 34))
    × ((typedef_may_equal arrays equal_offsets 31 (some 34) ≡ EqualResult.equal)
        ↔ SameTypedef equal_offsets (arrays 31) (arrays 34))
may_equal_iff_example = may_equal_iff equal_offsets arrays 31 34

array_may_equal_lem_example :
    array_may_equal arrays equal_offsets 30 (some 33) ≡ ok EqualResult.equal
unfolding same_head same_name subseq_of
array_may_equal_lem_example =
    array_may_equal_lem arrays equal_offsets equal_offsets_refl 30 33 10 refl refl refl (refl, tt)
