-- ===== src/Types/MemberTests.antt =====
-- src/dies.cpp: the offsets of the members of a small structure.
use libdwarfpp.Base.{arith, ℕ, ◌*◌, ◌≡◌, refl, true, false, none, some, [], ◌∷◌, ok}
use libdwarfpp.Spec.{is_one_of}
use libdwarfpp.Types.{TypeDies, class_of}
use libdwarfpp.Types.Sizes.{calculate_byte_size, base_byte_size}
use libdwarfpp.Types.Members.{MemberDie, EnclosingType, byte_offset_in_enclosing_type}
use libdwarfpp.Types.Offsets.{at_offset, byte_offset_in_enclosing_type_lem, packed_offset_lem}
use libdwarfpp.Types.Tests.{a_die}

-- Three members of four bytes each, with and without locations.
abbrev int_die : TypeDies
int_die t = a_die 0x24 none (some 4) []

abbrev located : ℕ → MemberDie
located m = record {
  is_declaration = false;
  get_data_member_location = some (at_offset 0 0 (m * 4) ∷ []);
  get_type = some 10;
}

abbrev unlocated : ℕ → MemberDie
unlocated m = record { is_declaration = false; get_data_member_location = none; get_type = some 10 }

abbrev structure : EnclosingType
structure = record {
  is_with_data_members = true;
  is_union_type = false;
  data_members = 0 ∷ 1 ∷ 2 ∷ [];
}

byte_offset_in_enclosing_type_lem_example :
    byte_offset_in_enclosing_type located int_die structure 1 false 2 ≡ ok (some 8)
byte_offset_in_enclosing_type_lem_example =
    byte_offset_in_enclosing_type_lem located int_die structure 0 2 0 0 8 false refl refl refl
      (omega arith)

packed_offset_lem_example :
    byte_offset_in_enclosing_type unlocated int_die structure 2 true 2 ≡ ok (some 4)
unfolding calculate_byte_size base_byte_size class_of is_one_of
packed_offset_lem_example =
    packed_offset_lem unlocated int_die structure 0 0 2 10 4 (1 ∷ []) [] refl refl refl refl refl
      refl refl (omega arith) refl refl refl (refl, tt)
