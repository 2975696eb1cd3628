-- ===== src/Types.antt =====
-- src/dies.cpp: the attributes of the DIEs of types, and the classes of their tags.
mod Concrete
mod Sizes
mod Layout
mod Chains
mod Products
mod Measures
mod ByteSize
mod Alignment
mod Equality
mod Compared
mod ArrayEquality
mod Members
mod Offsets
mod Tests
mod MemberTests
use libdwarfpp.Base.{ℕ, Bool, Option, List, [], ◌∷◌, ◌==◌, if◌then◌else◌}
use libdwarfpp.Spec.{is_one_of}

-- What the methods of a type, of a subrange or of a member read from its DIE: the attributes with
-- their names in the source, `children`, and what the compilation unit around it says of its address
-- size and language. DIEs are named by their offsets; `get_type` is none where it is END. A name is
-- the list of its characters.
pub record TypeDie : Type 0 where
  pub tag : ℕ
  pub get_type : Option ℕ
  pub get_byte_size : Option ℕ
  pub get_bit_size : Option ℕ
  pub get_bit_offset : Option ℕ
  pub get_data_bit_offset : Option ℕ
  pub get_encoding : ℕ
  pub get_name : Option (List ℕ)
  pub get_const_value : Option ℕ
  pub has_string_length : Bool
  pub get_count : Option ℕ
  pub get_lower_bound : Option ℕ
  pub get_upper_bound : Option ℕ
  pub children : List ℕ
  pub get_address_size : ℕ
  pub get_language : ℕ

abbrev pub TypeDies : Type 0
TypeDies = ℕ → TypeDie

-- The classes that override the methods for concrete types and sizes.
pub data TypeClass : Type 0 where
  array_type address_holding_type type_chain base_type string_type structure_type type : TypeClass

unfoldable pub is_qualified_type : ℕ → Bool
is_qualified_type tag = is_one_of tag (0x26 ∷ 0x2d ∷ 0x35 ∷ 0x37 ∷ 0x40 ∷ [])

-- The class of a tag.
unfoldable pub class_of : ℕ → TypeClass
class_of tag =
    if tag == 0x01
    then TypeClass.array_type
    else if is_one_of tag (0x0f ∷ 0x10 ∷ 0x42 ∷ [])
    then TypeClass.address_holding_type
    else if is_one_of tag (0x16 ∷ 0x1f ∷ 0x20 ∷ 0x29 ∷ 0x26 ∷ 0x2d ∷ 0x35 ∷ 0x37 ∷ 0x40 ∷ [])
    then TypeClass.type_chain
    else if tag == 0x24
    then TypeClass.base_type
    else if tag == 0x12
    then TypeClass.string_type
    else if tag == 0x13
    then TypeClass.structure_type
    else TypeClass.type
