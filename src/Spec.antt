-- ===== src/Spec.antt =====
-- src/spec.cpp: the interpretation of an attribute from the classes that the attribute and the form
-- permit, and the predicates on tags. A class is a number, with flags in its bits 24 to 30; a list
-- of classes is its entries before EOL, a null pointer is `none`.
pub mod Classes
mod Tags
mod Tests
use libdwarfpp.Base.{ℕ, bit_and, Bool, false, ◌||◌, List, [], ◌∷◌, ◌++◌, Option, none, some}
use libdwarfpp.Base.{◌==◌, if◌then◌else◌}

-- `interp::EOL`
abbrev pub eol : ℕ
eol = 0

-- `cls & ~interp::FLAGS`, an int of 32 bits.
abbrev pub without_flags : ℕ → ℕ
without_flags cls = bit_and cls 0x80ffffff

-- The inner loop: the form's classes that are the attribute's class.
unfoldable pub matching_forms : ℕ → List ℕ → List ℕ
matching_forms cls [] = []
matching_forms cls (f ∷ fs) =
    let rest = matching_forms cls fs in if f == without_flags cls then f ∷ rest else rest

-- The intersection of the two lists.
unfoldable pub possibles_of : List ℕ → List ℕ → List ℕ
possibles_of [] fs = []
possibles_of (a ∷ attrs) fs = matching_forms a fs ++ possibles_of attrs fs

unfoldable pub singleton_form : List ℕ → List ℕ
singleton_form (f ∷ []) = f ∷ []
singleton_form fs = []

unfoldable pub singleton_attr : List ℕ → List ℕ
singleton_attr (a ∷ []) = without_flags a ∷ []
singleton_attr attrs = []

-- The possible interpretations, on two lists that are not both null.
unfoldable pub possibles : List ℕ → List ℕ → List ℕ
possibles [] (f ∷ fs) = singleton_form (f ∷ fs)
possibles (a ∷ attrs) [] = singleton_attr (a ∷ attrs)
possibles [] [] = possibles_of [] []
possibles (a ∷ attrs) (f ∷ fs) = possibles_of (a ∷ attrs) (f ∷ fs)

abbrev pub entries : Option (List ℕ) → List ℕ
entries none = []
entries (some xs) = xs

-- The switch: the first one, also where there are several.
unfoldable pub first_possible : List ℕ → ℕ
first_possible [] = eol
first_possible (p ∷ ps) = p

unfoldable pub explicit_interp : Option (List ℕ) → Option (List ℕ) → ℕ
explicit_interp none none = eol
explicit_interp (some attrs) forms = first_possible (possibles attrs (entries forms))
explicit_interp none (some forms) = first_possible (possibles [] forms)

-- `x == y1 || x == y2 || ...`
unfoldable pub is_one_of : ℕ → List ℕ → Bool
is_one_of x [] = false
is_one_of x (y ∷ ys) = x == y || is_one_of x ys

-- The tags, in the order of the source.
abbrev pub type_tags : List ℕ
type_tags =
    0x01 ∷ 0x02 ∷ 0x04 ∷ 0x08 ∷ 0x0f ∷ 0x10 ∷ 0x12 ∷ 0x13 ∷ 0x15 ∷ 0x16 ∷ 0x17 ∷ 0x19 ∷ 0x1f ∷ 0x20
    ∷ 0x21 ∷ 0x24 ∷ 0x26 ∷ 0x29 ∷ 0x2a ∷ 0x2d ∷ 0x35 ∷ 0x37 ∷ 0x38 ∷ 0x3b ∷ 0x40 ∷ 0x31 ∷ 0x42 ∷ []

unfoldable pub local_tag_is_type : ℕ → Bool
local_tag_is_type tag = is_one_of tag type_tags

abbrev pub type_chain_tags : List ℕ
type_chain_tags = 0x16 ∷ 0x26 ∷ 0x2d ∷ 0x35 ∷ 0x37 ∷ 0x40 ∷ 0x31 ∷ 0x42 ∷ []

unfoldable pub local_tag_is_type_chain : ℕ → Bool
local_tag_is_type_chain tag = is_one_of tag type_chain_tags

abbrev pub parent_tags : List ℕ
parent_tags =
    0x02 ∷ 0x04 ∷ 0x0b ∷ 0x11 ∷ 0x13 ∷ 0x15 ∷ 0x17 ∷ 0x19 ∷ 0x1a ∷ 0x1c ∷ 0x1e ∷ 0x20 ∷ 0x25 ∷ 0x2b
    ∷ 0x2e ∷ 0x32 ∷ 0x38 ∷ 0x39 ∷ 0x3a ∷ 0x3c ∷ 0x3d ∷ []

unfoldable pub local_tag_has_named_children : ℕ → Bool
local_tag_has_named_children tag = is_one_of tag parent_tags
