-- ===== src/Spec/Tests.antt =====
-- src/spec.cpp: classes and tags on small examples.
use libdwarfpp.Base.{true, ◌≡◌, refl, [], ◌∷◌, some, none}
use libdwarfpp.Spec.{explicit_interp, first_possible, possibles, local_tag_is_type_chain}
use libdwarfpp.Spec.{is_one_of, singleton_form}
use libdwarfpp.Spec.Classes.{explicit_interp_first}

-- The attribute permits the classes 3, 5 with a flag, and 6; the form permits 6 and 5.
explicit_interp_first_example :
    explicit_interp (some (3 ∷ 0x01000005 ∷ 6 ∷ [])) (some (6 ∷ 5 ∷ [])) ≡ 5
unfolding is_one_of
explicit_interp_first_example =
    explicit_interp_first (3 ∷ []) 0x01000005 (6 ∷ []) (6 ∷ 5 ∷ []) (refl, tt) refl

-- An attribute that is not known takes the only class of the form.
unknown_attribute : explicit_interp none (some (6 ∷ [])) ≡ 6
unfolding explicit_interp first_possible possibles singleton_form
unknown_attribute = refl

const_type : local_tag_is_type_chain 0x26 ≡ true
unfolding local_tag_is_type_chain is_one_of
const_type = refl
