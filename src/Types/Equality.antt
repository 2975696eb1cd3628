-- ===== src/Types/Equality.antt =====
-- src/dies.cpp: the equality of types, may_equal of each class. The virtual call of type_die::equal on
-- the types below is the argument `equal_to`, with the set of assumptions that it is given.
use libdwarfpp.Base.{
  ℕ, Bool, true, false, ◌&&◌, Option, none, some, List, [], ◌∷◌, ◌==◌, if◌then◌else◌, Outcome, ok,
  err, undefined,
}
use libdwarfpp.Types.{TypeDie, TypeDies}
use libdwarfpp.Types.Sizes.{subseq_of}

-- `equal_result_t`, and its conversion to bool.
pub data EqualResult : Type 0 where
  unequal equal equal_by_assumption : EqualResult

unfoldable pub is_equal : EqualResult → Bool
is_equal EqualResult.unequal = false
is_equal EqualResult.equal = true
is_equal EqualResult.equal_by_assumption = true

unfoldable pub result_of : Bool → EqualResult
result_of true = EqualResult.equal
result_of false = EqualResult.unequal

-- `==` on strings, on opt<string> and on opt<Dwarf_Unsigned>.
unfoldable pub same_chars : List ℕ → List ℕ → Bool
same_chars [] [] = true
same_chars [] (y ∷ ys) = false
same_chars (x ∷ xs) [] = false
same_chars (x ∷ xs) (y ∷ ys) = (x == y) && same_chars xs ys

unfoldable pub same_name : Option (List ℕ) → Option (List ℕ) → Bool
same_name none none = true
same_name none (some y) = false
same_name (some x) none = false
same_name (some x) (some y) = same_chars x y

unfoldable pub same_number : Option ℕ → Option ℕ → Bool
same_number none none = true
same_number none (some y) = false
same_number (some x) none = false
same_number (some x) (some y) = x == y

unfoldable pub both_named : Option (List ℕ) → Option (List ℕ) → Bool
both_named mine none = false
both_named none (some theirs) = false
both_named (some mine) (some theirs) = same_chars theirs mine

-- `base_type_die::may_equal`, with a type.
unfoldable pub base_equal : TypeDie → TypeDie → Bool
base_equal d e =
    d.tag == e.tag
    && same_name d.get_name e.get_name
    && d.get_encoding == e.get_encoding
    && same_number d.get_byte_size e.get_byte_size
    && same_number d.get_bit_size e.get_bit_size
    && same_number d.get_bit_offset e.get_bit_offset

-- An enumerator and the one at its place.
unfoldable pub same_enumerator : TypeDie → TypeDie → Bool
same_enumerator d e =
    same_name d.get_name e.get_name && same_number d.get_const_value e.get_const_value

-- `tag == .. && name == ..`, with the same class.
unfoldable pub same_head : TypeDie → TypeDie → Bool
same_head d e = d.tag == e.tag && same_name d.get_name e.get_name

-- The loops over the children of both, which have to be as many.
unfoldable pub pairwise : (ℕ → ℕ → Bool) → List ℕ → List ℕ → Bool
pairwise p [] [] = true
pairwise p [] (d ∷ ds) = false
pairwise p (c ∷ cs) [] = false
pairwise p (c ∷ cs) (d ∷ ds) = p c d && pairwise p cs ds

-- `children().subseq_of<subrange_type_die>()` and `children().subseq_of<enumerator_die>()`
abbrev pub subranges : TypeDies → ℕ → List ℕ
subranges dies t = subseq_of dies 0x21 (dies t).children

abbrev pub enumerators : TypeDies → ℕ → List ℕ
enumerators dies t = subseq_of dies 0x28 (dies t).children

module _ (dies : TypeDies) where
  -- `base_type_die::may_equal` and `unspecified_type_die::may_equal`
  unfoldable pub base_may_equal : ℕ → Option ℕ → EqualResult
  base_may_equal self none = EqualResult.unequal
  base_may_equal self (some t) = result_of (base_equal (dies self) (dies t))

  unfoldable pub unspecified_may_equal : ℕ → Option ℕ → EqualResult
  unspecified_may_equal self none = EqualResult.unequal
  unspecified_may_equal self (some t) = result_of ((dies t).tag == (dies self).tag)

  module _ (equal_to : ℕ → Option ℕ → EqualResult) where
    -- `(!x == !y) && (!x || x->equal(y))`
    unfoldable pub types_equal : Option ℕ → Option ℕ → Bool
    types_equal none none = true
    types_equal none (some y) = false
    types_equal (some x) none = false
    types_equal (some x) (some y) = is_equal (equal_to x (some y))

    -- `subrange_type_die::may_equal`
    unfoldable pub subrange_equal : TypeDie → TypeDie → Bool
    subrange_equal d e =
        same_head d e
        && types_equal d.get_type e.get_type
        && same_number d.get_lower_bound e.get_lower_bound
        && same_number d.get_upper_bound e.get_upper_bound
        && same_number d.get_count e.get_count

    unfoldable pub subrange_may_equal : ℕ → Option ℕ → EqualResult
    subrange_may_equal self none = EqualResult.unequal
    subrange_may_equal self (some t) = result_of (subrange_equal (dies self) (dies t))

    -- `enumeration_type_die::may_equal`
    unfoldable pub enumeration_may_equal : ℕ → Option ℕ → EqualResult
    enumeration_may_equal self none = EqualResult.unequal
    enumeration_may_equal self (some t) = result_of (
        same_head (dies self) (dies t)
        && types_equal (dies self).get_type (dies t).get_type
        && pairwise (λ c d. same_enumerator (dies c) (dies d)) (enumerators dies self)
            (enumerators dies t))

    -- `type_chain_die::may_equal` and `typedef_die::may_equal`
    unfoldable pub type_chain_may_equal : ℕ → Option ℕ → EqualResult
    type_chain_may_equal self none = EqualResult.unequal
    type_chain_may_equal self (some t) =
        result_of
          ((dies self).tag == (dies t).tag && types_equal (dies self).get_type (dies t).get_type)

    unfoldable pub typedef_may_equal : ℕ → Option ℕ → EqualResult
    typedef_may_equal self none = EqualResult.unequal
    typedef_may_equal self (some t) =
        if (dies t).tag == 0x16 && both_named (dies self).get_name (dies t).get_name
        then type_chain_may_equal self (some t)
        else EqualResult.unequal

    -- `array_type_die::may_equal`: subranges by their types, where both sides of the first test are ours.
    unfoldable pub subrange_types_equal : ℕ → ℕ → Bool
    subrange_types_equal ours theirs = elim (dies ours).get_type [
      | none ↦ true
      | some x ↦ is_equal (equal_to x (dies theirs).get_type)
    ]

    unfoldable pub element_types_equal : Option ℕ → Option ℕ → Outcome EqualResult
    element_types_equal none theirs = err undefined
    element_types_equal (some x) theirs = ok (result_of (is_equal (equal_to x theirs)))

    unfoldable pub array_may_equal : ℕ → Option ℕ → Outcome EqualResult
    array_may_equal self none = ok EqualResult.unequal
    array_may_equal self (some t) =
        if same_head (dies self) (dies t)
          && pairwise subrange_types_equal (subranges dies self) (subranges dies t)
        then element_types_equal (dies self).get_type (dies t).get_type
        else ok EqualResult.unequal
