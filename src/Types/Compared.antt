-- ===== src/Types/Compared.antt =====
-- src/dies.cpp: what may_equal compares, in each class.
use mathlib.Core.Logic.{◌↔◌}
use libdwarfpp.Base.{
  ℕ, ◌≡◌, ◌≢◌, refl, sym, ap, if◌then◌else◌, Bool, true, false, ◌&&◌, Option, none, some, List, [],
  ◌∷◌, ==_iff,
}
use libdwarfpp.Types.{TypeDie, TypeDies}
use libdwarfpp.Types.Equality.{
  EqualResult, is_equal, result_of, same_chars, same_name, same_number, both_named, base_equal,
  same_enumerator, same_head, pairwise, enumerators, base_may_equal, unspecified_may_equal,
  types_equal, subrange_equal, subrange_may_equal, enumeration_may_equal, type_chain_may_equal,
  typedef_may_equal,
}

-- Base types of one name, encoding and size, with the same bits.
abbrev pub SameBase : TypeDie → TypeDie → Type 0
SameBase d e =
    (d.tag ≡ e.tag)
    × (d.get_name ≡ e.get_name)
    × (d.get_encoding ≡ e.get_encoding)
    × (d.get_byte_size ≡ e.get_byte_size)
    × (d.get_bit_size ≡ e.get_bit_size)
    × (d.get_bit_offset ≡ e.get_bit_offset)

-- The names of the enumerators with their values, in order.
pub constants : TypeDies → List ℕ → List (Option (List ℕ) × Option ℕ)
constants dies [] = []
constants dies (c ∷ cs) = ((dies c).get_name, (dies c).get_const_value) ∷ constants dies cs

and_iff :
    {P Q : Type 0} {a b : Bool} → (a ≡ true) ↔ P → (b ≡ true) ↔ Q → ((a && b) ≡ true) ↔ (P × Q)
and_iff {a = true} {b = true} p q = ((λ h. (p.0 refl, q.0 refl)), (λ h. refl))
and_iff {a = true} {b = false} p q = ((λ h. cc h), (λ h. q.1 h.1))
and_iff {a = false} {b} p q = ((λ h. cc h), (λ h. p.1 h.0))

result_of_iff : {P : Type 0} {b : Bool} → (b ≡ true) ↔ P → (result_of b ≡ EqualResult.equal) ↔ P
unfolding result_of
result_of_iff {b = true} p = ((λ h. p.0 refl), (λ h. refl))
result_of_iff {b = false} p = ((λ h. cc h), (λ h. cc (p.1 h)))

same_chars_iff : (a b : List ℕ) → (same_chars a b ≡ true) ↔ (a ≡ b)
unfolding same_chars
same_chars_iff [] [] = ((λ h. refl), (λ h. refl))
same_chars_iff [] (y ∷ ys) = ((λ h. cc h), (λ h. cc h))
same_chars_iff (x ∷ xs) [] = ((λ h. cc h), (λ h. cc h))
same_chars_iff (x ∷ xs) (y ∷ ys) =
    let both = and_iff (==_iff x y) (same_chars_iff xs ys) in
    ((λ h. let (p, q) = both.0 h in cc (p, q)), (λ h. both.1 (cc h, cc h)))

same_name_iff : (a b : Option (List ℕ)) → (same_name a b ≡ true) ↔ (a ≡ b)
unfolding same_name
same_name_iff none none = ((λ h. refl), (λ h. refl))
same_name_iff none (some y) = ((λ h. cc h), (λ h. cc h))
same_name_iff (some x) none = ((λ h. cc h), (λ h. cc h))
same_name_iff (some x) (some y) =
    ((λ h. ap some ((same_chars_iff x y).0 h)), (λ h. (same_chars_iff x y).1 (cc h)))

same_number_iff : (a b : Option ℕ) → (same_number a b ≡ true) ↔ (a ≡ b)
unfolding same_number
same_number_iff none none = ((λ h. refl), (λ h. refl))
same_number_iff none (some y) = ((λ h. cc h), (λ h. cc h))
same_number_iff (some x) none = ((λ h. cc h), (λ h. cc h))
same_number_iff (some x) (some y) =
    ((λ h. ap some ((==_iff x y).0 h)), (λ h. (==_iff x y).1 (cc h)))

same_enumerators_iff :
    (dies : TypeDies) (cs ds : List ℕ)
    → (pairwise (λ c d. same_enumerator (dies c) (dies d)) cs ds ≡ true)
      ↔ (constants dies cs ≡ constants dies ds)
unfolding pairwise constants same_enumerator
same_enumerators_iff dies [] [] = ((λ h. refl), (λ h. refl))
same_enumerators_iff dies [] (d ∷ ds) = ((λ h. cc h), (λ h. cc h))
same_enumerators_iff dies (c ∷ cs) [] = ((λ h. cc h), (λ h. cc h))
same_enumerators_iff dies (c ∷ cs) (d ∷ ds) =
    let both =
      and_iff
        (and_iff (same_name_iff (dies c).get_name (dies d).get_name)
          (same_number_iff (dies c).get_const_value (dies d).get_const_value))
        (same_enumerators_iff dies cs ds) in
    ((λ h. let ((p, q), r) = both.0 h in cc (p, q, r)), (λ h. both.1 ((cc h, cc h), cc h)))

same_head_iff :
    (d e : TypeDie) → (same_head d e ≡ true) ↔ ((d.tag ≡ e.tag) × (d.get_name ≡ e.get_name))
unfolding same_head
same_head_iff d e = and_iff (==_iff d.tag e.tag) (same_name_iff d.get_name e.get_name)

base_equal_iff : (d e : TypeDie) → (base_equal d e ≡ true) ↔ SameBase d e
unfolding base_equal
base_equal_iff d e =
    let all =
      and_iff
        (and_iff
          (and_iff
            (and_iff (and_iff (==_iff d.tag e.tag) (same_name_iff d.get_name e.get_name))
              (==_iff d.get_encoding e.get_encoding))
            (same_number_iff d.get_byte_size e.get_byte_size))
          (same_number_iff d.get_bit_size e.get_bit_size))
        (same_number_iff d.get_bit_offset e.get_bit_offset) in
    (
      (λ h. let (((((p, q), r), s), t), u) = all.0 h in (p, q, r, s, t, u)),
      (λ (p, q, r, s, t, u). all.1 (((((p, q), r), s), t), u)),
    )

module _ (equal_to : ℕ → Option ℕ → EqualResult) where
  -- The types below: none on both sides, or equal by type_die::equal.
  abbrev pub SameTypes : Option ℕ → Option ℕ → Type 0
  SameTypes none none = Unit
  SameTypes none (some y) = ⊥
  SameTypes (some x) none = ⊥
  SameTypes (some x) (some y) = is_equal (equal_to x (some y)) ≡ true

  abbrev pub SameSubrange : TypeDie → TypeDie → Type 0
  SameSubrange d e =
      (d.tag ≡ e.tag)
      × (d.get_name ≡ e.get_name)
      × SameTypes d.get_type e.get_type
      × (d.get_lower_bound ≡ e.get_lower_bound)
      × (d.get_upper_bound ≡ e.get_upper_bound)
      × (d.get_count ≡ e.get_count)

  abbrev pub SameChain : TypeDie → TypeDie → Type 0
  SameChain d e = (d.tag ≡ e.tag) × SameTypes d.get_type e.get_type

  -- Typedefs of one name, which they have.
  abbrev pub SameTypedef : TypeDie → TypeDie → Type 0
  SameTypedef d e = (e.tag ≡ 0x16) × (d.get_name ≡ e.get_name) × (d.get_name ≢ none) × SameChain d e

  abbrev pub SameEnumeration : TypeDies → ℕ → ℕ → Type 0
  SameEnumeration dies t u =
      ((dies t).tag ≡ (dies u).tag)
      × ((dies t).get_name ≡ (dies u).get_name)
      × SameTypes (dies t).get_type (dies u).get_type
      × (constants dies (enumerators dies t) ≡ constants dies (enumerators dies u))

  types_equal_iff :
      (dies : TypeDies) (x y : Option ℕ) → (types_equal dies equal_to x y ≡ true) ↔ SameTypes x y
  unfolding types_equal
  types_equal_iff dies none none = ((λ h. tt), (λ h. refl))
  types_equal_iff dies none (some y) = ((λ h. cc h), (λ h. absurd h))
  types_equal_iff dies (some x) none = ((λ h. cc h), (λ h. absurd h))
  types_equal_iff dies (some x) (some y) = ((λ h. h), (λ h. h))

  subrange_equal_iff :
      (dies : TypeDies) (d e : TypeDie)
      → (subrange_equal dies equal_to d e ≡ true) ↔ SameSubrange d e
  unfolding subrange_equal
  subrange_equal_iff dies d e =
      let all =
        and_iff
          (and_iff
            (and_iff (and_iff (same_head_iff d e) (types_equal_iff dies d.get_type e.get_type))
              (same_number_iff d.get_lower_bound e.get_lower_bound))
            (same_number_iff d.get_upper_bound e.get_upper_bound))
          (same_number_iff d.get_count e.get_count) in
      (
        (λ h. let (((((p, q), r), s), t), u) = all.0 h in (p, q, r, s, t, u)),
        (λ (p, q, r, s, t, u). all.1 (((((p, q), r), s), t), u)),
      )

  both_named_iff : (a b : Option (List ℕ)) → (both_named a b ≡ true) ↔ ((a ≡ b) × (a ≢ none))
  unfolding both_named
  both_named_iff none none = ((λ h. cc h), (λ h. absurd (h.1 refl)))
  both_named_iff (some x) none = ((λ h. cc h), (λ h. cc (h.0)))
  both_named_iff none (some y) = ((λ h. cc h), (λ h. cc (h.0)))
  both_named_iff (some x) (some y) = (
    (λ h. (ap some (sym ((same_chars_iff y x).0 h)), (λ q. cc q))),
    (λ h. (same_chars_iff y x).1 (cc (h.0))),
  )

  module _ (dies : TypeDies) where
    type_chain_iff :
        (t u : ℕ)
        → (type_chain_may_equal dies equal_to t (some u) ≡ EqualResult.equal)
          ↔ SameChain (dies t) (dies u)
    unfolding type_chain_may_equal
    type_chain_iff t u = result_of_iff (
        and_iff (==_iff (dies t).tag (dies u).tag)
          (types_equal_iff dies (dies t).get_type (dies u).get_type))

    guarded_iff :
        {P Q : Type 0} {b : Bool} {r : EqualResult}
        → (b ≡ true) ↔ P
        → (r ≡ EqualResult.equal) ↔ Q
        → ((if b then r else EqualResult.unequal) ≡ EqualResult.equal) ↔ (P × Q)
    guarded_iff {b = true} p q = ((λ h. (p.0 refl, q.0 h)), (λ h. q.1 h.1))
    guarded_iff {b = false} p q = ((λ h. cc h), (λ h. cc (p.1 h.0)))

    typedef_iff :
        (t u : ℕ)
        → (typedef_may_equal dies equal_to t (some u) ≡ EqualResult.equal)
          ↔ SameTypedef (dies t) (dies u)
    unfolding typedef_may_equal
    typedef_iff t u =
        let all =
          guarded_iff
            (and_iff (==_iff (dies u).tag 0x16)
              (both_named_iff (dies t).get_name (dies u).get_name))
            (type_chain_iff t u) in
        (
          (λ h. let ((p, (q, r)), s) = all.0 h in (p, q, r, s)),
          (λ (p, q, r, s). all.1 ((p, (q, r)), s)),
        )

    enumeration_iff :
        (t u : ℕ)
        → (enumeration_may_equal dies equal_to t (some u) ≡ EqualResult.equal)
          ↔ SameEnumeration dies t u
    unfolding enumeration_may_equal
    enumeration_iff t u =
        let all = result_of_iff (
          and_iff
            (and_iff (same_head_iff (dies t) (dies u))
              (types_equal_iff dies (dies t).get_type (dies u).get_type))
            (same_enumerators_iff dies (enumerators dies t) (enumerators dies u))) in
        (
          (λ h. let (((p, q), r), s) = all.0 h in (p, q, r, s)),
          (λ (p, q, r, s). all.1 (((p, q), r), s)),
        )

    -- may_equal of a class gives that two types are equal if and only if these are the same: of base
    -- types the tag, name, encoding, sizes and bit offset; of unspecified types the tag; of subranges the
    -- tag, name, type below and bounds; of enumerations the tag, name, type below and the enumerators,
    -- names with values; of the chains the tag and the type below; of typedefs also the name, which they
    -- have. Types below are the same where there are none, or where type_die::equal says so.
    pub may_equal_iff :
        (t u : ℕ)
        → ((base_may_equal dies t (some u) ≡ EqualResult.equal) ↔ SameBase (dies t) (dies u))
          × ((unspecified_may_equal dies t (some u) ≡ EqualResult.equal)
              ↔ ((dies u).tag ≡ (dies t).tag))
          × ((subrange_may_equal dies equal_to t (some u) ≡ EqualResult.equal)
              ↔ SameSubrange (dies t) (dies u))
          × ((enumeration_may_equal dies equal_to t (some u) ≡ EqualResult.equal)
              ↔ SameEnumeration dies t u)
          × ((type_chain_may_equal dies equal_to t (some u) ≡ EqualResult.equal)
              ↔ SameChain (dies t) (dies u))
          × ((typedef_may_equal dies equal_to t (some u) ≡ EqualResult.equal)
              ↔ SameTypedef (dies t) (dies u))
    unfolding base_may_equal unspecified_may_equal subrange_may_equal
    may_equal_iff t u = (
      result_of_iff (base_equal_iff (dies t) (dies u)),
      result_of_iff (==_iff (dies u).tag (dies t).tag),
      result_of_iff (subrange_equal_iff dies (dies t) (dies u)),
      enumeration_iff t u,
      type_chain_iff t u,
      typedef_iff t u,
    )
