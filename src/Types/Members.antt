-- ===== src/Types/Members.antt =====
-- src/dies.cpp: the offset of a data member in the type around it.
use libdwarfpp.Base.{
  ℕ, zero, suc, ◌+◌, ◌%◌, ◌^◌, Bool, true, false, ◌||◌, not, Option, none, some, List, [], ◌∷◌,
  ◌==◌, length, if◌then◌else◌, Outcome, ok, err, assertion, undefined, out_of_fuel, not_supported,
  ◌>>=◌,
}
use libdwarfpp.Expr.{LocExpr}
use libdwarfpp.Expr.Eval.{eval, evaluator, tos}
use libdwarfpp.Types.{TypeDies}
use libdwarfpp.Types.Sizes.{calculate_byte_size}

-- The attributes of a data member. `is_declaration` stands for `get_declaration() && *get_declaration()`.
pub record MemberDie : Type 0 where
  pub is_declaration : Bool
  pub get_data_member_location : Option (List LocExpr)
  pub get_type : Option ℕ

-- The parent of the member: its class, and its data members in order.
pub record EnclosingType : Type 0 where
  pub is_with_data_members : Bool
  pub is_union_type : Bool
  pub data_members : List ℕ

-- The evaluation, where Not_supported is caught.
unfoldable pub if_supported : Outcome ℕ → Outcome (Option ℕ)
if_supported (ok n) = ok (some n)
if_supported (err not_supported) = ok none
if_supported (err e) = err e

unfoldable pub evaluated_offset : LocExpr → Outcome (Option ℕ)
evaluated_offset l = if_supported (eval (evaluator l.instrs none none (0 ∷ [])) >>= tos (λ s. true))

-- Where there is a location, with one expression or another number of them.
unfoldable pub located_offset : List LocExpr → Outcome (Option ℕ)
located_offset [] = ok none
located_offset (l ∷ []) = evaluated_offset l
located_offset (l ∷ l' ∷ ls) = ok none

unfoldable pub sum_of : Option ℕ → ℕ → Option ℕ
sum_of none n = none
sum_of (some m) n = some ((m + n) % 2 ^ 64)

module _ (members : ℕ → MemberDie) where
  -- The first member that is no declaration, with those behind it.
  unfoldable pub real_first_memb : List ℕ → Outcome (ℕ × List ℕ)
  real_first_memb [] = err assertion
  real_first_memb (m ∷ ms) =
      let rest = real_first_memb ms in if (members m).is_declaration then rest else ok (m, ms)

  -- The two inner loops: on to `self`, over declarations.
  unfoldable pub advance_to : ℕ → List ℕ → Outcome (ℕ × List ℕ)
  advance_to self [] = err undefined
  advance_to self (m ∷ ms) =
      let onward = advance_to self ms in
      if (members m).is_declaration then onward else if m == self then ok (m, ms) else onward

  -- The outer loop: the member before `self`.
  unfoldable pub previous_memb : ℕ → ℕ → ℕ → List ℕ → Outcome ℕ
  previous_memb zero self previous rest = err out_of_fuel
  previous_memb (suc fuel) self previous rest = elim (advance_to self rest) [
    | err e ↦ err e
    | ok (next, rest') ↦
        let onward = previous_memb fuel self next rest' in
        if next == self then ok previous else onward
  ]

  -- Behind the member before it, where `offset_of` is the recursive call.
  unfoldable pub offset_behind : TypeDies → (ℕ → Outcome (Option ℕ)) → ℕ → ℕ → Outcome (Option ℕ)
  offset_behind dies offset_of fuel previous = elim (members previous).get_type [
    | none ↦ ok none
    | some t ↦ calculate_byte_size dies fuel t >>= λ size. elim size [
      | none ↦ ok none
      | some n ↦ offset_of previous >>= λ offset. ok (sum_of offset n)
    ]
  ]

  module _ (dies : TypeDies) (parent : EnclosingType) where
    -- Where there is no location.
    unfoldable pub unlocated_offset : (ℕ → Outcome (Option ℕ)) → ℕ → Bool → ℕ → Outcome (Option ℕ)
    unlocated_offset offset_of fuel assume_packed self = do
      (first, rest) ← real_first_memb parent.data_members
      let packed =
          previous_memb (suc (length rest)) self first rest >>= offset_behind dies offset_of fuel
      if self == first || parent.is_union_type
          then ok (some 0)
          else elim assume_packed [ true ↦ packed | false ↦ ok none ]

    -- `data_member_die::byte_offset_in_enclosing_type`
    unfoldable pub byte_offset_in_enclosing_type : ℕ → Bool → ℕ → Outcome (Option ℕ)
    byte_offset_in_enclosing_type zero assume_packed self = err out_of_fuel
    byte_offset_in_enclosing_type (suc fuel) assume_packed self =
        let unlocated =
          unlocated_offset (byte_offset_in_enclosing_type fuel true) fuel assume_packed self in
        if (members self).is_declaration || not parent.is_with_data_members
        then ok none
        else elim (members self).get_data_member_location [
          | none ↦ unlocated
          | some ls ↦ located_offset ls
        ]
