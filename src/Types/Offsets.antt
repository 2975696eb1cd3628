-- ===== src/Types/Offsets.antt =====
-- src/dies.cpp: what the offset of a data member is.
use libdwarfpp.Base.{
  ℕ, suc, ◌^◌, ◌<◌, ◌≡◌, refl, ap, arith, Bool, true, false, Option, none, some, List, [], ◌∷◌,
  ◌++◌, ◌==◌, ==_refl, Bool-cases, inl, inr, length, All, Outcome, ok,
}
use libdwarfpp.Expr.{ExprInstr, LocExpr, op_of}
use libdwarfpp.Expr.Eval.{eval, eval_loop, exec, tos}
use libdwarfpp.Types.{TypeDies}
use libdwarfpp.Types.Sizes.{calculate_byte_size}
use libdwarfpp.Types.Members.{
  MemberDie, EnclosingType, if_supported, evaluated_offset, located_offset, sum_of, real_first_memb,
  advance_to, previous_memb, offset_behind, unlocated_offset, byte_offset_in_enclosing_type,
}

abbrev pub plus_uconst : ℕ → ExprInstr
plus_uconst n = record { lr_atom = 0x23; lr_number = n; lr_number2 = 0; lr_offset = 0 }

-- The location that adds a number.
abbrev pub at_offset : ℕ → ℕ → ℕ → LocExpr
at_offset lopc hipc n = record { instrs = plus_uconst n ∷ []; hipc = hipc; lopc = lopc }

evaluated_offset-at_offset :
    (lopc hipc n : ℕ) → n < 2 ^ 64 → evaluated_offset (at_offset lopc hipc n) ≡ ok (some n)
unfolding evaluated_offset if_supported eval eval_loop exec op_of tos
evaluated_offset-at_offset lopc hipc n small = ap (λ x. ok (some x)) (omega (arith, small))

-- A member that is not `self`, or a declaration.
abbrev pub IsOther : (ℕ → MemberDie) → ℕ → ℕ → Type 0
IsOther members self m = (m == self) ≡ false

module _ (members : ℕ → MemberDie) where
  advance_to_self :
      (self : ℕ) (between behind : List ℕ)
      → (members self).is_declaration ≡ false
      → All (IsOther members self) between
      → advance_to members self (between ++ self ∷ behind) ≡ ok (self, behind)
  unfolding advance_to
  advance_to_self self [] behind real others = rw (advance_to, real) (rw (==_refl self) refl)
  advance_to_self self (m ∷ ms) behind real (other, others) =
      elim (Bool-cases (members m).is_declaration) [
        | inl e ↦ rw (advance_to, e) (advance_to_self self ms behind real others)
        | inr e ↦ rw (advance_to, e) (rw other (advance_to_self self ms behind real others))
      ]

  previous_memb-first :
      (fuel first self : ℕ) (between behind : List ℕ)
      → (members self).is_declaration ≡ false
      → All (IsOther members self) between
      → previous_memb members (suc fuel) self first (between ++ self ∷ behind) ≡ ok first
  unfolding previous_memb
  previous_memb-first fuel first self between behind real others =
      rw (previous_memb, advance_to_self self between behind real others) (rw (==_refl self) refl)

  module _ (dies : TypeDies) (parent : EnclosingType) where
    packed_offset :
        (offset_of : ℕ → Outcome (Option ℕ)) (fuel first self t n : ℕ) (between behind : List ℕ)
        → parent.data_members ≡ first ∷ between ++ self ∷ behind
        → parent.is_union_type ≡ false
        → (members first).is_declaration ≡ false
        → (members first).get_type ≡ some t
        → calculate_byte_size dies fuel t ≡ ok (some n)
        → n < 2 ^ 64
        → (members self).is_declaration ≡ false
        → (self == first) ≡ false
        → All (IsOther members self) between
        → offset_of first ≡ ok (some 0)
        → unlocated_offset members dies parent offset_of fuel true self ≡ ok (some n)
    unfolding unlocated_offset real_first_memb offset_behind sum_of
    packed_offset offset_of fuel first self t n between behind all no_union real typed sized small
          real' other others at_first =
        let found : previous_memb members (suc (length (between ++ self ∷ behind))) self first
              (between ++ self ∷ behind)
            ≡ ok first =
          previous_memb-first (length (between ++ self ∷ behind)) first self between behind real'
            others in
        rw (unlocated_offset, all)
          (rw (real_first_memb, real)
            (rw other (
              rw no_union (
                rw found (
                  rw (offset_behind, typed)
                    (rw sized (rw at_first (ap (λ x. ok (some x)) (omega (arith, small))))))))))

    -- The offset of a member of a structure with a single location DW_OP_plus_uconst is its operand.
    pub byte_offset_in_enclosing_type_lem :
        (fuel self lopc hipc n : ℕ) (packed : Bool)
        → (members self).is_declaration ≡ false
        → parent.is_with_data_members ≡ true
        → (members self).get_data_member_location ≡ some (at_offset lopc hipc n ∷ [])
        → n < 2 ^ 64
        → byte_offset_in_enclosing_type members dies parent (suc fuel) packed self ≡ ok (some n)
    unfolding byte_offset_in_enclosing_type located_offset
    byte_offset_in_enclosing_type_lem fuel self lopc hipc n packed real structure there small =
        rw (byte_offset_in_enclosing_type, real)
          (rw structure (rw there (evaluated_offset-at_offset lopc hipc n small)))

    -- The first member has the offset 0.
    offset_of_first :
        (fuel first : ℕ) (rest : List ℕ) (packed : Bool)
        → parent.data_members ≡ first ∷ rest
        → parent.is_with_data_members ≡ true
        → (members first).is_declaration ≡ false
        → (members first).get_data_member_location ≡ none
        → byte_offset_in_enclosing_type members dies parent (suc fuel) packed first ≡ ok (some 0)
    unfolding byte_offset_in_enclosing_type unlocated_offset real_first_memb
    offset_of_first fuel first rest packed all structure real unlocated =
        rw (byte_offset_in_enclosing_type, real)
          (rw structure (
            rw unlocated
              (rw (unlocated_offset, all) (rw (real_first_memb, real) (rw (==_refl first) refl)))))

    -- In a structure whose members have no locations, the offset of a member that is assumed to be
    -- packed is the size of the first member, whatever members are between the two.
    pub packed_offset_lem :
        (fuel first self t n : ℕ) (between behind : List ℕ)
        → parent.data_members ≡ first ∷ between ++ self ∷ behind
        → parent.is_with_data_members ≡ true
        → parent.is_union_type ≡ false
        → (members first).is_declaration ≡ false
        → (members first).get_data_member_location ≡ none
        → (members first).get_type ≡ some t
        → calculate_byte_size dies (suc fuel) t ≡ ok (some n)
        → n < 2 ^ 64
        → (members self).is_declaration ≡ false
        → (members self).get_data_member_location ≡ none
        → (self == first) ≡ false
        → All (IsOther members self) between
        → byte_offset_in_enclosing_type members dies parent (suc (suc fuel)) true self ≡ ok (some n)
    unfolding byte_offset_in_enclosing_type unlocated_offset real_first_memb offset_behind sum_of
        previous_memb
    packed_offset_lem fuel first self t n between behind all structure no_union real unlocated typed
          sized small real' unlocated' other others =
        let at_first : byte_offset_in_enclosing_type members dies parent (suc fuel) true first
            ≡ ok (some 0) =
          offset_of_first fuel first (between ++ self ∷ behind) true all structure real unlocated in
        rw (byte_offset_in_enclosing_type, real')
          (rw structure (
            rw unlocated' (
              packed_offset (byte_offset_in_enclosing_type members dies parent (suc fuel) true)
                (suc fuel) first self t n between behind all no_union real typed sized small real'
                other others at_first)))
