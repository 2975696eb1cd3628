-- ===== src/Types/Concrete.antt =====
-- src/dies.cpp: concrete types, unqualified types and the types that pointers lead to. The recursion
-- and the loops run on fuel.
use libdwarfpp.Base.{
  ℕ, zero, suc, ◌+◌, ◌%◌, ◌^◌, Option, none, some, if◌then◌else◌, Outcome, ok, err, out_of_fuel,
  ◌>>=◌,
}
use libdwarfpp.Spec.{local_tag_is_type}
use libdwarfpp.Types.{TypeDies, TypeClass, class_of, is_qualified_type}

module _ (dies : TypeDies) where
  abbrev pub class_at : ℕ → TypeClass
  class_at t = class_of (dies t).tag

  -- `type_chain_die::get_concrete_type`, where the recursive call is `next`.
  unfoldable pub chained_type : (ℕ → Outcome (Option ℕ)) → ℕ → Option ℕ → Outcome (Option ℕ)
  chained_type next t none = ok none
  chained_type next t (some u) = if local_tag_is_type (dies u).tag then next u else ok (some t)

  -- `get_concrete_type` of the class of the type.
  unfoldable pub get_concrete_type : ℕ → ℕ → Outcome (Option ℕ)
  get_concrete_type zero t = err out_of_fuel
  get_concrete_type (suc fuel) t = elim (class_at t) [
    | TypeClass.type_chain ↦ chained_type (get_concrete_type fuel) t (dies t).get_type
    | _ ↦ ok (some t)
  ]

  -- `x ? x->get_concrete_type() : x`
  unfoldable pub concrete_if : ℕ → Option ℕ → Outcome (Option ℕ)
  concrete_if fuel none = ok none
  concrete_if fuel (some u) = get_concrete_type fuel u

  -- `qualified_type_die::get_unqualified_type` and `type_die::get_unqualified_type`, where the
  -- recursive call is `next`.
  unfoldable pub unqualified_next : (ℕ → Outcome (Option ℕ)) → Option ℕ → Outcome (Option ℕ)
  unqualified_next next none = ok none
  unqualified_next next (some u) = if is_qualified_type (dies u).tag then next u else ok (some u)

  unfoldable pub get_unqualified_type : ℕ → ℕ → Outcome (Option ℕ)
  get_unqualified_type zero t = err out_of_fuel
  get_unqualified_type (suc fuel) t =
      let onward = unqualified_next (get_unqualified_type fuel) (dies t).get_type in
      if is_qualified_type (dies t).tag then onward else ok (some t)

  -- The loop of `get_ultimate_reached_type`.
  unfoldable pub reach : ℕ → ℕ → Option ℕ → Outcome (ℕ × Option ℕ)
  reach zero indir_level pointee = err out_of_fuel
  reach (suc fuel) indir_level none = ok (indir_level, none)
  reach (suc fuel) indir_level (some t) = elim (class_at t) [
    | TypeClass.address_holding_type ↦
        concrete_if fuel (dies t).get_type >>= reach fuel ((indir_level + 1) % 2 ^ 32)
    | _ ↦ ok (indir_level, some t)
  ]

  -- `address_holding_type_die::get_ultimate_reached_type`
  unfoldable pub get_ultimate_reached_type : ℕ → ℕ → Outcome (ℕ × Option ℕ)
  get_ultimate_reached_type fuel t = reach fuel 0 (some t)
