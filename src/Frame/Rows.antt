-- ===== src/Frame/Rows.antt =====
-- include/dwarfpp/frame.hpp: register_def, the rows of rules (std::map<int, register_def>), and
-- boost::icl::interval_map, which holds the rows by address.
use libdwarfpp.Base.{ℕ, ◌≤◌, ◌<◌, ◌≡◌, ◌⊎◌, Option, none, some, List, [], ◌∷◌, ltb, ◌==◌}
use libdwarfpp.Base.{if◌then◌else◌, Outcome, ok, err, assertion}
use libdwarfpp.Base.Int.{ℤ, pos}
use libdwarfpp.Expr.{LocExpr}

pub data Kind : Type 0 where
  indeterminate undefined same_value saved_at_offset_from_cfa : Kind
  val_is_offset_from_cfa register saved_at_expr val_of_expr : Kind

-- register_def: all alternatives of its value stand beside each other, none is overwritten.
pub record RegisterDef : Type 0 where
  pub k : Kind
  pub m_undefined : ℤ
  pub m_same_value : ℤ
  pub m_saved_at_offset_from_cfa : ℤ
  pub m_val_is_offset_from_cfa : ℤ
  pub m_register_plus_offset : ℤ × ℤ
  pub m_saved_at_expr : LocExpr
  pub m_val_of_expr : LocExpr

abbrev no_expr : LocExpr
no_expr = record { instrs = []; hipc = 0; lopc = 0 }

-- A value-initialised register_def, which is also `(register_def) { .k = INDETERMINATE }`.
abbrev pub indeterminate_def : RegisterDef
indeterminate_def = record {
  k = Kind.indeterminate;
  m_undefined = pos 0;
  m_same_value = pos 0;
  m_saved_at_offset_from_cfa = pos 0;
  m_val_is_offset_from_cfa = pos 0;
  m_register_plus_offset = (pos 0, pos 0);
  m_saved_at_expr = no_expr;
  m_val_of_expr = no_expr;
}

-- The writers `.._w() = ..`.
abbrev pub undefined_w : RegisterDef → RegisterDef
undefined_w d = record d { k = Kind.undefined }

abbrev pub same_value_w : RegisterDef → RegisterDef
same_value_w d = record d { k = Kind.same_value }

abbrev pub saved_at_offset_from_cfa_w : ℤ → RegisterDef → RegisterDef
saved_at_offset_from_cfa_w z d = record d {
  k = Kind.saved_at_offset_from_cfa;
  m_saved_at_offset_from_cfa = z;
}

abbrev pub val_is_offset_from_cfa_w : ℤ → RegisterDef → RegisterDef
val_is_offset_from_cfa_w z d = record d {
  k = Kind.val_is_offset_from_cfa;
  m_val_is_offset_from_cfa = z;
}

abbrev pub register_plus_offset_w : ℤ × ℤ → RegisterDef → RegisterDef
register_plus_offset_w p d = record d { k = Kind.register; m_register_plus_offset = p }

abbrev pub saved_at_expr_w : LocExpr → RegisterDef → RegisterDef
saved_at_expr_w x d = record d { k = Kind.saved_at_expr; m_saved_at_expr = x }

abbrev pub val_of_expr_w : LocExpr → RegisterDef → RegisterDef
val_of_expr_w x d = record d { k = Kind.val_of_expr; m_val_of_expr = x }

-- The readers `.._r()`, which assert the kind.
abbrev pub saved_at_offset_from_cfa_r : RegisterDef → Outcome ℤ
saved_at_offset_from_cfa_r d = elim d.k [
  | Kind.saved_at_offset_from_cfa ↦ ok d.m_saved_at_offset_from_cfa
  | _ ↦ err assertion
]

abbrev pub val_is_offset_from_cfa_r : RegisterDef → Outcome ℤ
val_is_offset_from_cfa_r d = elim d.k [
  | Kind.val_is_offset_from_cfa ↦ ok d.m_val_is_offset_from_cfa
  | _ ↦ err assertion
]

abbrev pub register_plus_offset_r : RegisterDef → Outcome (ℤ × ℤ)
register_plus_offset_r d = elim d.k [
  | Kind.register ↦ ok d.m_register_plus_offset
  | _ ↦ err assertion
]

-- The entry of a key, or the one that operator[] makes.
abbrev pub or_indeterminate : Option RegisterDef → RegisterDef
or_indeterminate (some d) = d
or_indeterminate none = indeterminate_def

-- std::map<int, register_def>, its entries by ascending key.
abbrev pub RowDefs : Type 0
RowDefs = List (ℕ × RegisterDef)

unfoldable pub find_def : RowDefs → ℕ → Option RegisterDef
find_def [] n = none
find_def ((k, d) ∷ defs) n = if n == k then some d else find_def defs n

-- `defs[n]`, changed by `f`: a missing entry is made first.
unfoldable pub modify : (RegisterDef → RegisterDef) → ℕ → RowDefs → RowDefs
modify f n [] = (n, f indeterminate_def) ∷ []
modify f n ((k, d) ∷ defs) =
    let rest = modify f n defs in
    if n == k
    then (k, f d) ∷ defs
    else if ltb n k
    then (n, f indeterminate_def) ∷ (k, d) ∷ defs
    else (k, d) ∷ rest

-- An interval map with sets for values leaves out what is mapped to the empty set.
abbrev pub visible : RowDefs → Option RowDefs
visible [] = none
visible (d ∷ defs) = some (d ∷ defs)

-- boost::icl::interval_map from addresses to sets of rules: `add lo hi defs` is `+=` of the interval
-- open at its right end. What is known of it is what its documentation says of a place that the map
-- does not hold yet.
pub record IntervalMap : Type 1 where
  pub Rows : Type 0
  pub empty : Rows
  pub add : ℕ → ℕ → RowDefs → Rows → Rows
  pub find : Rows → ℕ → Option RowDefs
  pub find-empty : (a : ℕ) → find empty a ≡ none
  pub find-add_outside :
      (lo hi : ℕ) (defs : RowDefs) (rows : Rows) (a : ℕ)
      → (a < lo) ⊎ (hi ≤ a)
      → find (add lo hi defs rows) a ≡ find rows a
  pub find-add_inside :
      (lo hi : ℕ) (defs : RowDefs) (rows : Rows) (a : ℕ)
      → lo ≤ a
      → a < hi
      → find rows a ≡ none
      → find (add lo hi defs rows) a ≡ visible defs
