-- ===== src/Frame/Equality.antt =====
-- include/dwarfpp/frame.hpp and include/dwarfpp/expr.hpp: operator== on register_def and on what it holds.
use libdwarfpp.Base.{ℕ, ◌≡◌, refl, Bool, true, false, not, ◌&&◌, List, [], ◌∷◌, ◌==◌, ==_refl}
use libdwarfpp.Base.Int.{ℤ, pos_part, neg_part}
use libdwarfpp.Expr.{ExprInstr, LocExpr}
use libdwarfpp.Frame.Rows.{Kind, RegisterDef}

-- operator== on expr_instr
abbrev pub same_instr : ExprInstr → ExprInstr → Bool
same_instr a b =
    a.lr_atom == b.lr_atom
    && a.lr_number == b.lr_number
    && a.lr_number2 == b.lr_number2
    && a.lr_offset == b.lr_offset

abbrev pub same_instrs : List ExprInstr → List ExprInstr → Bool
same_instrs [] [] = true
same_instrs (a ∷ as') (b ∷ bs) = same_instr a b && same_instrs as' bs
same_instrs _ _ = false

-- loc_expr::operator==
abbrev pub same_expr : LocExpr → LocExpr → Bool
same_expr a b = a.hipc == b.hipc && a.lopc == b.lopc && same_instrs a.instrs b.instrs

abbrev pub same_int : ℤ → ℤ → Bool
same_int a b = pos_part a == pos_part b && neg_part a == neg_part b

abbrev pub kind_number : Kind → ℕ
kind_number Kind.indeterminate = 0
kind_number Kind.undefined = 1
kind_number Kind.same_value = 2
kind_number Kind.saved_at_offset_from_cfa = 3
kind_number Kind.val_is_offset_from_cfa = 4
kind_number Kind.register = 5
kind_number Kind.saved_at_expr = 6
kind_number Kind.val_of_expr = 7

-- The disjunction behind the test of the kinds.
abbrev pub same_value_of_kind : Kind → RegisterDef → RegisterDef → Bool
same_value_of_kind Kind.undefined a b = same_int a.m_undefined b.m_undefined
same_value_of_kind Kind.saved_at_offset_from_cfa a b =
    same_int a.m_saved_at_offset_from_cfa b.m_saved_at_offset_from_cfa
same_value_of_kind Kind.val_is_offset_from_cfa a b =
    same_int a.m_val_is_offset_from_cfa b.m_val_is_offset_from_cfa
same_value_of_kind Kind.register a b =
    same_int a.m_register_plus_offset.0 b.m_register_plus_offset.0
    && same_int a.m_register_plus_offset.1 b.m_register_plus_offset.1
same_value_of_kind Kind.saved_at_expr a b = same_expr a.m_saved_at_expr b.m_saved_at_expr
same_value_of_kind Kind.val_of_expr a b = same_expr a.m_val_of_expr b.m_val_of_expr
same_value_of_kind _ a b = false

-- register_def::operator==
unfoldable pub same_def : RegisterDef → RegisterDef → Bool
same_def a b = kind_number a.k == kind_number b.k && same_value_of_kind a.k a b

same_instr_refl : (a : ExprInstr) → same_instr a a ≡ true
same_instr_refl a =
    rw (==_refl a.lr_atom, ==_refl a.lr_number, ==_refl a.lr_number2) (==_refl a.lr_offset)

same_instrs_refl : (is : List ExprInstr) → same_instrs is is ≡ true
same_instrs_refl [] = refl
same_instrs_refl (i ∷ is) = rw (same_instr_refl i) (same_instrs_refl is)

same_expr_refl : (a : LocExpr) → same_expr a a ≡ true
same_expr_refl a = rw (==_refl a.hipc, ==_refl a.lopc) (same_instrs_refl a.instrs)

same_int_refl : (z : ℤ) → same_int z z ≡ true
same_int_refl z = rw (==_refl (pos_part z)) (==_refl (neg_part z))

abbrev pub has_no_value : Kind → Bool
has_no_value Kind.indeterminate = true
has_no_value Kind.same_value = true
has_no_value _ = false

-- A rule equals itself unless its kind is INDETERMINATE or SAME_VALUE: such a rule does not.
pub same_def_refl : (d : RegisterDef) → same_def d d ≡ not (has_no_value d.k)
unfolding same_def
same_def_refl d = rw (==_refl (kind_number d.k)) (split d.k)
  where
    split : (k : Kind) → same_value_of_kind k d d ≡ not (has_no_value k)
    split Kind.indeterminate = refl
    split Kind.same_value = refl
    split Kind.undefined = same_int_refl d.m_undefined
    split Kind.saved_at_offset_from_cfa = same_int_refl d.m_saved_at_offset_from_cfa
    split Kind.val_is_offset_from_cfa = same_int_refl d.m_val_is_offset_from_cfa
    split Kind.register =
        rw (same_int_refl d.m_register_plus_offset.0) (same_int_refl d.m_register_plus_offset.1)
    split Kind.saved_at_expr = same_expr_refl d.m_saved_at_expr
    split Kind.val_of_expr = same_expr_refl d.m_val_of_expr
