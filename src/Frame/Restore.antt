-- ===== src/Frame/Restore.antt =====
-- src/frame.cpp: what an instruction does to the rule of one register.
use libdwarfpp.Base.{ℕ, ◌≡◌, ◌≢◌, refl, ap, ◌∙◌, true, false, Bool}
use libdwarfpp.Base.{Option, none, some, List, ltb}
use libdwarfpp.Base.{Outcome, ok, err, assertion, ◌>>=◌, ◌>>◌, guard}
use libdwarfpp.Expr.{LocExpr}
use libdwarfpp.Frame.{CfaOp, FrameOp}
use libdwarfpp.Frame.Rows.{RegisterDef, find_def, IntervalMap, or_indeterminate}
use libdwarfpp.Frame.Interpret.{
  InstrsResults, Working, add_new_row, restore_rule, previous_def, step,
}
use libdwarfpp.Frame.Interpret.{has_cfa, loc_expr, set_rule}
use libdwarfpp.Frame.Rules.{IsSorted, find_def-modify_same, find_def-modify_other}

module _ (m : IntervalMap) (cfa_column : ℕ)
    (try_construct : Option (List ℕ) → ℕ → Option LocExpr) where
  -- The rule of the register `j` is the same after the run.
  abbrev pub KeepsRule : ℕ → Working m → Outcome (Working m) → Type 0
  KeepsRule j s (ok t) = find_def t.current_row_defs j ≡ find_def s.current_row_defs j
  KeepsRule j s (err e) = Unit {0}

  module _ (j : ℕ) (s : Working m) where
    set_rule-KeepsRule :
        (f : RegisterDef → RegisterDef) (n : ℕ)
        → j ≢ n
        → KeepsRule j s (set_rule m cfa_column try_construct f n s)
    set_rule-KeepsRule f n h = find_def-modify_other f n s.current_row_defs j h

    guarded-KeepsRule :
        (b : Bool) (f : RegisterDef → RegisterDef) (n : ℕ)
        → j ≢ n
        → KeepsRule j s (guard b assertion >> set_rule m cfa_column try_construct f n s)
    guarded-KeepsRule true f n h = set_rule-KeepsRule f n h
    guarded-KeepsRule false f n h = tt

    expr-KeepsRule :
        (r : Outcome LocExpr) (f : LocExpr → RegisterDef → RegisterDef) (n : ℕ)
        → j ≢ n
        → KeepsRule j s (r >>= λ x. set_rule m cfa_column try_construct (f x) n s)
    expr-KeepsRule (ok x) f n h = set_rule-KeepsRule (f x) n h
    expr-KeepsRule (err e) f n h = tt

    add_new_row-KeepsRule : (a : ℕ) → KeepsRule j s (add_new_row m cfa_column try_construct a s)
    unfolding add_new_row
    add_new_row-KeepsRule a = split (ltb s.current_row_addr a)
      where
        split :
            (b : Bool)
            → KeepsRule j s (
                guard b assertion
                >> ok (record s {
                  rows = m.add s.current_row_addr a s.current_row_defs s.rows;
                  current_row_addr = a;
                }))
        split true = refl
        split false = tt

    restore_rule-KeepsRule :
        (initial : Option (InstrsResults m)) (n : ℕ)
        → j ≢ n
        → KeepsRule j s (restore_rule m cfa_column try_construct initial n s)
    unfolding restore_rule
    restore_rule-KeepsRule none n h = tt
    restore_rule-KeepsRule (some r) n h = set_rule-KeepsRule _ n h

    -- An instruction, other than DW_CFA_restore_state, changes no rule but that of its register and
    -- that of the CFA.
    pub step-KeepsRule :
        (initial : Option (InstrsResults m)) (c : CfaOp) (op : FrameOp)
        → c ≢ CfaOp.restore_state
        → j ≢ op.fp_register
        → j ≢ cfa_column
        → KeepsRule j s (step m cfa_column try_construct initial c op s)
    unfolding step
    step-KeepsRule initial CfaOp.restore_state op hc hr hj = absurd (hc refl)
    step-KeepsRule initial CfaOp.set_loc op hc hr hj = add_new_row-KeepsRule _
    step-KeepsRule initial CfaOp.advance_loc op hc hr hj = add_new_row-KeepsRule _
    step-KeepsRule initial CfaOp.advance_loc1 op hc hr hj = add_new_row-KeepsRule _
    step-KeepsRule initial CfaOp.advance_loc2 op hc hr hj = add_new_row-KeepsRule _
    step-KeepsRule initial CfaOp.advance_loc4 op hc hr hj = add_new_row-KeepsRule _
    step-KeepsRule initial CfaOp.def_cfa op hc hr hj = set_rule-KeepsRule _ cfa_column hj
    step-KeepsRule initial CfaOp.def_cfa_sf op hc hr hj = set_rule-KeepsRule _ cfa_column hj
    step-KeepsRule initial CfaOp.def_cfa_register op hc hr hj =
        guarded-KeepsRule (has_cfa m cfa_column try_construct s) _ cfa_column hj
    step-KeepsRule initial CfaOp.def_cfa_offset op hc hr hj =
        guarded-KeepsRule (has_cfa m cfa_column try_construct s) _ cfa_column hj
    step-KeepsRule initial CfaOp.def_cfa_offset_sf op hc hr hj =
        guarded-KeepsRule (has_cfa m cfa_column try_construct s) _ cfa_column hj
    step-KeepsRule initial CfaOp.def_cfa_expression op hc hr hj =
        expr-KeepsRule (loc_expr m cfa_column try_construct op) _ cfa_column hj
    step-KeepsRule initial CfaOp.expression op hc hr hj =
        expr-KeepsRule (loc_expr m cfa_column try_construct op) _ op.fp_register hr
    step-KeepsRule initial CfaOp.val_expression op hc hr hj =
        expr-KeepsRule (loc_expr m cfa_column try_construct op) _ op.fp_register hr
    step-KeepsRule initial CfaOp.restore op hc hr hj =
        restore_rule-KeepsRule initial op.fp_register hr
    step-KeepsRule initial CfaOp.restore_extended op hc hr hj =
        restore_rule-KeepsRule initial op.fp_register hr
    step-KeepsRule initial CfaOp.remember_state op hc hr hj = refl
    step-KeepsRule initial CfaOp.nop op hc hr hj = refl
    step-KeepsRule initial CfaOp.gnu_args_size op hc hr hj = refl
    step-KeepsRule initial _ op hc hr hj = set_rule-KeepsRule _ op.fp_register hr

  -- The rule of a register after a run.
  abbrev pub rule_after : ℕ → Outcome (Working m) → Outcome RegisterDef
  rule_after n r =
      r >>= λ t. elim (find_def t.current_row_defs n) [ none ↦ err assertion | some d ↦ ok d ]

  previous_def_lem :
      (initial : InstrsResults m) (n addr : ℕ)
      → m.find initial.rows addr ≡ none
      → previous_def m cfa_column try_construct initial n addr ≡ find_def initial.unfinished_row n
  unfolding previous_def
  previous_def_lem initial n addr h =
      elim (find_def initial.unfinished_row n)
        as (λ o.
          elim o [
            | some d ↦ some d
            | none ↦ elim (m.find initial.rows addr) [ none ↦ none | some inner ↦ find_def inner n ]
          ]
          ≡ o) [ none ↦ rw h refl | some d ↦ refl ]

  -- DW_CFA_restore gives a register the rule that it has after the initial instructions, or the
  -- indeterminate rule if they have left it without one. They have made no row at the address.
  pub restore_rule_lem :
      (initial : InstrsResults m) (op : FrameOp) (s : Working m)
      → IsSorted s.current_row_defs
      → m.find initial.rows s.current_row_addr ≡ none
      → rule_after op.fp_register
          (step m cfa_column try_construct (some initial) CfaOp.restore op s)
        ≡ ok (or_indeterminate (find_def initial.unfinished_row op.fp_register))
  unfolding step restore_rule
  restore_rule_lem initial op s h hn =
      ap
        (λ (o : Option RegisterDef). elim o as (λ _. Outcome RegisterDef) [
          | none ↦ err assertion
          | some d ↦ ok d
        ])
        (find_def-modify_same
          (λ d.
            or_indeterminate
              (previous_def m cfa_column try_construct initial op.fp_register s.current_row_addr))
          op.fp_register s.current_row_defs h)
      ∙ ap (λ (o : Option RegisterDef). ok (or_indeterminate o))
          (previous_def_lem initial op.fp_register s.current_row_addr hn)
