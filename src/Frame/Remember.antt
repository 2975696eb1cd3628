-- ===== src/Frame/Remember.antt =====
-- src/frame.cpp: DW_CFA_remember_state and DW_CFA_restore_state around a list of instructions.
use libdwarfpp.Base.{ℕ, ◌≡◌, ◌≢◌, refl, ap, Bool, true, false, Option, none, some, List}
use libdwarfpp.Base.{Outcome, ok, err, assertion, ◌>>=◌, ◌>>◌, guard, ltb}
use libdwarfpp.Expr.{LocExpr}
use libdwarfpp.Frame.{CfaOp, FrameOp}
use libdwarfpp.Frame.Rows.{RegisterDef, RowDefs, IntervalMap}
use libdwarfpp.Frame.Interpret.{
  InstrsResults, Working, add_new_row, restore_rule, step, selected, interpret_op,
}
use libdwarfpp.Frame.Interpret.{has_cfa, loc_expr, set_rule}

-- An instruction that leaves the stack of the remembered rows alone.
abbrev pub IsPlain : FrameOp → Type 0
IsPlain op = (selected op ≢ some CfaOp.remember_state) × (selected op ≢ some CfaOp.restore_state)

module _ (m : IntervalMap) (cfa_column : ℕ) (try_construct : Option (List ℕ) → ℕ → Option LocExpr)
    (initial : Option (InstrsResults m)) where
  abbrev pub with_stack : List RowDefs → Working m → Working m
  with_stack stack s = record s { remembered_row_defs = stack }

  -- A run that gives the same whatever the stack is, but for the stack.
  abbrev pub Ignores : (Working m → Outcome (Working m)) → Type 0
  Ignores run =
      (stack : List RowDefs) (s : Working m)
      → run (with_stack stack s) ≡ (run s >>= λ t. ok (with_stack stack t))

  guarded-Ignores :
      (test : Working m → Bool) (run : Working m → Outcome (Working m))
      → ((stack : List RowDefs) (s : Working m) → test (with_stack stack s) ≡ test s)
      → Ignores run
      → Ignores (λ s. guard (test s) assertion >> run s)
  guarded-Ignores test run h k stack s = rw (h stack s) (split (test s))
    where
      split :
          (b : Bool)
          → (guard b assertion >> run (with_stack stack s))
            ≡ ((guard b assertion >> run s) >>= λ t. ok (with_stack stack t))
      split true = k stack s
      split false = refl

  expr-Ignores :
      (r : Outcome LocExpr) (f : LocExpr → RegisterDef → RegisterDef) (n : ℕ)
      → Ignores (λ s. r >>= λ x. set_rule m cfa_column try_construct (f x) n s)
  expr-Ignores (ok x) f n stack s = refl
  expr-Ignores (err e) f n stack s = refl

  add_new_row-Ignores : (a : ℕ) → Ignores (add_new_row m cfa_column try_construct a)
  unfolding add_new_row
  add_new_row-Ignores a stack s = split (ltb s.current_row_addr a)
    where
      split :
          (b : Bool)
          → (guard b assertion
              >> ok (record s {
                rows = m.add s.current_row_addr a s.current_row_defs s.rows;
                current_row_addr = a;
                remembered_row_defs = stack;
              }))
            ≡ ((guard b assertion
                  >> ok (record s {
                    rows = m.add s.current_row_addr a s.current_row_defs s.rows;
                    current_row_addr = a;
                  }))
                >>= λ t. ok (with_stack stack t))
      split true = refl
      split false = refl

  restore_rule-Ignores : (n : ℕ) → Ignores (restore_rule m cfa_column try_construct initial n)
  unfolding restore_rule
  restore_rule-Ignores n stack s = split initial
    where
      split :
          (o : Option (InstrsResults m))
          → restore_rule m cfa_column try_construct o n (with_stack stack s)
            ≡ (restore_rule m cfa_column try_construct o n s >>= λ t. ok (with_stack stack t))
      split none = refl
      split (some r) = refl

  step-Ignores :
      (c : CfaOp) (op : FrameOp)
      → c ≢ CfaOp.remember_state
      → c ≢ CfaOp.restore_state
      → Ignores (step m cfa_column try_construct initial c op)
  unfolding step
  step-Ignores CfaOp.remember_state op h k stack s = absurd (h refl)
  step-Ignores CfaOp.restore_state op h k stack s = absurd (k refl)
  step-Ignores CfaOp.set_loc op h k stack s = add_new_row-Ignores _ stack s
  step-Ignores CfaOp.advance_loc op h k stack s = add_new_row-Ignores _ stack s
  step-Ignores CfaOp.advance_loc1 op h k stack s = add_new_row-Ignores _ stack s
  step-Ignores CfaOp.advance_loc2 op h k stack s = add_new_row-Ignores _ stack s
  step-Ignores CfaOp.advance_loc4 op h k stack s = add_new_row-Ignores _ stack s
  step-Ignores CfaOp.def_cfa_register op h k stack s =
      guarded-Ignores (has_cfa m cfa_column try_construct)
        (set_rule m cfa_column try_construct _ cfa_column) (λ st t. refl) (λ st t. refl) stack s
  step-Ignores CfaOp.def_cfa_offset op h k stack s =
      guarded-Ignores (has_cfa m cfa_column try_construct)
        (set_rule m cfa_column try_construct _ cfa_column) (λ st t. refl) (λ st t. refl) stack s
  step-Ignores CfaOp.def_cfa_offset_sf op h k stack s =
      guarded-Ignores (has_cfa m cfa_column try_construct)
        (set_rule m cfa_column try_construct _ cfa_column) (λ st t. refl) (λ st t. refl) stack s
  step-Ignores CfaOp.def_cfa_expression op h k stack s =
      expr-Ignores (loc_expr m cfa_column try_construct op) _ cfa_column stack s
  step-Ignores CfaOp.expression op h k stack s =
      expr-Ignores (loc_expr m cfa_column try_construct op) _ op.fp_register stack s
  step-Ignores CfaOp.val_expression op h k stack s =
      expr-Ignores (loc_expr m cfa_column try_construct op) _ op.fp_register stack s
  step-Ignores CfaOp.restore op h k stack s = restore_rule-Ignores op.fp_register stack s
  step-Ignores CfaOp.restore_extended op h k stack s = restore_rule-Ignores op.fp_register stack s
  step-Ignores _ op h k stack s = refl

  pub interpret_op-Ignores :
      (op : FrameOp) → IsPlain op → Ignores (interpret_op m cfa_column try_construct initial op)
  unfolding interpret_op
  interpret_op-Ignores op (h, k) stack s = split (selected op) h k
    where
      run : Option CfaOp → Working m → Outcome (Working m)
      run o t = elim o [
        | none ↦ err assertion
        | some c ↦ step m cfa_column try_construct initial c op t
      ]

      split :
          (o : Option CfaOp)
          → o ≢ some CfaOp.remember_state
          → o ≢ some CfaOp.restore_state
          → run o (with_stack stack s) ≡ (run o s >>= λ t. ok (with_stack stack t))
      split none p q = refl
      split (some c) p q = step-Ignores c op (λ e. p (ap some e)) (λ e. q (ap some e)) stack s
