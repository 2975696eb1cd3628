-- ===== src/Frame/Accepted.antt =====
-- src/frame.cpp: interpret_instructions succeeds on the instructions that the walk accepts.
use mathlib.Core.Path.{subst}
use libdwarfpp.Base.{ℕ, ◌≡◌, refl, ap, ◌∙◌, Bool, true, false, ◌||◌}
use libdwarfpp.Base.{Option, none, some, List, [], ◌∷◌, ltb, ==_refl, if◌then◌else◌}
use libdwarfpp.Base.{Outcome, ok, err, assertion, ◌>>=◌, ◌>>◌, guard}
use libdwarfpp.Expr.{LocExpr}
use libdwarfpp.Frame.{CfaOp, FrameOp}
use libdwarfpp.Frame.Rows.{RegisterDef, RowDefs, find_def, IntervalMap}
use libdwarfpp.Frame.Interpret.{
  loc_expr, set_rule, InstrsResults, Working, add_new_row, restore_rule, step, selected,
  interpret_op, interpret_loop, has_cfa,
}
use libdwarfpp.Frame.Accepts.{
  Shape, is_some, all_shapes, found-modify, moves, defines_cfa, changes_cfa, defines, expands,
  accepts, accepts_all,
}

module _ (m : IntervalMap) (cfa_column : ℕ) (try_construct : Option (List ℕ) → ℕ → Option LocExpr)
    (r : InstrsResults m) where
  abbrev pub shape : Working m → Shape
  shape s = record {
    address = s.current_row_addr;
    cfa = is_some (find_def s.current_row_defs cfa_column);
    remembered = all_shapes cfa_column s.remembered_row_defs;
  }

  -- A run agrees with a walk: a state of the shape, or a failed assertion.
  abbrev pub Matches : Option Shape → Outcome (Working m) → Type 0
  Matches (some k) (ok s) = shape s ≡ k
  Matches none (err x) = x ≡ assertion
  Matches (some k) (err x) = ⊥
  Matches none (ok s) = ⊥

  module _ (s : Working m) where
    rule-Matches :
        (f : RegisterDef → RegisterDef) (n : ℕ)
        → Matches
            (defines cfa_column try_construct n (shape s))
            (set_rule m cfa_column try_construct f n s)
    rule-Matches f n =
        ap (λ (b : Bool). record (shape s) { cfa = b })
          (found-modify f n cfa_column s.current_row_defs)

    cfa-Matches :
        (f : RegisterDef → RegisterDef)
        → Matches
            (defines_cfa cfa_column try_construct (shape s))
            (set_rule m cfa_column try_construct f cfa_column s)
    cfa-Matches f =
        rule-Matches f cfa_column
        ∙ ap
            (λ (b : Bool). record (shape s) {
              cfa = b || is_some (find_def s.current_row_defs cfa_column);
            })
            (==_refl cfa_column)

    change-Matches :
        (f : RegisterDef → RegisterDef)
        → Matches (changes_cfa cfa_column try_construct (shape s)) (
            guard (has_cfa m cfa_column try_construct s) assertion
            >> set_rule m cfa_column try_construct f cfa_column s)
    change-Matches f = split (find_def s.current_row_defs cfa_column) (cfa-Matches f)
      where
        split :
            (o : Option RegisterDef)
            → Matches
                (defines_cfa cfa_column try_construct (shape s))
                (set_rule m cfa_column try_construct f cfa_column s)
            → Matches (if is_some o then defines_cfa cfa_column try_construct (shape s) else none) (
                guard (elim o [ none ↦ false | some d ↦ true ]) assertion
                >> set_rule m cfa_column try_construct f cfa_column s)
        split none h = refl
        split (some d) h = h

    expr-Matches :
        (op : FrameOp) (k : Shape) (run : LocExpr → Outcome (Working m))
        → ((x : LocExpr) → Matches (some k) (run x))
        → Matches
            (expands cfa_column try_construct op (some k))
            (loc_expr m cfa_column try_construct op >>= run)
    expr-Matches op k run h = split (try_construct op.expr_block op.offset_or_block_len)
      where
        split :
            (o : Option LocExpr)
            → Matches
                (elim o [ none ↦ none | some x ↦ some k ])
                (elim o [ none ↦ err assertion | some x ↦ ok x ] >>= run)
        split none = refl
        split (some x) = h x

    add_new_row-Matches :
        (a : ℕ)
        → Matches
            (moves cfa_column try_construct a (shape s))
            (add_new_row m cfa_column try_construct a s)
    unfolding add_new_row
    add_new_row-Matches a = split (ltb s.current_row_addr a)
      where
        split :
            (b : Bool)
            → Matches (if b then some (record (shape s) { address = a }) else none) (
                guard b assertion
                >> ok (record s {
                  rows = m.add s.current_row_addr a s.current_row_defs s.rows;
                  current_row_addr = a;
                }))
        split true = refl
        split false = refl

    restore_state-Matches :
        (stack : List RowDefs)
        → Matches
            (elim (all_shapes cfa_column stack) [
              | [] ↦ none
              | b ∷ bs ↦ some (record (shape s) { cfa = b; remembered = bs })
            ])
            (elim stack [
              | [] ↦ err assertion
              | top ∷ below ↦ ok (record s { current_row_defs = top; remembered_row_defs = below })
            ])
    restore_state-Matches [] = refl
    restore_state-Matches (top ∷ below) = refl

    step-Matches :
        (c : CfaOp) (op : FrameOp)
        → Matches
            (accepts cfa_column try_construct c op (shape s))
            (step m cfa_column try_construct (some r) c op s)
    unfolding accepts step restore_rule
    step-Matches CfaOp.set_loc op = add_new_row-Matches _
    step-Matches CfaOp.advance_loc op = add_new_row-Matches _
    step-Matches CfaOp.advance_loc1 op = add_new_row-Matches _
    step-Matches CfaOp.advance_loc2 op = add_new_row-Matches _
    step-Matches CfaOp.advance_loc4 op = add_new_row-Matches _
    step-Matches CfaOp.def_cfa op = cfa-Matches _
    step-Matches CfaOp.def_cfa_sf op = cfa-Matches _
    step-Matches CfaOp.def_cfa_register op = change-Matches _
    step-Matches CfaOp.def_cfa_offset op = change-Matches _
    step-Matches CfaOp.def_cfa_offset_sf op = change-Matches _
    step-Matches CfaOp.def_cfa_expression op = expr-Matches op _ _ (λ x. cfa-Matches _)
    step-Matches CfaOp.expression op = expr-Matches op _ _ (λ x. rule-Matches _ op.fp_register)
    step-Matches CfaOp.val_expression op = expr-Matches op _ _ (λ x. rule-Matches _ op.fp_register)
    step-Matches CfaOp.restore_state op = restore_state-Matches s.remembered_row_defs
    step-Matches CfaOp.remember_state op = refl
    step-Matches CfaOp.nop op = refl
    step-Matches CfaOp.gnu_args_size op = refl
    step-Matches _ op = rule-Matches _ op.fp_register

  interpret_op-Matches :
      (op : FrameOp) (s : Working m)
      → Matches
          (elim (selected op) [
            | none ↦ none
            | some c ↦ accepts cfa_column try_construct c op (shape s)
          ])
          (interpret_op m cfa_column try_construct (some r) op s)
  unfolding interpret_op
  interpret_op-Matches op s =
      elim (selected op)
        as (λ o.
          Matches
            (elim o [ none ↦ none | some c ↦ accepts cfa_column try_construct c op (shape s) ])
            (elim o [
              | none ↦ err assertion
              | some c ↦ step m cfa_column try_construct (some r) c op s
            ])) [ none ↦ refl | some c ↦ step-Matches s c op ]

  -- The instructions of an FDE are interpreted to the end exactly if the walk accepts them: each
  -- advance goes to a greater address, below 2 ^ 64, the CFA has a rule where one is changed, a row is
  -- remembered where one is restored, and each block is expanded. Otherwise an assertion fails.
  pub interpret_loop-Matches :
      (ops : List FrameOp) (s : Working m)
      → Matches
          (accepts_all cfa_column try_construct ops (shape s))
          (interpret_loop m cfa_column try_construct (some r) ops s)
  unfolding accepts_all interpret_loop
  interpret_loop-Matches [] s = refl
  interpret_loop-Matches (op ∷ ops) s =
      elim (selected op)
          as (λ o.
            Matches
              (elim o [ none ↦ none | some c ↦ accepts cfa_column try_construct c op (shape s) ])
              (interpret_op m cfa_column try_construct (some r) op s)
            → Matches
                (elim o [
                  | none ↦ none
                  | some c ↦ elim (accepts cfa_column try_construct c op (shape s)) [
                    | none ↦ none
                    | some k ↦ accepts_all cfa_column try_construct ops k
                  ]
                ])
                (interpret_op m cfa_column try_construct (some r) op s >>= λ t.
                  interpret_loop m cfa_column try_construct (some r) ops t)) [
                    | none ↦ λ h.
                        go none (interpret_op m cfa_column try_construct (some r) op s) h
                          (λ t. interpret_loop-Matches ops t)
                    | some c ↦ λ h.
                        go (accepts cfa_column try_construct c op (shape s))
                          (interpret_op m cfa_column try_construct (some r) op s) h
                          (λ t. interpret_loop-Matches ops t)
                  ]
        (interpret_op-Matches op s)
    where
      go :
          (o : Option Shape) (run : Outcome (Working m))
          → Matches o run
          → ((t : Working m)
              → Matches
                  (accepts_all cfa_column try_construct ops (shape t))
                  (interpret_loop m cfa_column try_construct (some r) ops t))
          → Matches
              (elim o [ none ↦ none | some k ↦ accepts_all cfa_column try_construct ops k ])
              (run >>= λ t. interpret_loop m cfa_column try_construct (some r) ops t)
      go none (err x) h ih = h
      go none (ok t) h ih = absurd h
      go (some k) (err x) h ih = absurd h
      go (some k) (ok t) h ih =
          subst
            (λ k'.
              Matches (accepts_all cfa_column try_construct ops k')
                (interpret_loop m cfa_column try_construct (some r) ops t))
            h (ih t)
