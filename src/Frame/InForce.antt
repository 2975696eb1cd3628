-- ===== src/Frame/InForce.antt =====
-- src/frame.cpp: the rows that interpret_instructions adds, against a description without a table:
-- the rules in force at an address are those that are current when the walk goes past it.
use libdwarfpp.Base.{ℕ, ◌≤◌, ◌<◌, ◌≡◌, refl, ◌∙◌, arith, inl, inr, Bool-cases}
use libdwarfpp.Base.{Bool, Option, none, some, List, [], ◌∷◌, ltb, true, false}
use libdwarfpp.Base.{Outcome, ok, err, assertion, ◌>>=◌, ◌>>◌, guard}
use libdwarfpp.Expr.{LocExpr}
use libdwarfpp.Frame.{CfaOp, FrameOp}
use libdwarfpp.Frame.Rows.{RowDefs, IntervalMap, visible}
use libdwarfpp.Frame.Interpret.{
  InstrsResults, Working, add_new_row, restore_rule, step, interpret_op,
}
use libdwarfpp.Frame.Interpret.{selected, has_cfa}

-- No row at the current address or above it.
abbrev pub IsOpen : (m : IntervalMap) → Working m → Type 0
IsOpen m s = (b : ℕ) → s.current_row_addr ≤ b → m.find s.rows b ≡ none

-- From `s` to `s'`, the rows below the address of `s` have stayed, and there are none from the
-- address of `s'` on.
pub record Grows (m : IntervalMap) (s s' : Working m) : Type 0 where
  pub up : s.current_row_addr ≤ s'.current_row_addr
  pub below : (b : ℕ) → b < s.current_row_addr → m.find s'.rows b ≡ m.find s.rows b
  pub above : IsOpen m s'

-- One instruction covers the addresses that it passes with the row that was current.
abbrev pub Covers : (m : IntervalMap) → Working m → Outcome (Working m) → Type 0
Covers m s (ok s') =
    Grows m s s'
    × ((b : ℕ)
        → s.current_row_addr ≤ b
        → b < s'.current_row_addr
        → m.find s'.rows b ≡ visible s.current_row_defs)
Covers m s (err x) = Unit {0}

module _ (m : IntervalMap) (cfa_column : ℕ) (try_construct : Option (List ℕ) → ℕ → Option LocExpr)
    (s : Working m) (o : IsOpen m s) where
  stays :
      (defs : RowDefs) (stack : List RowDefs)
      → Covers m s (ok (record s { current_row_defs = defs; remembered_row_defs = stack }))
  stays defs stack =
      (record { up = omega arith; below = λ b h. refl; above = o }, λ b h k. absurd (omega arith))

  add_new_row-Covers : (a : ℕ) → Covers m s (add_new_row m cfa_column try_construct a s)
  unfolding add_new_row
  add_new_row-Covers a = elim (Bool-cases (ltb s.current_row_addr a)) [
    | inr e ↦ rw e tt
    | inl e ↦ rw e (
      record {
        up = ground arith;
        below = λ b h. m.find-add_outside _ a _ _ b (inl h);
        above = λ b h. m.find-add_outside _ a _ _ b (inr h) ∙ o b (ground arith);
      },
      λ b h k. m.find-add_inside _ a _ _ b h k (o b h),
    )
  ]

  guarded-Covers :
      (b : Bool) (r : Outcome (Working m)) → Covers m s r → Covers m s (guard b assertion >> r)
  guarded-Covers true r c = c
  guarded-Covers false r c = tt

  expr-Covers :
      (r : Outcome LocExpr) (f : LocExpr → Working m)
      → ((x : LocExpr) → Covers m s (ok (f x)))
      → Covers m s (r >>= λ x. ok (f x))
  expr-Covers (ok x) f c = c x
  expr-Covers (err e) f c = tt

  restore_rule-Covers :
      (initial : Option (InstrsResults m)) (n : ℕ)
      → Covers m s (restore_rule m cfa_column try_construct initial n s)
  unfolding restore_rule
  restore_rule-Covers none n = tt
  restore_rule-Covers (some r) n = stays _ _

  restore_state-Covers :
      (stack : List RowDefs)
      → Covers m s (elim stack [
        | [] ↦ err assertion
        | top ∷ below ↦ ok (record s { current_row_defs = top; remembered_row_defs = below })
      ])
  restore_state-Covers [] = tt
  restore_state-Covers (top ∷ below) = stays top below

  step-Covers :
      (initial : Option (InstrsResults m)) (c : CfaOp) (op : FrameOp)
      → Covers m s (step m cfa_column try_construct initial c op s)
  unfolding step
  step-Covers initial CfaOp.set_loc op = add_new_row-Covers _
  step-Covers initial CfaOp.advance_loc op = add_new_row-Covers _
  step-Covers initial CfaOp.advance_loc1 op = add_new_row-Covers _
  step-Covers initial CfaOp.advance_loc2 op = add_new_row-Covers _
  step-Covers initial CfaOp.advance_loc4 op = add_new_row-Covers _
  step-Covers initial CfaOp.def_cfa_register op =
      guarded-Covers (has_cfa m cfa_column try_construct s) (ok _) (stays _ _)
  step-Covers initial CfaOp.def_cfa_offset op =
      guarded-Covers (has_cfa m cfa_column try_construct s) (ok _) (stays _ _)
  step-Covers initial CfaOp.def_cfa_offset_sf op =
      guarded-Covers (has_cfa m cfa_column try_construct s) (ok _) (stays _ _)
  step-Covers initial CfaOp.def_cfa_expression op = expr-Covers _ _ (λ x. stays _ _)
  step-Covers initial CfaOp.expression op = expr-Covers _ _ (λ x. stays _ _)
  step-Covers initial CfaOp.val_expression op = expr-Covers _ _ (λ x. stays _ _)
  step-Covers initial CfaOp.restore op = restore_rule-Covers initial _
  step-Covers initial CfaOp.restore_extended op = restore_rule-Covers initial _
  step-Covers initial CfaOp.restore_state op = restore_state-Covers s.remembered_row_defs
  step-Covers initial _ op = stays _ _

  pub interpret_op-Covers :
      (initial : Option (InstrsResults m)) (op : FrameOp)
      → Covers m s (interpret_op m cfa_column try_construct initial op s)
  unfolding interpret_op
  interpret_op-Covers initial op =
      elim (selected op)
        as (λ c. Covers m s (elim c [
          | none ↦ err assertion
          | some c ↦ step m cfa_column try_construct initial c op s
        ])) [ none ↦ tt | some c ↦ step-Covers initial c op ]
