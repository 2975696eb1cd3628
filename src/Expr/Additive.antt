-- ===== src/Expr/Additive.antt =====
-- src/expr.cpp: absolute_loclist_to_additive_loclist.
use libdwarfpp.Base.{ℕ, ◌+◌, ◌%◌, ◌^◌, ◌≡◌, refl, sym, ap, ◌∙◌, arith, false, List, [], ◌∷◌, All}
use libdwarfpp.Base.{some, ◌==◌, if◌then◌else◌, Outcome, ◌>>=◌}
use libdwarfpp.Base.Int.{ℤ, to_word64}
use libdwarfpp.Expr.{ExprInstr, LocExpr, op_of}
use libdwarfpp.Expr.Arith.{exec_fbreg}
use libdwarfpp.Expr.Eval.{Evaluator, TosState, push, exec, eval_loop}

-- (Dwarf_Loc) { .lr_atom = DW_OP_plus }
abbrev plus_instr : ExprInstr
plus_instr = record { lr_atom = 0x22; lr_number = 0; lr_number2 = 0; lr_offset = 0 }

-- The inner loop: DW_OP_fbreg becomes DW_OP_consts, and a DW_OP_plus is put behind it.
unfoldable pub to_additive : List ExprInstr → List ExprInstr
to_additive [] = []
to_additive (i ∷ is) =
    let rest = to_additive is in
    if i.lr_atom == 0x91 then record i { lr_atom = 0x11 } ∷ plus_instr ∷ rest else i ∷ rest

unfoldable pub absolute_loclist_to_additive_loclist : List LocExpr → List LocExpr
absolute_loclist_to_additive_loclist [] = []
absolute_loclist_to_additive_loclist (l ∷ ls) =
    record l { instrs = to_additive l.instrs } ∷ absolute_loclist_to_additive_loclist ls

abbrev pub IsNotFbreg : ExprInstr → Type 0
IsNotFbreg i = (i.lr_atom == 0x91) ≡ false

to_additive_same : (is : List ExprInstr) → All IsNotFbreg is → to_additive is ≡ is
unfolding to_additive
to_additive_same [] h = refl
to_additive_same (i ∷ is) (h, hs) = rw (h, to_additive_same is hs) refl

-- An expression that begins with DW_OP_fbreg and has no other, evaluated with the frame base, ends as
-- its rewritten form does on a stack to which the frame base has been pushed. The state of the top is
-- that of an address before.
pub eval_loop-to_additive :
    (n n2 off : ℕ) (is : List ExprInstr) (e : Evaluator) {b : ℤ}
    → All IsNotFbreg is
    → e.frame_base ≡ some b
    → e.m_tos_state ≡ TosState.address
    → eval_loop
        (to_additive
          (record { lr_atom = 0x91; lr_number = n; lr_number2 = n2; lr_offset = off } ∷ is))
        (push (to_word64 b) e)
      ≡ eval_loop
          (record { lr_atom = 0x91; lr_number = n; lr_number2 = n2; lr_offset = off } ∷ is)
          e
unfolding to_additive eval_loop exec op_of
eval_loop-to_additive n n2 off is e {b} h hb ht =
    ap (λ (k : ℕ). eval_loop (to_additive is) (push k e)) (omega arith)
    ∙ ap (λ (js : List ExprInstr). eval_loop js (push ((to_word64 b + n) % 2 ^ 64) e))
        (to_additive_same is h)
    ∙ ap (λ (o : Outcome Evaluator). o >>= eval_loop is) (sym (exec_fbreg leading b e hb ht))
  where
    leading : ExprInstr
    leading = record { lr_atom = 0x91; lr_number = n; lr_number2 = n2; lr_offset = off }
