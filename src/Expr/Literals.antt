-- ===== src/Expr/Literals.antt =====
-- include/dwarfpp/spec.hpp: DW_OP_lit0 .. DW_OP_lit31 in a computation.
use libdwarfpp.Base.{ℕ, ◌+◌, ◌^◌, ◌<◌, ◌≡◌, refl, ap, ◌∙◌, arith, List, ◌∷◌}
use libdwarfpp.Expr.{ExprInstr, Op, op_of}
use libdwarfpp.Expr.Eval.{Evaluator, TosState, exec, eval_loop}
use libdwarfpp.Expr.Arith.{instr}

op_of-lit : (a : ℕ) → a < 32 → op_of (0x30 + a) ≡ Op.lit a
unfolding op_of
op_of-lit a h = ground arith

-- One literal pushes a zero and itself.
eval_loop-lit :
    (a : ℕ) (rest : List ExprInstr) (e : Evaluator)
    → a < 32
    → eval_loop (instr (0x30 + a) 0 ∷ rest) e
      ≡ eval_loop rest (record e { m_stack = a ∷ 0 ∷ e.m_stack; m_tos_state = TosState.address })
unfolding eval_loop exec
eval_loop-lit a rest e h = rw (op_of-lit a h, eval_loop) refl

plus_zero :
    (b : ℕ) (stack : List ℕ) (rest : List ExprInstr) (e : Evaluator)
    → b < 2 ^ 64
    → eval_loop
        (instr 0x22 0 ∷ rest)
        (record e { m_stack = b ∷ 0 ∷ stack; m_tos_state = TosState.address })
      ≡ eval_loop rest (record e { m_stack = b ∷ stack; m_tos_state = TosState.address })
unfolding eval_loop exec op_of
plus_zero b stack rest e h =
    ap
      (λ (n : ℕ). eval_loop rest (record e { m_stack = n ∷ stack; m_tos_state = TosState.address }))
      (omega arith)

-- The sum of two literals is the second one, on top of the first one: each literal pushes a zero
-- below itself, and DW_OP_plus adds the second literal to the zero below it.
pub eval_loop-lit_plus :
    (a b : ℕ) (rest : List ExprInstr) (e : Evaluator)
    → a < 32
    → b < 32
    → eval_loop (instr (0x30 + a) 0 ∷ instr (0x30 + b) 0 ∷ instr 0x22 0 ∷ rest) e
      ≡ eval_loop rest
          (record e { m_stack = b ∷ a ∷ 0 ∷ e.m_stack; m_tos_state = TosState.address })
eval_loop-lit_plus a b rest e ha hb =
    eval_loop-lit a (instr (0x30 + b) 0 ∷ instr 0x22 0 ∷ rest) e ha
    ∙ eval_loop-lit b (instr 0x22 0 ∷ rest)
        (record e { m_stack = a ∷ 0 ∷ e.m_stack; m_tos_state = TosState.address }) hb
    ∙ plus_zero b (a ∷ 0 ∷ e.m_stack) rest e (omega arith)
