-- ===== src/Expr/Tests.antt =====
-- src/expr.cpp: the evaluator on short expressions.
use libdwarfpp.Base.{arith, ◌≡◌, refl, ◌∷◌, ◌++◌, [], List, some, none, ok, ◌>>=◌}
use libdwarfpp.Base.Int.{pos}
use libdwarfpp.Expr.{ExprInstr, Op, op_of}
use libdwarfpp.Expr.Eval.{Evaluator, push, exec, eval, eval_next, eval_loop, evaluator}
use libdwarfpp.Expr.Arith.{Term, instr, compile, value, eval_loop-compile}
use libdwarfpp.Expr.Depth.{effect, Agrees}
use libdwarfpp.Expr.Machine.{exec-effect}
use libdwarfpp.Expr.Resume.{eval_next_skips}
use libdwarfpp.Expr.Literals.{eval_loop-lit_plus}
use libdwarfpp.Expr.Additive.{to_additive, eval_loop-to_additive}

-- An evaluator with frame base 100.
abbrev start : List ExprInstr → Evaluator
start is = evaluator is none (some (pos 100)) []

-- DW_OP_fbreg -8: the operand is a signed number as a 64-bit pattern.
local_variable :
    (eval (start (instr 0x91 0xfffffffffffffff8 ∷ [])) >>= λ e. ok e.m_stack) ≡ ok (92 ∷ [])
unfolding eval eval_loop op_of exec
local_variable = refl

-- DW_OP_lit5, DW_OP_lit7, DW_OP_plus: the zero below the second literal is what is added.
literals :
    (eval (start (instr 0x35 0 ∷ instr 0x37 0 ∷ instr 0x22 0 ∷ [])) >>= λ e. ok e.m_stack)
    ≡ ok (7 ∷ 5 ∷ 0 ∷ [])
unfolding eval eval_loop op_of exec
literals = refl

abbrev twice_local : Term
twice_local = Term.mul (Term.const 2) (Term.local 8)

eval_loop-compile_example :
    eval_loop (compile twice_local ++ []) (start [])
    ≡ eval_loop [] (push (value 100 twice_local) (start []))
eval_loop-compile_example = eval_loop-compile twice_local (pos 100) [] (start []) refl refl

exec-effect_example :
    Agrees (effect Op.plus (instr 0x22 0) 0) (exec Op.plus (instr 0x22 0) (start []))
exec-effect_example = exec-effect Op.plus (instr 0x22 0) (start []) refl

abbrev two_pieces : List ExprInstr
two_pieces = instr 0x91 8 ∷ instr 0x93 4 ∷ instr 0x91 16 ∷ instr 0x93 4 ∷ []

eval_next_skips_example :
    (eval (start two_pieces) >>= eval_next)
    ≡ eval_loop
        (instr 0x93 4 ∷ [])
        (record (start two_pieces) { i = instr 0x91 16 ∷ instr 0x93 4 ∷ []; m_stack = [] })
unfolding op_of eval_loop exec
eval_next_skips_example =
    eval_next_skips (instr 0x91 8 ∷ []) (instr 0x93 4) (instr 0x91 16) (instr 0x93 4 ∷ []) none
      (some (pos 100)) [] (record (start two_pieces) { i = []; m_stack = 108 ∷ [] }) (λ q. cc, tt)
      refl refl

eval_loop-lit_plus_example :
    eval_loop (instr 0x35 0 ∷ instr 0x37 0 ∷ instr 0x22 0 ∷ []) (start [])
    ≡ eval_loop [] (record (start []) { m_stack = 7 ∷ 5 ∷ 0 ∷ [] })
eval_loop-lit_plus_example = eval_loop-lit_plus 5 7 [] (start []) (omega arith) (omega arith)

-- DW_OP_fbreg 8; DW_OP_plus_uconst 4
eval_loop-to_additive_example :
    eval_loop (to_additive (instr 0x91 8 ∷ instr 0x23 4 ∷ [])) (push 100 (start []))
    ≡ eval_loop (instr 0x91 8 ∷ instr 0x23 4 ∷ []) (start [])
eval_loop-to_additive_example =
    eval_loop-to_additive 8 0 0 (instr 0x23 4 ∷ []) (start []) (refl, tt) refl refl
