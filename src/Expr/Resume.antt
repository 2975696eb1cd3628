-- ===== src/Expr/Resume.antt =====
-- src/expr.cpp: the stop at DW_OP_piece and the resumption by eval_next, over whole expressions.
use libdwarfpp.Base.{ℕ, ◌≡◌, ◌≢◌, refl, sym, ap, ◌∙◌, arith, true, false, ltb, ◌&&◌}
use libdwarfpp.Base.{
  Option, List, [], ◌∷◌, ◌++◌, length, length-append, All, Outcome, ok, err, ◌>>=◌,
}
use libdwarfpp.Base.Int.{ℤ}
use libdwarfpp.Expr.{ExprInstr, Op, op_of}
use libdwarfpp.Expr.Eval.{Evaluator, exec, eval_loop, eval, eval_next, evaluator, is_between}
use libdwarfpp.Expr.Keeps.{Keeps, exec-Keeps}

abbrev pub IsPiece : ExprInstr → Type 0
IsPiece i = op_of i.lr_atom ≡ Op.piece

-- One round of the loop, at an operation that is not DW_OP_piece.
step_op :
    (i : ExprInstr) (is : List ExprInstr) (e : Evaluator)
    → op_of i.lr_atom ≢ Op.piece
    → eval_loop (i ∷ is) e ≡ (exec (op_of i.lr_atom) i e >>= λ e'. eval_loop is e')
unfolding eval_loop
step_op i is e h = cases (op_of i.lr_atom) h
  where
    cases :
        (op : Op)
        → op ≢ Op.piece
        → elim op [ Op.piece ↦ ok (record e { i = is }) | o ↦ exec o i e >>= λ e'. eval_loop is e' ]
          ≡ (exec op i e >>= λ e'. eval_loop is e')
    cases Op.piece ne = absurd (ne refl)
    cases _ ne = refl

step_piece :
    (p : ExprInstr) (is : List ExprInstr) (e : Evaluator)
    → IsPiece p
    → eval_loop (p ∷ is) e ≡ ok (record e { i = is })
unfolding eval_loop
step_piece p is e h = rw (h, eval_loop)

loop_nil : (e : Evaluator) → eval_loop [] e ≡ ok (record e { i = [] })
unfolding eval_loop
loop_nil e = refl

loop_to_piece :
    (front : List ExprInstr) (p : ExprInstr) (is : List ExprInstr) (e e₁ : Evaluator)
    → All (λ i. op_of i.lr_atom ≢ Op.piece) front
    → IsPiece p
    → eval_loop front e ≡ ok e₁
    → eval_loop (front ++ p ∷ is) e ≡ ok (record e₁ { i = is })
loop_to_piece [] p is e e₁ none hp h =
    step_piece p is e hp
    ∙ ap (λ (r : Outcome Evaluator). r >>= λ e'. ok (record e' { i = is })) (sym (loop_nil e) ∙ h)
loop_to_piece (x ∷ front) p is e e₁ (hx, hs) hp h =
    step_op x (front ++ p ∷ is) e hx
    ∙ go (exec (op_of x.lr_atom) x e) (sym (step_op x front e hx) ∙ h)
        (λ e'. loop_to_piece front p is e' e₁ hs hp)
  where
    go :
        (r : Outcome Evaluator)
        → (r >>= λ e'. eval_loop front e') ≡ ok e₁
        → ((e' : Evaluator)
            → eval_loop front e' ≡ ok e₁
            → eval_loop (front ++ p ∷ is) e' ≡ ok (record e₁ { i = is }))
        → (r >>= λ e'. eval_loop (front ++ p ∷ is) e') ≡ ok (record e₁ { i = is })
    go (ok e') q k = k e' q
    go (err x) q k = cc

loop-expr :
    (front : List ExprInstr) (e e₁ : Evaluator)
    → All (λ i. op_of i.lr_atom ≢ Op.piece) front
    → eval_loop front e ≡ ok e₁
    → e₁.expr ≡ e.expr
loop-expr [] e e₁ none h =
    ap
      (λ (r : Outcome Evaluator). elim r as (λ _. List ExprInstr) [
        | ok a ↦ a.expr
        | err x ↦ e.expr
      ])
      (sym (sym (loop_nil e) ∙ h))
loop-expr (x ∷ front) e e₁ (hx, hs) h =
    go (exec (op_of x.lr_atom) x e) (exec-Keeps e (op_of x.lr_atom) x)
      (sym (step_op x front e hx) ∙ h) (λ e'. loop-expr front e' e₁ hs)
  where
    go :
        (r : Outcome Evaluator)
        → Keeps e r
        → (r >>= λ e'. eval_loop front e') ≡ ok e₁
        → ((e' : Evaluator) → eval_loop front e' ≡ ok e₁ → e₁.expr ≡ e'.expr)
        → e₁.expr ≡ e.expr
    go (ok e') k q ih = ih e' q ∙ k.0
    go (err y) k q ih = cc

not_between : (n : ℕ) → (ltb 0 n && ltb n n) ≡ false
not_between n = ground arith

is_inside :
    (front : List ExprInstr) (p x : ExprInstr) (back : List ExprInstr)
    → (ltb 0 (length (x ∷ back)) && ltb (length (x ∷ back)) (length (front ++ p ∷ x ∷ back))) ≡ true
is_inside front p x back = ground (arith, length-append front (p ∷ x ∷ back))

-- An evaluator stopped at a DW_OP_piece, and then resumed, does not execute the operation behind
-- the piece: it clears the stack and goes on with the operation after that one.
pub eval_next_skips :
    (front : List ExprInstr) (p x : ExprInstr) (back : List ExprInstr) (regs : Option (ℕ → ℤ))
    (frame_base : Option ℤ) (initial_stack : List ℕ) (e₁ : Evaluator)
    → All (λ i. op_of i.lr_atom ≢ Op.piece) front
    → IsPiece p
    → eval_loop front (evaluator (front ++ p ∷ x ∷ back) regs frame_base initial_stack) ≡ ok e₁
    → (eval (evaluator (front ++ p ∷ x ∷ back) regs frame_base initial_stack) >>= eval_next)
      ≡ eval_loop back (record e₁ { i = x ∷ back; m_stack = [] })
unfolding eval eval_next
eval_next_skips front p x back regs frame_base initial_stack e₁ none hp h =
    let whole : List ExprInstr = front ++ p ∷ x ∷ back in
    let e₀ : Evaluator = evaluator whole regs frame_base initial_stack in
    let start : is_between e₀ ≡ false = not_between (length whole) in
    let first : eval_loop whole e₀ ≡ ok (record e₁ { i = x ∷ back }) =
      loop_to_piece front p (x ∷ back) e₀ e₁ none hp h in
    let between : is_between (record e₁ { i = x ∷ back }) ≡ true =
      rw (loop-expr front e₀ e₁ none h) (is_inside front p x back) in
    rw (start, first) (rw (between))
