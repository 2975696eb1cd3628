-- ===== src/Expr/Arith.antt =====
-- src/expr.cpp: arithmetic expressions, compiled to operations, are evaluated to their value.
use libdwarfpp.Base.{
  ℕ, ◌+◌, ◌-◌, ◌*◌, ◌%◌, ◌^◌, ◌≡◌, refl, ap, ◌∙◌, arith, bit_and, bit_or, bit_xor,
}
use libdwarfpp.Base.{some, List, [], ◌∷◌, ◌++◌, append_assoc, Outcome, ok, ◌>>=◌}
use libdwarfpp.Base.Int.{ℤ, to_word64}
use libdwarfpp.Expr.{ExprInstr, Op, op_of}
use libdwarfpp.Expr.Eval.{Evaluator, TosState, push, exec, eval_loop}

-- The operations that compute, as a tree. `local` is an offset from the frame base.
pub data Term : Type 0 where
  const local : ℕ → Term
  cfa : Term
  plus minus mul and or xor : Term → Term → Term
  plus_uconst : ℕ → Term → Term
  neg not : Term → Term

-- An operation with its number and operand.
abbrev pub instr : ℕ → ℕ → ExprInstr
instr atom n = record { lr_atom = atom; lr_number = n; lr_number2 = 0; lr_offset = 0 }

unfoldable pub compile : Term → List ExprInstr
compile (Term.const n) = instr 0x10 n ∷ []
compile (Term.local n) = instr 0x91 n ∷ []
compile Term.cfa = instr 0x9c 0 ∷ []
compile (Term.plus a b) = compile a ++ (compile b ++ instr 0x22 0 ∷ [])
compile (Term.minus a b) = compile a ++ (compile b ++ instr 0x1c 0 ∷ [])
compile (Term.mul a b) = compile a ++ (compile b ++ instr 0x1e 0 ∷ [])
compile (Term.and a b) = compile a ++ (compile b ++ instr 0x1a 0 ∷ [])
compile (Term.or a b) = compile a ++ (compile b ++ instr 0x21 0 ∷ [])
compile (Term.xor a b) = compile a ++ (compile b ++ instr 0x27 0 ∷ [])
compile (Term.plus_uconst n a) = compile a ++ instr 0x23 n ∷ []
compile (Term.neg a) = compile a ++ instr 0x1f 0 ∷ []
compile (Term.not a) = compile a ++ instr 0x20 0 ∷ []

-- The value, modulo 2 ^ 64, where the frame base is `base`.
unfoldable pub value : ℕ → Term → ℕ
value base (Term.const n) = n
value base (Term.local n) = (base + n) % 2 ^ 64
value base Term.cfa = base
value base (Term.plus a b) = (value base b + value base a) % 2 ^ 64
value base (Term.minus a b) = (value base a + 2 ^ 64 - value base b) % 2 ^ 64
value base (Term.mul a b) = value base b * value base a % 2 ^ 64
value base (Term.and a b) = bit_and (value base b) (value base a) % 2 ^ 64
value base (Term.or a b) = bit_or (value base b) (value base a) % 2 ^ 64
value base (Term.xor a b) = bit_xor (value base b) (value base a) % 2 ^ 64
value base (Term.plus_uconst n a) = (value base a + n) % 2 ^ 64
value base (Term.neg a) = (2 ^ 64 - value base a) % 2 ^ 64
value base (Term.not a) = 2 ^ 64 - 1 - value base a

module _ (i : ExprInstr) (b : ℤ) (e : Evaluator) (hb : e.frame_base ≡ some b)
    (ht : e.m_tos_state ≡ TosState.address) where
  pub exec_fbreg : exec Op.fbreg i e ≡ ok (push ((to_word64 b + i.lr_number) % 2 ^ 64) e)
  unfolding exec
  exec_fbreg = ground arith

  exec_call_frame_cfa : exec Op.call_frame_cfa i e ≡ ok (push (to_word64 b) e)
  unfolding exec
  exec_call_frame_cfa = ground arith

-- Evaluating the operations of a term pushes its value, and nothing else, on any stack; then the
-- operations behind it are evaluated. The frame base is known, and no earlier operation has left
-- the stack's top in another state than that of an address.
pub eval_loop-compile :
    (t : Term) (b : ℤ) (rest : List ExprInstr) (e : Evaluator)
    → e.frame_base ≡ some b
    → e.m_tos_state ≡ TosState.address
    → eval_loop (compile t ++ rest) e ≡ eval_loop rest (push (value (to_word64 b) t) e)
unfolding compile value eval_loop exec op_of
eval_loop-compile (Term.const n) b rest e hb ht = refl
eval_loop-compile (Term.local n) b rest e hb ht =
    ap (λ (o : Outcome Evaluator). o >>= eval_loop rest) (exec_fbreg (instr 0x91 n) b e hb ht)
eval_loop-compile Term.cfa b rest e hb ht =
    ap (λ (o : Outcome Evaluator). o >>= eval_loop rest)
      (exec_call_frame_cfa (instr 0x9c 0) b e hb ht)
eval_loop-compile (Term.plus a c) b rest e hb ht =
    rw (append_assoc, append_assoc)
      (eval_loop-compile a b (compile c ++ instr 0x22 0 ∷ rest) e hb ht
        ∙ eval_loop-compile c b (instr 0x22 0 ∷ rest) (push (value (to_word64 b) a) e) hb refl)
eval_loop-compile (Term.minus a c) b rest e hb ht =
    rw (append_assoc, append_assoc)
      (eval_loop-compile a b (compile c ++ instr 0x1c 0 ∷ rest) e hb ht
        ∙ eval_loop-compile c b (instr 0x1c 0 ∷ rest) (push (value (to_word64 b) a) e) hb refl)
eval_loop-compile (Term.mul a c) b rest e hb ht =
    rw (append_assoc, append_assoc)
      (eval_loop-compile a b (compile c ++ instr 0x1e 0 ∷ rest) e hb ht
        ∙ eval_loop-compile c b (instr 0x1e 0 ∷ rest) (push (value (to_word64 b) a) e) hb refl)
eval_loop-compile (Term.and a c) b rest e hb ht =
    rw (append_assoc, append_assoc)
      (eval_loop-compile a b (compile c ++ instr 0x1a 0 ∷ rest) e hb ht
        ∙ eval_loop-compile c b (instr 0x1a 0 ∷ rest) (push (value (to_word64 b) a) e) hb refl)
eval_loop-compile (Term.or a c) b rest e hb ht =
    rw (append_assoc, append_assoc)
      (eval_loop-compile a b (compile c ++ instr 0x21 0 ∷ rest) e hb ht
        ∙ eval_loop-compile c b (instr 0x21 0 ∷ rest) (push (value (to_word64 b) a) e) hb refl)
eval_loop-compile (Term.xor a c) b rest e hb ht =
    rw (append_assoc, append_assoc)
      (eval_loop-compile a b (compile c ++ instr 0x27 0 ∷ rest) e hb ht
        ∙ eval_loop-compile c b (instr 0x27 0 ∷ rest) (push (value (to_word64 b) a) e) hb refl)
eval_loop-compile (Term.plus_uconst n a) b rest e hb ht =
    rw (append_assoc, eval_loop-compile a b _ e hb ht)
eval_loop-compile (Term.neg a) b rest e hb ht = rw (append_assoc, eval_loop-compile a b _ e hb ht)
eval_loop-compile (Term.not a) b rest e hb ht = rw (append_assoc, eval_loop-compile a b _ e hb ht)
