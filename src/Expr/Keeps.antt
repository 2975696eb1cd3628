-- ===== src/Expr/Keeps.antt =====
-- src/expr.cpp: what the operations of the evaluator leave alone.
use libdwarfpp.Base.{
  ℕ, ◌+◌, ◌-◌, ◌*◌, ◌/◌, ◌%◌, ◌^◌, ◌≡◌, refl, not, ◌&&◌, bit_and, bit_or, bit_xor,
}
use libdwarfpp.Base.{List, [], ◌∷◌, Outcome, ok, err, ◌>>=◌}
use libdwarfpp.Base.Int.{to_int64, to_word64, leb_ℤ, ltb_ℤ}
use libdwarfpp.Expr.{ExprInstr, Op}
use libdwarfpp.Expr.Eval.{
  Evaluator, TosState, shift, word, compare_signed, at, push, unary, binary, exec,
}
use libdwarfpp.Expr.Eval.{div_int64, mod_int64, abs_int64, register, base}

-- An outcome of the same expression, registers and frame base.
abbrev pub Keeps : Evaluator → Outcome Evaluator → Type 0
Keeps e (ok e') = (e'.expr ≡ e.expr) × (e'.p_regs ≡ e.p_regs) × (e'.frame_base ≡ e.frame_base)
Keeps e (err x) = Unit {0}

module _ (e : Evaluator) where
  bind-Keeps {ℓ} :
      {A : Type ℓ} (m : Outcome A) (f : A → Evaluator)
      → ((a : A) → Keeps e (ok (f a)))
      → Keeps e (m >>= λ a. ok (f a))
  bind-Keeps (ok a) f h = h a
  bind-Keeps (err x) f h = tt

  unary-Keeps : (f : ℕ → Outcome ℕ) → Keeps e (unary f e)
  unary-Keeps f = elim e.m_stack as (λ s. Keeps e (unary f (record e { m_stack = s }))) [
    | [] ↦ tt
    | x ∷ s ↦ bind-Keeps (f x) (λ y. record e { m_stack = y ∷ s }) (λ y. (refl, refl, refl))
  ]

  binary-Keeps : (f : ℕ → ℕ → Outcome ℕ) → Keeps e (binary f e)
  binary-Keeps f = elim e.m_stack as (λ s. Keeps e (binary f (record e { m_stack = s }))) [
    | [] ↦ tt
    | x ∷ [] ↦ tt
    | x ∷ y ∷ s ↦
        bind-Keeps (f x y) (λ z. record e { m_stack = z ∷ s; m_tos_state = TosState.address })
          (λ z. (refl, refl, refl))
  ]

  over_stack-Keeps :
      (run : Evaluator → Outcome Evaluator)
      → ((s : List ℕ) → Keeps e (run (record e { m_stack = s })))
      → Keeps e (run e)
  over_stack-Keeps run h = h e.m_stack

  swap-Keeps : (i : ExprInstr) (s : List ℕ) → Keeps e (exec Op.swap i (record e { m_stack = s }))
  unfolding exec
  swap-Keeps i [] = tt
  swap-Keeps i (x ∷ []) = tt
  swap-Keeps i (x ∷ y ∷ s) = (refl, refl, refl)

  rot-Keeps : (i : ExprInstr) (s : List ℕ) → Keeps e (exec Op.rot i (record e { m_stack = s }))
  unfolding exec
  rot-Keeps i [] = tt
  rot-Keeps i (x ∷ []) = tt
  rot-Keeps i (x ∷ y ∷ []) = tt
  rot-Keeps i (x ∷ y ∷ z ∷ s) = (refl, refl, refl)

  drop-Keeps : (i : ExprInstr) (s : List ℕ) → Keeps e (exec Op.drop i (record e { m_stack = s }))
  unfolding exec
  drop-Keeps i [] = tt
  drop-Keeps i (x ∷ s) = (refl, refl, refl)

  xderef-Keeps :
      (i : ExprInstr) (s : List ℕ)
      → Keeps e (exec Op.xderef i (record e { m_stack = s }))
        × Keeps e (exec Op.xderef_size i (record e { m_stack = s }))
  unfolding exec
  xderef-Keeps i [] = (tt, tt)
  xderef-Keeps i (x ∷ s) = (tt, tt)

  -- No operation changes the expression, the registers or the frame base.
  pub exec-Keeps : (op : Op) (i : ExprInstr) → Keeps e (exec op i e)
  unfolding exec
  exec-Keeps Op.dup i = bind-Keeps (at e.m_stack 0) (λ x. push x e) (λ x. (refl, refl, refl))
  exec-Keeps Op.over i = bind-Keeps (at e.m_stack 1) (λ x. push x e) (λ x. (refl, refl, refl))
  exec-Keeps Op.pick i =
      bind-Keeps (at e.m_stack i.lr_number) (λ x. push x e) (λ x. (refl, refl, refl))
  exec-Keeps Op.drop i = drop-Keeps i e.m_stack
  exec-Keeps Op.swap i = swap-Keeps i e.m_stack
  exec-Keeps Op.rot i = rot-Keeps i e.m_stack
  exec-Keeps Op.xderef i = (xderef-Keeps i e.m_stack).0
  exec-Keeps Op.xderef_size i = (xderef-Keeps i e.m_stack).1
  exec-Keeps Op.abs i = unary-Keeps (λ x. abs_int64 (to_int64 x))
  exec-Keeps Op.neg i = unary-Keeps (λ x. ok ((2 ^ 64 - x) % 2 ^ 64))
  exec-Keeps Op.not i = unary-Keeps (λ x. ok (2 ^ 64 - 1 - x))
  exec-Keeps Op.plus_uconst i = unary-Keeps (λ x. ok ((x + i.lr_number) % 2 ^ 64))
  exec-Keeps Op.and i = binary-Keeps (word bit_and)
  exec-Keeps Op.or i = binary-Keeps (word bit_or)
  exec-Keeps Op.xor i = binary-Keeps (word bit_xor)
  exec-Keeps Op.plus i = binary-Keeps (word ◌+◌)
  exec-Keeps Op.minus i = binary-Keeps (word (λ arg1 x. x + 2 ^ 64 - arg1))
  exec-Keeps Op.mul i = binary-Keeps (word ◌*◌)
  exec-Keeps Op.div i =
      binary-Keeps (λ arg1 x. div_int64 (to_int64 x) (to_int64 arg1) >>= λ q. ok (to_word64 q))
  exec-Keeps Op.modulo i =
      binary-Keeps (λ arg1 x. mod_int64 (to_int64 x) (to_int64 arg1) >>= λ r. ok (to_word64 r))
  exec-Keeps Op.shl i = binary-Keeps (shift (λ x n. x * 2 ^ n % 2 ^ 64))
  exec-Keeps Op.shr i = binary-Keeps (shift (λ x n. x / 2 ^ n))
  exec-Keeps Op.shra i = binary-Keeps (shift (λ x n. x / 2 ^ n))
  exec-Keeps Op.eq i = binary-Keeps (compare_signed (λ a b. leb_ℤ a b && leb_ℤ b a))
  exec-Keeps Op.ge i = binary-Keeps (compare_signed (λ a b. leb_ℤ b a))
  exec-Keeps Op.gt i = binary-Keeps (compare_signed (λ a b. ltb_ℤ b a))
  exec-Keeps Op.le i = binary-Keeps (compare_signed (λ a b. leb_ℤ a b))
  exec-Keeps Op.lt i = binary-Keeps (compare_signed (λ a b. ltb_ℤ a b))
  exec-Keeps Op.ne i = binary-Keeps (compare_signed (λ a b. not (leb_ℤ a b && leb_ℤ b a)))
  exec-Keeps (Op.breg n) i = bind-Keeps (register n e) _ (λ r. (refl, refl, refl))
  exec-Keeps Op.bregx i = bind-Keeps (register (i.lr_number % 2 ^ 32) e) _ (λ r. (refl, refl, refl))
  exec-Keeps Op.fbreg i = bind-Keeps (base e) _ (λ r. (refl, refl, refl))
  exec-Keeps Op.call_frame_cfa i = bind-Keeps (base e) _ (λ r. (refl, refl, refl))
  exec-Keeps Op.deref i = tt
  exec-Keeps Op.deref_size i = tt
  exec-Keeps Op.piece i = tt
  exec-Keeps Op.bit_piece i = tt
  exec-Keeps Op.other i = tt
  exec-Keeps _ i = (refl, refl, refl)
