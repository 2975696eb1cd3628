-- ===== src/Expr/Machine.antt =====
-- src/expr.cpp: how the operations of the evaluator change the depth of its stack.
use libdwarfpp.Base.{◌+◌, ◌-◌, ◌*◌, ◌/◌, ◌%◌, ◌^◌, ◌≡◌, refl, arith}
use libdwarfpp.Base.{not, ◌&&◌, bit_and, bit_or, bit_xor, some, [], ◌∷◌, length}
use libdwarfpp.Base.{ok}
use libdwarfpp.Base.Int.{ℤ, to_int64, leb_ℤ, ltb_ℤ}
use libdwarfpp.Expr.{ExprInstr, Op}
use libdwarfpp.Expr.Eval.{Evaluator, word, compare_signed, exec, div_int64, mod_int64}
use libdwarfpp.Expr.Depth.{
  at_least, effect, Agrees, OverStack, unary-Agrees, binary-Agrees, copy-Agrees, div-Proceeds,
  mod-Proceeds, abs-Proceeds, shift-Proceeds, converted-Proceeds, register-Agrees, base-Agrees,
  pop-Agrees,
}

-- Each operation changes the depth of the stack as `effect` says, or stops by a fault that is not
-- a failed assertion; and it fails an assertion exactly where the stack is too shallow for it. The
-- frame base is known.
pub exec-effect :
    (op : Op) (i : ExprInstr) (e : Evaluator) {b : ℤ}
    → e.frame_base ≡ some b
    → Agrees (effect op i (length e.m_stack)) (exec op i e)
unfolding exec effect
exec-effect Op.addr i e hb = omega arith
exec-effect Op.const_unsigned i e hb = omega arith
exec-effect Op.const_signed i e hb = omega arith
exec-effect Op.deref i e hb = λ q. cc
exec-effect Op.deref_size i e hb = λ q. cc
exec-effect Op.dup i e hb = copy-Agrees e 0
exec-effect Op.drop i e hb = pop-Agrees e
exec-effect Op.over i e hb = copy-Agrees e 1
exec-effect Op.pick i e hb = copy-Agrees e i.lr_number
exec-effect Op.swap i e hb =
    elim e.m_stack as (λ s. OverStack e (λ d. at_least 2 d d) (exec Op.swap i) s) [
      | [] ↦ refl
      | x ∷ [] ↦ refl
      | x ∷ y ∷ s ↦ refl
    ]
exec-effect Op.rot i e hb =
    elim e.m_stack as (λ s. OverStack e (λ d. at_least 3 d d) (exec Op.rot i) s) [
      | [] ↦ refl
      | x ∷ [] ↦ refl
      | x ∷ y ∷ [] ↦ refl
      | x ∷ y ∷ z ∷ s ↦ refl
    ]
exec-effect Op.xderef i e hb =
    elim e.m_stack as (λ s. OverStack e (λ d. at_least 1 d d) (exec Op.xderef i) s) [
      | [] ↦ refl
      | x ∷ s ↦ λ q. cc
    ]
exec-effect Op.xderef_size i e hb =
    elim e.m_stack as (λ s. OverStack e (λ d. at_least 1 d d) (exec Op.xderef_size i) s) [
      | [] ↦ refl
      | x ∷ s ↦ λ q. cc
    ]
exec-effect Op.abs i e hb = unary-Agrees e _ (λ x. abs-Proceeds (to_int64 x))
exec-effect Op.neg i e hb = unary-Agrees e (λ x. ok ((2 ^ 64 - x) % 2 ^ 64)) (λ x. tt)
exec-effect Op.not i e hb = unary-Agrees e (λ x. ok (2 ^ 64 - 1 - x)) (λ x. tt)
exec-effect Op.plus_uconst i e hb = unary-Agrees e (λ x. ok ((x + i.lr_number) % 2 ^ 64)) (λ x. tt)
exec-effect Op.and i e hb = binary-Agrees e (word bit_and) (λ x y. tt)
exec-effect Op.minus i e hb = binary-Agrees e (word (λ arg1 x. x + 2 ^ 64 - arg1)) (λ x y. tt)
exec-effect Op.mul i e hb = binary-Agrees e (word ◌*◌) (λ x y. tt)
exec-effect Op.or i e hb = binary-Agrees e (word bit_or) (λ x y. tt)
exec-effect Op.plus i e hb = binary-Agrees e (word ◌+◌) (λ x y. tt)
exec-effect Op.xor i e hb = binary-Agrees e (word bit_xor) (λ x y. tt)
exec-effect Op.div i e hb = binary-Agrees e _ λ x y.
    converted-Proceeds (div_int64 (to_int64 y) (to_int64 x))
      (div-Proceeds (to_int64 y) (to_int64 x))
exec-effect Op.modulo i e hb = binary-Agrees e _ λ x y.
    converted-Proceeds (mod_int64 (to_int64 y) (to_int64 x))
      (mod-Proceeds (to_int64 y) (to_int64 x))
exec-effect Op.shl i e hb =
    binary-Agrees e _ (λ a x. shift-Proceeds (λ x n. x * 2 ^ n % 2 ^ 64) a x)
exec-effect Op.shr i e hb = binary-Agrees e _ (λ a x. shift-Proceeds (λ x n. x / 2 ^ n) a x)
exec-effect Op.shra i e hb = binary-Agrees e _ (λ a x. shift-Proceeds (λ x n. x / 2 ^ n) a x)
exec-effect Op.eq i e hb =
    binary-Agrees e (compare_signed (λ a b. leb_ℤ a b && leb_ℤ b a)) (λ x y. tt)
exec-effect Op.ge i e hb = binary-Agrees e (compare_signed (λ a b. leb_ℤ b a)) (λ x y. tt)
exec-effect Op.gt i e hb = binary-Agrees e (compare_signed (λ a b. ltb_ℤ b a)) (λ x y. tt)
exec-effect Op.le i e hb = binary-Agrees e (compare_signed (λ a b. leb_ℤ a b)) (λ x y. tt)
exec-effect Op.lt i e hb = binary-Agrees e (compare_signed (λ a b. ltb_ℤ a b)) (λ x y. tt)
exec-effect Op.ne i e hb =
    binary-Agrees e (compare_signed (λ a b. not (leb_ℤ a b && leb_ℤ b a))) (λ x y. tt)
exec-effect (Op.lit n) i e hb = omega arith
exec-effect (Op.breg n) i e hb = register-Agrees e n _ (λ r. omega arith)
exec-effect Op.bregx i e hb = register-Agrees e (i.lr_number % 2 ^ 32) _ (λ r. omega arith)
exec-effect Op.fbreg i e hb = base-Agrees e _ hb (λ r. omega arith)
exec-effect Op.call_frame_cfa i e hb = base-Agrees e _ hb (λ r. omega arith)
exec-effect Op.nop i e hb = refl
exec-effect (Op.reg n) i e hb = refl
exec-effect Op.regx i e hb = refl
exec-effect Op.stack_value i e hb = refl
exec-effect Op.implicit_pointer i e hb = refl
exec-effect Op.piece i e hb = λ q. cc
exec-effect Op.bit_piece i e hb = λ q. cc
exec-effect Op.other i e hb = λ q. cc
