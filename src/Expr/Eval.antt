-- ===== src/Expr/Eval.antt =====
-- src/expr.cpp, include/dwarfpp/expr.hpp and the table of computed operations in
-- include/dwarfpp/spec.hpp: the evaluator of location expressions.
use libdwarfpp.Base.{ℕ, zero, suc, ◌+◌, ◌-◌, ◌*◌, ◌/◌, ◌%◌, ◌^◌, Bool, true, false, not, ◌&&◌}
use libdwarfpp.Base.{
  Option, none, some, List, [], ◌∷◌, length, get_elem?, ◌==◌, ltb, leb, if◌then◌else◌,
}
use libdwarfpp.Base.{
  bit_and, bit_or, bit_xor, Outcome, ok, err, assertion, undefined, no_entry, not_supported,
}
use libdwarfpp.Base.{◌>>=◌, ◌>>◌, guard}
use libdwarfpp.Base.Int.{ℤ, pos, negsuc, to_int64, to_word64, ltb_ℤ, leb_ℤ}
use libdwarfpp.Expr.{ExprInstr, Op, op_of}

pub data TosState : Type 0 where
  address named_register value implicit_pointer : TosState

-- The evaluator. The stack has its top first. `i` is the iterator: the operations from it on.
-- `p_regs` is the client's register file, if there is one.
pub record Evaluator : Type 0 where
  pub m_stack : List ℕ
  pub expr : List ExprInstr
  pub p_regs : Option (ℕ → ℤ)
  pub m_tos_state : TosState
  pub pointer : Option (ℕ × ℤ)
  pub frame_base : Option ℤ
  pub i : List ExprInstr

-- stk[idx]; the index is an unsigned int.
abbrev pub at : List ℕ → ℕ → Outcome ℕ
at stack idx = elim (get_elem? stack (idx % 2 ^ 32)) [ none ↦ err assertion | some x ↦ ok x ]

-- PUSH(x) and POP(y): both forget the state of the top.
abbrev pub push : ℕ → Evaluator → Evaluator
push x e = record e { m_stack = x ∷ e.m_stack; m_tos_state = TosState.address }

abbrev pub pop : Evaluator → Outcome (ℕ × Evaluator)
pop e = elim e.m_stack [
  | [] ↦ err assertion
  | x ∷ stack ↦ ok (x, record e { m_stack = stack; m_tos_state = TosState.address })
]

-- stk[0] = f stk[0]
abbrev pub unary : (ℕ → Outcome ℕ) → Evaluator → Outcome Evaluator
unary f e = elim e.m_stack [
  | [] ↦ err assertion
  | x ∷ stack ↦ f x >>= λ y. ok (record e { m_stack = y ∷ stack })
]

-- POP(arg1); stk[0] = f arg1 stk[0]
abbrev pub binary : (ℕ → ℕ → Outcome ℕ) → Evaluator → Outcome Evaluator
binary f e = pop e >>= λ t. unary (f t.0) t.1

-- Signed division and remainder, which round to zero; by zero, or out of range, undefined.
unfoldable pub div_int64 : ℤ → ℤ → Outcome ℤ
div_int64 a (pos zero) = err undefined
div_int64 (pos a) (pos (suc b)) = ok (pos (a / suc b))
div_int64 (pos a) (negsuc b) = ok (if a / suc b == 0 then pos 0 else negsuc (a / suc b - 1))
div_int64 (negsuc a) (pos (suc b)) =
    ok (if suc a / suc b == 0 then pos 0 else negsuc (suc a / suc b - 1))
div_int64 (negsuc a) (negsuc b) =
    if suc a / suc b == 2 ^ 63 then err undefined else ok (pos (suc a / suc b))

unfoldable pub mod_int64 : ℤ → ℤ → Outcome ℤ
mod_int64 a (pos zero) = err undefined
mod_int64 (pos a) (pos (suc b)) = ok (pos (a % suc b))
mod_int64 (pos a) (negsuc b) = ok (pos (a % suc b))
mod_int64 (negsuc a) (pos (suc b)) =
    ok (if suc a % suc b == 0 then pos 0 else negsuc (suc a % suc b - 1))
mod_int64 (negsuc a) (negsuc b) =
    if suc a / suc b == 2 ^ 63
    then err undefined
    else ok (if suc a % suc b == 0 then pos 0 else negsuc (suc a % suc b - 1))

abbrev pub abs_int64 : ℤ → Outcome ℕ
abs_int64 (pos n) = ok n
abs_int64 (negsuc n) = if suc n == 2 ^ 63 then err undefined else ok (suc n)

abbrev pub shift : (ℕ → ℕ → ℕ) → ℕ → ℕ → Outcome ℕ
shift f arg1 x = if leb 64 arg1 then err undefined else ok (f x arg1)

abbrev pub compare_signed : (ℤ → ℤ → Bool) → ℕ → ℕ → Outcome ℕ
compare_signed test arg1 x = ok (if test (to_int64 x) (to_int64 arg1) then 1 else 0)

abbrev pub word : (ℕ → ℕ → ℕ) → ℕ → ℕ → Outcome ℕ
word f arg1 x = ok (f arg1 x % 2 ^ 64)

-- FBREG and the frame base: without one, a logic error.
abbrev pub base : Evaluator → Outcome ℤ
base e = elim e.frame_base [ none ↦ err assertion | some b ↦ ok b ]

-- REGS(n)
abbrev pub register : ℕ → Evaluator → Outcome ℤ
register n e = elim e.p_regs [ none ↦ err no_entry | some get ↦ ok (get n) ]

-- m_stack.push, which keeps the state of the top
abbrev pub raw_push : ℕ → Evaluator → Evaluator
raw_push x e = record e { m_stack = x ∷ e.m_stack }

-- morestack(1); PUSH(..): the source pushes a zero first.
abbrev pub push_two : ℕ → Evaluator → Evaluator
push_two x e = push x (push 0 e)

-- The cases of the switch, DW_OP_piece excepted.
unfoldable pub exec : Op → ExprInstr → Evaluator → Outcome Evaluator
exec Op.addr i e = ok (push i.lr_number e)
exec Op.deref i e = err no_entry
exec Op.const_unsigned i e = ok (push i.lr_number e)
exec Op.const_signed i e = ok (push i.lr_number e)
exec Op.dup i e = at e.m_stack 0 >>= λ x. ok (push x e)
exec Op.drop i e = pop e >>= λ t. ok t.1
exec Op.over i e = at e.m_stack 1 >>= λ x. ok (push x e)
exec Op.pick i e = at e.m_stack i.lr_number >>= λ x. ok (push x e)
exec Op.swap i e = elim e.m_stack [
  | x ∷ y ∷ stack ↦ ok (record e { m_stack = y ∷ x ∷ stack })
  | _ ↦ err assertion
]
exec Op.rot i e = elim e.m_stack [
  | x ∷ y ∷ z ∷ stack ↦ ok (record e { m_stack = y ∷ z ∷ x ∷ stack })
  | _ ↦ err assertion
]
exec Op.xderef i e = pop e >>= λ t. err no_entry
exec Op.abs i e = unary (λ x. abs_int64 (to_int64 x)) e
exec Op.and i e = binary (word bit_and) e
exec Op.div i e =
    binary (λ arg1 x. div_int64 (to_int64 x) (to_int64 arg1) >>= λ q. ok (to_word64 q)) e
exec Op.minus i e = binary (word (λ arg1 x. x + 2 ^ 64 - arg1)) e
exec Op.modulo i e =
    binary (λ arg1 x. mod_int64 (to_int64 x) (to_int64 arg1) >>= λ r. ok (to_word64 r)) e
exec Op.mul i e = binary (word ◌*◌) e
exec Op.neg i e = unary (λ x. ok ((2 ^ 64 - x) % 2 ^ 64)) e
exec Op.not i e = unary (λ x. ok (2 ^ 64 - 1 - x)) e
exec Op.or i e = binary (word bit_or) e
exec Op.plus i e = binary (word ◌+◌) e
exec Op.plus_uconst i e = unary (λ x. ok ((x + i.lr_number) % 2 ^ 64)) e
exec Op.shl i e = binary (shift (λ x n. x * 2 ^ n % 2 ^ 64)) e
exec Op.shr i e = binary (shift (λ x n. x / 2 ^ n)) e
exec Op.shra i e = binary (shift (λ x n. x / 2 ^ n)) e
exec Op.xor i e = binary (word bit_xor) e
exec Op.eq i e = binary (compare_signed (λ a b. leb_ℤ a b && leb_ℤ b a)) e
exec Op.ge i e = binary (compare_signed (λ a b. leb_ℤ b a)) e
exec Op.gt i e = binary (compare_signed (λ a b. ltb_ℤ b a)) e
exec Op.le i e = binary (compare_signed (λ a b. leb_ℤ a b)) e
exec Op.lt i e = binary (compare_signed (λ a b. ltb_ℤ a b)) e
exec Op.ne i e = binary (compare_signed (λ a b. not (leb_ℤ a b && leb_ℤ b a))) e
exec (Op.lit n) i e = ok (push_two n e)
exec (Op.breg n) i e = register n e >>= λ r. ok (push_two ((to_word64 r + i.lr_number) % 2 ^ 64) e)
exec Op.bregx i e = register (i.lr_number % 2 ^ 32) e >>= λ r.
    ok (push_two ((to_word64 r + i.lr_number2) % 2 ^ 64) e)
exec Op.deref_size i e = err no_entry
exec Op.xderef_size i e = pop e >>= λ t. err no_entry
exec Op.nop i e = ok e
exec Op.fbreg i e = base e >>= λ b. ok (raw_push ((to_word64 b + i.lr_number) % 2 ^ 64) e)
exec Op.call_frame_cfa i e = base e >>= λ b. ok (raw_push (to_word64 b) e)
exec (Op.reg n) i e = ok (record e { m_tos_state = TosState.named_register })
exec Op.regx i e = ok (record e { m_tos_state = TosState.named_register })
exec Op.stack_value i e = ok (record e { m_tos_state = TosState.value })
exec Op.implicit_pointer i e = ok (record e {
  m_tos_state = TosState.implicit_pointer;
  pointer = some (i.lr_number, to_int64 i.lr_number2);
})
exec _ i e = err not_supported

-- The loop. At DW_OP_piece the iterator is moved on, and the loop is left.
unfoldable pub eval_loop : List ExprInstr → Evaluator → Outcome Evaluator
eval_loop [] e = ok (record e { i = [] })
eval_loop (i ∷ is) e = elim (op_of i.lr_atom) [
  | Op.piece ↦ ok (record e { i = is })
  | op ↦ exec op i e >>= λ e'. eval_loop is e'
]

-- `i != expr.end() && i != expr.begin()`
abbrev pub is_between : Evaluator → Bool
is_between e = ltb 0 (length e.i) && ltb (length e.i) (length e.expr)

-- eval(): after a stop the iterator is moved on once more, and the stack is cleared.
unfoldable pub eval : Evaluator → Outcome Evaluator
eval e =
    if is_between e
    then eval_loop (libdwarfpp.Base.drop 1 e.i) (record e { m_stack = [] })
    else eval_loop e.i e

unfoldable pub eval_next : Evaluator → Outcome Evaluator
eval_next e = guard (is_between e) assertion >> eval e

-- tos(wanted_states), for the states that are wanted; top() of an empty stack is undefined.
unfoldable pub tos : (TosState → Bool) → Evaluator → Outcome ℕ
tos wanted e = if not (wanted e.m_tos_state) then err no_entry else elim e.m_tos_state [
  | TosState.implicit_pointer ↦ ok 0
  | _ ↦ elim e.m_stack [ [] ↦ err undefined | x ∷ stack ↦ ok x ]
]

abbrev pub finished : Evaluator → Bool
finished e = length e.i == 0

-- The constructors that are given the operations.
abbrev pub evaluator : List ExprInstr → Option (ℕ → ℤ) → Option ℤ → List ℕ → Evaluator
evaluator loc_desc regs frame_base initial_stack = record {
  m_stack = initial_stack;
  expr = loc_desc;
  p_regs = regs;
  m_tos_state = TosState.address;
  pointer = none;
  frame_base = frame_base;
  i = loc_desc;
}
