-- ===== src/Expr/Depth.antt =====
-- src/expr.cpp: the depth of the evaluator's stack that each operation needs and leaves, and the
-- lemmas on the families of operations.
use libdwarfpp.Base.{
  ℕ, zero, suc, ◌+◌, ◌-◌, ◌/◌, ◌%◌, ◌^◌, ◌≡◌, ◌≢◌, refl, sym, ◌==◌, arith, inl, inr,
}
use libdwarfpp.Base.{Option, none, some, List, [], ◌∷◌, length, get_elem?}
use libdwarfpp.Base.{leb, Bool-cases, Outcome, ok, err, assertion, ◌>>=◌}
use mathlib.Core.Path.{subst}
use libdwarfpp.Base.Int.{ℤ, pos, negsuc, to_word64}
use libdwarfpp.Expr.{ExprInstr, Op}
use libdwarfpp.Expr.Eval.{
  Evaluator, TosState, shift, at, push, pop, unary, binary, div_int64, mod_int64, abs_int64,
  register, base,
}

-- `some r` where `d` is `k` at least.
abbrev pub at_least : ℕ → ℕ → ℕ → Option ℕ
at_least zero d r = some r
at_least (suc k) zero r = none
at_least (suc k) (suc d) r = at_least k d r

-- The depth after an operation, from the depth before; `none` where the stack is too shallow.
unfoldable pub effect : Op → ExprInstr → ℕ → Option ℕ
effect Op.addr i d = some (d + 1)
effect Op.deref i d = some d
effect Op.const_unsigned i d = some (d + 1)
effect Op.const_signed i d = some (d + 1)
effect Op.dup i d = at_least 1 d (d + 1)
effect Op.drop i d = at_least 1 d (d - 1)
effect Op.over i d = at_least 2 d (d + 1)
effect Op.pick i d = at_least (suc (i.lr_number % 2 ^ 32)) d (d + 1)
effect Op.swap i d = at_least 2 d d
effect Op.rot i d = at_least 3 d d
effect Op.xderef i d = at_least 1 d d
effect Op.xderef_size i d = at_least 1 d d
effect Op.abs i d = at_least 1 d d
effect Op.neg i d = at_least 1 d d
effect Op.not i d = at_least 1 d d
effect Op.plus_uconst i d = at_least 1 d d
effect Op.and i d = at_least 2 d (d - 1)
effect Op.div i d = at_least 2 d (d - 1)
effect Op.minus i d = at_least 2 d (d - 1)
effect Op.modulo i d = at_least 2 d (d - 1)
effect Op.mul i d = at_least 2 d (d - 1)
effect Op.or i d = at_least 2 d (d - 1)
effect Op.plus i d = at_least 2 d (d - 1)
effect Op.shl i d = at_least 2 d (d - 1)
effect Op.shr i d = at_least 2 d (d - 1)
effect Op.shra i d = at_least 2 d (d - 1)
effect Op.xor i d = at_least 2 d (d - 1)
effect Op.eq i d = at_least 2 d (d - 1)
effect Op.ge i d = at_least 2 d (d - 1)
effect Op.gt i d = at_least 2 d (d - 1)
effect Op.le i d = at_least 2 d (d - 1)
effect Op.lt i d = at_least 2 d (d - 1)
effect Op.ne i d = at_least 2 d (d - 1)
effect (Op.lit n) i d = some (d + 2)
effect (Op.breg n) i d = some (d + 2)
effect Op.bregx i d = some (d + 2)
effect Op.fbreg i d = some (d + 1)
effect Op.call_frame_cfa i d = some (d + 1)
effect _ i d = some d

-- A run agrees with a depth: it ends with that depth or by a fault that is no failed assertion;
-- and with `none`: it fails an assertion.
abbrev pub Agrees : Option ℕ → Outcome Evaluator → Type 0
Agrees (some d) (ok e) = length e.m_stack ≡ d
Agrees (some d) (err x) = x ≢ assertion
Agrees none r = r ≡ err assertion

-- An outcome that is no failed assertion.
abbrev pub Proceeds {ℓ} : {A : Type ℓ} → Outcome A → Type 0
Proceeds (ok a) = Unit {0}
Proceeds (err x) = x ≢ assertion

module _ (e : Evaluator) where
  abbrev pub OverStack : (ℕ → Option ℕ) → (Evaluator → Outcome Evaluator) → List ℕ → Type 0
  OverStack effect run s = Agrees (effect (length s)) (run (record e { m_stack = s }))

  pub unary-Agrees :
      (f : ℕ → Outcome ℕ)
      → ((x : ℕ) → Proceeds (f x))
      → Agrees (at_least 1 (length e.m_stack) (length e.m_stack)) (unary f e)
  unary-Agrees f p = elim e.m_stack as (λ s. OverStack (λ d. at_least 1 d d) (unary f) s) [
    | [] ↦ refl
    | x ∷ s ↦ replace x s (f x) (p x)
  ]
    where
      replace :
          (x : ℕ) (s : List ℕ) (r : Outcome ℕ)
          → Proceeds r
          → Agrees (some (length (x ∷ s))) (r >>= λ y. ok (record e { m_stack = y ∷ s }))
      replace x s (ok y) h = refl
      replace x s (err q) h = h

  pub binary-Agrees :
      (f : ℕ → ℕ → Outcome ℕ)
      → ((x y : ℕ) → Proceeds (f x y))
      → Agrees (at_least 2 (length e.m_stack) (length e.m_stack - 1)) (binary f e)
  binary-Agrees f p = elim e.m_stack as (λ s. OverStack (λ d. at_least 2 d (d - 1)) (binary f) s) [
    | [] ↦ refl
    | x ∷ [] ↦ refl
    | x ∷ y ∷ s ↦ replace s (f x y) (p x y)
  ]
    where
      replace :
          (s : List ℕ) (r : Outcome ℕ)
          → Proceeds r
          → Agrees
              (some (suc (suc (length s)) - 1))
              (r >>= λ z. ok (record e { m_stack = z ∷ s; m_tos_state = TosState.address }))
      replace s (ok y) h = omega arith
      replace s (err q) h = h

  copy_from :
      (s : List ℕ) (k : ℕ)
      → Agrees
          (at_least (suc k) (length s) (length e.m_stack + 1))
          (elim (get_elem? s k) [ none ↦ err assertion | some x ↦ ok x ] >>= λ x. ok (push x e))
  copy_from [] k = refl
  copy_from (x ∷ s) zero = omega arith
  copy_from (x ∷ s) (suc k) = copy_from s k

  pub copy-Agrees :
      (idx : ℕ)
      → Agrees
          (at_least (suc (idx % 2 ^ 32)) (length e.m_stack) (length e.m_stack + 1))
          (at e.m_stack idx >>= λ x. ok (push x e))
  copy-Agrees idx = copy_from e.m_stack (idx % 2 ^ 32)

pub div-Proceeds : (a b : ℤ) → Proceeds (div_int64 a b)
unfolding div_int64
div-Proceeds a (pos zero) = λ q. cc
div-Proceeds (pos a) (pos (suc b)) = tt
div-Proceeds (pos a) (negsuc b) = tt
div-Proceeds (negsuc a) (pos (suc b)) = tt
div-Proceeds (negsuc a) (negsuc b) = elim (Bool-cases (suc a / suc b == 2 ^ 63)) [
  | inl h ↦ rw h (λ q. cc)
  | inr h ↦ rw h tt
]

pub mod-Proceeds : (a b : ℤ) → Proceeds (mod_int64 a b)
unfolding mod_int64
mod-Proceeds a (pos zero) = λ q. cc
mod-Proceeds (pos a) (pos (suc b)) = tt
mod-Proceeds (pos a) (negsuc b) = tt
mod-Proceeds (negsuc a) (pos (suc b)) = tt
mod-Proceeds (negsuc a) (negsuc b) = elim (Bool-cases (suc a / suc b == 2 ^ 63)) [
  | inl h ↦ rw h (λ q. cc)
  | inr h ↦ rw h tt
]

pub abs-Proceeds : (a : ℤ) → Proceeds (abs_int64 a)
abs-Proceeds (pos n) = tt
abs-Proceeds (negsuc n) = elim (Bool-cases (suc n == 2 ^ 63)) [
  | inl h ↦ rw h (λ q. cc)
  | inr h ↦ rw h tt
]

pub shift-Proceeds : (f : ℕ → ℕ → ℕ) (a x : ℕ) → Proceeds (shift f a x)
shift-Proceeds f a x = elim (Bool-cases (leb 64 a)) [ inl h ↦ rw h (λ q. cc) | inr h ↦ rw h tt ]

pub converted-Proceeds : (r : Outcome ℤ) → Proceeds r → Proceeds (r >>= λ q. ok (to_word64 q))
converted-Proceeds (ok q) h = tt
converted-Proceeds (err x) h = h

pub register-Agrees :
    (e : Evaluator) (n : ℕ) (f : ℤ → Evaluator)
    → ((r : ℤ) → length (f r).m_stack ≡ length e.m_stack + 2)
    → Agrees (some (length e.m_stack + 2)) (register n e >>= λ r. ok (f r))
register-Agrees e n f h =
    elim e.p_regs
      as (λ o.
        Agrees (some (length e.m_stack + 2))
          (register n (record e { p_regs = o }) >>= λ r. ok (f r))) [
            | none ↦ λ q. cc
            | some get ↦ h (get n)
          ]

pub base-Agrees :
    (e : Evaluator) (f : ℤ → Evaluator) {b : ℤ}
    → e.frame_base ≡ some b
    → ((r : ℤ) → length (f r).m_stack ≡ length e.m_stack + 1)
    → Agrees (some (length e.m_stack + 1)) (base e >>= λ r. ok (f r))
base-Agrees e f {b} hb h =
    subst
      (λ o.
        Agrees (some (length e.m_stack + 1)) (base (record e { frame_base = o }) >>= λ r. ok (f r)))
      (sym hb) (h b)

pub pop-Agrees :
    (e : Evaluator)
    → Agrees (at_least 1 (length e.m_stack) (length e.m_stack - 1)) (pop e >>= λ t. ok t.1)
pop-Agrees e =
    elim e.m_stack
      as (λ s. OverStack e (λ d. at_least 1 d (d - 1)) (λ x. pop x >>= λ t. ok t.1) s) [
        | [] ↦ refl
        | x ∷ s ↦ omega arith
      ]
