-- ===== src/Frame/States.antt =====
-- src/frame.cpp: a bracket of DW_CFA_remember_state and DW_CFA_restore_state, in the loop of
-- interpret_instructions.
use libdwarfpp.Base.{ℕ, ◌≡◌, refl, ap, ◌∙◌, Option, some, List, [], ◌∷◌, ◌++◌, All}
use libdwarfpp.Base.{Outcome, ok, err, ◌>>=◌}
use libdwarfpp.Expr.{LocExpr}
use libdwarfpp.Frame.{CfaOp, FrameOp}
use libdwarfpp.Frame.Rows.{RowDefs, IntervalMap}
use libdwarfpp.Frame.Interpret.{
  InstrsResults, Working, step, selected, interpret_op, interpret_loop,
}
use libdwarfpp.Frame.Remember.{IsPlain, Ignores, interpret_op-Ignores}

module _ (m : IntervalMap) (cfa_column : ℕ) (try_construct : Option (List ℕ) → ℕ → Option LocExpr)
    (initial : Option (InstrsResults m)) where
  pub interpret_loop-append :
      (xs ys : List FrameOp) (s : Working m)
      → interpret_loop m cfa_column try_construct initial (xs ++ ys) s ≡ (
          interpret_loop m cfa_column try_construct initial xs s >>= λ t.
          interpret_loop m cfa_column try_construct initial ys t)
  unfolding interpret_loop
  interpret_loop-append [] ys s = refl
  interpret_loop-append (x ∷ xs) ys s =
      go (interpret_op m cfa_column try_construct initial x s) (λ t. interpret_loop-append xs ys t)
    where
      go :
          (r : Outcome (Working m))
          → ((t : Working m)
              → interpret_loop m cfa_column try_construct initial (xs ++ ys) t ≡ (
                  interpret_loop m cfa_column try_construct initial xs t >>= λ u.
                  interpret_loop m cfa_column try_construct initial ys u))
          → (r >>= λ t. interpret_loop m cfa_column try_construct initial (xs ++ ys) t) ≡ (
              (r >>= λ t. interpret_loop m cfa_column try_construct initial xs t) >>= λ u.
              interpret_loop m cfa_column try_construct initial ys u)
      go (ok t) k = k t
      go (err e) k = refl

  interpret_loop-Ignores :
      (ops : List FrameOp)
      → All IsPlain ops
      → Ignores m cfa_column try_construct initial
          (interpret_loop m cfa_column try_construct initial ops)
  unfolding interpret_loop
  interpret_loop-Ignores [] h stack s = refl
  interpret_loop-Ignores (op ∷ ops) (h, hs) stack s =
      rw (interpret_op-Ignores m cfa_column try_construct initial op h stack s) (
        go (interpret_op m cfa_column try_construct initial op s)
          (λ t. interpret_loop-Ignores ops hs stack t))
    where
      run : Working m → Outcome (Working m)
      run t = interpret_loop m cfa_column try_construct initial ops t

      put : Working m → Working m
      put t = record t { remembered_row_defs = stack }

      go :
          (r : Outcome (Working m))
          → ((t : Working m) → run (put t) ≡ (run t >>= λ u. ok (put u)))
          → ((r >>= λ t. ok (put t)) >>= run) ≡ ((r >>= run) >>= λ u. ok (put u))
      go (ok t) k = k t
      go (err e) k = refl

  remember :
      (op : FrameOp) (s : Working m)
      → selected op ≡ some CfaOp.remember_state
      → interpret_op m cfa_column try_construct initial op s
        ≡ ok (record s { remembered_row_defs = s.current_row_defs ∷ s.remembered_row_defs })
  unfolding interpret_op step
  remember op s h = rw (h, interpret_op) refl

  restore :
      (op : FrameOp) (s : Working m) (top : RowDefs) (below : List RowDefs)
      → selected op ≡ some CfaOp.restore_state
      → interpret_op m cfa_column try_construct initial op
          (record s { remembered_row_defs = top ∷ below })
        ≡ ok (record s { current_row_defs = top; remembered_row_defs = below })
  unfolding interpret_op step
  restore op s top below h = rw (h, interpret_op) refl

-- Instructions between DW_CFA_remember_state and DW_CFA_restore_state, none of them one of these two,
-- do what they do without the bracket, on every state and with the same faults, but that the row and
-- the stack of the remembered rows are afterwards what they were before.
pub interpret_loop-bracket :
    (m : IntervalMap) (cfa_column : ℕ) (try_construct : Option (List ℕ) → ℕ → Option LocExpr)
    (initial : Option (InstrsResults m)) (op op' : FrameOp) (body : List FrameOp) (s : Working m)
    → selected op ≡ some CfaOp.remember_state
    → selected op' ≡ some CfaOp.restore_state
    → All IsPlain body
    → interpret_loop m cfa_column try_construct initial (op ∷ body ++ op' ∷ []) s ≡ (
        interpret_loop m cfa_column try_construct initial body s >>= λ t. ok (record t {
          current_row_defs = s.current_row_defs;
          remembered_row_defs = s.remembered_row_defs;
        }))
unfolding interpret_loop
interpret_loop-bracket m cfa tc initial op op' body s h h' plain =
    begin_bracket
    ∙ interpret_loop-append m cfa tc initial body (op' ∷ []) pushed
    ∙ ap (λ (r : Outcome (Working m)). r >>= λ t. interpret_loop m cfa tc initial (op' ∷ []) t)
        (interpret_loop-Ignores m cfa tc initial body plain
          (s.current_row_defs ∷ s.remembered_row_defs) s)
    ∙ end_bracket (interpret_loop m cfa tc initial body s)
  where
    pushed : Working m
    pushed = record s { remembered_row_defs = s.current_row_defs ∷ s.remembered_row_defs }

    begin_bracket :
        interpret_loop m cfa tc initial (op ∷ body ++ op' ∷ []) s
        ≡ interpret_loop m cfa tc initial (body ++ op' ∷ []) pushed
    begin_bracket = rw (remember m cfa tc initial op s h) refl

    end_bracket :
        (r : Outcome (Working m))
        → ((r >>= λ t.
              ok (record t { remembered_row_defs = s.current_row_defs ∷ s.remembered_row_defs }))
            >>= λ t. interpret_loop m cfa tc initial (op' ∷ []) t)
          ≡ (r >>= λ t. ok (record t {
            current_row_defs = s.current_row_defs;
            remembered_row_defs = s.remembered_row_defs;
          }))
    end_bracket (err e) = refl
    end_bracket (ok t) =
        rw (restore m cfa tc initial op' t s.current_row_defs s.remembered_row_defs h') refl
