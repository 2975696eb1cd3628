-- ===== src/Frame/Accepts.antt =====
-- src/frame.cpp: which instructions interpret_instructions accepts, by a walk that knows of each state
-- only its address, whether its row has a rule for the CFA, and so of each remembered row.
use libdwarfpp.Base.{ℕ, ◌+◌, ◌%◌, ◌^◌, ◌≡◌, arith, Bool, true, false, ◌||◌}
use libdwarfpp.Base.{Option, none, some, List, [], ◌∷◌, ltb, ◌==◌, if◌then◌else◌}
use libdwarfpp.Expr.{LocExpr}
use libdwarfpp.Frame.{CfaOp, FrameOp}
use libdwarfpp.Frame.Rows.{RegisterDef, RowDefs, find_def, modify}
use libdwarfpp.Frame.Interpret.{selected}

pub record Shape : Type 0 where
  pub address : ℕ
  pub cfa : Bool
  pub remembered : List Bool

abbrev pub is_some {ℓ} : {A : Type ℓ} → Option A → Bool
is_some none = false
is_some (some a) = true

abbrev pub all_shapes : ℕ → List RowDefs → List Bool
all_shapes cfa_column [] = []
all_shapes cfa_column (r ∷ rs) = is_some (find_def r cfa_column) ∷ all_shapes cfa_column rs

pub found-modify :
    (f : RegisterDef → RegisterDef) (n j : ℕ) (defs : RowDefs)
    → is_some (find_def (modify f n defs) j) ≡ (j == n || is_some (find_def defs j))
unfolding find_def modify
found-modify f n j [] = ground arith
found-modify f n j ((k, d) ∷ defs) = ground (arith, found-modify f n j defs)

module _ (cfa_column : ℕ) (try_construct : Option (List ℕ) → ℕ → Option LocExpr) where
  abbrev pub moves : ℕ → Shape → Option Shape
  moves a k = if ltb k.address a then some (record k { address = a }) else none

  abbrev pub advances : FrameOp → Shape → Option Shape
  advances op k = moves ((k.address + op.offset_or_block_len) % 2 ^ 64) k

  abbrev pub defines_cfa : Shape → Option Shape
  defines_cfa k = some (record k { cfa = true })

  abbrev pub changes_cfa : Shape → Option Shape
  changes_cfa k = if k.cfa then defines_cfa k else none

  abbrev pub defines : ℕ → Shape → Option Shape
  defines n k = some (record k { cfa = cfa_column == n || k.cfa })

  abbrev pub expands : FrameOp → Option Shape → Option Shape
  expands op o = elim (try_construct op.expr_block op.offset_or_block_len) [
    | none ↦ none
    | some x ↦ o
  ]

  -- One instruction: `none` if it is not accepted.
  unfoldable pub accepts : CfaOp → FrameOp → Shape → Option Shape
  accepts CfaOp.set_loc op k = moves op.offset_or_block_len k
  accepts CfaOp.advance_loc op k = advances op k
  accepts CfaOp.advance_loc1 op k = advances op k
  accepts CfaOp.advance_loc2 op k = advances op k
  accepts CfaOp.advance_loc4 op k = advances op k
  accepts CfaOp.def_cfa op k = defines_cfa k
  accepts CfaOp.def_cfa_sf op k = defines_cfa k
  accepts CfaOp.def_cfa_register op k = changes_cfa k
  accepts CfaOp.def_cfa_offset op k = changes_cfa k
  accepts CfaOp.def_cfa_offset_sf op k = changes_cfa k
  accepts CfaOp.def_cfa_expression op k = expands op (defines_cfa k)
  accepts CfaOp.expression op k = expands op (defines op.fp_register k)
  accepts CfaOp.val_expression op k = expands op (defines op.fp_register k)
  accepts CfaOp.restore_state op k = elim k.remembered [
    | [] ↦ none
    | b ∷ bs ↦ some (record k { cfa = b; remembered = bs })
  ]
  accepts CfaOp.remember_state op k = some (record k { remembered = k.cfa ∷ k.remembered })
  accepts CfaOp.nop op k = some k
  accepts CfaOp.gnu_args_size op k = some k
  accepts _ op k = defines op.fp_register k

  unfoldable pub accepts_all : List FrameOp → Shape → Option Shape
  accepts_all [] k = some k
  accepts_all (op ∷ ops) k = elim (selected op) [
    | none ↦ none
    | some c ↦ elim (accepts c op k) [ none ↦ none | some k' ↦ accepts_all ops k' ]
  ]
