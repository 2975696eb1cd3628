-- ===== src/Frame/Interpret.antt =====
-- src/frame.cpp and include/dwarfpp/frame.hpp: FrameSection::interpret_instructions, Fde::decode
-- and instrs_results::add_unfinished_row.
use libdwarfpp.Base.{
  ℕ, ◌+◌, ◌-◌, ◌*◌, ◌%◌, ◌^◌, Bool, true, false, Option, none, some, List, [], ◌∷◌, bit_or, ltb,
}
use libdwarfpp.Base.{Outcome, ok, err, assertion, ◌>>=◌, ◌>>◌, guard}
use libdwarfpp.Base.Int.{pos, to_int32}
use libdwarfpp.Expr.{LocExpr}
use libdwarfpp.Frame.{CfaOp, cfa_op, FrameOp}
use libdwarfpp.Frame.Decode.{Params, frame_instrlist}
use libdwarfpp.Frame.Rows.{RegisterDef, RowDefs, find_def, modify, IntervalMap, or_indeterminate}
use libdwarfpp.Frame.Rows.{
  undefined_w, same_value_w, saved_at_offset_from_cfa_w, val_is_offset_from_cfa_w,
}
use libdwarfpp.Frame.Rows.{register_plus_offset_w, saved_at_expr_w, val_of_expr_w}

-- instrs_results
pub record InstrsResults (m : IntervalMap) : Type 0 where
  pub rows : m.Rows
  pub unfinished_row : RowDefs
  pub unfinished_row_addr : ℕ

-- The results while the instructions are walked, and the stack of the remembered rows.
pub record Working (m : IntervalMap) : Type 0 where
  pub rows : m.Rows
  pub current_row_defs : RowDefs
  pub current_row_addr : ℕ
  pub remembered_row_defs : List RowDefs

-- The case of the switch: `fp_base_op << 6 | fp_extended_op`.
abbrev pub selected : FrameOp → Option CfaOp
selected op = cfa_op (bit_or (op.base_op * 64) op.extended_op)

-- `cfa_column` is libdwarf's DW_FRAME_CFA_COL3, and `try_construct` its expansion of a block of
-- a given length into a location expression, which may fail.
module _ (m : IntervalMap) (cfa_column : ℕ)
    (try_construct : Option (List ℕ) → ℕ → Option LocExpr) where
  abbrev pub with_row : RowDefs → Working m → Working m
  with_row defs s = record s { current_row_defs = defs }

  -- current_row_defs[n] = ..
  abbrev pub set_rule : (RegisterDef → RegisterDef) → ℕ → Working m → Outcome (Working m)
  set_rule f n s = ok (with_row (modify f n s.current_row_defs) s)

  -- add_new_row
  unfoldable pub add_new_row : ℕ → Working m → Outcome (Working m)
  add_new_row new_row_addr s =
      guard (ltb s.current_row_addr new_row_addr) assertion
      >> ok (record s {
        rows = m.add s.current_row_addr new_row_addr s.current_row_defs s.rows;
        current_row_addr = new_row_addr;
      })

  -- assert(current_row_defs.find(DW_FRAME_CFA_COL3) != current_row_defs.end())
  abbrev pub has_cfa : Working m → Bool
  has_cfa s = elim (find_def s.current_row_defs cfa_column) [ none ↦ false | some d ↦ true ]

  -- The constructor of loc_expr from a block.
  abbrev pub loc_expr : FrameOp → Outcome LocExpr
  loc_expr op = elim (try_construct op.expr_block op.offset_or_block_len) [
    | none ↦ err assertion
    | some x ↦ ok x
  ]

  -- The rule that the initial instructions give to a register, at an address.
  unfoldable pub previous_def : InstrsResults m → ℕ → ℕ → Option RegisterDef
  previous_def initial n addr = elim (find_def initial.unfinished_row n) [
    | some d ↦ some d
    | none ↦ elim (m.find initial.rows addr) [ none ↦ none | some inner ↦ find_def inner n ]
  ]

  -- DW_CFA_restore: without initial results, the dereference of an empty optional, which asserts.
  unfoldable pub restore_rule : Option (InstrsResults m) → ℕ → Working m → Outcome (Working m)
  restore_rule none n s = err assertion
  restore_rule (some initial) n s =
      set_rule (λ d. or_indeterminate (previous_def initial n s.current_row_addr)) n s

  module _ (initial_instrs_results : Option (InstrsResults m)) where
    -- The cases of the switch.
    unfoldable pub step : CfaOp → FrameOp → Working m → Outcome (Working m)
    step CfaOp.set_loc op s = add_new_row op.offset_or_block_len s
    step CfaOp.advance_loc op s =
        add_new_row ((s.current_row_addr + op.offset_or_block_len) % 2 ^ 64) s
    step CfaOp.advance_loc1 op s =
        add_new_row ((s.current_row_addr + op.offset_or_block_len) % 2 ^ 64) s
    step CfaOp.advance_loc2 op s =
        add_new_row ((s.current_row_addr + op.offset_or_block_len) % 2 ^ 64) s
    step CfaOp.advance_loc4 op s =
        add_new_row ((s.current_row_addr + op.offset_or_block_len) % 2 ^ 64) s
    step CfaOp.def_cfa op s =
        set_rule (register_plus_offset_w (pos op.fp_register, to_int32 op.offset_or_block_len))
          cfa_column s
    step CfaOp.def_cfa_sf op s =
        set_rule (register_plus_offset_w (pos op.fp_register, to_int32 op.offset_or_block_len))
          cfa_column s
    step CfaOp.def_cfa_register op s =
        guard (has_cfa s) assertion
        >> set_rule (λ d. register_plus_offset_w (pos op.fp_register, d.m_register_plus_offset.1) d)
            cfa_column s
    step CfaOp.def_cfa_offset op s =
        guard (has_cfa s) assertion
        >> set_rule
            (λ d.
              register_plus_offset_w (d.m_register_plus_offset.0, to_int32 op.offset_or_block_len)
                d)
            cfa_column s
    step CfaOp.def_cfa_offset_sf op s =
        guard (has_cfa s) assertion
        >> set_rule
            (λ d.
              register_plus_offset_w (d.m_register_plus_offset.0, to_int32 op.offset_or_block_len)
                d)
            cfa_column s
    step CfaOp.def_cfa_expression op s =
        loc_expr op >>= λ x. set_rule (saved_at_expr_w x) cfa_column s
    step CfaOp.undefined op s = set_rule undefined_w op.fp_register s
    step CfaOp.same_value op s = set_rule same_value_w op.fp_register s
    step CfaOp.offset op s =
        set_rule (saved_at_offset_from_cfa_w (to_int32 op.offset_or_block_len)) op.fp_register s
    step CfaOp.offset_extended op s =
        set_rule (saved_at_offset_from_cfa_w (to_int32 op.offset_or_block_len)) op.fp_register s
    step CfaOp.offset_extended_sf op s =
        set_rule (saved_at_offset_from_cfa_w (to_int32 op.offset_or_block_len)) op.fp_register s
    step CfaOp.val_offset op s =
        set_rule (val_is_offset_from_cfa_w (to_int32 op.offset_or_block_len)) op.fp_register s
    step CfaOp.val_offset_sf op s =
        set_rule (val_is_offset_from_cfa_w (to_int32 op.offset_or_block_len)) op.fp_register s
    step CfaOp.register op s =
        set_rule (register_plus_offset_w (to_int32 op.offset_or_block_len, pos 0)) op.fp_register s
    step CfaOp.expression op s = loc_expr op >>= λ x. set_rule (saved_at_expr_w x) op.fp_register s
    step CfaOp.val_expression op s =
        loc_expr op >>= λ x. set_rule (val_of_expr_w x) op.fp_register s
    step CfaOp.restore op s = restore_rule initial_instrs_results op.fp_register s
    step CfaOp.restore_extended op s = restore_rule initial_instrs_results op.fp_register s
    step CfaOp.restore_state op s = elim s.remembered_row_defs [
      | [] ↦ err assertion
      | top ∷ below ↦ ok (record s { current_row_defs = top; remembered_row_defs = below })
    ]
    step CfaOp.remember_state op s =
        ok (record s { remembered_row_defs = s.current_row_defs ∷ s.remembered_row_defs })
    step CfaOp.nop op s = ok s
    step CfaOp.gnu_args_size op s = ok s

    -- One round of the loop.
    unfoldable pub interpret_op : FrameOp → Working m → Outcome (Working m)
    interpret_op op s = elim (selected op) [ none ↦ err assertion | some c ↦ step c op s ]

    unfoldable pub interpret_loop : List FrameOp → Working m → Outcome (Working m)
    interpret_loop [] s = ok s
    interpret_loop (op ∷ ops) s = interpret_op op s >>= λ s'. interpret_loop ops s'

  -- The state before the loop.
  unfoldable pub start : ℕ → Option (InstrsResults m) → Working m
  start initial_row_addr none = record {
    rows = m.empty;
    current_row_defs = [];
    current_row_addr = initial_row_addr;
    remembered_row_defs = [];
  }
  start initial_row_addr (some r) = record {
    rows = m.empty;
    current_row_defs = r.unfinished_row;
    current_row_addr = r.unfinished_row_addr;
    remembered_row_defs = [];
  }

  abbrev pub results : Working m → InstrsResults m
  results s = record {
    rows = s.rows;
    unfinished_row = s.current_row_defs;
    unfinished_row_addr = s.current_row_addr;
  }

  -- `p` is what the decoder needs of the CIE; the byte order is always that of the host.
  unfoldable pub interpret_instructions :
      Params → ℕ → List ℕ → Option (InstrsResults m) → Outcome (InstrsResults m)
  interpret_instructions p initial_row_addr instrs initial_instrs_results = do
    instrlist ← frame_instrlist (record p { use_host_byte_order = true }) instrs
    s ←
        interpret_loop initial_instrs_results instrlist
          (start initial_row_addr initial_instrs_results)
    ok (results s)

  abbrev pub add_unfinished_row : ℕ → InstrsResults m → InstrsResults m
  add_unfinished_row high_pc r = record {
    rows = m.add r.unfinished_row_addr high_pc r.unfinished_row r.rows;
    unfinished_row = [];
    unfinished_row_addr = 2 ^ 64 - 1;
  }

  -- Fde::decode, from the instructions of the CIE and of the FDE.
  unfoldable pub decode : Params → ℕ → ℕ → List ℕ → List ℕ → Outcome (InstrsResults m)
  decode p low_pc func_length initial_instructions instr_bytes = do
    initial_result ← interpret_instructions p low_pc initial_instructions none
    final_result ←
        interpret_instructions p initial_result.unfinished_row_addr instr_bytes
          (some initial_result)
    ok (add_unfinished_row ((low_pc + func_length + 1) % 2 ^ 64) final_result)
