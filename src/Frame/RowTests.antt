-- ===== src/Frame/RowTests.antt =====
-- src/frame.cpp: the rows of a small FDE for x86-64.
use libdwarfpp.Base.{◌≡◌, refl, arith, true}
use libdwarfpp.Base.{none, some, [], ◌∷◌, ok, ◌>>=◌}
use libdwarfpp.Reader.{read_uleb128, uleb_loop, shl_int}
use libdwarfpp.Frame.{cfa_op}
use libdwarfpp.Frame.Decode.{
  blank, with_offset, frame_instrlist, instrlist_loop, decode_instr, operands,
  uleb128_register_and_offset, uleb128_offset_only, factored,
}
use libdwarfpp.Frame.Rows.{visible, find_def, modify}
use libdwarfpp.Frame.Interpret.{
  interpret_instructions, interpret_loop, interpret_op, step, add_new_row, start, decode,
}
use libdwarfpp.Frame.Coverage.{row_at, begun, find-decode}
use libdwarfpp.Frame.States.{interpret_loop-bracket}
use libdwarfpp.Frame.Accepts.{accepts, accepts_all}
use libdwarfpp.Frame.Accepted.{Matches, interpret_loop-Matches}
use libdwarfpp.Frame.Fixtures.{
  function_map, no_exprs, x86_64, cie_instrs, fde_instrs, fde_ops, cie_result, fde_result, state,
}

cie_walk :
    interpret_instructions function_map 1436 no_exprs x86_64 0x1000 cie_instrs none ≡ ok cie_result
unfolding interpret_instructions frame_instrlist instrlist_loop decode_instr cfa_op operands
    uleb128_register_and_offset read_uleb128 uleb_loop shl_int factored interpret_loop interpret_op
    step start modify
cie_walk = refl

fde_bytes : frame_instrlist (record x86_64 { use_host_byte_order = true }) fde_instrs ≡ ok fde_ops
unfolding frame_instrlist instrlist_loop decode_instr cfa_op operands uleb128_offset_only
    read_uleb128 uleb_loop shl_int
fde_bytes = refl

fde_walk :
    decode function_map 1436 no_exprs x86_64 0x1000 0x20 cie_instrs fde_instrs ≡ ok fde_result
unfolding decode interpret_instructions frame_instrlist instrlist_loop decode_instr cfa_op operands
    uleb128_register_and_offset uleb128_offset_only read_uleb128 uleb_loop shl_int factored
    interpret_loop interpret_op step add_new_row start modify find_def
fde_walk = refl

find-decode_example :
    function_map.find fde_result.rows 0x1010
    ≡ visible (
        row_at function_map 1436 no_exprs
          (some cie_result)
          fde_ops
          (begun function_map 1436 no_exprs x86_64 cie_result fde_ops)
          0x1010)
find-decode_example =
    find-decode function_map 1436 no_exprs x86_64 0x1000 0x20 cie_instrs fde_instrs
      {initial = cie_result} {r = fde_result} {ops = fde_ops} 0x1010 cie_walk fde_bytes fde_walk
      (omega arith) (omega arith)

interpret_loop-bracket_example :
    interpret_loop function_map 1436 no_exprs
      (some cie_result)
      (blank 0x0a ∷ with_offset 4 (blank 0x44) ∷ with_offset 16 (blank 0x0e) ∷ blank 0x0b ∷ [])
      state
    ≡ (interpret_loop function_map 1436 no_exprs (some cie_result) fde_ops state >>= λ t.
        ok (record t { current_row_defs = state.current_row_defs; remembered_row_defs = [] }))
unfolding cfa_op
interpret_loop-bracket_example =
    interpret_loop-bracket function_map 1436 no_exprs (some cie_result) (blank 0x0a) (blank 0x0b)
      fde_ops state refl refl ((λ q. cc, λ q. cc), ((λ q. cc, λ q. cc), tt))

interpret_loop-Matches_example :
    Matches function_map 1436 no_exprs cie_result
      (some (record { address = 0x1004; cfa = true; remembered = [] }))
      (interpret_loop function_map 1436 no_exprs (some cie_result) fde_ops state)
unfolding accepts_all accepts cfa_op find_def
interpret_loop-Matches_example =
    interpret_loop-Matches function_map 1436 no_exprs cie_result fde_ops state
