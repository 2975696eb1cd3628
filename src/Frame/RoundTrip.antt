-- ===== src/Frame/RoundTrip.antt =====
-- src/frame.cpp: frame_instrlist reads back what the assembler writes.
use libdwarfpp.Base.{ℕ, zero, suc, ◌≤◌, ◌<◌, ◌≡◌, refl, arith, true}
use libdwarfpp.Base.{some, List, [], ◌∷◌, ◌++◌, length, All, ok}
use libdwarfpp.Base.{length-append}
use libdwarfpp.Base.Int.{fits_int64}
use libdwarfpp.Reader.Fixed.{read_addr-address_bytes}
use libdwarfpp.Frame.{CfaOp, cfa_op, FrameOp}
use libdwarfpp.Frame.Decode.{
  Params, operands, decode_instr, instrlist_loop, frame_instrlist, opcode_from_byte,
}
use libdwarfpp.Frame.Factored.{factored_lem, offset_assertion}
use libdwarfpp.Frame.Assemble.{IsReadable, unsigned, Instr, Fits, IsValid}
use libdwarfpp.Frame.Assemble.{operand_bytes, opcode_byte, assemble, assemble_all, meaning}
use libdwarfpp.Frame.Operands.{
  read_unsigned, low_bits, top_bits, register_only, offset_only, register_and_offset,
  register_and_factored_offset, register_sleb128_offset, sleb128_offset, expr_block,
  register_and_expr_block, fixed_2byte, fixed_4byte,
}

module _ (p : Params) (i : Instr) (rest : List ℕ)
    (daf_ok : fits_int64 p.data_alignment_factor ≡ true) where
  -- The case of the switch for each opcode, on its operands.
  operands-operand_bytes :
      (op : CfaOp)
      → i.small < 64
      → IsReadable i.reg
      → IsReadable i.value
      → Fits p op i
      → operands p op (opcode_byte p op i) (operand_bytes p op i ++ rest)
        ≡ ok (meaning p op i rest, rest)
  unfolding operands operand_bytes opcode_byte meaning
  operands-operand_bytes CfaOp.advance_loc hs hr hv h =
      rw (low_bits 0x40 1 i.small refl hs (omega arith))
  operands-operand_bytes CfaOp.offset hs hr hv h = rw (
    read_unsigned i.value rest hv,
    low_bits 0x80 2 i.small refl hs (omega arith),
    offset_assertion p.data_alignment_factor (unsigned i.value) daf_ok h,
    factored_lem p.data_alignment_factor (unsigned i.value) daf_ok,
  )
  operands-operand_bytes CfaOp.restore hs hr hv h =
      rw (low_bits 0xc0 3 i.small refl hs (omega arith))
  operands-operand_bytes CfaOp.nop hs hr hv h = refl
  operands-operand_bytes CfaOp.remember_state hs hr hv h = refl
  operands-operand_bytes CfaOp.restore_state hs hr hv h = refl
  operands-operand_bytes CfaOp.set_loc hs hr hv h =
      rw (read_addr-address_bytes p.host p.addrlen p.use_host_byte_order i.fixed rest h.0 h.1)
  operands-operand_bytes CfaOp.advance_loc1 hs hr hv h = refl
  operands-operand_bytes CfaOp.advance_loc2 hs hr hv h =
      rw (fixed_2byte p.host p.use_host_byte_order i.fixed rest h)
  operands-operand_bytes CfaOp.advance_loc4 hs hr hv h =
      rw (fixed_4byte p.host p.use_host_byte_order i.fixed rest h)
  operands-operand_bytes CfaOp.restore_extended hs hr hv h = register_only p i rest hr hv _
  operands-operand_bytes CfaOp.undefined hs hr hv h = register_only p i rest hr hv _
  operands-operand_bytes CfaOp.same_value hs hr hv h = register_only p i rest hr hv _
  operands-operand_bytes CfaOp.def_cfa_register hs hr hv h = register_only p i rest hr hv _
  operands-operand_bytes CfaOp.offset_extended hs hr hv h =
      register_and_factored_offset p i rest hr hv _ daf_ok
  operands-operand_bytes CfaOp.def_cfa hs hr hv h = register_and_offset p i rest hr hv _
  operands-operand_bytes CfaOp.register hs hr hv h = register_and_offset p i rest hr hv _
  operands-operand_bytes CfaOp.offset_extended_sf hs hr hv h =
      register_sleb128_offset p i rest hr hv _ h
  operands-operand_bytes CfaOp.def_cfa_sf hs hr hv h = register_sleb128_offset p i rest hr hv _ h
  operands-operand_bytes CfaOp.def_cfa_offset hs hr hv h = offset_only p i rest hr hv _
  operands-operand_bytes CfaOp.def_cfa_offset_sf hs hr hv h = sleb128_offset p i rest hr hv _ h
  operands-operand_bytes CfaOp.expression hs hr hv h = register_and_expr_block p i rest hr hv _ h
  operands-operand_bytes CfaOp.def_cfa_expression hs hr hv h = expr_block p i rest hr hv _ h
  operands-operand_bytes CfaOp.val_offset hs hr hv h =
      rw (register_sleb128_offset p i rest hr hv _ (rw (h.0) h.1), h.0)
  operands-operand_bytes CfaOp.val_offset_sf hs hr hv h =
      rw (register_and_factored_offset p i rest hr hv _ daf_ok, h)
  operands-operand_bytes CfaOp.val_expression hs hr hv h =
      register_and_expr_block p i rest hr hv _ h
  operands-operand_bytes CfaOp.gnu_args_size hs hr hv h = offset_only p i rest hr hv _

  selects : (op : CfaOp) → i.small < 64 → cfa_op (opcode_from_byte (opcode_byte p op i)) ≡ some op
  unfolding cfa_op opcode_byte
  selects CfaOp.advance_loc h = rw (top_bits 0x40 1 i.small refl h (omega arith))
  selects CfaOp.offset h = rw (top_bits 0x80 2 i.small refl h (omega arith))
  selects CfaOp.restore h = rw (top_bits 0xc0 3 i.small refl h (omega arith))
  selects CfaOp.nop h = refl
  selects _ h = refl

  -- One round of the loop reads an assembled instruction as what it means.
  decode_instr-assemble :
      IsValid p i
      → decode_instr p (opcode_byte p i.op i) (operand_bytes p i.op i ++ rest)
        ≡ ok (meaning p i.op i rest, rest)
  unfolding decode_instr
  decode_instr-assemble v =
      rw (selects i.op v.small_lt, decode_instr)
        (operands-operand_bytes i.op v.small_lt v.reg_ok v.value_ok v.operand_ok)

-- What a list of instructions means: an expression block is followed by the later instructions.
unfoldable pub meanings : Params → List Instr → List FrameOp
meanings p [] = []
meanings p (i ∷ is) = meaning p i.op i (assemble_all p is) ∷ meanings p is

instrlist_loop-assemble_all :
    (p : Params) (is : List Instr) (fuel : ℕ)
    → fits_int64 p.data_alignment_factor ≡ true
    → All (IsValid p) is
    → length (assemble_all p is) ≤ fuel
    → instrlist_loop p fuel (assemble_all p is) ≡ ok (meanings p is)
unfolding instrlist_loop assemble_all assemble meanings
instrlist_loop-assemble_all p [] fuel daf_ok h hf = refl
instrlist_loop-assemble_all p (i ∷ is) zero daf_ok h hf = absurd (omega arith)
instrlist_loop-assemble_all p (i ∷ is) (suc fuel) daf_ok (hi, hs) hf =
    rw (decode_instr-assemble p i (assemble_all p is) daf_ok hi) (
      rw (
        instrlist_loop-assemble_all p is fuel daf_ok hs
          (omega (arith, length-append (operand_bytes p i.op i) (assemble_all p is)))))

-- Assembled instructions that satisfy IsValid are decoded to the opcodes and the operands that
-- `meaning` gives, for both byte orders and every data alignment factor that fits 64 bits: LEB128
-- operands of up to five bytes and below 2 ^ 31, fixed ones of their width, operands times the data
-- alignment factor where that fits 64 bits, and deltas of advances as they stand. The operands of the
-- two val_offset opcodes read the same unsigned and signed.
pub frame_instrlist-assemble_all :
    (p : Params) (is : List Instr)
    → fits_int64 p.data_alignment_factor ≡ true
    → All (IsValid p) is
    → frame_instrlist p (assemble_all p is) ≡ ok (meanings p is)
unfolding frame_instrlist
frame_instrlist-assemble_all p is daf_ok h =
    instrlist_loop-assemble_all p is _ daf_ok h (omega arith)
