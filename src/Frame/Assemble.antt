-- ===== src/Frame/Assemble.antt =====
-- An assembler for call frame instructions, with the operand that each is to be decoded to: the
-- description that the decoder of src/frame.cpp is held against. An operand of an advance is the delta
-- as it stands, without the code alignment factor, as the decoder has no such factor.
use libdwarfpp.Base.{ℕ, ◌+◌, ◌^◌, ◌≤◌, ◌<◌, ◌≡◌, ◌⊎◌, true, some, List, [], ◌∷◌, ◌++◌}
use libdwarfpp.Base.{length, All}
use libdwarfpp.Base.Int.{ℤ, pos, to_word64, ◌*ℤ◌, fits_int64}
use libdwarfpp.Reader.Leb.{IsGroup, leb_bytes, leb_value, leb_signed}
use libdwarfpp.Reader.Fixed.{address_bytes}
use libdwarfpp.Frame.{CfaOp, opcode, FrameOp}
use libdwarfpp.Frame.Decode.{Params, blank, with_register, with_offset}

-- A LEB128 operand in any of its encodings, padded or not.
pub record Leb : Type 0 where
  pub first : ℕ
  pub more : List ℕ

abbrev pub bytes : Leb → List ℕ
bytes l = leb_bytes l.first l.more

abbrev pub unsigned : Leb → ℕ
unsigned l = leb_value l.first l.more

abbrev pub signed : Leb → ℤ
signed l = leb_signed (length l.more + 1) (leb_value l.first l.more)

-- What the readers can take: five bytes at most, and below 2 ^ 31.
pub record IsReadable (l : Leb) : Type 0 where
  pub groups : All IsGroup (l.first ∷ l.more)
  pub short : length l.more ≤ 4
  pub fits : leb_value l.first l.more < 2 ^ 31

-- An instruction: its opcode, and the operands that some opcodes use.
pub record Instr : Type 0 where
  pub op : CfaOp
  pub small : ℕ
  pub fixed : ℕ
  pub reg : Leb
  pub value : Leb
  pub expr : List ℕ

abbrev pub packed : CfaOp → ℕ → ℕ
packed op n = opcode op + n

module _ (p : Params) where
  -- The bytes behind the opcode byte.
  unfoldable pub operand_bytes : CfaOp → Instr → List ℕ
  operand_bytes CfaOp.advance_loc i = []
  operand_bytes CfaOp.offset i = bytes i.value
  operand_bytes CfaOp.restore i = []
  operand_bytes CfaOp.nop i = []
  operand_bytes CfaOp.remember_state i = []
  operand_bytes CfaOp.restore_state i = []
  operand_bytes CfaOp.set_loc i = address_bytes p.host p.addrlen p.use_host_byte_order i.fixed
  operand_bytes CfaOp.advance_loc1 i = i.fixed ∷ []
  operand_bytes CfaOp.advance_loc2 i = address_bytes p.host 2 p.use_host_byte_order i.fixed
  operand_bytes CfaOp.advance_loc4 i = address_bytes p.host 4 p.use_host_byte_order i.fixed
  operand_bytes CfaOp.restore_extended i = bytes i.reg
  operand_bytes CfaOp.undefined i = bytes i.reg
  operand_bytes CfaOp.same_value i = bytes i.reg
  operand_bytes CfaOp.def_cfa_register i = bytes i.reg
  operand_bytes CfaOp.def_cfa_offset i = bytes i.value
  operand_bytes CfaOp.def_cfa_offset_sf i = bytes i.value
  operand_bytes CfaOp.gnu_args_size i = bytes i.value
  operand_bytes CfaOp.def_cfa_expression i = bytes i.value ++ i.expr
  operand_bytes CfaOp.expression i = bytes i.reg ++ (bytes i.value ++ i.expr)
  operand_bytes CfaOp.val_expression i = bytes i.reg ++ (bytes i.value ++ i.expr)
  operand_bytes _ i = bytes i.reg ++ bytes i.value

  unfoldable pub opcode_byte : CfaOp → Instr → ℕ
  opcode_byte CfaOp.advance_loc i = packed CfaOp.advance_loc i.small
  opcode_byte CfaOp.offset i = packed CfaOp.offset i.small
  opcode_byte CfaOp.restore i = packed CfaOp.restore i.small
  opcode_byte op i = opcode op

  unfoldable pub assemble : Instr → List ℕ
  assemble i = opcode_byte i.op i ∷ operand_bytes i.op i

  unfoldable pub assemble_all : List Instr → List ℕ
  assemble_all [] = []
  assemble_all (i ∷ is) = assemble i ++ assemble_all is

-- A factored operand times the data alignment factor, as it stands in the unsigned field.
abbrev pub product : Params → ℤ → ℕ
product p z = to_word64 (p.data_alignment_factor *ℤ z)

-- The operands that an instruction is to be decoded to; `rest` is what follows its block.
unfoldable pub meaning : Params → CfaOp → Instr → List ℕ → FrameOp
meaning p CfaOp.advance_loc i rest = with_offset i.small (blank (0x40 + i.small))
meaning p CfaOp.offset i rest =
    with_offset (product p (pos (unsigned i.value)))
      (with_register i.small (blank (0x80 + i.small)))
meaning p CfaOp.restore i rest = with_register i.small (blank (0xc0 + i.small))
meaning p CfaOp.set_loc i rest = with_offset i.fixed (blank 0x01)
meaning p CfaOp.advance_loc1 i rest = with_offset i.fixed (blank 0x02)
meaning p CfaOp.advance_loc2 i rest = with_offset i.fixed (blank 0x03)
meaning p CfaOp.advance_loc4 i rest = with_offset i.fixed (blank 0x04)
meaning p CfaOp.offset_extended i rest =
    with_offset (product p (pos (unsigned i.value))) (with_register (unsigned i.reg) (blank 0x05))
meaning p CfaOp.restore_extended i rest = with_register (unsigned i.reg) (blank 0x06)
meaning p CfaOp.undefined i rest = with_register (unsigned i.reg) (blank 0x07)
meaning p CfaOp.same_value i rest = with_register (unsigned i.reg) (blank 0x08)
meaning p CfaOp.register i rest =
    with_offset (unsigned i.value) (with_register (unsigned i.reg) (blank 0x09))
meaning p CfaOp.def_cfa i rest =
    with_offset (unsigned i.value) (with_register (unsigned i.reg) (blank 0x0c))
meaning p CfaOp.def_cfa_register i rest = with_register (unsigned i.reg) (blank 0x0d)
meaning p CfaOp.def_cfa_offset i rest = with_offset (unsigned i.value) (blank 0x0e)
meaning p CfaOp.def_cfa_expression i rest = record (with_offset (unsigned i.value) (blank 0x0f)) {
  expr_block = some (i.expr ++ rest);
}
meaning p CfaOp.expression i rest =
    record (with_offset (unsigned i.value) (with_register (unsigned i.reg) (blank 0x10))) {
      expr_block = some (i.expr ++ rest);
    }
meaning p CfaOp.offset_extended_sf i rest =
    with_offset (product p (signed i.value)) (with_register (unsigned i.reg) (blank 0x11))
meaning p CfaOp.def_cfa_sf i rest =
    with_offset (product p (signed i.value)) (with_register (unsigned i.reg) (blank 0x12))
meaning p CfaOp.def_cfa_offset_sf i rest = with_offset (product p (signed i.value)) (blank 0x13)
meaning p CfaOp.val_offset i rest =
    with_offset (product p (pos (unsigned i.value))) (with_register (unsigned i.reg) (blank 0x14))
meaning p CfaOp.val_offset_sf i rest =
    with_offset (product p (signed i.value)) (with_register (unsigned i.reg) (blank 0x15))
meaning p CfaOp.val_expression i rest =
    record (with_offset (unsigned i.value) (with_register (unsigned i.reg) (blank 0x16))) {
      expr_block = some (i.expr ++ rest);
    }
meaning p CfaOp.gnu_args_size i rest = with_offset (unsigned i.value) (blank 0x2e)
meaning p op i rest = blank (opcode op)

-- What an operand of the opcode must satisfy: a fixed number has its width, a product fits, and a
-- block has its length. For the two val_offset opcodes the operand's top bit is clear, so that
-- its unsigned and its signed reading are the same.
abbrev pub Fits : Params → CfaOp → Instr → Type 0
Fits p CfaOp.offset i = fits_int64 (p.data_alignment_factor *ℤ pos (unsigned i.value)) ≡ true
Fits p CfaOp.set_loc i = ((p.addrlen ≡ 4) ⊎ (p.addrlen ≡ 8)) × (i.fixed < 256 ^ p.addrlen)
Fits p CfaOp.advance_loc1 i = i.fixed < 2 ^ 8
Fits p CfaOp.advance_loc2 i = i.fixed < 2 ^ 16
Fits p CfaOp.advance_loc4 i = i.fixed < 2 ^ 32
Fits p CfaOp.def_cfa_expression i = unsigned i.value ≡ length i.expr
Fits p CfaOp.expression i = unsigned i.value ≡ length i.expr
Fits p CfaOp.val_expression i = unsigned i.value ≡ length i.expr
Fits p CfaOp.offset_extended_sf i = fits_int64 (p.data_alignment_factor *ℤ signed i.value) ≡ true
Fits p CfaOp.def_cfa_sf i = fits_int64 (p.data_alignment_factor *ℤ signed i.value) ≡ true
Fits p CfaOp.def_cfa_offset_sf i = fits_int64 (p.data_alignment_factor *ℤ signed i.value) ≡ true
Fits p CfaOp.val_offset i =
    (signed i.value ≡ pos (unsigned i.value))
    × (fits_int64 (p.data_alignment_factor *ℤ pos (unsigned i.value)) ≡ true)
Fits p CfaOp.val_offset_sf i = signed i.value ≡ pos (unsigned i.value)
Fits p op i = Unit {0}

pub record IsValid (p : Params) (i : Instr) : Type 0 where
  pub small_lt : i.small < 64
  pub reg_ok : IsReadable i.reg
  pub value_ok : IsReadable i.value
  pub operand_ok : Fits p i.op i
