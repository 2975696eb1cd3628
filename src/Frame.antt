-- ===== src/Frame.antt =====
-- src/frame.cpp and include/dwarfpp/frame.hpp: call frame information.
-- The instructions of a CIE or FDE; the children decode them from bytes and interpret them.
pub mod Decode
pub mod Factored
pub mod Assemble
pub mod Operands
pub mod RoundTrip
pub mod Total
pub mod Rows
pub mod Interpret
pub mod InForce
pub mod Coverage
pub mod Equality
pub mod Accepts
pub mod Accepted
pub mod Rules
pub mod Remember
pub mod States
pub mod Restore
pub mod Saved
pub mod Swapped
mod Tests
mod Fixtures
mod RowTests
mod RuleTests
use libdwarfpp.Base.{ℕ, Option, none, some, List, ◌==◌, if◌then◌else◌}

-- The DW_CFA_ opcodes that the switches of frame.cpp name.
pub data CfaOp : Type 0 where
  advance_loc offset restore nop set_loc advance_loc1 advance_loc2 advance_loc4 : CfaOp
  offset_extended restore_extended undefined same_value register : CfaOp
  remember_state restore_state def_cfa def_cfa_register def_cfa_offset : CfaOp
  def_cfa_expression expression offset_extended_sf def_cfa_sf def_cfa_offset_sf : CfaOp
  val_offset val_offset_sf val_expression gnu_args_size : CfaOp

-- Their numbers in the DWARF standard; for the first three, the two top bits of the byte.
abbrev pub opcode : CfaOp → ℕ
opcode CfaOp.advance_loc = 0x40
opcode CfaOp.offset = 0x80
opcode CfaOp.restore = 0xc0
opcode CfaOp.nop = 0x00
opcode CfaOp.set_loc = 0x01
opcode CfaOp.advance_loc1 = 0x02
opcode CfaOp.advance_loc2 = 0x03
opcode CfaOp.advance_loc4 = 0x04
opcode CfaOp.offset_extended = 0x05
opcode CfaOp.restore_extended = 0x06
opcode CfaOp.undefined = 0x07
opcode CfaOp.same_value = 0x08
opcode CfaOp.register = 0x09
opcode CfaOp.remember_state = 0x0a
opcode CfaOp.restore_state = 0x0b
opcode CfaOp.def_cfa = 0x0c
opcode CfaOp.def_cfa_register = 0x0d
opcode CfaOp.def_cfa_offset = 0x0e
opcode CfaOp.def_cfa_expression = 0x0f
opcode CfaOp.expression = 0x10
opcode CfaOp.offset_extended_sf = 0x11
opcode CfaOp.def_cfa_sf = 0x12
opcode CfaOp.def_cfa_offset_sf = 0x13
opcode CfaOp.val_offset = 0x14
opcode CfaOp.val_offset_sf = 0x15
opcode CfaOp.val_expression = 0x16
opcode CfaOp.gnu_args_size = 0x2e

-- The case of the switch that a number selects; `none` is the default case.
unfoldable pub cfa_op : ℕ → Option CfaOp
cfa_op n =
    if n == 0x40
    then some CfaOp.advance_loc
    else if n == 0x80
    then some CfaOp.offset
    else if n == 0xc0
    then some CfaOp.restore
    else if n == 0x00
    then some CfaOp.nop
    else if n == 0x01
    then some CfaOp.set_loc
    else if n == 0x02
    then some CfaOp.advance_loc1
    else if n == 0x03
    then some CfaOp.advance_loc2
    else if n == 0x04
    then some CfaOp.advance_loc4
    else if n == 0x05
    then some CfaOp.offset_extended
    else if n == 0x06
    then some CfaOp.restore_extended
    else if n == 0x07
    then some CfaOp.undefined
    else if n == 0x08
    then some CfaOp.same_value
    else if n == 0x09
    then some CfaOp.register
    else if n == 0x0a
    then some CfaOp.remember_state
    else if n == 0x0b
    then some CfaOp.restore_state
    else if n == 0x0c
    then some CfaOp.def_cfa
    else if n == 0x0d
    then some CfaOp.def_cfa_register
    else if n == 0x0e
    then some CfaOp.def_cfa_offset
    else if n == 0x0f
    then some CfaOp.def_cfa_expression
    else if n == 0x10
    then some CfaOp.expression
    else if n == 0x11
    then some CfaOp.offset_extended_sf
    else if n == 0x12
    then some CfaOp.def_cfa_sf
    else if n == 0x13
    then some CfaOp.def_cfa_offset_sf
    else if n == 0x14
    then some CfaOp.val_offset
    else if n == 0x15
    then some CfaOp.val_offset_sf
    else if n == 0x16
    then some CfaOp.val_expression
    else if n == 0x2e
    then some CfaOp.gnu_args_size
    else none

-- frame_op (libdwarf's Dwarf_Frame_Op3). `expr_block` is a pointer into the instruction bytes:
-- here the bytes from it up to the limit.
pub record FrameOp : Type 0 where
  pub base_op : ℕ
  pub extended_op : ℕ
  pub fp_register : ℕ
  pub offset_or_block_len : ℕ
  pub expr_block : Option (List ℕ)
  pub instr_offset : ℕ
