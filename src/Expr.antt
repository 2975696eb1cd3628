-- ===== src/Expr.antt =====
-- include/dwarfpp/expr.hpp and src/expr.cpp: location expressions and location lists.
pub mod Eval
pub mod Arith
pub mod Keeps
pub mod Depth
pub mod Machine
pub mod Resume
pub mod Literals
pub mod Additive
pub mod Locate
pub mod Pieces
pub mod Split
pub mod Partition
mod Tests
mod ListTests
use mathlib.Core.Bool.{◌&&◌}
use libdwarfpp.Base.{ℕ, ◌-◌, List, ◌==◌, leb, ltb, if◌then◌else◌}

-- Dwarf_Loc: an operation, its two operands, and its offset in the encoded expression.
pub record ExprInstr : Type 0 where
  pub lr_atom : ℕ
  pub lr_number : ℕ
  pub lr_number2 : ℕ
  pub lr_offset : ℕ

-- loc_expr: the operations, and the range of addresses for which they hold.
pub record LocExpr : Type 0 where
  pub instrs : List ExprInstr
  pub hipc : ℕ
  pub lopc : ℕ

-- The DW_OP_ operations that the switches of expr.cpp name; `other` is the default case.
pub data Op : Type 0 where
  addr deref dup drop over pick swap rot xderef abs and div minus modulo mul neg not or : Op
  plus plus_uconst shl shr shra xor eq ge gt le lt ne nop deref_size xderef_size : Op
  const_unsigned const_signed : Op
  lit reg breg : ℕ → Op
  regx fbreg bregx piece bit_piece call_frame_cfa stack_value implicit_pointer : Op
  other : Op

-- The case of the switch that an lr_atom selects, by the numbers of the DWARF standard. The
-- unsigned constants have one case body, and so have the signed ones.
unfoldable pub op_of : ℕ → Op
op_of a =
    if leb 0x30 a && ltb a 0x50
    then Op.lit (a - 0x30)
    else if leb 0x50 a && ltb a 0x70
    then Op.reg (a - 0x50)
    else if leb 0x70 a && ltb a 0x90
    then Op.breg (a - 0x70)
    else if a == 0x03
    then Op.addr
    else if a == 0x06
    then Op.deref
    else if a == 0x08
    then Op.const_unsigned
    else if a == 0x09
    then Op.const_signed
    else if a == 0x0a
    then Op.const_unsigned
    else if a == 0x0b
    then Op.const_signed
    else if a == 0x0c
    then Op.const_unsigned
    else if a == 0x0d
    then Op.const_signed
    else if a == 0x0e
    then Op.const_unsigned
    else if a == 0x0f
    then Op.const_signed
    else if a == 0x10
    then Op.const_unsigned
    else if a == 0x11
    then Op.const_signed
    else if a == 0x12
    then Op.dup
    else if a == 0x13
    then Op.drop
    else if a == 0x14
    then Op.over
    else if a == 0x15
    then Op.pick
    else if a == 0x16
    then Op.swap
    else if a == 0x17
    then Op.rot
    else if a == 0x18
    then Op.xderef
    else if a == 0x19
    then Op.abs
    else if a == 0x1a
    then Op.and
    else if a == 0x1b
    then Op.div
    else if a == 0x1c
    then Op.minus
    else if a == 0x1d
    then Op.modulo
    else if a == 0x1e
    then Op.mul
    else if a == 0x1f
    then Op.neg
    else if a == 0x20
    then Op.not
    else if a == 0x21
    then Op.or
    else if a == 0x22
    then Op.plus
    else if a == 0x23
    then Op.plus_uconst
    else if a == 0x24
    then Op.shl
    else if a == 0x25
    then Op.shr
    else if a == 0x26
    then Op.shra
    else if a == 0x27
    then Op.xor
    else if a == 0x29
    then Op.eq
    else if a == 0x2a
    then Op.ge
    else if a == 0x2b
    then Op.gt
    else if a == 0x2c
    then Op.le
    else if a == 0x2d
    then Op.lt
    else if a == 0x2e
    then Op.ne
    else if a == 0x90
    then Op.regx
    else if a == 0x91
    then Op.fbreg
    else if a == 0x92
    then Op.bregx
    else if a == 0x93
    then Op.piece
    else if a == 0x94
    then Op.deref_size
    else if a == 0x95
    then Op.xderef_size
    else if a == 0x96
    then Op.nop
    else if a == 0x9c
    then Op.call_frame_cfa
    else if a == 0x9d
    then Op.bit_piece
    else if a == 0x9f
    then Op.stack_value
    else if a == 0xa0
    then Op.implicit_pointer
    else if a == 0xf2
    then Op.implicit_pointer
    else Op.other
