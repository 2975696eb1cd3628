-- ===== src/Frame/Decode.antt =====
-- src/frame.cpp: the constructor of frame_instrlist, which decodes the instructions of a CIE or FDE.
use mathlib.Core.Bool.{xor}
use libdwarfpp.Base.{ℕ, zero, suc, ◌*◌, ◌/◌, ◌%◌, ◌^◌, Bool, true}
use libdwarfpp.Base.{none, some, List, [], ◌∷◌, bit_and, drop, length, ◌==◌, if◌then◌else◌}
use libdwarfpp.Base.{Outcome, ok, err, Fault, assertion, out_of_bounds, out_of_fuel}
use libdwarfpp.Base.{◌>>=◌, ◌>>◌, guard}
use libdwarfpp.Base.Int.{ℤ, pos, to_int64, to_word64, ltb_ℤ, leb_ℤ}
use libdwarfpp.Base.Int.{◌*ℤ◌, fits_int64}
use libdwarfpp.Reader.{Host, read_uleb128, read_sleb128, read_addr}
use libdwarfpp.Reader.{read_2byte_le, read_2byte_be, read_4byte_le, read_4byte_be}
use libdwarfpp.Frame.{CfaOp, cfa_op, FrameOp}

-- The parts of `cie`, and the two arguments, that the constructor uses.
pub record Params : Type 0 where
  pub host : Host
  pub data_alignment_factor : ℤ
  pub addrlen : ℕ
  pub use_host_byte_order : Bool

-- decoded, before the switch
abbrev pub blank : ℕ → FrameOp
blank byte = record {
  base_op = byte / 64;
  extended_op = if byte / 64 == 0 then bit_and byte 0x3f else 0;
  fp_register = 0;
  offset_or_block_len = 0;
  expr_block = none;
  instr_offset = 0;
}

-- Dwarf_Signed times Dwarf_Unsigned: the product of the 64-bit patterns.
unfoldable pub factored : ℤ → ℕ → ℕ
factored daf n = to_word64 daf * n % 2 ^ 64

-- Dwarf_Signed times Dwarf_Signed, put into an unsigned field: an overflow is undefined.
unfoldable pub factored_sf : ℤ → ℤ → Outcome ℕ
factored_sf daf z = if fits_int64 (daf *ℤ z) then ok (to_word64 (daf *ℤ z)) else err Fault.undefined

-- fp_register is 16 bits wide.
abbrev pub with_register : ℕ → FrameOp → FrameOp
with_register n d = record d { fp_register = n % 2 ^ 16 }

abbrev pub with_offset : ℕ → FrameOp → FrameOp
with_offset n d = record d { offset_or_block_len = n }

abbrev pub read_byte : List ℕ → Outcome (ℕ × List ℕ)
read_byte [] = err out_of_bounds
read_byte (b ∷ bs) = ok (b, bs)

-- The labels of the switch.
unfoldable pub uleb128_register_only : FrameOp → List ℕ → Outcome (FrameOp × List ℕ)
uleb128_register_only d cur = do (r, rest) ← read_uleb128 cur; ok (with_register r d, rest)

unfoldable pub uleb128_register_and_factored_offset :
    ℤ → FrameOp → List ℕ → Outcome (FrameOp × List ℕ)
uleb128_register_and_factored_offset daf d cur = do
  (r, cur₁) ← read_uleb128 cur
  (n, cur₂) ← read_uleb128 cur₁
  ok (with_offset (factored daf n) (with_register r d), cur₂)

unfoldable pub uleb128_register_and_offset : FrameOp → List ℕ → Outcome (FrameOp × List ℕ)
uleb128_register_and_offset d cur = do
  (r, cur₁) ← read_uleb128 cur
  (n, cur₂) ← read_uleb128 cur₁
  ok (with_offset n (with_register r d), cur₂)

unfoldable pub uleb128_register_sleb128_offset : ℤ → FrameOp → List ℕ → Outcome (FrameOp × List ℕ)
uleb128_register_sleb128_offset daf d cur = do
  (r, cur₁) ← read_uleb128 cur
  (z, cur₂) ← read_sleb128 cur₁
  n ← factored_sf daf z
  ok (with_offset n (with_register r d), cur₂)

unfoldable pub uleb128_offset_only : FrameOp → List ℕ → Outcome (FrameOp × List ℕ)
uleb128_offset_only d cur = do (n, rest) ← read_uleb128 cur; ok (with_offset n d, rest)

unfoldable pub sleb128_offset_only : ℤ → FrameOp → List ℕ → Outcome (FrameOp × List ℕ)
sleb128_offset_only daf d cur = do
  (z, rest) ← read_sleb128 cur
  n ← factored_sf daf z
  ok (with_offset n d, rest)

-- The block stays where it is, and the cursor moves behind it; past the limit is as at the limit.
unfoldable pub block : FrameOp → List ℕ → Outcome (FrameOp × List ℕ)
block d cur = do
  (n, rest) ← read_uleb128 cur
  ok (record d { offset_or_block_len = n; expr_block = some rest }, drop n rest)

unfoldable pub register_and_block : FrameOp → List ℕ → Outcome (FrameOp × List ℕ)
unfolding block
register_and_block d cur = do (r, cur₁) ← read_uleb128 cur; block (with_register r d) cur₁

-- The body of the switch: `byte` is the opcode byte, `cur` what follows it.
unfoldable pub operands : Params → CfaOp → ℕ → List ℕ → Outcome (FrameOp × List ℕ)
operands p CfaOp.advance_loc byte cur = ok (with_offset (bit_and byte 0x3f) (blank byte), cur)
operands p CfaOp.offset byte cur = do
  (n, rest) ← read_uleb128 cur
  let scaled = factored p.data_alignment_factor n
  guard (if ltb_ℤ p.data_alignment_factor (pos 0) then leb_ℤ (to_int64 scaled) (pos 0) else true)
      assertion
  ok (with_offset scaled (with_register (bit_and byte 0x3f) (blank byte)), rest)
operands p CfaOp.restore byte cur = ok (with_register (bit_and byte 0x3f) (blank byte), cur)
operands p CfaOp.nop byte cur = ok (blank byte, cur)
operands p CfaOp.remember_state byte cur = ok (blank byte, cur)
operands p CfaOp.restore_state byte cur = ok (blank byte, cur)
operands p CfaOp.set_loc byte cur = do
  (a, rest) ← read_addr p.host p.addrlen cur p.use_host_byte_order
  ok (with_offset a (blank byte), rest)
operands p CfaOp.advance_loc1 byte cur = do
  (n, rest) ← read_byte cur
  ok (with_offset n (blank byte), rest)
operands p CfaOp.advance_loc2 byte cur = do
  (n, rest) ←
      if xor p.host.host_is_big_endian p.use_host_byte_order
      then read_2byte_le cur
      else read_2byte_be cur
  ok (with_offset n (blank byte), rest)
operands p CfaOp.advance_loc4 byte cur = do
  (n, rest) ←
      if xor p.host.host_is_big_endian p.use_host_byte_order
      then read_4byte_le cur
      else read_4byte_be cur
  ok (with_offset n (blank byte), rest)
operands p CfaOp.restore_extended byte cur = uleb128_register_only (blank byte) cur
operands p CfaOp.undefined byte cur = uleb128_register_only (blank byte) cur
operands p CfaOp.same_value byte cur = uleb128_register_only (blank byte) cur
operands p CfaOp.def_cfa_register byte cur = uleb128_register_only (blank byte) cur
operands p CfaOp.offset_extended byte cur =
    uleb128_register_and_factored_offset p.data_alignment_factor (blank byte) cur
operands p CfaOp.def_cfa byte cur = uleb128_register_and_offset (blank byte) cur
operands p CfaOp.register byte cur = uleb128_register_and_offset (blank byte) cur
operands p CfaOp.offset_extended_sf byte cur =
    uleb128_register_sleb128_offset p.data_alignment_factor (blank byte) cur
operands p CfaOp.def_cfa_sf byte cur =
    uleb128_register_sleb128_offset p.data_alignment_factor (blank byte) cur
operands p CfaOp.def_cfa_offset byte cur = uleb128_offset_only (blank byte) cur
operands p CfaOp.def_cfa_offset_sf byte cur =
    sleb128_offset_only p.data_alignment_factor (blank byte) cur
operands p CfaOp.expression byte cur = register_and_block (blank byte) cur
operands p CfaOp.def_cfa_expression byte cur = block (blank byte) cur
operands p CfaOp.val_offset byte cur =
    uleb128_register_sleb128_offset p.data_alignment_factor (blank byte) cur
operands p CfaOp.val_offset_sf byte cur =
    uleb128_register_and_factored_offset p.data_alignment_factor (blank byte) cur
operands p CfaOp.val_expression byte cur = register_and_block (blank byte) cur
operands p CfaOp.gnu_args_size byte cur = uleb128_offset_only (blank byte) cur

-- opcode_from_byte
abbrev pub opcode_from_byte : ℕ → ℕ
opcode_from_byte b = if bit_and b 0xc0 == 0 then b else bit_and b 0xc0

-- One round of the loop.
unfoldable pub decode_instr : Params → ℕ → List ℕ → Outcome (FrameOp × List ℕ)
decode_instr p byte cur = elim (cfa_op (opcode_from_byte byte)) [
  | none ↦ err assertion
  | some op ↦ operands p op byte cur
]

unfoldable pub instrlist_loop : Params → ℕ → List ℕ → Outcome (List FrameOp)
instrlist_loop p fuel [] = ok []
instrlist_loop p zero (b ∷ bs) = err out_of_fuel
instrlist_loop p (suc fuel) (b ∷ bs) = do
  (op, rest) ← decode_instr p b bs
  ops ← instrlist_loop p fuel rest
  ok (op ∷ ops)

-- Each round takes a byte at least, so as many rounds as there are bytes are enough.
unfoldable pub frame_instrlist : Params → List ℕ → Outcome (List FrameOp)
frame_instrlist p seq = instrlist_loop p (length seq) seq
