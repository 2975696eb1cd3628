-- ===== src/Frame/Operands.antt =====
-- src/frame.cpp: the cases of the decoder's switch read back the operands that the assembler writes.
use libdwarfpp.Base.{ℕ, ◌+◌, ◌*◌, ◌^◌, ◌<◌, ◌≡◌, arith, true, false}
use libdwarfpp.Base.{some, List, ◌++◌, append_assoc, length, ok, bit_and}
use libdwarfpp.Base.{drop-length, Bool, not, if◌then◌else◌}
use libdwarfpp.Base.Bits.{bit_and_0xc0, bit_and_0x3f}
use libdwarfpp.Base.Int.{pos, fits_int64, ◌*ℤ◌}
use libdwarfpp.Reader.{read_uleb128, read_sleb128}
use libdwarfpp.Reader.Leb.{read_uleb128-leb_bytes, read_sleb128-leb_bytes}
use libdwarfpp.Reader.{Host, read_2byte_le, read_2byte_be, read_4byte_le, read_4byte_be}
use libdwarfpp.Reader.Fixed.{address_bytes, big_endian, little_endian}
use libdwarfpp.Reader.Fixed.{read_2byte_le-little_endian, read_2byte_be-big_endian}
use libdwarfpp.Reader.Fixed.{read_4byte_le-little_endian, read_4byte_be-big_endian}
use mathlib.Core.Bool.{xor}
use libdwarfpp.Frame.{FrameOp}
use libdwarfpp.Frame.Decode
use libdwarfpp.Frame.Decode.{
  Params, operands, decode_instr, instrlist_loop, frame_instrlist, opcode_from_byte,
}
use libdwarfpp.Frame.Factored.{factored_lem, factored_sf_lem}
use libdwarfpp.Frame.Assemble.{Leb, IsReadable, bytes, unsigned, signed, Instr}
use libdwarfpp.Frame.Assemble.{product}

pub read_unsigned :
    (l : Leb) (rest : List ℕ)
    → IsReadable l
    → read_uleb128 (bytes l ++ rest) ≡ ok (unsigned l, rest)
read_unsigned l rest h = read_uleb128-leb_bytes l.first l.more rest h.groups h.short h.fits

pub read_signed :
    (l : Leb) (rest : List ℕ) → IsReadable l → read_sleb128 (bytes l ++ rest) ≡ ok (signed l, rest)
read_signed l rest h = read_sleb128-leb_bytes l.first l.more rest h.groups h.short h.fits

-- The argument of a packed opcode.
pub low_bits : (top k n : ℕ) → top ≡ 64 * k → n < 64 → top + n < 256 → bit_and (top + n) 0x3f ≡ n
low_bits top k n e h b = omega (arith, bit_and_0x3f (top + n) b)

pub top_bits : (top k n : ℕ) → top ≡ 64 * k → n < 64 → top + n < 256 → bit_and (top + n) 0xc0 ≡ top
top_bits top k n e h b = omega (arith, bit_and_0xc0 (top + n) b)

module _ (p : Params) (i : Instr) (rest : List ℕ) (reg_ok : IsReadable i.reg)
    (value_ok : IsReadable i.value) where
  pub register_only :
      (d : FrameOp)
      → Decode.uleb128_register_only d (bytes i.reg ++ rest)
        ≡ ok (Decode.with_register (unsigned i.reg) d, rest)
  unfolding Decode.uleb128_register_only
  register_only d = rw (read_unsigned i.reg rest reg_ok)

  pub offset_only :
      (d : FrameOp)
      → Decode.uleb128_offset_only d (bytes i.value ++ rest)
        ≡ ok (Decode.with_offset (unsigned i.value) d, rest)
  unfolding Decode.uleb128_offset_only
  offset_only d = rw (read_unsigned i.value rest value_ok)

  pub register_and_offset :
      (d : FrameOp)
      → Decode.uleb128_register_and_offset d ((bytes i.reg ++ bytes i.value) ++ rest)
        ≡ ok (Decode.with_offset (unsigned i.value) (Decode.with_register (unsigned i.reg) d), rest)
  unfolding Decode.uleb128_register_and_offset
  register_and_offset d = rw (
    append_assoc,
    read_unsigned i.reg (bytes i.value ++ rest) reg_ok,
    read_unsigned i.value rest value_ok,
  )

  pub register_and_factored_offset :
      (d : FrameOp)
      → fits_int64 p.data_alignment_factor ≡ true
      → Decode.uleb128_register_and_factored_offset p.data_alignment_factor d
          ((bytes i.reg ++ bytes i.value) ++ rest)
        ≡ ok (
          Decode.with_offset
              (product p (pos (unsigned i.value)))
              (Decode.with_register (unsigned i.reg) d),
          rest,
        )
  unfolding Decode.uleb128_register_and_factored_offset
  register_and_factored_offset d daf_ok = rw (
    append_assoc,
    read_unsigned i.reg (bytes i.value ++ rest) reg_ok,
    read_unsigned i.value rest value_ok,
    factored_lem p.data_alignment_factor (unsigned i.value) daf_ok,
  )

  pub register_sleb128_offset :
      (d : FrameOp)
      → fits_int64 (p.data_alignment_factor *ℤ signed i.value) ≡ true
      → Decode.uleb128_register_sleb128_offset p.data_alignment_factor d
          ((bytes i.reg ++ bytes i.value) ++ rest)
        ≡ ok (
          Decode.with_offset (product p (signed i.value)) (Decode.with_register (unsigned i.reg) d),
          rest,
        )
  unfolding Decode.uleb128_register_sleb128_offset
  register_sleb128_offset d fits = rw (
    append_assoc,
    read_unsigned i.reg (bytes i.value ++ rest) reg_ok,
    read_signed i.value rest value_ok,
    factored_sf_lem p.data_alignment_factor (signed i.value) fits,
  )

  pub sleb128_offset :
      (d : FrameOp)
      → fits_int64 (p.data_alignment_factor *ℤ signed i.value) ≡ true
      → Decode.sleb128_offset_only p.data_alignment_factor d (bytes i.value ++ rest)
        ≡ ok (Decode.with_offset (product p (signed i.value)) d, rest)
  unfolding Decode.sleb128_offset_only
  sleb128_offset d fits = rw (
    read_signed i.value rest value_ok,
    factored_sf_lem p.data_alignment_factor (signed i.value) fits,
  )

  pub expr_block :
      (d : FrameOp)
      → unsigned i.value ≡ length i.expr
      → Decode.block d ((bytes i.value ++ i.expr) ++ rest)
        ≡ ok (
          record (Decode.with_offset (unsigned i.value) d) { expr_block = some (i.expr ++ rest) },
          rest,
        )
  unfolding Decode.block
  expr_block d e =
      rw (append_assoc, read_unsigned i.value (i.expr ++ rest) value_ok)
        (rw (e, drop-length i.expr rest))

  pub register_and_expr_block :
      (d : FrameOp)
      → unsigned i.value ≡ length i.expr
      → Decode.register_and_block d ((bytes i.reg ++ (bytes i.value ++ i.expr)) ++ rest)
        ≡ ok (
          record (Decode.with_offset (unsigned i.value) (Decode.with_register (unsigned i.reg) d)) {
            expr_block = some (i.expr ++ rest);
          },
          rest,
        )
  unfolding Decode.register_and_block
  register_and_expr_block d e =
      rw (append_assoc, read_unsigned i.reg ((bytes i.value ++ i.expr) ++ rest) reg_ok)
        (expr_block (Decode.with_register (unsigned i.reg) d) e)

-- A fixed-width operand; the two tests of the byte order that frame.cpp makes agree.
module _ (host : Host) (order : Bool) (n : ℕ) (rest : List ℕ) where
  pub fixed_2byte :
      n < 2 ^ 16
      → (if xor host.host_is_big_endian order
          then read_2byte_le (address_bytes host 2 order n ++ rest)
          else read_2byte_be (address_bytes host 2 order n ++ rest))
        ≡ ok (n, rest)
  unfolding address_bytes xor
  fixed_2byte h = rw host.one_order (orders host.host_is_little_endian order)
    where
      orders :
          (l o : Bool)
          → (if xor (not l) o
              then read_2byte_le ((if xor l o then big_endian 2 n else little_endian 2 n) ++ rest)
              else read_2byte_be ((if xor l o then big_endian 2 n else little_endian 2 n) ++ rest))
            ≡ ok (n, rest)
      orders true true = read_2byte_le-little_endian n rest h
      orders true false = read_2byte_be-big_endian n rest h
      orders false true = read_2byte_be-big_endian n rest h
      orders false false = read_2byte_le-little_endian n rest h

  pub fixed_4byte :
      n < 2 ^ 32
      → (if xor host.host_is_big_endian order
          then read_4byte_le (address_bytes host 4 order n ++ rest)
          else read_4byte_be (address_bytes host 4 order n ++ rest))
        ≡ ok (n, rest)
  unfolding address_bytes xor
  fixed_4byte h = rw host.one_order (orders host.host_is_little_endian order)
    where
      orders :
          (l o : Bool)
          → (if xor (not l) o
              then read_4byte_le ((if xor l o then big_endian 4 n else little_endian 4 n) ++ rest)
              else read_4byte_be ((if xor l o then big_endian 4 n else little_endian 4 n) ++ rest))
            ≡ ok (n, rest)
      orders true true = read_4byte_le-little_endian n rest h
      orders true false = read_4byte_be-big_endian n rest h
      orders false true = read_4byte_be-big_endian n rest h
      orders false false = read_4byte_le-little_endian n rest h
