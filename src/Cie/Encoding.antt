-- ===== src/Cie/Encoding.antt =====
-- src/frame.cpp: FrameSection::read_with_encoding and encoding_nbytes.
use mathlib.Core.Bool.{xor}
use libdwarfpp.Base.{ℕ, ◌-◌, Bool, true, List, bit_and, length, ◌==◌, if◌then◌else◌}
use libdwarfpp.Base.{Outcome, ok, err, assertion, ◌>>=◌, ◌>>◌, guard}
use libdwarfpp.Base.Int.{to_word64}
use libdwarfpp.Reader.{Host, read_uleb128, read_sleb128}
use libdwarfpp.Reader.{
  read_2byte_le, read_4byte_le, read_8byte_le, read_2byte_be, read_4byte_be, read_8byte_be,
}

-- The cases of the switch on the low bits of an encoding.
pub data Format : Type 0 where
  absptr uleb128 udata2 udata4 udata8 signed sleb128 sdata2 sdata4 sdata8 unsupported : Format

unfoldable pub format_of : ℕ → Format
format_of n =
    if n == 0x00
    then Format.absptr
    else if n == 0x01
    then Format.uleb128
    else if n == 0x02
    then Format.udata2
    else if n == 0x03
    then Format.udata4
    else if n == 0x04
    then Format.udata8
    else if n == 0x08
    then Format.signed
    else if n == 0x09
    then Format.sleb128
    else if n == 0x0a
    then Format.sdata2
    else if n == 0x0b
    then Format.sdata4
    else if n == 0x0c
    then Format.sdata8
    else Format.unsupported

module _ (read_be : Bool) where
  -- (read_be ? read_2byte_be : read_2byte_le)(pos, limit), and so for 4 and 8.
  abbrev pub read_2byte : List ℕ → Outcome (ℕ × List ℕ)
  read_2byte pos = if read_be then read_2byte_be pos else read_2byte_le pos

  abbrev pub read_4byte : List ℕ → Outcome (ℕ × List ℕ)
  read_4byte pos = if read_be then read_4byte_be pos else read_4byte_le pos

  abbrev pub read_8byte : List ℕ → Outcome (ℕ × List ℕ)
  read_8byte pos = if read_be then read_8byte_be pos else read_8byte_le pos

  -- The gotos of the cases DW_EH_PE_absptr and 0x8.
  abbrev pub by_address_size : ℕ → List ℕ → Outcome (ℕ × List ℕ)
  by_address_size address_size pos =
      if address_size == 8
      then read_8byte pos
      else guard (address_size == 4) assertion >> read_4byte pos

  unfoldable pub read_format : Format → ℕ → List ℕ → Outcome (ℕ × List ℕ)
  read_format Format.absptr address_size pos = by_address_size address_size pos
  read_format Format.uleb128 address_size pos = read_uleb128 pos
  read_format Format.udata2 address_size pos = read_2byte pos
  read_format Format.udata4 address_size pos = read_4byte pos
  read_format Format.udata8 address_size pos = read_8byte pos
  read_format Format.signed address_size pos = by_address_size address_size pos
  read_format Format.sleb128 address_size pos = read_sleb128 pos >>= λ t. ok (to_word64 t.0, t.1)
  read_format Format.sdata2 address_size pos = read_2byte pos
  read_format Format.sdata4 address_size pos = read_4byte pos
  read_format Format.sdata8 address_size pos = read_8byte pos
  read_format Format.unsupported address_size pos = err assertion

unfoldable pub read_with_encoding : Host → ℕ → List ℕ → ℕ → Bool → Outcome (ℕ × List ℕ)
read_with_encoding host encoding pos address_size use_host_byte_order =
    if encoding == 0xff
    then ok (0, pos)
    else read_format (xor host.host_is_little_endian use_host_byte_order)
        (format_of (bit_and encoding 0x0f)) address_size pos

unfoldable pub encoding_nbytes : Host → ℕ → List ℕ → ℕ → Outcome ℕ
encoding_nbytes host encoding bytes address_size = if encoding == 0xff then ok 0 else (do
  (value, rest) ← read_with_encoding host encoding bytes address_size true
  ok (length bytes - length rest))
