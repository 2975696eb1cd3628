-- ===== src/Reader/Tests.antt =====
-- src/frame.cpp: the byte readers on the examples of the DWARF standard.
use libdwarfpp.Base.{◌≡◌, refl, ◌∷◌, [], inr, true, false, arith, ok, err, undefined, assertion}
use libdwarfpp.Base.Int.{negsuc}
use mathlib.Core.Bool.{xor}
use libdwarfpp.Reader.{
  Host, read_uleb128, read_sleb128, uleb_loop, shl_int, read_addr, read_4byte_be, read_4byte_le,
}
use libdwarfpp.Reader.Leb.{
  leb_bytes, leb_value, leb_signed, read_uleb128-leb_bytes, read_uleb128_long,
  read_sleb128-leb_bytes,
}
use libdwarfpp.Reader.Fixed.{address_bytes, read_addr-address_bytes}

abbrev x86_64 : Host
x86_64 = record { host_is_little_endian = true; host_is_big_endian = false; one_order = refl }

uleb_12857 : read_uleb128 (0xb9 ∷ 0x64 ∷ 7 ∷ []) ≡ ok (12857, 7 ∷ [])
unfolding read_uleb128 uleb_loop shl_int
uleb_12857 = refl

sleb_minus_129 : read_sleb128 (0xff ∷ 0x7e ∷ []) ≡ ok (negsuc 128, [])
unfolding read_sleb128 read_uleb128 uleb_loop shl_int
sleb_minus_129 = refl

-- A number from 2 ^ 31 on gets the sign bits of an int.
uleb_sign : read_uleb128 (0x80 ∷ 0x80 ∷ 0x80 ∷ 0x80 ∷ 0x08 ∷ []) ≡ ok (0xffffffff80000000, [])
unfolding read_uleb128 uleb_loop shl_int
uleb_sign = refl

uleb_short : read_uleb128 (0x80 ∷ []) ≡ err assertion
unfolding read_uleb128 uleb_loop shl_int
uleb_short = refl

big_and_little :
    (read_4byte_be (1 ∷ 2 ∷ 3 ∷ 4 ∷ []) ≡ ok (0x01020304, []))
    × (read_4byte_le (1 ∷ 2 ∷ 3 ∷ 4 ∷ []) ≡ ok (0x04030201, []))
unfolding read_4byte_be read_4byte_le
big_and_little = (refl, refl)

read_uleb128-leb_bytes_example : read_uleb128 (0xb9 ∷ 0x64 ∷ 7 ∷ []) ≡ ok (12857, 7 ∷ [])
unfolding leb_bytes leb_value
read_uleb128-leb_bytes_example =
    read_uleb128-leb_bytes 57 (100 ∷ []) (7 ∷ []) (omega arith, (omega arith, tt)) (omega arith)
      (omega arith)

read_sleb128-leb_bytes_example : read_sleb128 (0xff ∷ 0x7e ∷ 7 ∷ []) ≡ ok (negsuc 128, 7 ∷ [])
unfolding leb_bytes leb_value leb_signed
read_sleb128-leb_bytes_example =
    read_sleb128-leb_bytes 127 (126 ∷ []) (7 ∷ []) (omega arith, (omega arith, tt)) (omega arith)
      (omega arith)

-- The number 1, padded to six bytes.
read_uleb128_long_example :
    read_uleb128 (0x81 ∷ 0x80 ∷ 0x80 ∷ 0x80 ∷ 0x80 ∷ 0 ∷ 7 ∷ []) ≡ err undefined
unfolding leb_bytes
read_uleb128_long_example =
    read_uleb128_long 1 (0 ∷ 0 ∷ 0 ∷ 0 ∷ 0 ∷ []) (7 ∷ [])
      (omega arith, (omega arith, (omega arith, (omega arith, (omega arith, (omega arith, tt))))))
      (omega arith)

read_addr-address_bytes_example :
    read_addr x86_64 8 (0x10 ∷ 0x20 ∷ 0x40 ∷ 0 ∷ 0 ∷ 0 ∷ 0 ∷ 0 ∷ 7 ∷ []) true
    ≡ ok (0x402010, 7 ∷ [])
unfolding address_bytes xor
read_addr-address_bytes_example =
    read_addr-address_bytes x86_64 8 true 0x402010 (7 ∷ []) (inr refl) (omega arith)
