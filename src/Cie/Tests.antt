-- ===== src/Cie/Tests.antt =====
-- src/frame.cpp: the augmentation "zPLR" as gcc writes it.
use libdwarfpp.Base.{
  ℕ, ◌<◌, ◌≡◌, refl, inl, arith, true, false, some, List, [], ◌∷◌, ◌++◌, ok, err, assertion, inr,
}
use mathlib.Core.Bool.{xor}
use libdwarfpp.Reader.{Host}
use libdwarfpp.Reader.Fixed.{address_bytes}
use libdwarfpp.Reader.Leb.{leb_value, leb_bytes}
use libdwarfpp.Frame.Assemble.{Leb, IsReadable}
use libdwarfpp.Cie.{Cie}
use libdwarfpp.Cie.Encoding.{read_with_encoding, encoding_nbytes, format_of}
use libdwarfpp.Cie.Pointers.{read_with_encoding-address_bytes, encoding_nbytes-address_bytes}
use libdwarfpp.Cie.Augmentation.{
  get_fde_encoding, init_augmentation_bytes, get_address_size, section_address_size,
}
use libdwarfpp.Cie.Elements.{Element, with_elements, get_fde_encoding_lem}
use libdwarfpp.Cie.Init.{head_bytes, init_augmentation_bytes_lem, init_augmentation_bytes_v4}

abbrev x86_64 : Host
x86_64 = record { host_is_little_endian = true; host_is_big_endian = false; one_order = refl }

abbrev cie : ℕ → Cie
cie version = record {
  host = x86_64;
  version = version;
  augstring = [];
  address_size_in_dwarf = 0;
  segment_size_in_dwarf = 0;
  augbytes = [];
}

-- The number -2 in two bytes, DW_EH_PE_pcrel | DW_EH_PE_sdata2.
read_with_encoding-address_bytes_example :
    read_with_encoding x86_64 0x1a (address_bytes x86_64 2 true 0xfffe ++ []) 8 true
    ≡ ok (0xfffe, [])
unfolding format_of
read_with_encoding-address_bytes_example =
    read_with_encoding-address_bytes x86_64 0x1a 8 2 0xfffe true [] refl refl (omega arith)

-- A personality routine at 0x401000, with an absolute pointer of 8 bytes.
abbrev routine : Element
routine = Element.personality 0x00 (0x00 ∷ 0x10 ∷ 0x40 ∷ 0 ∷ 0 ∷ 0 ∷ 0 ∷ 0 ∷ [])

routine_nbytes :
    (rest : List ℕ)
    → encoding_nbytes x86_64 0x00 ((0x00 ∷ 0x10 ∷ 0x40 ∷ 0 ∷ 0 ∷ 0 ∷ 0 ∷ 0 ∷ []) ++ rest) 8 ≡ ok 8
unfolding format_of address_bytes xor
routine_nbytes rest =
    encoding_nbytes-address_bytes x86_64 0x00 8 8 0x401000 rest refl (inl (refl, refl))
      (omega arith)

get_fde_encoding_lem_example :
    (get_fde_encoding
        (some 8)
        (with_elements (cie 1) (routine ∷ Element.lsda 0x03 ∷ Element.fde 0x1b ∷ []))
      ≡ ok 0x1b)
    × (get_fde_encoding (some 8) (with_elements (cie 1) (routine ∷ Element.lsda 0x03 ∷ []))
        ≡ ok 0x00)
unfolding get_address_size section_address_size
get_fde_encoding_lem_example =
    get_fde_encoding_lem (some 8) (cie 1) (routine ∷ Element.lsda 0x03 ∷ []) [] 0x1b
      ((8, refl, routine_nbytes), (tt, tt)) (refl, (refl, tt))

abbrev byte : ℕ → Leb
byte n = record { first = n; more = [] }

byte_ok : (n : ℕ) → n < 128 → IsReadable (byte n)
unfolding leb_value
byte_ok n h = record { groups = (h, tt); short = omega arith; fits = omega arith }

-- Code alignment 1, data alignment -8, return address in r16, one byte of augmentation.
init_augmentation_bytes_lem_example :
    init_augmentation_bytes
      (record (cie 1) { augstring = 0x7a ∷ 0x52 ∷ []; augbytes = [] })
      (head_bytes 1 (byte 1) (byte 0x78) (byte 16) (byte 1) (0x1b ∷ []))
    ≡ ok (record (cie 1) {
      augstring = 0x7a ∷ 0x52 ∷ [];
      augbytes = 0x1b ∷ [];
      address_size_in_dwarf = 0;
      segment_size_in_dwarf = 0;
    })
unfolding leb_value
init_augmentation_bytes_lem_example =
    init_augmentation_bytes_lem (cie 1) (byte 1) (byte 0x78) (byte 16) (byte 1) (0x52 ∷ [])
      (0x1b ∷ []) (inl refl) (byte_ok 1 (omega arith)) (byte_ok 0x78 (omega arith))
      (byte_ok 16 (omega arith)) (byte_ok 1 (omega arith)) refl

init_augmentation_bytes_v4_example :
    init_augmentation_bytes (cie 4) (8 ∷ 0 ∷ 1 ∷ 0x78 ∷ 16 ∷ []) ≡ err assertion
unfolding leb_bytes
init_augmentation_bytes_v4_example =
    init_augmentation_bytes_v4 (cie 4) 8 0 (byte 1) (byte 0x78) (16 ∷ []) refl (inr refl)
      (byte_ok 1 (omega arith)) (byte_ok 0x78 (omega arith))
