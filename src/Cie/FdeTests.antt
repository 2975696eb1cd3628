-- ===== src/Cie/FdeTests.antt =====
-- src/frame.cpp and include/dwarfpp/frame.hpp: an FDE with an empty augmentation, and a search table.
use libdwarfpp.Base.{ℕ, ◌+◌, ◌%◌, ◌^◌, ◌≡◌, refl, arith, true, false, some, List, [], ◌∷◌, ◌++◌, ok}
use libdwarfpp.Base.Int.{negsuc, to_word64}
use libdwarfpp.Reader.{Host}
use libdwarfpp.Reader.Fixed.{address_bytes}
use libdwarfpp.Reader.Leb.{leb_value}
use libdwarfpp.Frame.Assemble.{Leb, IsReadable, bytes}
use libdwarfpp.Cie.{Cie}
use libdwarfpp.Cie.Encoding.{format_of}
use libdwarfpp.Cie.Augmentation.{
  get_fde_encoding, find_augmentation_element, find_element, get_address_size, section_address_size,
}
use libdwarfpp.Cie.Fde.{init_fde_augmentation, init_fde_augmentation_lem}
use libdwarfpp.Cie.HdrTable.{HdrTable, dereference, table_bytes, dereference_datarel}

abbrev x86_64 : Host
x86_64 = record { host_is_little_endian = true; host_is_big_endian = false; one_order = refl }

-- "zR", with the encoding pcrel | sdata4
abbrev cie : Cie
cie = record {
  host = x86_64;
  version = 1;
  augstring = 0x7a ∷ 0x52 ∷ [];
  address_size_in_dwarf = 0;
  segment_size_in_dwarf = 0;
  augbytes = 0x1b ∷ [];
}

abbrev no_augmentation : Leb
no_augmentation = record { first = 0; more = [] }

no_augmentation_ok : IsReadable no_augmentation
unfolding leb_value
no_augmentation_ok = record { groups = (omega arith, tt); short = omega arith; fits = omega arith }

abbrev header : List ℕ
header = 0x14 ∷ 0 ∷ 0 ∷ 0 ∷ 0x1c ∷ 0 ∷ 0 ∷ 0 ∷ []

init_fde_augmentation_lem_example :
    init_fde_augmentation
      (some 8)
      cie
      false
      0x20
      (header
        ++ (address_bytes x86_64 4 true 0xfffff000
            ++ (address_bytes x86_64 4 true 0x20 ++ (bytes no_augmentation ++ []))))
      []
    ≡ ok []
unfolding leb_value get_fde_encoding find_augmentation_element find_element get_address_size
    section_address_size format_of
init_fde_augmentation_lem_example =
    init_fde_augmentation_lem (some 8) cie 0x1b 8 4 header 0xfffff000 0x20 no_augmentation []
      (refl, refl, refl, refl) refl refl (omega arith) (omega arith) no_augmentation_ok refl

-- Two functions, before and behind the header.
abbrev entries : List (ℕ × ℕ)
entries = (0xfffff000, 0x40) ∷ (0x100, 0x60) ∷ []

abbrev table : HdrTable
table = record {
  host = x86_64;
  hdr_tbl = table_bytes x86_64 4 entries;
  hdr_tbl_encoding = 0x3b;
  hdr_tbl_encoded_value_size = 4;
  hdr_vaddr = 0x402000;
  address_size = 8;
}

dereference_datarel_example :
    dereference table 0 ≡ ok ((0x402000 + to_word64 (negsuc 0xfff)) % 2 ^ 64, 0x40)
unfolding format_of
dereference_datarel_example =
    dereference_datarel table 0xfffff000 0x40 (negsuc 0xfff) [] ((0x100, 0x60) ∷ []) refl
      (refl, refl, refl, refl) refl refl (omega arith)
