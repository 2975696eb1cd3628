-- ===== src/Cie/Augmentation.antt =====
-- src/frame.cpp: Cie::init_augmentation_bytes, find_augmentation_element and what rests on them.
use libdwarfpp.Base.{
  ℕ, ◌+◌, Bool, false, not, ◌||◌, Option, none, some, List, [], ◌∷◌, ◌++◌, length, drop,
}
use libdwarfpp.Base.{
  ltb, ◌==◌, if◌then◌else◌, Outcome, ok, err, assertion, undefined, out_of_bounds, ◌>>=◌, ◌>>◌,
  guard,
}
use libdwarfpp.Reader.{read_uleb128, read_sleb128}
use libdwarfpp.Cie.{Cie}
use libdwarfpp.Cie.Encoding.{encoding_nbytes}

-- FrameSection::get_address_size; `machine` is 8 for EM_X86_64, 4 for EM_386, and none for others.
unfoldable pub section_address_size : Option ℕ → ℕ → Outcome ℕ
section_address_size machine version = do
  guard (version == 1 || version == 3) assertion
  elim machine [ none ↦ err assertion | some n ↦ ok n ]

-- Cie::get_address_size
unfoldable pub get_address_size : Option ℕ → Cie → Outcome ℕ
get_address_size machine cie =
    if ltb 0 cie.address_size_in_dwarf
    then ok cie.address_size_in_dwarf
    else section_address_size machine cie.version

-- The bytes of the element that a character of the augmentation string stands for: how many
-- `i_byte` moves on. `rest` is the bytes from `i_byte` on.
unfoldable pub element_nbytes : Option ℕ → Cie → ℕ → List ℕ → Outcome ℕ
element_nbytes machine cie char rest =
    if char == 0x4c
    then ok 1
    else if char == 0x52
    then ok 1
    else if char == 0x53
    then ok 0
    else if char == 0x50
    then elim rest [
      | [] ↦ err undefined
      | encoding ∷ pointer ↦ get_address_size machine cie >>= λ size.
          encoding_nbytes cie.host encoding pointer size >>= λ n. ok (1 + n)
    ]
    else err assertion

-- The loop of find_augmentation_element behind the leading 'z': the bytes from the element on, if it
-- is found.
unfoldable pub find_element : Option ℕ → Cie → ℕ → List ℕ → List ℕ → Outcome (Option (List ℕ))
find_element machine cie marker [] bytes = ok none
find_element machine cie marker (char ∷ chars) bytes =
    if marker == char
    then ok (some bytes)
    else element_nbytes machine cie char bytes
      >>= (λ n. find_element machine cie marker chars (drop n bytes))

-- Cie::find_augmentation_element; the end of the bytes, which stands for "not found", is `none`.
unfoldable pub find_augmentation_element : Option ℕ → Cie → ℕ → Outcome (Option (List ℕ))
find_augmentation_element machine cie marker = elim cie.augstring [
  | [] ↦ ok none
  | first ∷ chars ↦
      guard (first == 0x7a) assertion >> find_element machine cie marker chars cie.augbytes
]

-- Cie::get_fde_encoding: DW_EH_PE_absptr if there is none. The comparison of an iterator to the end
-- also takes an element behind the last byte for "not found".
unfoldable pub get_fde_encoding : Option ℕ → Cie → Outcome ℕ
get_fde_encoding machine cie = find_augmentation_element machine cie 0x52 >>= λ found. elim found [
  | none ↦ ok 0x00
  | some [] ↦ ok 0x00
  | some (b ∷ bs) ↦ ok b
]

abbrev pub read_byte : List ℕ → Outcome (ℕ × List ℕ)
read_byte [] = err out_of_bounds
read_byte (b ∷ bs) = ok (b, bs)

-- The return address register.
unfoldable pub skip_return_address : ℕ → List ℕ → Outcome (List ℕ)
skip_return_address version pos =
    if version == 1
    then read_byte pos >>= (λ t. ok t.1)
    else if version == 3
    then read_uleb128 pos >>= (λ t. ok t.1)
    else err assertion

abbrev pub begins_with_z : List ℕ → Bool
begins_with_z [] = false
begins_with_z (c ∷ cs) = c == 0x7a

-- Cie::init_augmentation_bytes: `pos` is the bytes behind the augmentation string, up to the
-- initial instructions.
unfoldable pub init_augmentation_bytes : Cie → List ℕ → Outcome Cie
init_augmentation_bytes cie pos = do
  (address_size, pos₁) ← if cie.version == 4 then read_byte pos else ok (0, pos)
  guard (not (cie.version == 4) || (address_size == 4 || address_size == 8)) assertion
  (segment_size, pos₂) ← if cie.version == 4 then read_byte pos₁ else ok (0, pos₁)
  (code_alignment, pos₃) ← read_uleb128 pos₂
  (data_alignment, pos₄) ← read_sleb128 pos₃
  pos₅ ← skip_return_address cie.version pos₄
  (expected_data_length, pos₆) ←
      if begins_with_z cie.augstring then read_uleb128 pos₅ else ok (0, pos₅)
  guard (length (cie.augbytes ++ pos₆) == expected_data_length) assertion
  ok (record cie {
    address_size_in_dwarf = address_size;
    segment_size_in_dwarf = segment_size;
    augbytes = cie.augbytes ++ pos₆;
  })
