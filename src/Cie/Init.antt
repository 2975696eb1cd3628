-- ===== src/Cie/Init.antt =====
-- src/frame.cpp: Cie::init_augmentation_bytes on the bytes of a CIE.
use libdwarfpp.Base.{ℕ, ◌≡◌, refl, arith, true, false, ◌==◌, if◌then◌else◌, ◌||◌}
use libdwarfpp.Base.{List, [], ◌∷◌, ◌++◌, length}
use libdwarfpp.Base.{ok, err, assertion, inl, inr, ◌⊎◌}
use libdwarfpp.Frame.Assemble.{Leb, IsReadable, bytes, unsigned}
use libdwarfpp.Frame.Operands.{read_unsigned, read_signed}
use libdwarfpp.Cie.{Cie}
use libdwarfpp.Cie.Augmentation.{skip_return_address, init_augmentation_bytes}

-- The operands in front of the augmentation data, and the data.
abbrev pub head_bytes : ℕ → Leb → Leb → Leb → Leb → List ℕ → List ℕ
head_bytes version code_alignment data_alignment ra len aug =
    bytes code_alignment
    ++ (bytes data_alignment
        ++ ((if version == 1 then ra.first ∷ [] else bytes ra) ++ (bytes len ++ aug)))

skip_return_address_lem :
    (version : ℕ) (ra : Leb) (rest : List ℕ)
    → (version ≡ 1) ⊎ (version ≡ 3)
    → IsReadable ra
    → skip_return_address version ((if version == 1 then ra.first ∷ [] else bytes ra) ++ rest)
      ≡ ok rest
unfolding skip_return_address
skip_return_address_lem version ra rest (inl e) h = rw e refl
skip_return_address_lem version ra rest (inr e) h = rw e (rw (read_unsigned ra rest h) refl)

-- In a CIE of version 1 or 3 with a 'z', the augmentation bytes are those behind the alignment factors,
-- the return address register and the length, if the length is theirs; the numbers are readable.
pub init_augmentation_bytes_lem :
    (cie : Cie) (code_alignment data_alignment ra len : Leb) (chars aug : List ℕ)
    → (cie.version ≡ 1) ⊎ (cie.version ≡ 3)
    → IsReadable code_alignment
    → IsReadable data_alignment
    → IsReadable ra
    → IsReadable len
    → unsigned len ≡ length aug
    → init_augmentation_bytes
        (record cie { augstring = 0x7a ∷ chars; augbytes = [] })
        (head_bytes cie.version code_alignment data_alignment ra len aug)
      ≡ ok (record cie {
        augstring = 0x7a ∷ chars;
        augbytes = aug;
        address_size_in_dwarf = 0;
        segment_size_in_dwarf = 0;
      })
unfolding init_augmentation_bytes
init_augmentation_bytes_lem cie ca da ra len chars aug hv hca hda hra hlen e =
    let old : (cie.version == 4) ≡ false = ground arith in
    let same : (length aug == unsigned len) ≡ true = ground arith in
    rw
      (
        old,
        read_unsigned ca _ hca,
        read_signed da _ hda,
        skip_return_address_lem cie.version ra (bytes len ++ aug) hv hra,
        read_unsigned len aug hlen,
        same,
      )
      refl

skip_return_address_v4 :
    (version : ℕ) (pos : List ℕ) → version ≡ 4 → skip_return_address version pos ≡ err assertion
unfolding skip_return_address
skip_return_address_v4 version pos h = rw h refl

-- A CIE of version 4, whose address size is 4 or 8 and whose alignment factors are readable, fails an
-- assertion: that in the case for its return address register, whatever the bytes behind are.
pub init_augmentation_bytes_v4 :
    (cie : Cie) (address_size segment_size : ℕ) (code_alignment data_alignment : Leb)
    (rest : List ℕ)
    → cie.version ≡ 4
    → (address_size ≡ 4) ⊎ (address_size ≡ 8)
    → IsReadable code_alignment
    → IsReadable data_alignment
    → init_augmentation_bytes cie
        (address_size ∷ segment_size ∷ (bytes code_alignment ++ (bytes data_alignment ++ rest)))
      ≡ err assertion
unfolding init_augmentation_bytes
init_augmentation_bytes_v4 cie address_size segment_size ca da rest h size hca hda =
    let four : (cie.version == 4) ≡ true = ground arith in
    let sized : (address_size == 4 || address_size == 8) ≡ true = ground arith in
    rw
      (
        four,
        sized,
        read_unsigned ca _ hca,
        read_signed da _ hda,
        skip_return_address_v4 cie.version rest h,
      )
      refl
