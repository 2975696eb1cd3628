-- ===== src/Cie/Fde.antt =====
-- src/frame.cpp: Fde::init_augmentation_bytes and Fde::get_lsda_pointer.
use libdwarfpp.Base.{
  ℕ, ◌^◌, ◌<◌, ◌≡◌, refl, arith, sym, ap, ◌∙◌, Bool, true, false, Option, none, some, List, [], ◌∷◌,
  ◌++◌,
}
use libdwarfpp.Base.{
  length, length-append, drop, drop-length, ◌==◌, ltb, ==_refl, if◌then◌else◌, bit_and,
}
use libdwarfpp.Base.{Outcome, ok, err, assertion, undefined, ◌>>=◌, ◌>>◌, guard}
use libdwarfpp.Reader.{read_uleb128}
use libdwarfpp.Reader.Fixed.{address_bytes}
use libdwarfpp.Frame.Assemble.{Leb, IsReadable, bytes, unsigned}
use libdwarfpp.Frame.Operands.{read_unsigned}
use libdwarfpp.Cie.{Cie}
use libdwarfpp.Cie.Encoding.{read_with_encoding, encoding_nbytes, format_of}
use libdwarfpp.Cie.Augmentation.{
  get_address_size, get_fde_encoding, find_augmentation_element, begins_with_z,
}
use libdwarfpp.Cie.Pointers.{
  HasWidth, read_with_encoding-address_bytes, encoding_nbytes-address_bytes, length-address_bytes,
}

-- The augmentation bytes of an FDE: `fde_bytes` is its bytes up to its instructions, and `augbytes`
-- what the vector holds before.
unfoldable pub init_fde_augmentation :
    Option ℕ → Cie → Bool → ℕ → List ℕ → List ℕ → Outcome (List ℕ)
init_fde_augmentation machine cie is_64bit func_length fde_bytes augbytes = do
  guard (ltb 0 (length fde_bytes)) assertion
  encoding ← get_fde_encoding machine cie
  address_size ← get_address_size machine cie
  let pos = drop (if is_64bit then 16 else 8) fde_bytes
  startaddr_encoded_nbytes ← encoding_nbytes cie.host encoding pos address_size
  (fde_length, pos₁) ←
      read_with_encoding cie.host encoding (drop startaddr_encoded_nbytes pos) address_size true
  guard (fde_length == func_length) assertion
  (augmentation_length, pos₂) ←
      if begins_with_z cie.augstring then read_uleb128 pos₁ else ok (0, pos₁)
  guard (length (augbytes ++ pos₂) == augmentation_length) assertion
  ok (augbytes ++ pos₂)

-- Fde::get_lsda_pointer. Without an element for it, the source reads through a null pointer.
unfoldable pub get_lsda_pointer : Option ℕ → Cie → List ℕ → Outcome ℕ
get_lsda_pointer machine cie augbytes = do
  found_lsda ← find_augmentation_element machine cie 0x4c
  elim augbytes [
    | [] ↦ ok 0
    | first ∷ more ↦ elim found_lsda [
      | none ↦ err undefined
      | some [] ↦ err undefined
      | some (encoding ∷ rest) ↦ get_address_size machine cie >>= λ size.
          read_with_encoding cie.host encoding (first ∷ more) size true >>= λ t. ok t.0
    ]
  ]

module _ (machine : Option ℕ) (cie : Cie) (encoding size n : ℕ) where
  -- The FDE encoding is a fixed width, and the address size is known.
  abbrev pub IsFixed : Type 0
  IsFixed =
      (get_fde_encoding machine cie ≡ ok encoding)
      × (get_address_size machine cie ≡ ok size)
      × ((encoding == 0xff) ≡ false)
      × HasWidth (format_of (bit_and encoding 0x0f)) size n

  -- Behind the header of an FDE, its start and its length in the FDE encoding, and the length of the
  -- augmentation, the augmentation bytes are what is left, if the two lengths are right.
  pub init_fde_augmentation_lem :
      (header : List ℕ) (start len : ℕ) (aug_len : Leb) (aug : List ℕ)
      → IsFixed
      → begins_with_z cie.augstring ≡ true
      → length header ≡ 8
      → start < 256 ^ n
      → len < 256 ^ n
      → IsReadable aug_len
      → unsigned aug_len ≡ length aug
      → init_fde_augmentation machine cie false len
          (header
            ++ (address_bytes cie.host n true start
                ++ (address_bytes cie.host n true len ++ (bytes aug_len ++ aug))))
          []
        ≡ ok aug
  unfolding init_fde_augmentation
  init_fde_augmentation_lem header start len aug_len aug (he, hs, hff, hw) hz hh hstart hlen hr e =
      let fields : List ℕ = address_bytes cie.host n true len ++ (bytes aug_len ++ aug) in
      let first : List ℕ = address_bytes cie.host n true start in
      let body : drop 8 (header ++ (first ++ fields)) ≡ first ++ fields =
        ap (λ (k : ℕ). drop k (header ++ (first ++ fields))) (sym hh)
        ∙ drop-length header (first ++ fields) in
      let second : drop n (first ++ fields) ≡ fields =
        ap (λ (k : ℕ). drop k (first ++ fields)) (sym (length-address_bytes cie.host n start))
        ∙ drop-length first fields in
      let long : ltb 0 (length (header ++ (first ++ fields))) ≡ true =
        ground (arith, length-append header (first ++ fields), hh) in
      rw
        (
          long,
          he,
          hs,
          body,
          encoding_nbytes-address_bytes cie.host encoding size n start fields hff hw hstart,
          second,
          read_with_encoding-address_bytes cie.host encoding size n len true (bytes aug_len ++ aug)
              hff hw hlen,
          ==_refl len,
          hz,
          read_unsigned aug_len aug hr,
          e,
          ==_refl (length aug),
        )
        refl
