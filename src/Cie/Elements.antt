-- ===== src/Cie/Elements.antt =====
-- src/frame.cpp: an augmentation that is made of elements, and how its elements are found.
use libdwarfpp.Base.{ℕ, ◌≡◌, refl, ap, ◌∙◌, arith, false, ◌==◌, ==_refl}
use libdwarfpp.Base.{Option, none, some, List, [], ◌∷◌, ◌++◌, All, length, drop-length}
use libdwarfpp.Base.{ok}
use libdwarfpp.Cie.{Cie}
use libdwarfpp.Cie.Encoding.{encoding_nbytes}
use libdwarfpp.Cie.Augmentation.{
  get_address_size, element_nbytes, find_element, find_augmentation_element,
}
use libdwarfpp.Cie.Augmentation.{get_fde_encoding}

-- The elements that follow the 'z': an LSDA encoding, an FDE encoding, a mark for signal frames, and a
-- personality routine with its encoding and its pointer.
pub data Element : Type 0 where
  lsda fde : ℕ → Element
  signal : Element
  personality : ℕ → List ℕ → Element

abbrev pub char_of : Element → ℕ
char_of (Element.lsda b) = 0x4c
char_of (Element.fde b) = 0x52
char_of Element.signal = 0x53
char_of (Element.personality e p) = 0x50

abbrev pub element_bytes : Element → List ℕ
element_bytes (Element.lsda b) = b ∷ []
element_bytes (Element.fde b) = b ∷ []
element_bytes Element.signal = []
element_bytes (Element.personality e p) = e ∷ p

unfoldable pub chars_of : List Element → List ℕ
chars_of [] = []
chars_of (x ∷ xs) = char_of x ∷ chars_of xs

unfoldable pub data_of : List Element → List ℕ
data_of [] = []
data_of (x ∷ xs) = element_bytes x ++ data_of xs

module _ (machine : Option ℕ) (cie : Cie) where
  -- The pointer of a personality routine has the size that its encoding tells, whatever follows it.
  abbrev pub IsElement : Element → Type 0
  IsElement (Element.personality e p) =
      (size : ℕ) × (get_address_size machine cie ≡ ok size)
      × ((rest : List ℕ) → encoding_nbytes cie.host e (p ++ rest) size ≡ ok (length p))
  IsElement _ = Unit {0}

  element_nbytes_lem :
      (x : Element) (rest : List ℕ)
      → IsElement x
      → element_nbytes machine cie (char_of x) (element_bytes x ++ rest)
        ≡ ok (length (element_bytes x))
  unfolding element_nbytes
  element_nbytes_lem (Element.lsda b) rest h = refl
  element_nbytes_lem (Element.fde b) rest h = refl
  element_nbytes_lem Element.signal rest h = refl
  element_nbytes_lem (Element.personality e p) rest (size, hs, hp) =
      rw (hs, hp rest) (ap (λ (n : ℕ). ok n) (omega arith))

  skip_element :
      (marker : ℕ) (y : Element) (chars rest : List ℕ)
      → IsElement y
      → (marker == char_of y) ≡ false
      → find_element machine cie marker (char_of y ∷ chars) (element_bytes y ++ rest)
        ≡ find_element machine cie marker chars rest
  unfolding find_element
  skip_element marker y chars rest h hm =
      rw (hm, find_element)
        (rw (element_nbytes_lem y rest h) (
          ap (λ (t : List ℕ). find_element machine cie marker chars t)
            (drop-length (element_bytes y) rest)))

  find_element_at :
      (front back : List Element) (x : Element)
      → All IsElement front
      → All (λ y. (char_of x == char_of y) ≡ false) front
      → find_element machine cie
          (char_of x)
          (chars_of (front ++ x ∷ back))
          (data_of (front ++ x ∷ back))
        ≡ ok (some (data_of (x ∷ back)))
  unfolding find_element chars_of data_of
  find_element_at [] back x h hn = rw (==_refl (char_of x)) refl
  find_element_at (y ∷ front) back x (h, hs) (hy, hn) =
      skip_element (char_of x) y (chars_of (front ++ x ∷ back)) (data_of (front ++ x ∷ back)) h hy
      ∙ find_element_at front back x hs hn

  find_element_absent :
      (marker : ℕ) (els : List Element)
      → All IsElement els
      → All (λ y. (marker == char_of y) ≡ false) els
      → find_element machine cie marker (chars_of els) (data_of els) ≡ ok none
  unfolding find_element chars_of data_of
  find_element_absent marker [] h hn = refl
  find_element_absent marker (y ∷ els) (h, hs) (hy, hn) =
      skip_element marker y (chars_of els) (data_of els) h hy ∙ find_element_absent marker els hs hn

-- A CIE with a 'z', and elements behind it.
abbrev pub with_elements : Cie → List Element → Cie
with_elements cie els = record cie { augstring = 0x7a ∷ chars_of els; augbytes = data_of els }

-- The FDE encoding is that of the first element for it, whatever stands in front of it and behind it;
-- without such an element, it is DW_EH_PE_absptr.
pub get_fde_encoding_lem :
    (machine : Option ℕ) (cie : Cie) (front back : List Element) (b : ℕ)
    → All (IsElement machine cie) front
    → All (λ y. (0x52 == char_of y) ≡ false) front
    → (get_fde_encoding machine (with_elements cie (front ++ Element.fde b ∷ back)) ≡ ok b)
      × (get_fde_encoding machine (with_elements cie front) ≡ ok 0x00)
unfolding get_fde_encoding find_augmentation_element data_of get_address_size
get_fde_encoding_lem machine cie front back b h hn = (
  rw
      (find_element_at machine (with_elements cie (front ++ Element.fde b ∷ back)) front back
        (Element.fde b) (same (front ++ Element.fde b ∷ back) front h) hn)
      refl,
  rw (find_element_absent machine (with_elements cie front) 0x52 front (same front front h) hn)
      refl,
)
  where
    same :
        (els xs : List Element)
        → All (IsElement machine cie) xs
        → All (IsElement machine (with_elements cie els)) xs
    same els [] h = tt
    same els (Element.lsda b ∷ xs) (h, hs) = (tt, same els xs hs)
    same els (Element.fde b ∷ xs) (h, hs) = (tt, same els xs hs)
    same els (Element.signal ∷ xs) (h, hs) = (tt, same els xs hs)
    same els (Element.personality e p ∷ xs) (h, hs) = (h, same els xs hs)
