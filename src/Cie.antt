-- ===== src/Cie.antt =====
-- src/frame.cpp: the augmentation of a CIE, and the encoded pointers of .eh_frame.
pub mod Encoding
pub mod Augmentation
pub mod Pointers
pub mod Elements
pub mod Init
pub mod Fde
pub mod HdrTable
mod Tests
mod FdeTests
use libdwarfpp.Base.{ℕ, List}
use libdwarfpp.Reader.{Host}

-- The parts of a Cie that its augmentation rests on. `augstring` is the characters of the augmentation
-- string.
pub record Cie : Type 0 where
  pub host : Host
  pub version : ℕ
  pub augstring : List ℕ
  pub address_size_in_dwarf : ℕ
  pub segment_size_in_dwarf : ℕ
  pub augbytes : List ℕ
