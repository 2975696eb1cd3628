-- ===== src/Cie/Pointers.antt =====
-- src/frame.cpp: encoded pointers of a fixed width, and their sizes.
use mathlib.Core.Bool.{xor}
use libdwarfpp.Base.{
  ℕ, zero, suc, ◌⊎◌, inl, inr, ◌/◌, ◌^◌, ◌<◌, ◌≡◌, refl, ap, arith, Bool, true, false, List, ◌++◌,
  bit_and, length, length-append,
}
use libdwarfpp.Base.{◌==◌, if◌then◌else◌, ok}
use libdwarfpp.Reader.{Host}
use libdwarfpp.Reader.Fixed.{address_bytes, little_endian, big_endian}
use libdwarfpp.Reader.Fixed.{
  read_2byte_le-little_endian, read_4byte_le-little_endian, read_8byte_le-little_endian,
}
use libdwarfpp.Reader.Fixed.{
  read_2byte_be-big_endian, read_4byte_be-big_endian, read_8byte_be-big_endian,
}
use libdwarfpp.Cie.Encoding.{
  Format, format_of, read_2byte, read_4byte, read_8byte, by_address_size, read_format,
  read_with_encoding, encoding_nbytes,
}

-- A format has a width of `n` bytes, for addresses of `size` bytes. The two LEB128 formats have none.
abbrev pub HasWidth : Format → ℕ → ℕ → Type 0
HasWidth Format.absptr size n = ((size ≡ 8) × (n ≡ 8)) ⊎ ((size ≡ 4) × (n ≡ 4))
HasWidth Format.signed size n = ((size ≡ 8) × (n ≡ 8)) ⊎ ((size ≡ 4) × (n ≡ 4))
HasWidth Format.udata2 size n = n ≡ 2
HasWidth Format.sdata2 size n = n ≡ 2
HasWidth Format.udata4 size n = n ≡ 4
HasWidth Format.sdata4 size n = n ≡ 4
HasWidth Format.udata8 size n = n ≡ 8
HasWidth Format.sdata8 size n = n ≡ 8
HasWidth _ size n = ⊥

-- A number in the order that `read_be` tells.
abbrev pub in_order : Bool → ℕ → ℕ → List ℕ
in_order read_be n v = if read_be then big_endian n v else little_endian n v

module _ (v : ℕ) (rest : List ℕ) where
  two : (be : Bool) → v < 2 ^ 16 → read_2byte be (in_order be 2 v ++ rest) ≡ ok (v, rest)
  two true h = read_2byte_be-big_endian v rest h
  two false h = read_2byte_le-little_endian v rest h

  four : (be : Bool) → v < 2 ^ 32 → read_4byte be (in_order be 4 v ++ rest) ≡ ok (v, rest)
  four true h = read_4byte_be-big_endian v rest h
  four false h = read_4byte_le-little_endian v rest h

  eight : (be : Bool) → v < 2 ^ 64 → read_8byte be (in_order be 8 v ++ rest) ≡ ok (v, rest)
  eight true h = read_8byte_be-big_endian v rest h
  eight false h = read_8byte_le-little_endian v rest h

  by_size :
      (be : Bool) (size n : ℕ)
      → ((size ≡ 8) × (n ≡ 8)) ⊎ ((size ≡ 4) × (n ≡ 4))
      → v < 256 ^ n
      → by_address_size be size (in_order be n v ++ rest) ≡ ok (v, rest)
  by_size be size n (inl (s, e)) h = rw (s, e) (eight be (rw e at h))
  by_size be size n (inr (s, e)) h = rw (s, e) (four be (rw e at h))

  read_format-in_order :
      (be : Bool) (f : Format) (size n : ℕ)
      → HasWidth f size n
      → v < 256 ^ n
      → read_format be f size (in_order be n v ++ rest) ≡ ok (v, rest)
  unfolding read_format
  read_format-in_order be Format.absptr size n e h = by_size be size n e h
  read_format-in_order be Format.signed size n e h = by_size be size n e h
  read_format-in_order be Format.udata2 size n e h = rw e (two be (rw e at h))
  read_format-in_order be Format.sdata2 size n e h = rw e (two be (rw e at h))
  read_format-in_order be Format.udata4 size n e h = rw e (four be (rw e at h))
  read_format-in_order be Format.sdata4 size n e h = rw e (four be (rw e at h))
  read_format-in_order be Format.udata8 size n e h = rw e (eight be (rw e at h))
  read_format-in_order be Format.sdata8 size n e h = rw e (eight be (rw e at h))
  read_format-in_order be Format.uleb128 size n e h = absurd e
  read_format-in_order be Format.sleb128 size n e h = absurd e
  read_format-in_order be Format.unsupported size n e h = absurd e

length-little_endian : (n v : ℕ) → length (little_endian n v) ≡ n
length-little_endian zero v = refl
length-little_endian (suc n) v = omega (arith, length-little_endian n (v / 256))

length-big_endian : (n v : ℕ) → length (big_endian n v) ≡ n
length-big_endian zero v = refl
length-big_endian (suc n) v = omega (arith, length-big_endian n v)

length-in_order : (be : Bool) (n v : ℕ) → length (in_order be n v) ≡ n
length-in_order true n v = length-big_endian n v
length-in_order false n v = length-little_endian n v

pub length-address_bytes : (host : Host) (n v : ℕ) → length (address_bytes host n true v) ≡ n
unfolding address_bytes
length-address_bytes host n v = length-in_order (xor host.host_is_little_endian true) n v

-- A pointer in a format of a fixed width is read as the unsigned number that its bytes are, in either
-- byte order, the formats sdata2 and sdata4 and the signed one included: no sign is extended.
pub read_with_encoding-address_bytes :
    (host : Host) (encoding size n v : ℕ) (use_host_byte_order : Bool) (rest : List ℕ)
    → (encoding == 0xff) ≡ false
    → HasWidth (format_of (bit_and encoding 0x0f)) size n
    → v < 256 ^ n
    → read_with_encoding host encoding
        (address_bytes host n use_host_byte_order v ++ rest)
        size
        use_host_byte_order
      ≡ ok (v, rest)
unfolding read_with_encoding address_bytes
read_with_encoding-address_bytes host encoding size n v order rest he hw hv = rw he (
    read_format-in_order v rest (xor host.host_is_little_endian order)
      (format_of (bit_and encoding 0x0f)) size n hw hv)

-- The size of a pointer in a format of a fixed width is this width, whatever stands behind it.
pub encoding_nbytes-address_bytes :
    (host : Host) (encoding size n v : ℕ) (rest : List ℕ)
    → (encoding == 0xff) ≡ false
    → HasWidth (format_of (bit_and encoding 0x0f)) size n
    → v < 256 ^ n
    → encoding_nbytes host encoding (address_bytes host n true v ++ rest) size ≡ ok n
unfolding encoding_nbytes
encoding_nbytes-address_bytes host encoding size n v rest he hw hv =
    let bytes : List ℕ = address_bytes host n true v in
    let long : length bytes ≡ n = length-address_bytes host n v in
    rw (he, read_with_encoding-address_bytes host encoding size n v true rest he hw hv)
      (ap (λ (k : ℕ). ok k) (omega (arith, long, length-append bytes rest)))
