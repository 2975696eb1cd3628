-- ===== src/Reader/Fixed.antt =====
-- src/frame.cpp: the fixed-width readers of both byte orders, and read_addr.
use mathlib.Core.Bool.{xor}
use libdwarfpp.Base.{
  ℕ, zero, suc, ◌+◌, ◌*◌, ◌/◌, ◌%◌, ◌^◌, ◌<◌, ◌≡◌, refl, ap, ◌⊎◌, inl, inr, arith,
}
use libdwarfpp.Base.{Bool, List, [], ◌∷◌, ◌++◌, if◌then◌else◌, Bool-cases, ok}
use libdwarfpp.Base.Bits.{bit_or-shl, bit_or-high}
use libdwarfpp.Reader.{Host, read_addr}
use libdwarfpp.Reader.{read_2byte_le, read_4byte_le, read_8byte_le}
use libdwarfpp.Reader.{read_2byte_be, read_4byte_be, read_8byte_be}

-- The `k` low bytes of a number, the lowest first or the highest first.
abbrev pub little_endian : ℕ → ℕ → List ℕ
little_endian zero n = []
little_endian (suc k) n = (n % 256) ∷ little_endian k (n / 256)

abbrev pub big_endian : ℕ → ℕ → List ℕ
big_endian zero n = []
big_endian (suc k) n = (n / 256 ^ k % 256) ∷ big_endian k n

module _ (n : ℕ) (rest : List ℕ) where
  pub read_2byte_le-little_endian :
      n < 2 ^ 16 → read_2byte_le (little_endian 2 n ++ rest) ≡ ok (n, rest)
  unfolding read_2byte_le
  read_2byte_le-little_endian h = ground (arith, bit_or-shl 8 (n % 256) (n / 256 % 256))

  pub read_4byte_le-little_endian :
      n < 2 ^ 32 → read_4byte_le (little_endian 4 n ++ rest) ≡ ok (n, rest)
  unfolding read_4byte_le
  read_4byte_le-little_endian h =
      let b0 : ℕ = n % 256 in
      let b1 : ℕ = n / 256 % 256 in
      let b2 : ℕ = n / 256 / 256 % 256 in
      let b3 : ℕ = n / 256 / 256 / 256 % 256 in
      rw
        (
          bit_or-shl 8 b0 b1 (omega arith),
          bit_or-shl 16 (b0 + b1 * 2 ^ 8) b2 (omega arith),
          bit_or-shl 24 (b0 + b1 * 2 ^ 8 + b2 * 2 ^ 16) b3 (omega arith),
        )
        (ap (λ (m : ℕ). ok (m, rest)) (omega arith))

  pub read_8byte_le-little_endian :
      n < 2 ^ 64 → read_8byte_le (little_endian 8 n ++ rest) ≡ ok (n, rest)
  unfolding read_8byte_le
  read_8byte_le-little_endian h =
      let q1 : ℕ = n / 256 in
      let q2 : ℕ = q1 / 256 in
      let q3 : ℕ = q2 / 256 in
      let q4 : ℕ = q3 / 256 in
      let q5 : ℕ = q4 / 256 in
      let q6 : ℕ = q5 / 256 in
      let q7 : ℕ = q6 / 256 in
      let s1 : ℕ = n % 256 + q1 % 256 * 2 ^ 8 in
      let s2 : ℕ = s1 + q2 % 256 * 2 ^ 16 in
      let s3 : ℕ = s2 + q3 % 256 * 2 ^ 24 in
      let s4 : ℕ = s3 + q4 % 256 * 2 ^ 32 in
      let s5 : ℕ = s4 + q5 % 256 * 2 ^ 40 in
      let s6 : ℕ = s5 + q6 % 256 * 2 ^ 48 in
      rw
        (
          bit_or-shl 8 (n % 256) (q1 % 256) (omega arith),
          bit_or-shl 16 s1 (q2 % 256) (omega arith),
          bit_or-shl 24 s2 (q3 % 256) (omega arith),
          bit_or-shl 32 s3 (q4 % 256) (omega arith),
          bit_or-shl 40 s4 (q5 % 256) (omega arith),
          bit_or-shl 48 s5 (q6 % 256) (omega arith),
          bit_or-shl 56 s6 (q7 % 256) (omega arith),
        )
        (ap (λ (m : ℕ). ok (m, rest)) (omega arith))

  pub read_2byte_be-big_endian : n < 2 ^ 16 → read_2byte_be (big_endian 2 n ++ rest) ≡ ok (n, rest)
  unfolding read_2byte_be
  read_2byte_be-big_endian h =
      let b1 : ℕ = n / 256 % 256 in
      rw (bit_or-high 8 (b1 * 2 ^ 8) b1 (n / 1 % 256) refl (omega arith))
        (ap (λ (m : ℕ). ok (m, rest)) (omega arith))

  pub read_4byte_be-big_endian : n < 2 ^ 32 → read_4byte_be (big_endian 4 n ++ rest) ≡ ok (n, rest)
  unfolding read_4byte_be
  read_4byte_be-big_endian h =
      let b3 : ℕ = n / 2 ^ 24 % 256 in
      let b2 : ℕ = n / 2 ^ 16 % 256 in
      let b1 : ℕ = n / 2 ^ 8 % 256 in
      let s2 : ℕ = b3 * 2 ^ 24 + b2 * 2 ^ 16 in
      let s1 : ℕ = s2 + b1 * 2 ^ 8 in
      rw
        (
          bit_or-high 24 (b3 * 2 ^ 24) b3 (b2 * 2 ^ 16) refl (omega arith),
          bit_or-high 16 s2 (b3 * 2 ^ 8 + b2) (b1 * 2 ^ 8) (omega arith) (omega arith),
          bit_or-high 8 s1 (b3 * 2 ^ 16 + b2 * 2 ^ 8 + b1) (n / 1 % 256) (omega arith)
              (omega arith),
        )
        (ap (λ (m : ℕ). ok (m, rest)) (omega arith))

  pub read_8byte_be-big_endian : n < 2 ^ 64 → read_8byte_be (big_endian 8 n ++ rest) ≡ ok (n, rest)
  unfolding read_8byte_be
  read_8byte_be-big_endian h =
      let b7 : ℕ = n / 2 ^ 56 % 256 in
      let b6 : ℕ = n / 2 ^ 48 % 256 in
      let b5 : ℕ = n / 2 ^ 40 % 256 in
      let b4 : ℕ = n / 2 ^ 32 % 256 in
      let b3 : ℕ = n / 2 ^ 24 % 256 in
      let b2 : ℕ = n / 2 ^ 16 % 256 in
      let b1 : ℕ = n / 2 ^ 8 % 256 in
      let q6 : ℕ = b7 * 2 ^ 8 + b6 in
      let q5 : ℕ = q6 * 2 ^ 8 + b5 in
      let q4 : ℕ = q5 * 2 ^ 8 + b4 in
      let q3 : ℕ = q4 * 2 ^ 8 + b3 in
      let q2 : ℕ = q3 * 2 ^ 8 + b2 in
      let q1 : ℕ = q2 * 2 ^ 8 + b1 in
      let s6 : ℕ = b7 * 2 ^ 56 + b6 * 2 ^ 48 in
      let s5 : ℕ = s6 + b5 * 2 ^ 40 in
      let s4 : ℕ = s5 + b4 * 2 ^ 32 in
      let s3 : ℕ = s4 + b3 * 2 ^ 24 in
      let s2 : ℕ = s3 + b2 * 2 ^ 16 in
      let s1 : ℕ = s2 + b1 * 2 ^ 8 in
      rw
        (
          bit_or-high 56 (b7 * 2 ^ 56) b7 (b6 * 2 ^ 48) refl (omega arith),
          bit_or-high 48 s6 q6 (b5 * 2 ^ 40) (omega arith) (omega arith),
          bit_or-high 40 s5 q5 (b4 * 2 ^ 32) (omega arith) (omega arith),
          bit_or-high 32 s4 q4 (b3 * 2 ^ 24) (omega arith) (omega arith),
          bit_or-high 24 s3 q3 (b2 * 2 ^ 16) (omega arith) (omega arith),
          bit_or-high 16 s2 q2 (b1 * 2 ^ 8) (omega arith) (omega arith),
          bit_or-high 8 s1 q1 (n / 1 % 256) (omega arith) (omega arith),
        )
        (ap (λ (m : ℕ). ok (m, rest)) (omega arith))

-- How a number of `addrlen` bytes stands in a file: in the order of the host, if that is what
-- the reader is told, and in the other order if not.
unfoldable pub address_bytes : Host → ℕ → Bool → ℕ → List ℕ
address_bytes host addrlen use_host_byte_order n =
    if xor host.host_is_little_endian use_host_byte_order
    then big_endian addrlen n
    else little_endian addrlen n

-- An address of four or eight bytes is read back, in either byte order and on either host.
pub read_addr-address_bytes :
    (host : Host) (addrlen : ℕ) (use_host_byte_order : Bool) (n : ℕ) (rest : List ℕ)
    → (addrlen ≡ 4) ⊎ (addrlen ≡ 8)
    → n < 256 ^ addrlen
    → read_addr host addrlen
        (address_bytes host addrlen use_host_byte_order n ++ rest)
        use_host_byte_order
      ≡ ok (n, rest)
unfolding read_addr address_bytes
read_addr-address_bytes host addrlen order n rest (inl e) h =
    rw e (elim (Bool-cases (xor host.host_is_little_endian order)) [
      | inl be ↦ rw be (read_4byte_be-big_endian n rest (rw e at h))
      | inr le ↦ rw le (read_4byte_le-little_endian n rest (rw e at h))
    ])
read_addr-address_bytes host addrlen order n rest (inr e) h =
    rw e (elim (Bool-cases (xor host.host_is_little_endian order)) [
      | inl be ↦ rw be (read_8byte_be-big_endian n rest (rw e at h))
      | inr le ↦ rw le (read_8byte_le-little_endian n rest (rw e at h))
    ])
