-- ===== src/Reader.antt =====
-- src/frame.cpp: the byte readers read_uleb128 .. read_addr.
-- A cursor and its limit are the list of the bytes between them; a reader returns its value
-- and the bytes that are left.
pub mod Leb
pub mod Fixed
pub mod Consume
mod Tests
use libdwarfpp.Base.{
  ℕ, ◌+◌, ◌-◌, ◌*◌, ◌/◌, ◌^◌, ◌%◌, ◌<◌, ◌≡◌, Bool, true, false, not, List, [], ◌∷◌,
}
use libdwarfpp.Base.{bit_and, bit_or, ltb, leb, ◌==◌, if◌then◌else◌, length, ◌&&◌, ◌||◌}
use libdwarfpp.Base.{Outcome, ok, err, assertion, undefined, ◌>>=◌, ◌>>◌, guard}
use libdwarfpp.Base.Int.{ℤ, pos, negsuc, to_int64}
use mathlib.Core.Bool.{xor}

abbrev pub IsByte : ℕ → Type 0
IsByte b = b < 256

-- `v << s` at type int, as the 64-bit pattern that `working |= ..` takes. A shift by the width of
-- int, or past its unsigned range, is undefined; a set sign bit is extended.
unfoldable pub shl_int : ℕ → ℕ → Outcome ℕ
shl_int v s =
    if leb 32 s
    then err undefined
    else if leb (2 ^ 32) (v * 2 ^ s)
    then err undefined
    else ok (if ltb (v * 2 ^ s) (2 ^ 31) then v * 2 ^ s else v * 2 ^ s + (2 ^ 64 - 2 ^ 32))

-- The loop of read_uleb128 after `n` bytes: the value, the number of bytes read, the rest.
unfoldable pub uleb_loop : List ℕ → ℕ → ℕ → Outcome (ℕ × ℕ × List ℕ)
uleb_loop [] working n = err assertion
uleb_loop (b ∷ bs) working n = do
  group ← shl_int (bit_and b 0x7f) (7 * n)
  let working' = bit_or working group
  let more = uleb_loop bs working' (n + 1)
  if bit_and b 0x80 == 0 then ok (working', n + 1, bs) else more

unfoldable pub read_uleb128 : List ℕ → Outcome (ℕ × List ℕ)
read_uleb128 cur = do
  (working, n, rest) ← uleb_loop cur 0 0
  guard (ltb (7 * n) 64) assertion
  ok (working, rest)

-- `x >> s` at a signed type: the sign is kept.
abbrev pub shift_right : ℤ → ℕ → ℤ
shift_right (pos n) s = pos (n / 2 ^ s)
shift_right (negsuc n) s = negsuc (n / 2 ^ s)

unfoldable pub read_sleb128 : List ℕ → Outcome (ℤ × List ℕ)
read_sleb128 start = do
  (working, rest) ← read_uleb128 start
  let nbits_read = 7 * (length start - length rest)
  let top_bits = 64 - nbits_read
  ok (shift_right (to_int64 (working * 2 ^ top_bits % 2 ^ 64)) top_bits, rest)

unfoldable pub read_8byte_le : List ℕ → Outcome (ℕ × List ℕ)
read_8byte_le (b0 ∷ b1 ∷ b2 ∷ b3 ∷ b4 ∷ b5 ∷ b6 ∷ b7 ∷ rest) =
    let low = bit_or (bit_or (bit_or b0 (b1 * 2 ^ 8)) (b2 * 2 ^ 16)) (b3 * 2 ^ 24) in
    ok (
      bit_or (bit_or (bit_or (bit_or low (b4 * 2 ^ 32)) (b5 * 2 ^ 40)) (b6 * 2 ^ 48)) (b7 * 2 ^ 56),
      rest,
    )
read_8byte_le _ = err assertion

unfoldable pub read_4byte_le : List ℕ → Outcome (ℕ × List ℕ)
read_4byte_le (b0 ∷ b1 ∷ b2 ∷ b3 ∷ rest) =
    ok (bit_or (bit_or (bit_or b0 (b1 * 2 ^ 8)) (b2 * 2 ^ 16)) (b3 * 2 ^ 24), rest)
read_4byte_le _ = err assertion

unfoldable pub read_2byte_le : List ℕ → Outcome (ℕ × List ℕ)
read_2byte_le (b0 ∷ b1 ∷ rest) = ok (bit_or b0 (b1 * 2 ^ 8), rest)
read_2byte_le _ = err assertion

unfoldable pub read_8byte_be : List ℕ → Outcome (ℕ × List ℕ)
read_8byte_be (b0 ∷ b1 ∷ b2 ∷ b3 ∷ b4 ∷ b5 ∷ b6 ∷ b7 ∷ rest) =
    let high = bit_or (bit_or (bit_or (b0 * 2 ^ 56) (b1 * 2 ^ 48)) (b2 * 2 ^ 40)) (b3 * 2 ^ 32) in
    ok (bit_or (bit_or (bit_or (bit_or high (b4 * 2 ^ 24)) (b5 * 2 ^ 16)) (b6 * 2 ^ 8)) b7, rest)
read_8byte_be _ = err assertion

unfoldable pub read_4byte_be : List ℕ → Outcome (ℕ × List ℕ)
read_4byte_be (b0 ∷ b1 ∷ b2 ∷ b3 ∷ rest) =
    ok (bit_or (bit_or (bit_or (b0 * 2 ^ 24) (b1 * 2 ^ 16)) (b2 * 2 ^ 8)) b3, rest)
read_4byte_be _ = err assertion

unfoldable pub read_2byte_be : List ℕ → Outcome (ℕ × List ℕ)
read_2byte_be (b0 ∷ b1 ∷ rest) = ok (bit_or (b0 * 2 ^ 8) b1, rest)
read_2byte_be _ = err assertion

-- srk31's tests of the byte order of the host: one of the two holds.
pub record Host : Type 0 where
  pub host_is_little_endian : Bool
  pub host_is_big_endian : Bool
  pub one_order : host_is_big_endian ≡ not host_is_little_endian

unfoldable pub read_addr : Host → ℕ → List ℕ → Bool → Outcome (ℕ × List ℕ)
read_addr host addrlen cur use_host_byte_order = do
  guard (addrlen == 4 || addrlen == 8) assertion
  let read_be = xor host.host_is_little_endian use_host_byte_order
  if read_be && addrlen == 4
      then read_4byte_be cur
      else if read_be && addrlen == 8
      then read_8byte_be cur
      else if not read_be && addrlen == 4
      then read_4byte_le cur
      else if not read_be && addrlen == 8
      then read_8byte_le cur
      else err assertion
