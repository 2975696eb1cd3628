-- ===== src/Cie/HdrTable.antt =====
-- include/dwarfpp/frame.hpp: the search table of .eh_frame_hdr, and its iterator hdr_tbl_iterator.
use libdwarfpp.Base.{ℕ, ◌+◌, ◌-◌, ◌*◌, ◌%◌, ◌^◌, ◌<◌, ◌≡◌, refl, sym, ap, ◌∙◌, arith, true, false}
use libdwarfpp.Base.{
  List, [], ◌∷◌, ◌++◌, append_assoc, length, length-append, drop, drop-length, bit_and, ltb,
}
use libdwarfpp.Base.{◌==◌, if◌then◌else◌, Outcome, ok, err, assertion, ◌>>=◌}
use libdwarfpp.Base.Int.{ℤ, pos, negsuc, to_int64, to_int32, to_word64}
use libdwarfpp.Reader.{Host}
use libdwarfpp.Reader.Fixed.{address_bytes}
use libdwarfpp.Cie.Encoding.{read_with_encoding, format_of}
use libdwarfpp.Cie.Pointers.{HasWidth, read_with_encoding-address_bytes, length-address_bytes}

-- The members of FrameSection that the iterator uses.
pub record HdrTable : Type 0 where
  pub host : Host
  pub hdr_tbl : List ℕ
  pub hdr_tbl_encoding : ℕ
  pub hdr_tbl_encoded_value_size : ℕ
  pub hdr_vaddr : ℕ
  pub address_size : ℕ

abbrev pub to_int16 : ℕ → ℤ
to_int16 w =
    if ltb (w % 2 ^ 16) (2 ^ 15) then pos (w % 2 ^ 16) else negsuc (2 ^ 16 - w % 2 ^ 16 - 1)

abbrev pub to_int8 : ℕ → ℤ
to_int8 w = if ltb (w % 2 ^ 8) (2 ^ 7) then pos (w % 2 ^ 8) else negsuc (2 ^ 8 - w % 2 ^ 8 - 1)

-- The bytes from an iterator on that has been advanced `k` times from the begin of the table.
abbrev pub at_entry : HdrTable → ℕ → List ℕ
at_entry t k = drop (2 * k * t.hdr_tbl_encoded_value_size) t.hdr_tbl

unfoldable pub dereference_raw : HdrTable → ℕ → Outcome (ℕ × ℕ)
dereference_raw t k = do
  (initial_location_raw, rest) ←
      read_with_encoding t.host t.hdr_tbl_encoding (at_entry t k) t.address_size true
  (addr, rest₂) ← read_with_encoding t.host t.hdr_tbl_encoding rest t.address_size true
  ok (initial_location_raw, addr)

-- The signed number that a value of a given size is; abort() is counted as a failed assertion.
unfoldable pub signed_delta : ℕ → ℕ → Outcome ℤ
signed_delta size raw =
    if size == 8
    then ok (to_int64 raw)
    else if size == 4
    then ok (to_int32 raw)
    else if size == 2
    then ok (to_int16 raw)
    else if size == 1
    then ok (to_int8 raw)
    else err assertion

-- The location, by the high bits of the encoding.
unfoldable pub initial_location : HdrTable → ℕ → Outcome ℕ
initial_location t raw =
    if bit_and t.hdr_tbl_encoding 0xf0 == 0x00
    then ok raw
    else if bit_and t.hdr_tbl_encoding 0xf0 == 0x30
    then signed_delta t.hdr_tbl_encoded_value_size raw
      >>= (λ delta. ok ((t.hdr_vaddr + to_word64 delta) % 2 ^ 64))
    else err assertion

unfoldable pub dereference : HdrTable → ℕ → Outcome (ℕ × ℕ)
dereference t k = do
  (raw, addr) ← dereference_raw t k
  location ← initial_location t raw
  ok (location, addr)

-- A table of entries of two values of `n` bytes each.
unfoldable pub table_bytes : Host → ℕ → List (ℕ × ℕ) → List ℕ
table_bytes host n [] = []
table_bytes host n ((l, a) ∷ es) =
    address_bytes host n true l ++ (address_bytes host n true a ++ table_bytes host n es)

entry_bytes :
    (host : Host) (n l a : ℕ) (es : List (ℕ × ℕ))
    → table_bytes host n ((l, a) ∷ es)
      ≡ address_bytes host n true l ++ (address_bytes host n true a ++ table_bytes host n es)
unfolding table_bytes
entry_bytes host n l a es = refl

table_bytes-append :
    (host : Host) (n : ℕ) (xs ys : List (ℕ × ℕ))
    → table_bytes host n (xs ++ ys) ≡ table_bytes host n xs ++ table_bytes host n ys
unfolding table_bytes
table_bytes-append host n [] ys = refl
table_bytes-append host n ((l, a) ∷ xs) ys =
    rw (append_assoc, append_assoc, table_bytes-append host n xs ys) refl

length-table_bytes :
    (host : Host) (n : ℕ) (xs : List (ℕ × ℕ)) → length (table_bytes host n xs) ≡ 2 * length xs * n
unfolding table_bytes
length-table_bytes host n [] = omega arith
length-table_bytes host n ((l, a) ∷ xs) =
    let first : List ℕ = address_bytes host n true l in
    let second : List ℕ = address_bytes host n true a in
    length-append first (second ++ table_bytes host n xs)
    ∙ rw
        (
          length-append second (table_bytes host n xs),
          length-address_bytes host n l,
          length-address_bytes host n a,
          length-table_bytes host n xs,
        )
        (grind arith)

-- The table of a HdrTable is made of some entries, in a format of a fixed width.
abbrev pub HasEntries : HdrTable → ℕ → List (ℕ × ℕ) → Type 0
HasEntries t n es =
    (t.hdr_tbl ≡ table_bytes t.host n es)
    × (t.hdr_tbl_encoded_value_size ≡ n)
    × ((t.hdr_tbl_encoding == 0xff) ≡ false)
    × HasWidth (format_of (bit_and t.hdr_tbl_encoding 0x0f)) t.address_size n

-- The iterator that has been advanced past the entries in front of an entry reads this entry: its
-- two values.
pub dereference_raw-entry :
    (t : HdrTable) (n l a : ℕ) (front back : List (ℕ × ℕ))
    → HasEntries t n (front ++ (l, a) ∷ back)
    → l < 256 ^ n
    → a < 256 ^ n
    → dereference_raw t (length front) ≡ ok (l, a)
unfolding dereference_raw
dereference_raw-entry t n l a front back (ht, hn, he, hw) hl ha =
    rw
      (
        place,
        read_with_encoding-address_bytes t.host t.hdr_tbl_encoding t.address_size n l true rest he
            hw hl,
        read_with_encoding-address_bytes t.host t.hdr_tbl_encoding t.address_size n a true
            (table_bytes t.host n back) he hw ha,
      )
      refl
  where
    rest : List ℕ
    rest = address_bytes t.host n true a ++ table_bytes t.host n back

    place : at_entry t (length front) ≡ address_bytes t.host n true l ++ rest
    place =
        ap (λ (bs : List ℕ). drop (2 * length front * t.hdr_tbl_encoded_value_size) bs)
          (ht ∙ table_bytes-append t.host n front ((l, a) ∷ back))
        ∙ ap
            (λ (k : ℕ). drop k (table_bytes t.host n front ++ table_bytes t.host n ((l, a) ∷ back)))
            (ap (λ (k : ℕ). 2 * length front * k) hn ∙ sym (length-table_bytes t.host n front))
        ∙ drop-length (table_bytes t.host n front) (table_bytes t.host n ((l, a) ∷ back))
        ∙ entry_bytes t.host n l a back

-- With the encoding DW_EH_PE_datarel | DW_EH_PE_sdata4, an entry is located at its signed distance from
-- the header.
pub dereference_datarel :
    (t : HdrTable) (l a : ℕ) (delta : ℤ) (front back : List (ℕ × ℕ))
    → t.hdr_tbl_encoding ≡ 0x3b
    → HasEntries t 4 (front ++ (l, a) ∷ back)
    → l ≡ to_word64 delta % 2 ^ 32
    → to_int32 l ≡ delta
    → a < 2 ^ 32
    → dereference t (length front) ≡ ok ((t.hdr_vaddr + to_word64 delta) % 2 ^ 64, a)
unfolding dereference initial_location signed_delta
dereference_datarel t l a delta front back he (ht, hn, hff, hw) hl hd ha =
    rw (dereference_raw-entry t 4 l a front back (ht, hn, hff, hw) (omega arith) ha, he, hn, hd)
      refl
