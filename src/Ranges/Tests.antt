-- ===== src/Ranges/Tests.antt =====
-- src/attr.cpp: range lists on small examples.
use libdwarfpp.Base.{◌≡◌, refl, [], ◌∷◌, some, none, ok, err, assertion, arith, List, ℕ}
use libdwarfpp.Ranges.{RangeEntry, find_addr, find_addr_loop, found_at, moved_offset}
use libdwarfpp.Ranges.{ranges_address_selection}
use libdwarfpp.Ranges.Offsets.{find_addr-listed, holds, covered_below, listed}

-- A hot and a cold part of a function.
abbrev parts : List (ℕ × ℕ)
parts = (0x10, 0x20) ∷ (0x80, 0x88) ∷ []

in_the_first : find_addr 0x14 (listed parts 0) ≡ ok (some (4, 3))
unfolding find_addr find_addr_loop found_at moved_offset
in_the_first = refl

between : find_addr 0x40 (listed parts 0) ≡ ok none
unfolding find_addr find_addr_loop found_at moved_offset
between = refl

find_addr-listed_example : find_addr 0x82 (listed parts 0) ≡ ok (some (0x12, 3))
unfolding holds covered_below
find_addr-listed_example =
    find_addr-listed parts 0 0x82 ((omega arith, omega arith), ((omega arith, omega arith), tt))
      (omega arith)

abbrev selection : RangeEntry
selection = record { dwr_addr1 = 0xffffffff; dwr_addr2 = 0; dwr_type = ranges_address_selection }

selected : find_addr 0x82 (selection ∷ listed parts 0) ≡ err assertion
unfolding find_addr find_addr_loop
selected = refl
