-- ===== src/Ranges.antt =====
-- src/attr.cpp: rangelist::find_addr, on the elements of a range list.
pub mod Offsets
pub mod Normalize
mod Tests
use libdwarfpp.Base.{ℕ, ◌+◌, ◌-◌, ◌%◌, ◌^◌, Bool, true, false, ◌&&◌, ◌||◌, List, [], ◌∷◌}
use libdwarfpp.Base.{Option, none, some, leb, ltb, ◌==◌, if◌then◌else◌}
use libdwarfpp.Base.{Outcome, ok, err, assertion}

-- `dwr_type`: the values of libdwarf, and any other.
pub data RangeType : Type 0 where
  ranges_entry : RangeType
  ranges_address_selection : RangeType
  ranges_end : RangeType
  unknown : RangeType

-- `Dwarf_Ranges`, the fields that are used.
pub record RangeEntry : Type 0 where
  dwr_addr1 : ℕ
  dwr_addr2 : ℕ
  dwr_type : RangeType

-- The offset after an entry.
unfoldable pub moved_offset : ℕ → RangeEntry → ℕ → ℕ
moved_offset address r offset =
    if leb r.dwr_addr1 address && ltb address r.dwr_addr2
    then (offset + (address - r.dwr_addr1)) % 2 ^ 64
    else if leb r.dwr_addr2 address
    then (offset + (r.dwr_addr2 + 2 ^ 64 - r.dwr_addr1)) % 2 ^ 64
    else offset

-- After the loop: `found` tells whether the iterator `found` has left the end.
unfoldable pub found_at : Bool → ℕ → ℕ → Option (ℕ × ℕ)
found_at true offset dist_moved = some (offset, dist_moved)
found_at false offset dist_moved = none

-- The loop.
unfoldable pub find_addr_loop : ℕ → List RangeEntry → Bool → ℕ → ℕ → Outcome (Option (ℕ × ℕ))
find_addr_loop address [] found offset dist_moved = ok (found_at found offset dist_moved)
find_addr_loop address (r ∷ rs) found offset dist_moved =
    let held = leb r.dwr_addr1 address && ltb address r.dwr_addr2 in
    let next =
      find_addr_loop address rs (held || found) (moved_offset address r offset) (dist_moved + 1) in
    let last = find_addr_loop address rs found offset (dist_moved + 1) in
    elim r.dwr_type [
      | ranges_entry ↦ next
      | ranges_address_selection ↦ err assertion
      | ranges_end ↦ (elim rs [
        | [] ↦ if r.dwr_addr1 == 0 then last else err assertion
        | s ∷ ss ↦ err assertion
      ])
      | unknown ↦ err assertion
    ]

unfoldable pub find_addr : ℕ → List RangeEntry → Outcome (Option (ℕ × ℕ))
find_addr dieset_relative_address ranges = find_addr_loop dieset_relative_address ranges false 0 0
