-- ===== src/Ranges/Offsets.antt =====
-- src/attr.cpp: the offset that find_addr counts, on ranges in any order.
use libdwarfpp.Base.{ℕ, suc, ◌+◌, ◌-◌, ◌^◌, ◌≤◌, ◌<◌, ◌≡◌, refl, ap, ◌∙◌, arith}
use libdwarfpp.Base.{Bool, true, false, ◌&&◌, ◌||◌, List, [], ◌∷◌, All, length}
use libdwarfpp.Base.{none, some, leb, ltb, if◌then◌else◌, ok}
use libdwarfpp.Ranges.{RangeEntry, find_addr, find_addr_loop, found_at, moved_offset}
use libdwarfpp.Ranges.{ranges_entry, ranges_end}

-- A range with its bounds in order.
abbrev pub range : ℕ × ℕ → RangeEntry
range (a, b) = record { dwr_addr1 = a; dwr_addr2 = b; dwr_type = ranges_entry }

-- The end of the list.
abbrev pub terminator : ℕ → RangeEntry
terminator b = record { dwr_addr1 = 0; dwr_addr2 = b; dwr_type = ranges_end }

abbrev pub listed : List (ℕ × ℕ) → ℕ → List RangeEntry
listed [] b = terminator b ∷ []
listed (r ∷ rs) b = range r ∷ listed rs b

abbrev pub IsOrdered : ℕ × ℕ → Type 0
IsOrdered (a, b) = (a ≤ b) × (b < 2 ^ 64)

-- Some range holds the address.
unfoldable pub holds : List (ℕ × ℕ) → ℕ → Bool
holds [] address = false
holds ((a, b) ∷ rs) address = (leb a address && ltb address b) || holds rs address

-- The number of the addresses in the ranges that lie below the address.
unfoldable pub covered_below : List (ℕ × ℕ) → ℕ → ℕ
covered_below [] address = 0
covered_below ((a, b) ∷ rs) address =
    (if leb b address then b - a else address - a) + covered_below rs address

moved_offset-range :
    (address a b offset : ℕ)
    → a ≤ b
    → b < 2 ^ 64
    → offset + (if leb b address then b - a else address - a) < 2 ^ 64
    → moved_offset address (range (a, b)) offset
      ≡ offset + (if leb b address then b - a else address - a)
unfolding moved_offset
moved_offset-range address a b offset h1 h2 h3 = ground arith

or_swap : (a b c : Bool) → (b || (a || c)) ≡ ((a || b) || c)
or_swap true true c = refl
or_swap true false c = refl
or_swap false b c = refl

loop-listed :
    (rs : List (ℕ × ℕ)) (t address : ℕ) (found : Bool) (offset dist : ℕ)
    → All IsOrdered rs
    → offset + covered_below rs address < 2 ^ 64
    → find_addr_loop address (listed rs t) found offset dist
      ≡ ok (
          found_at
            (holds rs address || found)
            (offset + covered_below rs address)
            (dist + length rs + 1))
unfolding find_addr_loop holds covered_below
loop-listed [] t address found offset dist h b =
    let none : offset + 0 ≡ offset = omega arith in
    let one : dist + 0 + 1 ≡ dist + 1 = omega arith in rw (none, one) refl
loop-listed ((x, y) ∷ rs) t address found offset dist ((h1, h2), hs) b =
    let here = if leb y address then y - x else address - x in
    let held = leb x address && ltb address y in
    let moved : moved_offset address (range (x, y)) offset ≡ offset + here =
      moved_offset-range address x y offset h1 h2 (omega arith) in
    let sum : (offset + here) + covered_below rs address
        ≡ offset + (here + covered_below rs address) =
      omega arith in
    let count : dist + 1 + length rs + 1 ≡ dist + suc (length rs) + 1 = omega arith in
    ap (λ o. find_addr_loop address (listed rs t) (held || found) o (dist + 1)) moved
    ∙ loop-listed rs t address (held || found) (offset + here) (dist + 1) hs (omega arith)
    ∙ ap
        (λ f.
          ok (found_at f ((offset + here) + covered_below rs address) (dist + 1 + length rs + 1)))
        (or_swap held (holds rs address) found)
    ∙ ap (λ o. ok (found_at ((held || holds rs address) || found) o (dist + 1 + length rs + 1))) sum
    ∙ ap
        (λ n. ok (
          found_at ((held || holds rs address) || found)
            (offset + (here + covered_below rs address)) n))
        count

found_at_end :
    (b : Bool) (offset n : ℕ)
    → found_at (b || false) (0 + offset) (0 + n + 1) ≡ (if b then some (offset, n + 1) else none)
unfolding found_at
found_at_end true offset n =
    let from_zero : 0 + offset ≡ offset = omega arith in
    let count : 0 + n + 1 ≡ n + 1 = omega arith in rw (from_zero, count) refl
found_at_end false offset n = refl

-- On a range list that ends as it should, with ranges whose bounds are in order and that have fewer
-- than 2 ^ 64 addresses below the address, find_addr finds the address if some range holds it. The
-- offset is then the number of the addresses below it in the ranges, counted in each range. The distance is the
-- length of the whole list, wherever the range stands.
pub find_addr-listed :
    (rs : List (ℕ × ℕ)) (t address : ℕ)
    → All IsOrdered rs
    → covered_below rs address < 2 ^ 64
    → find_addr address (listed rs t)
      ≡ ok (if holds rs address then some (covered_below rs address, length rs + 1) else none)
unfolding find_addr
find_addr-listed rs t address h b =
    loop-listed rs t address false 0 0 h (omega arith)
    ∙ ap (λ o. ok o) (found_at_end (holds rs address) (covered_below rs address) (length rs))
