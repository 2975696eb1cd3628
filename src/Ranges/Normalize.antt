-- ===== src/Ranges/Normalize.antt =====
-- src/dies.cpp: compile_unit_die::normalize_rangelist, which copies a range list without base address
-- selections, and find_addr on such lists.
use libdwarfpp.Base.{
  ℕ, ◌+◌, ◌≡◌, refl, ap, ◌∙◌, arith, Bool, false, ◌&&◌, ◌||◌, List, [], ◌∷◌, Option, leb, ltb, ◌==◌,
  if◌then◌else◌, Outcome, ok, err, assertion, Bool-cases, inl, inr,
}
use libdwarfpp.Ranges.{
  RangeType, RangeEntry, find_addr, find_addr_loop, found_at, moved_offset, ranges_entry,
  ranges_address_selection, ranges_end, unknown,
}

-- `retval.push_back(*i)`, before what the rest of the loop adds.
unfoldable pub kept : RangeEntry → Outcome (List RangeEntry) → Outcome (List RangeEntry)
kept r (ok rs) = ok (r ∷ rs)
kept r (err e) = err e

-- The end of the list has to be the last entry, with 0.
unfoldable pub normalized_end : RangeEntry → List RangeEntry → Outcome (List RangeEntry)
normalized_end r [] = if r.dwr_addr1 == 0 then ok (r ∷ []) else err assertion
normalized_end r (s ∷ ss) = err assertion

unfoldable pub normalize_rangelist : List RangeEntry → Outcome (List RangeEntry)
normalize_rangelist [] = ok []
normalize_rangelist (r ∷ rs) =
    let rest = normalize_rangelist rs in
    elim r.dwr_type [
      | ranges_entry ↦ kept r rest
      | ranges_address_selection ↦ err assertion
      | ranges_end ↦ normalized_end r rs
      | unknown ↦ err assertion
    ]

kept_lem :
    (r : RangeEntry) (run : Outcome (List RangeEntry)) (rs' : List RangeEntry)
    → kept r run ≡ ok rs'
    → (rs : List RangeEntry) × (run ≡ ok rs) × (rs' ≡ r ∷ rs)
unfolding kept
kept_lem r (ok rs) rs' h = (rs, refl, ground (arith, h))
kept_lem r (err e) rs' h = absurd (cc h)

-- Accepted lists are kept, and no assertion of find_addr's loop fails on them.
abbrev IsKept : List RangeEntry → Type 0
IsKept rs =
    (rs' : List RangeEntry) (address : ℕ) (found : Bool) (offset dist_moved : ℕ)
    → normalize_rangelist rs ≡ ok rs'
    → (rs' ≡ rs)
      × (answer : Option (ℕ × ℕ)) × (find_addr_loop address rs found offset dist_moved ≡ ok answer)

IsKept-entry :
    (r : RangeEntry) (rs : List RangeEntry)
    → r.dwr_type ≡ ranges_entry
    → IsKept rs
    → IsKept (r ∷ rs)
unfolding normalize_rangelist find_addr_loop
IsKept-entry r rs k below rs' address found offset dist_moved h =
    let run : kept r (normalize_rangelist rs) ≡ ok rs' = ground (arith, h, k) in
    let (rest, run', same) = kept_lem r (normalize_rangelist rs) rs' run in
    let (same', answer, onward) =
      below rest address ((leb r.dwr_addr1 address && ltb address r.dwr_addr2) || found)
        (moved_offset address r offset) (dist_moved + 1) run' in
    (same ∙ ap (λ t. r ∷ t) same', answer, ground (arith, k, onward))

IsKept-end : (r : RangeEntry) (rs : List RangeEntry) → r.dwr_type ≡ ranges_end → IsKept (r ∷ rs)
unfolding normalize_rangelist normalized_end find_addr_loop
IsKept-end r [] k rs' address found offset dist_moved h = elim (Bool-cases (r.dwr_addr1 == 0)) [
  | inl e ↦ (ground (arith, h, k, e), found_at found offset (dist_moved + 1), ground (arith, k, e))
  | inr e ↦ absurd (ground (arith, h, k, e))
]
IsKept-end r (s ∷ ss) k rs' address found offset dist_moved h = absurd (ground (arith, h, k))

IsKept-by_type :
    (r : RangeEntry) (rs : List RangeEntry) (k : RangeType)
    → r.dwr_type ≡ k
    → IsKept rs
    → IsKept (r ∷ rs)
unfolding normalize_rangelist
IsKept-by_type r rs RangeType.ranges_entry k below = IsKept-entry r rs k below
IsKept-by_type r rs RangeType.ranges_end k below = IsKept-end r rs k
IsKept-by_type r rs RangeType.ranges_address_selection k below =
    λ rs' address found offset dist_moved h. absurd (ground (arith, h, k))
IsKept-by_type r rs RangeType.unknown k below =
    λ rs' address found offset dist_moved h. absurd (ground (arith, h, k))

normalize_rangelist-IsKept : (rs : List RangeEntry) → IsKept rs
unfolding normalize_rangelist find_addr_loop
normalize_rangelist-IsKept [] = λ rs' address found offset dist_moved h.
    (ground (arith, h), found_at found offset dist_moved, refl)
normalize_rangelist-IsKept (r ∷ rs) =
    IsKept-by_type r rs r.dwr_type refl (normalize_rangelist-IsKept rs)

-- A range list that normalize_rangelist accepts is left as it is, and find_addr gives an answer on it
-- for every address, without a failed assertion.
pub normalize_rangelist-find_addr :
    (rs rs' : List RangeEntry) (address : ℕ)
    → normalize_rangelist rs ≡ ok rs'
    → (rs' ≡ rs) × (answer : Option (ℕ × ℕ)) × (find_addr address rs ≡ ok answer)
unfolding find_addr
normalize_rangelist-find_addr rs rs' address h =
    normalize_rangelist-IsKept rs rs' address false 0 0 h
