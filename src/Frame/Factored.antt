-- ===== src/Frame/Factored.antt =====
-- src/frame.cpp: products with the data alignment factor, whose sign is lost in an unsigned field
-- and comes back where the field is read as a signed number.
use libdwarfpp.Base.{
  ℕ, zero, suc, ◌+◌, ◌-◌, ◌*◌, ◌%◌, ◌^◌, ◌≤◌, ◌<◌, ◌≡◌, ap, true, arith, ok, Bool-cases, inl, inr,
  if◌then◌else◌,
}
use libdwarfpp.Base.Int.{ℤ, pos, negsuc, to_int64, to_word64, leb_ℤ, ltb_ℤ, ◌*ℤ◌, fits_int64}
use libdwarfpp.Frame.Decode.{factored, factored_sf}

factored-pos : (d n : ℕ) → d < 2 ^ 63 → factored (pos d) n ≡ to_word64 (pos d *ℤ pos n)
unfolding factored ◌*ℤ◌
factored-pos d n h = ground arith

neg-mul-pos : (m n : ℕ) → negsuc m *ℤ pos (suc n) ≡ negsuc (suc m * suc n - 1)
unfolding ◌*ℤ◌
neg-mul-pos m n = let below : 1 ≤ suc m * suc n = grind arith in ground (arith, below)

complement : (x k q : ℕ) → x + k ≡ 2 ^ 64 * q → 1 ≤ k → x % 2 ^ 64 ≡ to_word64 (negsuc (k - 1))
complement x k q e h = omega arith

factored_neg : (m n : ℕ) → m < 2 ^ 63 → factored (negsuc m) n ≡ to_word64 (negsuc m *ℤ pos n)
unfolding factored
factored_neg m zero h = unfold ◌*ℤ◌ in ground arith
factored_neg m (suc n) h =
    let w : to_word64 (negsuc m) ≡ 2 ^ 64 - 1 - m = omega arith in
    let e : (2 ^ 64 - 1 - m + suc m) * suc n ≡ 2 ^ 64 * suc n =
      ap (λ (t : ℕ). t * suc n) (omega arith) in
    rw (neg-mul-pos, w)
      (complement ((2 ^ 64 - 1 - m) * suc n) (suc m * suc n) (suc n) (omega arith) (grind arith))

-- The product that the code computes at an unsigned type is that of the integers.
pub factored_lem :
    (daf : ℤ) (n : ℕ) → fits_int64 daf ≡ true → factored daf n ≡ to_word64 (daf *ℤ pos n)
factored_lem (pos d) n h = factored-pos d n (ground arith)
factored_lem (negsuc m) n h = factored_neg m n (ground arith)

pub factored_sf_lem :
    (daf z : ℤ) → fits_int64 (daf *ℤ z) ≡ true → factored_sf daf z ≡ ok (to_word64 (daf *ℤ z))
unfolding factored_sf
factored_sf_lem daf z h = rw h

-- A product that fits comes back from the field: the assertion in the case of DW_CFA_offset.
pub to_int64-product : (z : ℤ) → fits_int64 z ≡ true → to_int64 (to_word64 z) ≡ z
to_int64-product (pos n) h = ground arith
to_int64-product (negsuc n) h = ground arith

neg-mul-le : (daf : ℤ) (n : ℕ) → ltb_ℤ daf (pos 0) ≡ true → leb_ℤ (daf *ℤ pos n) (pos 0) ≡ true
neg-mul-le (pos d) n h = ground arith
neg-mul-le (negsuc m) zero h = unfold ◌*ℤ◌ in ground arith
neg-mul-le (negsuc m) (suc n) h = rw neg-mul-pos (ground arith)

pub offset_assertion :
    (daf : ℤ) (n : ℕ)
    → fits_int64 daf ≡ true
    → fits_int64 (daf *ℤ pos n) ≡ true
    → (if ltb_ℤ daf (pos 0) then leb_ℤ (to_int64 (factored daf n)) (pos 0) else true) ≡ true
offset_assertion daf n hd h = elim (Bool-cases (ltb_ℤ daf (pos 0))) [
  | inl neg ↦ rw (neg, factored_lem daf n hd, to_int64-product _ h) (neg-mul-le daf n neg)
  | inr nonneg ↦ rw nonneg
]
