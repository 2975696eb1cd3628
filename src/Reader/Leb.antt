-- ===== src/Reader/Leb.antt =====
-- src/frame.cpp: what read_uleb128 and read_sleb128 return, on any input.
use native.Mathlib.Numerals.{towards_suc}
use libdwarfpp.Base.{
  ℕ, zero, suc, ◌+◌, ◌-◌, ◌*◌, ◌%◌, ◌^◌, ◌≤◌, ◌<◌, ◌≡◌, ap, ◌∙◌, ◌⊎◌, inl, inr, arith, Bool-cases,
  leb,
}
use libdwarfpp.Base.{List, [], ◌∷◌, ◌++◌, bit_and, bit_or, length, length-append, All}
use libdwarfpp.Base.{ltb, if◌then◌else◌, ok, err, undefined}
use libdwarfpp.Base.Bits.{bit_or-shl, bit_and_0x7f, bit_and_0x80}
use libdwarfpp.Base.Int.{ℤ, pos, negsuc, to_int64}
use libdwarfpp.Reader.{shl_int, uleb_loop, read_uleb128, read_sleb128, shift_right}

abbrev pub IsGroup : ℕ → Type 0
IsGroup g = g < 128

-- The bytes of a LEB128 number that has the group `g` lowest and the groups `gs` above it.
unfoldable pub leb_bytes : ℕ → List ℕ → List ℕ
leb_bytes g [] = g ∷ []
leb_bytes g (h ∷ gs) = (g + 128) ∷ leb_bytes h gs

-- The number that the groups stand for.
unfoldable pub leb_value : ℕ → List ℕ → ℕ
leb_value g [] = g
leb_value g (h ∷ gs) = g + 128 * leb_value h gs

shl_int_fits : (v s : ℕ) → s < 32 → v * 2 ^ s < 2 ^ 31 → shl_int v s ≡ ok (v * 2 ^ s)
unfolding shl_int
shl_int_fits v s hs h = ground arith

pow_seven : (n : ℕ) → 2 ^ (7 * (n + 1)) ≡ 128 * 2 ^ (7 * n)
pow_seven n =
    let e : 7 * (n + 1) ≡ 7 * n + 7 = omega arith in ap (λ (t : ℕ). 2 ^ t) e ∙ shift_seven (7 * n)
  where
    shift_seven : (s : ℕ) → 2 ^ (s + 7) ≡ 128 * 2 ^ s
    shift_seven s = simp towards_suc (omega arith)

-- One round of the loop, on a last byte and on a byte with its top bit set.
last_byte :
    (g w n : ℕ) (rest : List ℕ)
    → g < 128
    → n ≤ 4
    → w < 2 ^ (7 * n)
    → g * 2 ^ (7 * n) < 2 ^ 31
    → uleb_loop (g ∷ rest) w n ≡ ok (w + g * 2 ^ (7 * n), n + 1, rest)
unfolding uleb_loop
last_byte g w n rest hg hn hw fits =
    ground (arith, bit_and_0x7f g, bit_and_0x80 g, shl_int_fits g (7 * n), bit_or-shl (7 * n) w g)

inner_byte :
    (g w n : ℕ) (rest : List ℕ)
    → g < 128
    → n ≤ 4
    → w < 2 ^ (7 * n)
    → g * 2 ^ (7 * n) < 2 ^ 31
    → uleb_loop ((g + 128) ∷ rest) w n ≡ uleb_loop rest (w + g * 2 ^ (7 * n)) (n + 1)
unfolding uleb_loop
inner_byte g w n rest hg hn hw fits = ground (
  arith,
  bit_and_0x7f (g + 128),
  bit_and_0x80 (g + 128),
  shl_int_fits g (7 * n),
  bit_or-shl (7 * n) w g,
)

-- `g` and the groups above it, all shifted to the position of byte `n`.
split_value :
    (g h : ℕ) (gs : List ℕ) (n : ℕ)
    → leb_value g (h ∷ gs) * 2 ^ (7 * n) ≡ g * 2 ^ (7 * n) + leb_value h gs * 2 ^ (7 * (n + 1))
unfolding leb_value
split_value g h gs n = omega (arith, ap (λ (t : ℕ). leb_value h gs * t) (pow_seven n))

group_fits : (g w n : ℕ) → g < 128 → w < 2 ^ (7 * n) → w + g * 2 ^ (7 * n) < 2 ^ (7 * (n + 1))
group_fits g w n hg hw = grind (arith, pow_seven n)

pub uleb_loop-leb_bytes :
    (g : ℕ) (gs : List ℕ) (w n : ℕ) (rest : List ℕ)
    → All IsGroup (g ∷ gs)
    → n + length gs ≤ 4
    → w < 2 ^ (7 * n)
    → w + leb_value g gs * 2 ^ (7 * n) < 2 ^ 31
    → uleb_loop (leb_bytes g gs ++ rest) w n
      ≡ ok (w + leb_value g gs * 2 ^ (7 * n), n + length gs + 1, rest)
unfolding leb_bytes
uleb_loop-leb_bytes g [] w n rest (hg, _) hn hw fits =
    unfold leb_value in ground (arith, last_byte g w n rest)
uleb_loop-leb_bytes g (h ∷ gs) w n rest (hg, hs) hn hw fits = ground (
  arith,
  split_value g h gs n,
  group_fits g w n,
  inner_byte g w n (leb_bytes h gs ++ rest),
  uleb_loop-leb_bytes h gs (w + g * 2 ^ (7 * n)) (n + 1) rest hs,
)

-- A number below 2 ^ 31 in one to five bytes, padded or not, is read back, and the bytes behind
-- it are left.
pub read_uleb128-leb_bytes :
    (g : ℕ) (gs rest : List ℕ)
    → All IsGroup (g ∷ gs)
    → length gs ≤ 4
    → leb_value g gs < 2 ^ 31
    → read_uleb128 (leb_bytes g gs ++ rest) ≡ ok (leb_value g gs, rest)
unfolding read_uleb128
read_uleb128-leb_bytes g gs rest h hl hv = ground (arith, uleb_loop-leb_bytes g gs 0 0 rest h)

pub shl_int-cases : (v s : ℕ) → (shl_int v s ≡ err undefined) ⊎ ((d : ℕ) × (shl_int v s ≡ ok d))
unfolding shl_int
shl_int-cases v s = elim (Bool-cases (leb 32 s)) [
  | inl e ↦ inl (rw e)
  | inr e ↦ elim (Bool-cases (leb (2 ^ 32) (v * 2 ^ s))) [
    | inl e' ↦ inl (rw (e, e'))
    | inr e' ↦
        inr (
          if ltb (v * 2 ^ s) (2 ^ 31) then v * 2 ^ s else v * 2 ^ s + (2 ^ 64 - 2 ^ 32),
          rw (e, e'),
        )
  ]
]

shl_int_wide : (v s : ℕ) → 32 ≤ s → shl_int v s ≡ err undefined
unfolding shl_int
shl_int_wide v s h = ground arith

uleb_loop_long :
    (g : ℕ) (gs : List ℕ) (w n : ℕ) (rest : List ℕ)
    → All IsGroup (g ∷ gs)
    → 5 ≤ n + length gs
    → uleb_loop (leb_bytes g gs ++ rest) w n ≡ err undefined
unfolding leb_bytes uleb_loop
uleb_loop_long g [] w n rest h hn = rw (shl_int_wide _ (7 * n) (omega arith))
uleb_loop_long g (k ∷ gs) w n rest (hg, hs) hn =
    elim (shl_int-cases (bit_and (g + 128) 0x7f) (7 * n)) [
      | inl e ↦ rw e
      | inr (d, e) ↦
          rw e (
            ground
              (arith, bit_and_0x80 (g + 128), uleb_loop_long k gs (bit_or w d) (n + 1) rest hs))
    ]

-- A number in six bytes or more is not read: its sixth group is shifted by more than the width
-- of int. So it is whatever the groups are.
pub read_uleb128_long :
    (g : ℕ) (gs rest : List ℕ)
    → All IsGroup (g ∷ gs)
    → 5 ≤ length gs
    → read_uleb128 (leb_bytes g gs ++ rest) ≡ err undefined
unfolding read_uleb128
read_uleb128_long g gs rest h hl = rw (uleb_loop_long g gs 0 0 rest h (omega arith))

leb_value-lt :
    (g : ℕ) (gs : List ℕ) → All IsGroup (g ∷ gs) → leb_value g gs < 2 ^ (7 * (length gs + 1))
unfolding leb_value
leb_value-lt g [] h = omega arith
leb_value-lt g (k ∷ gs) (hg, hs) =
    let e : 7 * (length (k ∷ gs) + 1) ≡ 7 * (length gs + 1 + 1) = omega arith in
    rw e (omega (arith, leb_value-lt k gs hs, pow_seven (length gs + 1)))

length-leb_bytes : (g : ℕ) (gs : List ℕ) → length (leb_bytes g gs) ≡ length gs + 1
unfolding leb_bytes
length-leb_bytes g [] = omega arith
length-leb_bytes g (k ∷ gs) = omega (arith, length-leb_bytes k gs)

-- The two's complement reading of `n` bytes of seven bits.
unfoldable pub leb_signed : ℕ → ℕ → ℤ
leb_signed n v = if ltb v (2 ^ (7 * n - 1)) then pos v else negsuc (2 ^ (7 * n) - v - 1)

sign_extend :
    (n v : ℕ)
    → 1 ≤ n
    → n ≤ 5
    → v < 2 ^ (7 * n)
    → shift_right (to_int64 (v * 2 ^ (64 - 7 * n) % 2 ^ 64)) (64 - 7 * n) ≡ leb_signed n v
unfolding leb_signed
sign_extend zero v h1 h5 hv = absurd (omega arith)
sign_extend (suc zero) v h1 h5 hv = ground arith
sign_extend (suc (suc zero)) v h1 h5 hv = ground arith
sign_extend (suc (suc (suc zero))) v h1 h5 hv = ground arith
sign_extend (suc (suc (suc (suc zero)))) v h1 h5 hv = ground arith
sign_extend (suc (suc (suc (suc (suc zero))))) v h1 h5 hv = ground arith
sign_extend (suc (suc (suc (suc (suc (suc n)))))) v h1 h5 hv = absurd (omega arith)

-- A signed number in one to five bytes, its groups below 2 ^ 31, is read as the two's complement
-- number of its bits.
pub read_sleb128-leb_bytes :
    (g : ℕ) (gs rest : List ℕ)
    → All IsGroup (g ∷ gs)
    → length gs ≤ 4
    → leb_value g gs < 2 ^ 31
    → read_sleb128 (leb_bytes g gs ++ rest) ≡ ok (leb_signed (length gs + 1) (leb_value g gs), rest)
unfolding read_sleb128
read_sleb128-leb_bytes g gs rest h hl hv =
    let bits : length (leb_bytes g gs ++ rest) - length rest ≡ length gs + 1 =
      omega (arith, length-append (leb_bytes g gs) rest, length-leb_bytes g gs) in
    rw (read_uleb128-leb_bytes g gs rest h hl hv, bits)
      (ap (λ (z : ℤ). ok (z, rest))
        (sign_extend (length gs + 1) (leb_value g gs) (omega arith) (omega arith)
          (leb_value-lt g gs h)))
