-- ===== src/Types/Products.antt =====
-- src/dies.cpp: the counts of arrays, as products of their extents.
use libdwarfpp.Base.{
  ℕ, ◌+◌, ◌*◌, ◌/◌, ◌%◌, ◌^◌, ◌<◌, ◌≡◌, ◌⊎◌, inl, inr, refl, sym, ◌∙◌, ap, arith, Option, none,
  true, false, some, List, [], ◌∷◌,
}
use native.Mathlib.Nat.{add-mul, add-mul-mod_self_left, mod-add-div, mul_assoc}
use libdwarfpp.Types.{TypeDie, TypeDies}
use libdwarfpp.Types.Sizes.{count_between, subrange_count, total_count, array_size, counts_of}

abbrev pub product : List ℕ → ℕ
product [] = 1
product (d ∷ ds) = d * product ds

pub mod-mul : (a b m : ℕ) → a % m * b % m ≡ a * b % m
mod-mul a b m =
    let split : a * b ≡ a % m * b + m * (a / m * b) =
      ap (λ x. x * b) (sym (mod-add-div a m))
      ∙ add-mul (a % m) (m * (a / m)) b
      ∙ ap (λ x. a % m * b + x) (mul_assoc m (a / m) b) in
    sym (ap (λ x. x % m) split ∙ add-mul-mod_self_left (a % m * b) m (a / m * b))

-- The extent of a subrange: its count, or the number of the indices from the lower to the upper bound.
abbrev IsLower : Option ℕ → TypeDie → ℕ → Type 0
IsLower implicit d l =
    (d.get_lower_bound ≡ some l) ⊎ ((d.get_lower_bound ≡ none) × (implicit ≡ some l))

abbrev pub IsExtent : Option ℕ → TypeDie → ℕ → Type 0
IsExtent implicit d n =
    (d.get_count ≡ some n)
    ⊎ ((d.get_count ≡ none)
        × ((l : ℕ) × (u : ℕ) × IsLower implicit d l
            × (d.get_upper_bound ≡ some u)
            × (n + l ≡ u + 1)
            × (l < 2 ^ 64)
            × (n < 2 ^ 64)))

subrange_count_lem :
    (implicit : Option ℕ) (d : TypeDie) (n : ℕ)
    → IsExtent implicit d n
    → subrange_count implicit d ≡ some n
unfolding subrange_count count_between
subrange_count_lem implicit d n (inl h) = rw h refl
subrange_count_lem implicit d n (inr (h, (l, u, inl low, up, e, _, small))) =
    rw h (rw low (rw up (ap (λ x. some x) (omega (arith, e, small)))))
subrange_count_lem implicit d n (inr (h, (l, u, inr (low, given), up, e, _, small))) =
    rw h (rw low (rw given (rw up (ap (λ x. some x) (omega (arith, e, small))))))

module _ (dies : TypeDies) where
  -- Subranges with their extents.
  abbrev pub HasExtents : Option ℕ → List ℕ → List ℕ → Type 0
  HasExtents implicit [] [] = Unit {0}
  HasExtents implicit (c ∷ cs) (d ∷ ds) = IsExtent implicit (dies c) d × HasExtents implicit cs ds
  HasExtents implicit cs ds = true ≡ false

  -- What the loop of element_count gives, up to whole words.
  total_from :
      (implicit : Option ℕ) (cs ds : List ℕ) (n : ℕ)
      → HasExtents implicit cs ds
      → (q : ℕ) × (total_count (some n) (counts_of dies implicit cs) ≡ some q)
        × (q % 2 ^ 64 ≡ n * product ds % 2 ^ 64)
  unfolding total_count counts_of
  total_from implicit [] [] n h = (n, refl, omega arith)
  total_from implicit [] (d ∷ ds) n h = absurd (cc h)
  total_from implicit (c ∷ cs) [] n h = absurd (cc h)
  total_from implicit (c ∷ cs) (d ∷ ds) n (extent, h) =
      let (q, run, same) = total_from implicit cs ds (n * d % 2 ^ 64) h in
      let regroup : n * d * product ds ≡ n * (d * product ds) = mul_assoc n d (product ds) in
      (
        q,
        rw (subrange_count_lem implicit (dies c) d extent) run,
        same ∙ mod-mul (n * d) (product ds) (2 ^ 64) ∙ ap (λ x. x % 2 ^ 64) regroup,
      )

  -- The size of an array is the product of its extents and the size of an element, in whole words.
  pub array_size-product :
      (implicit : Option ℕ) (c : ℕ) (cs : List ℕ) (d : ℕ) (ds : List ℕ) (size : ℕ)
      → HasExtents implicit (c ∷ cs) (d ∷ ds)
      → array_size (total_count none (counts_of dies implicit (c ∷ cs))) (some size)
        ≡ some (product (d ∷ ds) * size % 2 ^ 64)
  unfolding array_size total_count counts_of
  array_size-product implicit c cs d ds size (extent, h) =
      let (q, run, same) = total_from implicit cs ds d h in
      let word : q * size % 2 ^ 64 ≡ d * product ds * size % 2 ^ 64 =
        sym (mod-mul q size (2 ^ 64))
        ∙ ap (λ x. x * size % 2 ^ 64) same
        ∙ mod-mul (d * product ds) size (2 ^ 64) in
      rw (subrange_count_lem implicit (dies c) d extent) (rw run (ap (λ x. some x) word))
