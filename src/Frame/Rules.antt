-- ===== src/Frame/Rules.antt =====
-- src/frame.cpp: the rules of a row (std::map<int, register_def>) and the instructions that change them.
use libdwarfpp.Base.{ℕ, ◌<◌, ◌≡◌, ◌≢◌, refl, arith, inl, inr, Bool-cases, ◌==◌}
use libdwarfpp.Base.{none, some, [], ◌∷◌, All, ltb}
use libdwarfpp.Frame.Rows.{RegisterDef, RowDefs, find_def, modify, or_indeterminate}

-- The keys of a row ascend.
abbrev pub IsSorted : RowDefs → Type 0
IsSorted [] = Unit {0}
IsSorted ((k, d) ∷ defs) = All (λ e. k < e.0) defs × IsSorted defs

find_def-lt : (defs : RowDefs) (n : ℕ) → All (λ e. n < e.0) defs → find_def defs n ≡ none
unfolding find_def
find_def-lt [] n h = refl
find_def-lt ((k, d) ∷ defs) n (hk, hs) = ground (arith, find_def-lt defs n hs)

All-lt_trans :
    (defs : RowDefs) (n k : ℕ) → n < k → All (λ e. k < e.0) defs → All (λ e. n < e.0) defs
All-lt_trans [] n k h a = tt
All-lt_trans ((j, d) ∷ defs) n k h (hj, hs) = (omega arith, All-lt_trans defs n k h hs)

module _ (f : RegisterDef → RegisterDef) (n : ℕ) where
  pub find_def-modify_same :
      (defs : RowDefs)
      → IsSorted defs
      → find_def (modify f n defs) n ≡ some (f (or_indeterminate (find_def defs n)))
  unfolding find_def modify
  find_def-modify_same [] h = ground arith
  find_def-modify_same ((k, d) ∷ defs) (hk, hs) = elim (Bool-cases (n == k)) [
    | inl e ↦ rw (e, find_def) (rw e refl)
    | inr e ↦ elim (Bool-cases (ltb n k)) [
      | inl l ↦ ground (arith, find_def-lt defs n (All-lt_trans defs n k (ground arith) hk))
      | inr g ↦ ground (arith, find_def-modify_same defs hs)
    ]
  ]

  pub find_def-modify_other :
      (defs : RowDefs) (j : ℕ) → j ≢ n → find_def (modify f n defs) j ≡ find_def defs j
  unfolding find_def modify
  find_def-modify_other [] j h = ground arith
  find_def-modify_other ((k, d) ∷ defs) j h = ground (arith, find_def-modify_other defs j h)

  All-modify :
      (b : ℕ) (defs : RowDefs)
      → b < n
      → All (λ e. b < e.0) defs
      → All (λ e. b < e.0) (modify f n defs)
  unfolding modify
  All-modify b [] h a = (h, tt)
  All-modify b ((k, d) ∷ defs) h (hk, hs) = elim (Bool-cases (n == k)) [
    | inl e ↦ rw e (hk, hs)
    | inr e ↦ elim (Bool-cases (ltb n k)) [
      | inl l ↦ rw (e, l) (h, (hk, hs))
      | inr g ↦ rw (e, g) (hk, All-modify b defs h hs)
    ]
  ]

  pub modify-IsSorted : (defs : RowDefs) → IsSorted defs → IsSorted (modify f n defs)
  unfolding modify
  modify-IsSorted [] h = (tt, tt)
  modify-IsSorted ((k, d) ∷ defs) (hk, hs) = elim (Bool-cases (n == k)) [
    | inl e ↦ rw e (hk, hs)
    | inr e ↦ elim (Bool-cases (ltb n k)) [
      | inl l ↦ rw (e, l) ((ground arith, All-lt_trans defs n k (ground arith) hk), (hk, hs))
      | inr g ↦ rw (e, g) (All-modify k defs (ground arith) hk, modify-IsSorted defs hs)
    ]
  ]
