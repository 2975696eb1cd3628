-- ===== src/Spec/Classes.antt =====
-- src/spec.cpp: which class explicit_interp chooses.
use libdwarfpp.Base.{ℕ, ◌≡◌, refl, ap, ◌∙◌, arith, true, false, List, [], ◌∷◌, ◌++◌, All, some}
use libdwarfpp.Spec.{
  explicit_interp, possibles, possibles_of, matching_forms, without_flags, first_possible,
  is_one_of, eol,
}

-- The form permits the class.
abbrev pub Permits : List ℕ → ℕ → Type 0
Permits fs cls = is_one_of (without_flags cls) fs ≡ true

abbrev pub Forbids : List ℕ → ℕ → Type 0
Forbids fs cls = is_one_of (without_flags cls) fs ≡ false

no_match : (fs : List ℕ) (cls : ℕ) → Forbids fs cls → matching_forms cls fs ≡ []
unfolding matching_forms is_one_of
no_match [] cls h = refl
no_match (f ∷ fs) cls h = ground (arith, no_match fs cls)

first_match :
    (fs rest : List ℕ) (cls : ℕ)
    → Permits fs cls
    → first_possible (matching_forms cls fs ++ rest) ≡ without_flags cls
unfolding matching_forms is_one_of first_possible
first_match [] rest cls h = ground arith
first_match (f ∷ fs) rest cls h = ground (arith, first_match fs rest cls)

possibles_of-append :
    (before attrs fs : List ℕ)
    → All (Forbids fs) before
    → possibles_of (before ++ attrs) fs ≡ possibles_of attrs fs
unfolding possibles_of
possibles_of-append [] attrs fs h = refl
possibles_of-append (b ∷ before) attrs fs (h, hs) =
    ap (λ t. t ++ possibles_of (before ++ attrs) fs) (no_match fs b h)
    ∙ possibles_of-append before attrs fs hs

none_possible : (attrs fs : List ℕ) → All (Forbids fs) attrs → possibles_of attrs fs ≡ []
unfolding possibles_of
none_possible [] fs h = refl
none_possible (a ∷ attrs) fs (h, hs) =
    ap (λ t. t ++ possibles_of attrs fs) (no_match fs a h) ∙ none_possible attrs fs hs

chosen :
    (a : ℕ) (after fs : List ℕ)
    → Permits fs a
    → first_possible (possibles_of (a ∷ after) fs) ≡ without_flags a
unfolding possibles_of
chosen a after fs p = first_match fs (possibles_of after fs) a p

choose :
    (before : List ℕ) (a : ℕ) (after : List ℕ) (f : ℕ) (fs : List ℕ)
    → possibles (before ++ a ∷ after) (f ∷ fs) ≡ possibles_of (before ++ a ∷ after) (f ∷ fs)
unfolding possibles
choose [] a after f fs = refl
choose (b ∷ before) a after f fs = refl

-- The class that is chosen is the first of the attribute's classes, without its flags, that the form
-- permits.
pub explicit_interp_first :
    (before : List ℕ) (a : ℕ) (after fs : List ℕ)
    → All (Forbids fs) before
    → Permits fs a
    → explicit_interp (some (before ++ a ∷ after)) (some fs) ≡ without_flags a
unfolding explicit_interp is_one_of
explicit_interp_first before a after [] h p = ground arith
explicit_interp_first before a after (f ∷ fs) h p =
    ap first_possible
      (choose before a after f fs ∙ possibles_of-append before (a ∷ after) (f ∷ fs) h)
    ∙ chosen a after (f ∷ fs) p

-- Where both lists have a class, and the form permits none of the attribute's, the result is EOL.
pub explicit_interp_none :
    (a : ℕ) (attrs : List ℕ) (f : ℕ) (fs : List ℕ)
    → All (Forbids (f ∷ fs)) (a ∷ attrs)
    → explicit_interp (some (a ∷ attrs)) (some (f ∷ fs)) ≡ eol
unfolding explicit_interp possibles first_possible possibles_of
explicit_interp_none a attrs f fs h =
    ap first_possible (choose [] a attrs f fs ∙ none_possible (a ∷ attrs) (f ∷ fs) h)
