-- ===== src/Spec/Tags.antt =====
-- src/spec.cpp: the predicates on tags.
use libdwarfpp.Base.{ℕ, ◌≡◌, refl, ap, arith, Bool, true, false, ◌&&◌, not, List, [], ◌∷◌}
use libdwarfpp.Base.{◌==◌, ==_iff, Bool-cases, inl, inr}
use libdwarfpp.Spec.{
  is_one_of, local_tag_is_type, local_tag_is_type_chain, local_tag_has_named_children, type_tags,
  type_chain_tags, parent_tags,
}

-- A fact about each entry of a list, checked by evaluation.
every : (ℕ → Bool) → List ℕ → Bool
every p [] = true
every p (x ∷ xs) = p x && every p xs

every_at :
    (p : ℕ → Bool) (xs : List ℕ) (x : ℕ) → every p xs ≡ true → is_one_of x xs ≡ true → p x ≡ true
unfolding every is_one_of
every_at p [] x h m = ground arith
every_at p (y ∷ ys) x h m = elim (Bool-cases (x == y)) [
  | inl e ↦ (let same : p x ≡ p y = ap p ((==_iff x y).0 e) in ground (arith))
  | inr e ↦
      (let later : every p ys ≡ true = ground arith in
        let among : is_one_of x ys ≡ true = ground arith in every_at p ys x later among)
]

-- A tag of a chain of types is a type, and it has no named children.
pub local_tag_is_type_chain_lem :
    (tag : ℕ)
    → local_tag_is_type_chain tag ≡ true
    → (local_tag_is_type tag ≡ true) × (local_tag_has_named_children tag ≡ false)
unfolding local_tag_is_type_chain local_tag_is_type local_tag_has_named_children every is_one_of
local_tag_is_type_chain_lem tag h =
    let is_type : local_tag_is_type tag ≡ true =
      every_at (λ t. is_one_of t type_tags) type_chain_tags tag refl h in
    let childless : not (local_tag_has_named_children tag) ≡ true =
      every_at (λ t. not (is_one_of t parent_tags)) type_chain_tags tag refl h in
    (is_type, ground arith)
