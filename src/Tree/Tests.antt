-- ===== src/Tree/Tests.antt =====
-- src/root.cpp, include/dwarfpp/iter.hpp: the navigation of a small file.
use libdwarfpp.Base.{
  arith, inl, ℕ, ◌≡◌, refl, true, false, Option, none, some, List, [], ◌∷◌, ok, ◌==◌, if◌then◌else◌,
}
use libdwarfpp.Tree.{Libdwarf, RootDie, at_root}
use libdwarfpp.Tree.DepthFirst.{traverse}
use libdwarfpp.Tree.Context.{Follow, has}
use libdwarfpp.Tree.Edges.{IsReady}
use libdwarfpp.Tree.Forest.{Forest, leaf, node, preorder, Describes}
use libdwarfpp.Tree.Visits.{traverse-preorder}

abbrev pub table : List (ℕ × ℕ) → ℕ → Option ℕ
table [] x = none
table ((k, v) ∷ t) x = if x == k then some v else table t x

-- Two units, at 11 and 111; the first has the children 20, which has the child 22, and 30.
abbrev pub sample : Libdwarf
sample = record {
  has_handle = true;
  tag = λ x. if x == 11 then 0x11 else if x == 111 then 0x11 else 0x34;
  child = table ((11, 20) ∷ (20, 22) ∷ (111, 120) ∷ []);
  sibling = table ((20, 30) ∷ []);
  is_die = λ x. true;
  enclosing_cu = λ x. if x == 111 then 111 else if x == 120 then 111 else 11;
  next_cu = table ((0, 11) ∷ (11, 111) ∷ []);
  header = λ x. record {
    cu_header_length = 96;
    version_stamp = 3;
    abbrev_offset = 0;
    address_size = 8;
    offset_size = 4;
    extension_size = 0;
    next_cu_header = if x == 11 then 100 else 200;
  };
  info_size = 200;
}

abbrev pub fresh_root : RootDie
fresh_root = record {
  live_dies = λ x. false;
  sticky_dies = λ x. false;
  parent_of = λ x. none;
  first_child_of = λ x. none;
  next_sibling_of = λ x. none;
  current_cu_offset = 0;
  first_cu_offset = none;
  last_seen = none;
}

-- The same DIEs as a forest, with the parent_offset of each.
abbrev dies : Forest
dies =
    node 11 (node 20 (node 22 leaf leaf) (node 30 leaf leaf)) (node 111 (node 120 leaf leaf) leaf)

abbrev parent_offset : ℕ → ℕ
parent_offset x =
    if x == 20
    then 11
    else if x == 30
    then 11
    else if x == 22
    then 20
    else if x == 120
    then 111
    else 0

units : Follow sample 0 (11 ∷ 111 ∷ [])
units = (refl, refl, omega arith, omega arith, (refl, refl, omega arith, omega arith, refl))

fresh-IsReady : IsReady sample parent_offset fresh_root
fresh-IsReady = (
  record { parents = λ x p h. cc h; children = λ x y h. cc h; siblings = λ x y h. cc h },
  0,
  11 ∷ 111 ∷ [],
  (refl, refl, inl refl),
  units,
)

dies-Describes : Describes sample parent_offset (11 ∷ 111 ∷ []) 1 0 dies
unfolding has
dies-Describes = (
  refl,
  omega arith,
  refl,
  (λ h. h),
  refl,
  refl,
  refl,
  (λ h. absurd (omega arith)),
  omega arith,
  (
    refl,
    omega arith,
    refl,
    (λ h. h),
    refl,
    refl,
    refl,
    (λ h. refl),
    omega arith,
    (
      refl,
      omega arith,
      refl,
      (λ h. h),
      refl,
      refl,
      refl,
      (λ h. absurd (omega arith)),
      omega arith,
      tt,
      tt,
    ),
    (refl, omega arith, refl, (λ h. h), refl, refl, refl, (λ h. refl), omega arith, tt, tt),
  ),
  (
    refl,
    omega arith,
    refl,
    (λ h. h),
    refl,
    refl,
    refl,
    (λ h. absurd (omega arith)),
    omega arith,
    (refl, omega arith, refl, (λ h. h), refl, refl, refl, (λ h. refl), omega arith, tt, tt),
    tt,
  ),
)

traverse-preorder_example : traverse sample 9 at_root fresh_root ≡ ok (0 ∷ preorder dies)
traverse-preorder_example =
    traverse-preorder sample parent_offset (11 ∷ 111 ∷ []) refl units dies 9 fresh_root
      dies-Describes refl (omega arith) fresh-IsReady (omega arith)
