-- ===== src/Tree.antt =====
-- src/root.cpp, include/dwarfpp/root.hpp, include/dwarfpp/iter.hpp: the state of a root_die, the
-- positions of iterators, and what libdwarf answers about the DIEs of a file.
mod Cu
mod Moves
mod Find
mod Siblings
mod BreadthFirst
mod DepthFirst
mod Context
mod Layout
mod Caches
mod Edges
mod FirstChild
mod NextSibling
mod Parents
mod Forest
mod Climb
mod Preorder
mod NextHandle
mod Visits
mod Tests
use libdwarfpp.Base.{ℕ, Bool, Option, none, some, ◌==◌, if◌then◌else◌, guard, Fault}
use libdwarfpp.Base.{Outcome, ok, err, assertion}

-- What dwarf_next_cu_header_b gives for a compilation unit.
pub record CuHeader : Type 0 where
  pub cu_header_length : ℕ
  pub version_stamp : ℕ
  pub abbrev_offset : ℕ
  pub address_size : ℕ
  pub offset_size : ℕ
  pub extension_size : ℕ
  pub next_cu_header : ℕ

-- libdwarf, as root_die uses it: DIEs are named by their offsets. `child` is dwarf_child, `sibling`
-- is dwarf_siblingof, `is_die` tells whether dwarf_offdie finds a DIE, `next_cu` is the offset of the
-- DIE of the unit that dwarf_next_cu_header_b moves to, from the unit with the DIE at an offset, or
-- from no unit (0), and `header` is what it gives there. `info_size` is the size of .debug_info.
pub record Libdwarf : Type 0 where
  pub has_handle : Bool
  pub tag : ℕ → ℕ
  pub child : ℕ → Option ℕ
  pub sibling : ℕ → Option ℕ
  pub is_die : ℕ → Bool
  pub enclosing_cu : ℕ → ℕ
  pub next_cu : ℕ → Option ℕ
  pub header : ℕ → CuHeader
  pub info_size : ℕ

-- `unordered_map<Dwarf_Off, Dwarf_Off>`
abbrev pub OffsetMap : Type 0
OffsetMap = ℕ → Option ℕ

-- `m[k] = v`
abbrev pub update : OffsetMap → ℕ → ℕ → OffsetMap
update m k v x = if x == k then some v else m x

-- `root_die`, the members that navigation uses. `live_dies` and `sticky_dies` tell which offsets they
-- hold; `last_seen` stands for the seven members that are set and cleared together.
pub record RootDie : Type 0 where
  pub live_dies : ℕ → Bool
  pub sticky_dies : ℕ → Bool
  pub parent_of : OffsetMap
  pub first_child_of : OffsetMap
  pub next_sibling_of : OffsetMap
  pub current_cu_offset : ℕ
  pub first_cu_offset : Option ℕ
  pub last_seen : Option CuHeader

-- `iterator_base`: END, the root position, or a DIE with its depth, where it is known, and whether
-- its state is WITH_PAYLOAD.
pub data Iter : Type 0 where
  at_end : Iter
  at_root : Iter
  at_die : ℕ → Option ℕ → Bool → Iter

-- A member function of root_die.
abbrev pub Action : Type 0 → Type 0
Action A = RootDie → Outcome (A × RootDie)

abbrev pub pure : {A : Type 0} → A → Action A
pure a r = ok (a, r)

infixl 5 ◌>>=◌ ◌>>◌
abbrev pub ◌>>=◌ : {A B : Type 0} → Action A → (A → Action B) → Action B
◌>>=◌ m f r = elim (m r) [ ok (a, r') ↦ f a r' | err e ↦ err e ]

abbrev pub ◌>>◌ : {B : Type 0} → Action (Unit {0}) → Action B → Action B
m >> k = m >>= λ _. k

abbrev pub gets : {A : Type 0} → (RootDie → A) → Action A
gets f r = ok (f r, r)

abbrev pub update_root : (RootDie → RootDie) → Action (Unit {0})
update_root f r = ok (tt, f r)

abbrev pub fail : {A : Type 0} → Fault → Action A
fail e r = err e

-- `assert(b)`
abbrev pub check : Bool → Action (Unit {0})
check b r = elim (guard b assertion) [ ok u ↦ ok (tt, r) | err e ↦ err e ]
