-- ===== src/Tree/Context.antt =====
-- src/root.cpp: the compilation unit context finds every unit, from wherever it stands.
use libdwarfpp.Base.{
  ℕ, zero, suc, ◌+◌, ◌≤◌, ◌<◌, ◌≡◌, refl, ap, ◌∙◌, arith, Bool, true, false, ◌||◌, none, some, ◌==◌,
  if◌then◌else◌, List, [], ◌∷◌, length, ok, ◌⊎◌, inl, inr, Bool-cases, Outcome, ==_iff,
}
use libdwarfpp.Tree.{Libdwarf, RootDie}
use mathlib.Core.Path.{subst}
use libdwarfpp.Tree.Cu.{
  no_cu_context, offset_is_sane, first_offset, enter_cu, advance_cu_context, advance_to_end,
  clear_cu_context, seek_cu, seek_checked, set_subsequent_cu_context, set_cu_context,
}

-- The unit at the offset is one of these.
unfoldable pub has : ℕ → List ℕ → Bool
has off [] = false
has off (y ∷ ys) = y == off || has off ys

-- Nothing but the current unit has changed.
abbrev pub SameCaches : RootDie → RootDie → Type 0
SameCaches r r' =
    (r'.live_dies ≡ r.live_dies)
    × (r'.parent_of ≡ r.parent_of)
    × (r'.first_child_of ≡ r.first_child_of)
    × (r'.next_sibling_of ≡ r.next_sibling_of)

pub SameCaches-trans : (r s t : RootDie) → SameCaches r s → SameCaches s t → SameCaches r t
SameCaches-trans r s t (a, b, c, d) (a', b', c', d') = (a' ∙ a, b' ∙ b, c' ∙ c, d' ∙ d)

module _ (dwarf : Libdwarf) where
  -- libdwarf moves through the units at these offsets, after the one at `x` (0 is before the first):
  -- the first is at 11, every later one 11 bytes behind its header, all in the section.
  abbrev pub Follow : ℕ → List ℕ → Type 0
  Follow x [] = dwarf.next_cu x ≡ none
  Follow x (y ∷ ys) =
      (dwarf.next_cu x ≡ some y)
      × (y ≡ (if x == 0 then 11 else (dwarf.header x).next_cu_header + 11))
      × (x < y)
      × (y < dwarf.info_size)
      × Follow y ys

  -- The members that describe the current unit fit the unit at `c`.
  abbrev pub IsAt : RootDie → ℕ → Type 0
  IsAt r c =
      (r.current_cu_offset ≡ c)
      × (r.last_seen ≡ (if c == 0 then none else some (dwarf.header c)))
      × ((c ≡ 0) ⊎ (r.first_cu_offset ≡ some 11))

  Follow-bound :
      (x : ℕ) (ys : List ℕ) → x ≤ dwarf.info_size → Follow x ys → x + length ys ≤ dwarf.info_size
  Follow-bound x [] l h = omega arith
  Follow-bound x (y ∷ ys) l (a, b, c, d, h) = omega (arith, Follow-bound y ys (omega arith) h)

  -- There are no more units than bytes.
  pub length-Follow : (x : ℕ) (ys : List ℕ) → Follow x ys → length ys ≤ dwarf.info_size
  length-Follow x [] h = omega arith
  length-Follow x (y ∷ ys) (a, b, c, d, h) = omega (arith, Follow-bound y ys (omega arith) h)

  -- The state after the move to the unit at `y`.
  abbrev pub entered : ℕ → RootDie → RootDie
  entered y r = record r {
    last_seen = some (dwarf.header y);
    current_cu_offset = y;
    first_cu_offset = some 11;
  }

  module _ (handle : dwarf.has_handle ≡ true) where
    pub advance_none :
        (r : RootDie) (c : ℕ)
        → IsAt r c
        → dwarf.next_cu c ≡ none
        → advance_cu_context dwarf r ≡ ok (false, no_cu_context r)
    unfolding advance_cu_context no_cu_context
    advance_none r c (at, seen, first) e = rw (handle, at, e) refl

    pub advance_some :
        (r : RootDie) (c y : ℕ)
        → IsAt r c
        → dwarf.next_cu c ≡ some y
        → y ≡ (if c == 0 then 11 else (dwarf.header c).next_cu_header + 11)
        → advance_cu_context dwarf r ≡ ok (true, entered y r)
    unfolding advance_cu_context enter_cu offset_is_sane first_offset
    advance_some r c y (at, seen, first) e s = ground arith

    -- The run returns `found`, with the unit at `off` as the current one if it is found, and no unit
    -- if it is not, and changes no cache.
    abbrev pub Finds : ℕ → Bool → RootDie → Outcome (Bool × RootDie) → Type 0
    Finds off found r run =
        (r' : RootDie) × (run ≡ ok (found, r'))
        × IsAt r' (if found then off else 0)
        × SameCaches r r'

    seek_cu_lem :
        (fuel c off : ℕ) (flag : Bool) (rest : List ℕ) (r : RootDie)
        → IsAt r c
        → Follow c rest
        → length rest < fuel
        → flag ≡ (c == 0)
        → Finds off (has off rest) r (seek_cu dwarf fuel off flag r)
    unfolding has seek_cu no_cu_context
    seek_cu_lem zero c off flag rest r at h l e = absurd (omega arith)
    seek_cu_lem (suc fuel) c off flag [] r at h l e = (
      no_cu_context r,
      rw (advance_none r c at h, seek_cu) refl,
      (refl, refl, inl refl),
      (refl, refl, refl, refl),
    )
    seek_cu_lem (suc fuel) c off flag (y ∷ ys) r at (h, s, lt, lt', hs) l e =
        elim (Bool-cases (y == off)) [
          | inl same ↦ (
            entered y r,
            rw (advance_some r c y at h s, seek_cu) (ground arith),
            ground arith,
            (refl, refl, refl, refl),
          )
          | inr other ↦
              (let (r', run, at', keeps) =
                  seek_cu_lem fuel y off false ys (entered y r) (refl, ground arith, inr refl) hs
                    (omega arith) (ground arith) in
                (
                  r',
                  rw (advance_some r c y at h s, seek_cu) (ground (arith, run)),
                  rw other at',
                  keeps,
                ))
        ]

    advance_to_end_lem :
        (fuel c : ℕ) (rest : List ℕ) (r : RootDie)
        → IsAt r c
        → Follow c rest
        → length rest < fuel
        → (r' : RootDie) × (advance_to_end dwarf fuel r ≡ ok (tt, r')) × IsAt r' 0 × SameCaches r r'
    unfolding advance_to_end no_cu_context
    advance_to_end_lem zero c rest r at h l = absurd (omega arith)
    advance_to_end_lem (suc fuel) c [] r at h l = (
      no_cu_context r,
      rw (advance_none r c at h, advance_to_end) refl,
      (refl, refl, inl refl),
      (refl, refl, refl, refl),
    )
    advance_to_end_lem (suc fuel) c (y ∷ ys) r at (h, s, lt, lt', hs) l =
        let (r', run, at', keeps) =
          advance_to_end_lem fuel y ys (entered y r) (refl, ground arith, inr refl) hs
            (omega arith) in
        (r', rw (advance_some r c y at h s, advance_to_end) run, at', keeps)

    -- No unit is the current one afterwards.
    pub clear_cu_context_lem :
        (c : ℕ) (rest : List ℕ) (r : RootDie)
        → IsAt r c
        → Follow c rest
        → (r' : RootDie) × (clear_cu_context dwarf r ≡ ok (true, r')) × IsAt r' 0 × SameCaches r r'
    unfolding clear_cu_context
    clear_cu_context_lem c rest r (at, seen, first) h = elim (Bool-cases (c == 0)) [
      | inl outside ↦ (
        r,
        ground (arith, at),
        (ground (arith, at), rw outside at seen, inl refl),
        (refl, refl, refl, refl),
      )
      | inr inside ↦
          (let (r', run, at', keeps) =
              advance_to_end_lem (suc dwarf.info_size) c rest r (at, seen, first) h
                (ground (arith, length-Follow c rest h)) in
            (r', ground (arith, at, run), at', keeps))
    ]

    seek_checked_lem :
        (c off : ℕ) (rest : List ℕ) (r : RootDie)
        → IsAt r c
        → Follow c rest
        → Finds off (has off rest) r (seek_checked dwarf off r)
    unfolding seek_checked
    seek_checked_lem c off rest r at h =
        let (r', run, at', keeps) =
          seek_cu_lem (suc dwarf.info_size) c off (r.current_cu_offset == 0) rest r at h
            (ground (arith, length-Follow c rest h)) (ap (λ x. x == 0) at.0) in
        (r', ground (arith, run, at'.0), at', keeps)

    set_subsequent_lem :
        (c off : ℕ) (rest : List ℕ) (r : RootDie)
        → IsAt r c
        → Follow c rest
        → Finds off (c == off || has off rest) r (set_subsequent_cu_context dwarf off r)
    unfolding set_subsequent_cu_context
    set_subsequent_lem c off rest r at h = elim (Bool-cases (c == off)) [
      | inl same ↦ (
        r,
        ground (arith, at.0),
        rw same (subst (λ x. IsAt r x) ((==_iff c off).0 same) at),
        (refl, refl, refl, refl),
      )
      | inr other ↦
          (let (r', run, at', keeps) = seek_checked_lem c off rest r at h in
            (r', ground (arith, run, at.0), rw other at', keeps))
    ]

    -- The unit at `off` is found, from whichever unit is the current one, or from none.
    pub set_cu_context-Finds :
        (c off : ℕ) (rest cus : List ℕ) (r : RootDie)
        → IsAt r c
        → Follow c rest
        → Follow 0 cus
        → has off cus ≡ true
        → Finds off true r (set_cu_context dwarf off r)
    unfolding set_cu_context
    set_cu_context-Finds c off rest cus r at h hs m =
        let (r', run, at', keeps) = set_subsequent_lem c off rest r at h in
        elim (Bool-cases (c == off || has off rest)) [
          | inl yet ↦ (r', ground (arith, run), rw yet at at', keeps)
          | inr past ↦
              (let (r'', run'', at'', keeps'') =
                  clear_cu_context_lem 0 cus r' (rw past at at') hs in
                let (s, run_s, at_s, keeps_s) = set_subsequent_lem 0 off cus r'' at'' hs in
                let found : (0 == off || has off cus) ≡ true = ground (arith, m) in
                (
                  s,
                  ground (arith, run, run'', run_s),
                  rw found at at_s,
                  SameCaches-trans r r' s keeps (SameCaches-trans r' r'' s keeps'' keeps_s),
                ))
        ]
