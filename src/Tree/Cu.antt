-- ===== src/Tree/Cu.antt =====
-- src/root.cpp: the compilation unit context, advance_cu_context to set_cu_context.
use libdwarfpp.Base.{
  ℕ, zero, suc, ◌+◌, Bool, true, false, ◌&&◌, ◌||◌, not, Option, none, some, ◌==◌, ltb,
  if◌then◌else◌,
}
use libdwarfpp.Base.{ok, err, assertion, out_of_fuel}
use libdwarfpp.Tree.{CuHeader, Libdwarf, RootDie, Action, pure, gets, update_root, check}
use libdwarfpp.Tree.{◌>>=◌, ◌>>◌}

-- dwarf_next_cu_header_b gave DW_DLV_NO_ENTRY.
unfoldable pub no_cu_context : RootDie → RootDie
no_cu_context r = record r { last_seen = none; current_cu_offset = 0 }

-- The offset follows from the header before it and the first offset.
unfoldable pub offset_is_sane : Option CuHeader → Option ℕ → ℕ → Bool
offset_is_sane none first off = true
offset_is_sane (some h) none off = false
offset_is_sane (some h) (some first) off = off == first || off == h.next_cu_header + first

-- The first offset is stored where there was no context.
unfoldable pub first_offset : ℕ → ℕ → Option ℕ → Option ℕ
first_offset current off first = if current == 0 then some off else first

module _ (dwarf : Libdwarf) where
  -- The move to the unit with the DIE at `off`.
  unfoldable pub enter_cu : ℕ → Action Bool
  enter_cu off = do
    r ← gets (λ r. r)
    check (not (r.current_cu_offset == 0) || (ltb 0 off && ltb off 32))
    let first = first_offset r.current_cu_offset off r.first_cu_offset
    check (offset_is_sane r.last_seen first off)
    update_root (λ r. record r {
      last_seen = some (dwarf.header off);
      current_cu_offset = off;
      first_cu_offset = first;
    })
    pure true

  unfoldable pub advance_cu_context : Action Bool
  advance_cu_context r =
      if dwarf.has_handle
      then elim (dwarf.next_cu r.current_cu_offset) [
        | none ↦ ok (false, no_cu_context r)
        | some off ↦ enter_cu off r
      ]
      else ok (false, r)

  -- `while(advance_cu_context());`
  unfoldable pub advance_to_end : ℕ → Action (Unit {0})
  advance_to_end zero r = err out_of_fuel
  advance_to_end (suc fuel) r = elim (advance_cu_context r) [
    | err e ↦ err e
    | ok (false, r') ↦ ok (tt, r')
    | ok (true, r') ↦ advance_to_end fuel r'
  ]

  unfoldable pub clear_cu_context : Action Bool
  clear_cu_context r =
      if r.current_cu_offset == 0
      then ok (true, r)
      else (advance_to_end (suc dwarf.info_size) >> pure true) r

  -- The loop of set_subsequent_cu_context, with its flag.
  unfoldable pub seek_cu : ℕ → ℕ → Bool → Action Bool
  seek_cu zero off have_no_context r = err out_of_fuel
  seek_cu (suc fuel) off have_no_context r = elim (advance_cu_context r) [
    | err e ↦ err e
    | ok (false, r') ↦ ok (false, r')
    | ok (true, r') ↦
        let again = seek_cu fuel off false r' in
        if have_no_context && not (r'.current_cu_offset == 11)
        then err assertion
        else if r'.current_cu_offset == 0 || r'.current_cu_offset == off
        then ok (true, r')
        else again
  ]

  -- The loop, and the check that the unit is the one at `off`.
  unfoldable pub seek_checked : ℕ → Action Bool
  seek_checked off = do
    start ← gets (λ r. r.current_cu_offset)
    ret ← seek_cu (suc dwarf.info_size) off (start == 0)
    current ← gets (λ r. r.current_cu_offset)
    check (not ret || current == off)
    pure ret

  unfoldable pub set_subsequent_cu_context : ℕ → Action Bool
  set_subsequent_cu_context off r =
      if r.current_cu_offset == off then ok (true, r) else seek_checked off r

  unfoldable pub set_cu_context : ℕ → Action Bool
  set_cu_context off = do
    ret ← set_subsequent_cu_context off
    let again = clear_cu_context >>= λ _. set_subsequent_cu_context off
    if ret then pure true else again
