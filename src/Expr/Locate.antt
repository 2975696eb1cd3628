-- ===== src/Expr/Locate.antt =====
-- src/expr.cpp: the location expression that holds at an address, in the constructor of evaluator
-- and in loclist::loc_for_vaddr.
use libdwarfpp.Base.{ℕ, ◌+◌, ◌-◌, ◌%◌, ◌^◌, ◌≤◌, ◌<◌, ◌≡◌, refl, ap, ◌∙◌, arith}
use libdwarfpp.Base.{
  Bool, true, false, ◌&&◌, ◌||◌, List, [], ◌∷◌, All, ltb, leb, ◌==◌, if◌then◌else◌, Option,
}
use libdwarfpp.Base.{◌++◌, ◌⊎◌, inl, inr}
use libdwarfpp.Base.{Outcome, ok, err, assertion, no_entry, ◌>>=◌, ◌>>◌, guard}
use libdwarfpp.Base.Int.{ℤ}
use libdwarfpp.Expr.{LocExpr}
use libdwarfpp.Expr.Eval.{Evaluator, eval, evaluator}

unfoldable pub loc_for_vaddr : List LocExpr → ℕ → Outcome LocExpr
loc_for_vaddr [] vaddr = err no_entry
loc_for_vaddr (l ∷ ls) vaddr =
    let rest = loc_for_vaddr ls vaddr in if leb l.lopc vaddr && ltb vaddr l.hipc then ok l else rest

-- A base address selection entry.
abbrev pub selects_base : LocExpr → Bool
selects_base l = l.lopc == 0xffffffff || l.lopc == 0xffffffffffffffff

-- The entry holds at the address.
abbrev pub holds_at : ℕ → ℕ → LocExpr → Bool
holds_at vaddr current_vaddr_base l =
    (l.lopc == 0 && l.hipc == 0xffffffffffffffff)
    || (l.lopc == 0 && l.hipc == 0)
    || (leb ((l.lopc + current_vaddr_base) % 2 ^ 64) vaddr
        && ltb vaddr ((l.hipc + current_vaddr_base) % 2 ^ 64))

-- The loop.
unfoldable pub search : List LocExpr → ℕ → ℕ → Outcome LocExpr
search [] vaddr current_vaddr_base = err no_entry
search (l ∷ ls) vaddr current_vaddr_base =
    let rebased = search ls vaddr l.hipc in
    let rest = search ls vaddr current_vaddr_base in
    if selects_base l then rebased else if holds_at vaddr current_vaddr_base l then ok l else rest

-- The constructor: the evaluation starts at the operations of the entry that is found.
unfoldable pub evaluator_at :
    List LocExpr → ℕ → Option (ℕ → ℤ) → Option ℤ → List ℕ → Outcome Evaluator
evaluator_at loclist vaddr regs frame_base initial_stack = do
  guard (ltb vaddr 0x8000000000 || vaddr == 0xffffffff || vaddr == 0xffffffffffffffff) assertion
  l ← search loclist vaddr 0
  eval (evaluator l.instrs regs frame_base initial_stack)

-- An entry with a range of its own, within 64 bits, also when it is moved by a base address.
abbrev pub IsRange : ℕ → LocExpr → Type 0
IsRange base l =
    (selects_base l ≡ false)
    × (1 ≤ l.hipc)
    × (l.hipc < 2 ^ 64 - 1)
    × (l.lopc + base < 2 ^ 64)
    × (l.hipc + base < 2 ^ 64)

moved :
    (ls : List LocExpr) (offset base : ℕ)
    → All (IsRange base) ls
    → search ls (base + offset) base ≡ loc_for_vaddr ls offset
unfolding search loc_for_vaddr
moved [] offset base h = refl
moved (l ∷ ls) offset base ((hb, h1, h2, lo, hi), hs) = ground (arith, moved ls offset base hs)

-- Behind a base address selection entry, the ranges of the entries are moved by its address: the
-- entry found is that which loc_for_vaddr finds at the address less the base. The moved ranges stay
-- within 64 bits.
pub search_rebased :
    (l : LocExpr) (ls : List LocExpr) (offset base : ℕ)
    → selects_base l ≡ true
    → All (IsRange l.hipc) ls
    → search (l ∷ ls) (l.hipc + offset) base ≡ loc_for_vaddr ls offset
unfolding search
search_rebased l ls offset base hl h = rw (hl, search) (moved ls offset l.hipc h)

-- An entry of the list in front, or else the entry behind.
abbrev pub or_else : Outcome LocExpr → Outcome LocExpr → Outcome LocExpr
or_else (ok l) behind = ok l
or_else (err e) behind = behind

-- An entry for all addresses, or one that selects a base address and is above `vaddr` itself.
abbrev pub IsSpecial : ℕ → LocExpr → Type 0
IsSpecial vaddr l = ((l.lopc ≡ 0) × (l.hipc ≡ 0)) ⊎ ((selects_base l ≡ true) × (vaddr < l.lopc))

search_behind :
    (before ls : List LocExpr) (vaddr : ℕ)
    → All (IsRange 0) before
    → search (before ++ ls) vaddr 0 ≡ or_else (loc_for_vaddr before vaddr) (search ls vaddr 0)
unfolding search loc_for_vaddr
search_behind [] ls vaddr h = refl
search_behind (l ∷ before) ls vaddr ((hb, h1, h2, lo, hi), hs) =
    ground (arith, search_behind before ls vaddr hs)

loc_for_vaddr_behind :
    (before ls : List LocExpr) (vaddr : ℕ)
    → loc_for_vaddr (before ++ ls) vaddr
      ≡ or_else (loc_for_vaddr before vaddr) (loc_for_vaddr ls vaddr)
unfolding loc_for_vaddr
loc_for_vaddr_behind [] ls vaddr = refl
loc_for_vaddr_behind (l ∷ before) ls vaddr = ground (arith, loc_for_vaddr_behind before ls vaddr)

search_special :
    (l : LocExpr) (after : List LocExpr) (offset : ℕ)
    → IsSpecial (l.hipc + offset) l
    → All (IsRange l.hipc) after
    → search (l ∷ after) (l.hipc + offset) 0
      ≡ (if selects_base l then loc_for_vaddr after offset else ok l)
unfolding search
search_special l after offset (inl (lo, hi)) h = ground arith
search_special l after offset (inr (s, lt)) h = rw (s, search) (moved after offset l.hipc h)

passed_over :
    (l : LocExpr) (after : List LocExpr) (vaddr : ℕ)
    → IsSpecial vaddr l
    → loc_for_vaddr (l ∷ after) vaddr ≡ loc_for_vaddr after vaddr
unfolding loc_for_vaddr
passed_over l after vaddr (inl (lo, hi)) = ground arith
passed_over l after vaddr (inr (s, lt)) = ground arith

-- Behind entries with ranges of their own, at an entry for all addresses the constructor of evaluator
-- takes that entry, and at a base address selection it looks for the offset from that base in the
-- entries behind; loc_for_vaddr passes over both and looks for the address itself there. In front of
-- such an entry the two find the same. The moved ranges stay within 64 bits.
pub search-loc_for_vaddr :
    (before after : List LocExpr) (l : LocExpr) (offset : ℕ)
    → IsSpecial (l.hipc + offset) l
    → All (IsRange 0) before
    → All (IsRange l.hipc) after
    → (search (before ++ l ∷ after) (l.hipc + offset) 0
        ≡ or_else
            (loc_for_vaddr before (l.hipc + offset))
            (if selects_base l then loc_for_vaddr after offset else ok l))
      × (loc_for_vaddr (before ++ l ∷ after) (l.hipc + offset)
          ≡ or_else
              (loc_for_vaddr before (l.hipc + offset))
              (loc_for_vaddr after (l.hipc + offset)))
search-loc_for_vaddr before after l offset special hb ha = (
  search_behind before (l ∷ after) (l.hipc + offset) hb
      ∙ ap (or_else (loc_for_vaddr before (l.hipc + offset)))
          (search_special l after offset special ha),
  loc_for_vaddr_behind before (l ∷ after) (l.hipc + offset)
      ∙ ap (or_else (loc_for_vaddr before (l.hipc + offset)))
          (passed_over l after (l.hipc + offset) special),
)
