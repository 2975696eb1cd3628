-- ===== src/Frame/Fixtures.antt =====
-- src/frame.cpp: a small CIE and FDE for x86-64, with functions for interval maps.
use libdwarfpp.Base.{
  ℕ, ◌-◌, ◌^◌, ◌≤◌, ◌<◌, ◌≡◌, refl, ◌⊎◌, arith, true, false, ◌&&◌, ltb, leb, if◌then◌else◌,
}
use libdwarfpp.Base.{Option, none, some, List, [], ◌∷◌}
use libdwarfpp.Base.Int.{ℤ, pos, negsuc}
use libdwarfpp.Expr.{LocExpr}
use libdwarfpp.Frame.{FrameOp}
use libdwarfpp.Frame.Decode.{Params, blank, with_offset}
use libdwarfpp.Frame.Rows.{
  RowDefs, RegisterDef, IntervalMap, visible, indeterminate_def, register_plus_offset_w,
  saved_at_offset_from_cfa_w,
}
use libdwarfpp.Frame.Interpret.{InstrsResults, Working}

abbrev pub add_function : ℕ → ℕ → RowDefs → (ℕ → Option RowDefs) → ℕ → Option RowDefs
add_function lo hi defs rows a =
    if leb lo a && ltb a hi then elim (rows a) [ some d ↦ some d | none ↦ visible defs ] else rows a

pub add_function_outside :
    (lo hi : ℕ) (defs : RowDefs) (rows : ℕ → Option RowDefs) (a : ℕ)
    → (a < lo) ⊎ (hi ≤ a)
    → add_function lo hi defs rows a ≡ rows a
add_function_outside lo hi defs rows a h = ground arith

pub add_function_inside :
    (lo hi : ℕ) (defs : RowDefs) (rows : ℕ → Option RowDefs) (a : ℕ)
    → lo ≤ a
    → a < hi
    → rows a ≡ none
    → add_function lo hi defs rows a ≡ visible defs
add_function_inside lo hi defs rows a h k e =
    let from : leb lo a ≡ true = ground arith in
    let to : ltb a hi ≡ true = ground arith in rw (from, to, e) refl

abbrev pub function_map : IntervalMap
function_map = record {
  Rows = ℕ → Option RowDefs;
  empty = λ a. none;
  add = add_function;
  find = λ rows a. rows a;
  find-empty = λ a. refl;
  find-add_outside = add_function_outside;
  find-add_inside = add_function_inside;
}

abbrev pub no_exprs : Option (List ℕ) → ℕ → Option LocExpr
no_exprs block len = none

abbrev pub x86_64 : Params
x86_64 = record {
  host = record { host_is_little_endian = true; host_is_big_endian = false; one_order = refl };
  data_alignment_factor = negsuc 7;
  addrlen = 8;
  use_host_byte_order = true;
}

-- DW_CFA_def_cfa: r7 ofs 8; DW_CFA_offset: r16 at cfa-8
abbrev pub cie_instrs : List ℕ
cie_instrs = 0x0c ∷ 7 ∷ 8 ∷ 0x90 ∷ 1 ∷ []

-- DW_CFA_advance_loc: 4; DW_CFA_def_cfa_offset: 16
abbrev pub fde_instrs : List ℕ
fde_instrs = 0x44 ∷ 0x0e ∷ 16 ∷ []

abbrev pub fde_ops : List FrameOp
fde_ops = with_offset 4 (blank 0x44) ∷ with_offset 16 (blank 0x0e) ∷ []

abbrev pub cfa_def : ℤ → RegisterDef
cfa_def n = register_plus_offset_w (pos 7, n) indeterminate_def

abbrev pub ra_def : RegisterDef
ra_def = saved_at_offset_from_cfa_w (negsuc 7) indeterminate_def

abbrev pub cie_result : InstrsResults function_map
cie_result = record {
  rows = λ a. none;
  unfinished_row = (16, ra_def) ∷ (1436, cfa_def (pos 8)) ∷ [];
  unfinished_row_addr = 0x1000;
}

abbrev pub fde_result : InstrsResults function_map
fde_result = record {
  rows =
      add_function 0x1004 0x1021 ((16, ra_def) ∷ (1436, cfa_def (pos 16)) ∷ [])
        (add_function 0x1000 0x1004 ((16, ra_def) ∷ (1436, cfa_def (pos 8)) ∷ []) (λ a. none));
  unfinished_row = [];
  unfinished_row_addr = 2 ^ 64 - 1;
}

abbrev pub state : Working function_map
state = record {
  rows = λ a. none;
  current_row_defs = (16, ra_def) ∷ (1436, cfa_def (pos 8)) ∷ [];
  current_row_addr = 0x1000;
  remembered_row_defs = [];
}
