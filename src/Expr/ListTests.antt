-- ===== src/Expr/ListTests.antt =====
-- src/expr.cpp: location lists and pieces on small examples.
use libdwarfpp.Base.{◌≡◌, refl, ◌∷◌, [], List, ℕ, ◌+◌, arith, ok, err, no_entry, inr}
use libdwarfpp.Expr.{ExprInstr, LocExpr}
use libdwarfpp.Expr.Arith.{instr}
use libdwarfpp.Expr.Locate.{loc_for_vaddr, search, search-loc_for_vaddr}
use libdwarfpp.Expr.Pieces.{byte_pieces, byte_pieces_loop, piece_for_byte_offset, all_pieces}
use libdwarfpp.Expr.Split.{joined, byte_pieces-joined, piece_for_byte_offset-joined}
use libdwarfpp.Expr.Partition.{placed, all_pieces-joined}

-- In the register 3 first, then in the register 6.
abbrev early : LocExpr
early = record { instrs = instr 0x53 0 ∷ []; lopc = 0x10; hipc = 0x20 }

abbrev late : LocExpr
late = record { instrs = instr 0x56 0 ∷ []; lopc = 0x20; hipc = 0x40 }

abbrev selection : LocExpr
selection = record { instrs = []; lopc = 0xffffffffffffffff; hipc = 0x400000 }

second_holds : loc_for_vaddr (early ∷ late ∷ []) 0x20 ≡ ok late
unfolding loc_for_vaddr
second_holds = refl

-- The base is moved by 0x400000 behind the first entry.
search-loc_for_vaddr_example :
    (search (early ∷ selection ∷ late ∷ []) 0x400020 0 ≡ ok late)
    × (loc_for_vaddr (early ∷ selection ∷ late ∷ []) 0x400020 ≡ err no_entry)
unfolding loc_for_vaddr
search-loc_for_vaddr_example =
    search-loc_for_vaddr (early ∷ []) (late ∷ []) selection 0x20 (inr (refl, omega arith))
      ((refl, omega arith, omega arith, omega arith, omega arith), tt)
      ((refl, omega arith, omega arith, omega arith, omega arith), tt)

-- Four bytes in the register 3, then eight at an offset from the frame base.
abbrev in_register : List ExprInstr
in_register = instr 0x53 0 ∷ []

abbrev on_stack : List ExprInstr
on_stack = instr 0x91 8 ∷ []

abbrev two_pieces : List (List ExprInstr × ℕ)
two_pieces = (in_register, 4) ∷ (on_stack, 8) ∷ []

split_two :
    byte_pieces (instr 0x53 0 ∷ instr 0x93 4 ∷ instr 0x91 8 ∷ instr 0x93 8 ∷ []) ≡ ok two_pieces
unfolding byte_pieces_loop
split_two = refl

byte_pieces-joined_example : byte_pieces (joined two_pieces) ≡ ok two_pieces
byte_pieces-joined_example =
    byte_pieces-joined two_pieces (((refl, refl), tt), (((refl, refl), tt), tt)) (omega arith)
      (omega arith)

piece_for_byte_offset-joined_example :
    piece_for_byte_offset (joined two_pieces) (4 + 3) ≡ ok on_stack
piece_for_byte_offset-joined_example =
    piece_for_byte_offset-joined ((in_register, 4) ∷ []) on_stack 8 [] 3
      (((refl, refl), tt), (((refl, refl), tt), tt)) (omega arith, (omega arith, tt)) (omega arith)
      (omega arith)

all_pieces-joined_example : all_pieces (joined two_pieces) ≡ ok (placed 0 two_pieces)
all_pieces-joined_example =
    all_pieces-joined two_pieces (((refl, refl), tt), (((refl, refl), tt), tt)) (omega arith)
      (omega arith)
