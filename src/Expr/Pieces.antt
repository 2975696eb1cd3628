-- ===== src/Expr/Pieces.antt =====
-- src/expr.cpp and include/dwarfpp/expr.hpp: the pieces of a location expression, and the piece
-- that holds a byte.
use libdwarfpp.Base.{
  ℕ, zero, suc, ◌+◌, ◌-◌, ◌*◌, ◌/◌, ◌%◌, ◌^◌, Bool, true, false, ◌&&◌, ◌||◌, List, [], ◌∷◌, ◌++◌,
}
use libdwarfpp.Base.{length, take, get_elem?, ltb, leb, ◌==◌, if◌then◌else◌, Option, none, some}
use libdwarfpp.Base.{Outcome, ok, err, assertion, undefined, no_entry, ◌>>=◌, ◌>>◌, guard}
use libdwarfpp.Expr.{ExprInstr}

abbrev pub is_piece : ExprInstr → Bool
is_piece i = i.lr_atom == 0x93

abbrev pub is_bit_piece : ExprInstr → Bool
is_bit_piece i = i.lr_atom == 0x9d

-- The loop of byte_pieces: `seg` is the operations since the last piece, `n` the bytes done. Behind
-- the loop, the whole expression is the only piece if no byte has been done.
unfoldable pub byte_pieces_loop :
    List ExprInstr → List ExprInstr → List ExprInstr → ℕ → Outcome (List (List ExprInstr × ℕ))
byte_pieces_loop whole [] seg n =
    guard (length seg == 0 || n == 0) assertion >> ok (if n == 0 then (whole, 0) ∷ [] else [])
byte_pieces_loop whole (i ∷ is) seg n =
    let after = byte_pieces_loop whole is [] ((n + i.lr_number) % 2 ^ 64) in
    let on = byte_pieces_loop whole is (seg ++ i ∷ []) n in
    if is_piece i
    then after >>= (λ ps. ok ((seg, i.lr_number) ∷ ps))
    else if is_bit_piece i
    then err assertion
    else on

abbrev pub byte_pieces : List ExprInstr → Outcome (List (List ExprInstr × ℕ))
byte_pieces whole = byte_pieces_loop whole whole [] 0

-- The loop of piece_for_byte_offset.
unfoldable pub find_piece : List (List ExprInstr × ℕ) → ℕ → ℕ → Outcome (List ExprInstr)
find_piece [] offset cur_off = err no_entry
find_piece ((x, n) ∷ ps) offset cur_off =
    let rest = find_piece ps offset ((cur_off + n) % 2 ^ 64) in
    if n == 0
    then ok x
    else if leb cur_off offset && ltb offset ((cur_off + n) % 2 ^ 64)
    then ok x
    else rest

unfoldable pub piece_for_byte_offset : List ExprInstr → ℕ → Outcome (List ExprInstr)
piece_for_byte_offset whole offset = byte_pieces whole >>= λ ps. find_piece ps offset 0

-- loc_expr::piece: the operations between its two iterators, the piece operation included.
pub record Piece : Type 0 where
  pub ops : List ExprInstr
  pub bit_offset : ℕ
  pub implicit_piece : Bool

-- The size that a piece operation states; that of a bit piece has a second argument, which the
-- source does not read.
abbrev pub piece_bits : ExprInstr → ℕ
piece_bits i = if is_piece i then i.lr_number * 8 % 2 ^ 64 else i.lr_number

unfoldable pub all_pieces_loop :
    List ExprInstr → List ExprInstr → List ExprInstr → ℕ → Outcome (List Piece)
all_pieces_loop whole [] seg n =
    guard (length seg == 0 || n == 0) assertion
    >> ok
        (if n == 0 then record { ops = whole; bit_offset = 0; implicit_piece = true } ∷ [] else [])
all_pieces_loop whole (i ∷ is) seg n =
    let after = all_pieces_loop whole is [] ((n + piece_bits i) % 2 ^ 64) in
    let on = all_pieces_loop whole is (seg ++ i ∷ []) n in
    if is_piece i || is_bit_piece i
    then after
      >>= (λ ps. ok (record { ops = seg ++ i ∷ []; bit_offset = n; implicit_piece = false } ∷ ps))
    else on

abbrev pub all_pieces : List ExprInstr → Outcome (List Piece)
all_pieces whole = all_pieces_loop whole whole [] 0

-- *(second - 1), for an iterator `n` operations behind the first: undefined before the first.
abbrev pub last_before : List ExprInstr → ℕ → Outcome ExprInstr
last_before is zero = err undefined
last_before is (suc n) = elim (get_elem? is n) [ none ↦ err undefined | some i ↦ ok i ]

module _ (p : Piece) where
  -- piece::size_in_bits
  unfoldable pub size_in_bits : Outcome (Option ℕ)
  size_in_bits = if p.implicit_piece then ok none else (do
    i ← last_before p.ops (length p.ops)
    guard (is_piece i || is_bit_piece i) assertion
    ok (some (piece_bits i)))

  -- piece::size_in_bytes, rounded up, and piece::size_in_bytes_exact
  unfoldable pub size_in_bytes : Outcome (Option ℕ)
  unfolding size_in_bits
  size_in_bytes = do
    n ← size_in_bits
    ok (elim n [ none ↦ none | some n ↦ some (if n % 8 == 0 then n / 8 else 1 + n / 8) ])

  unfoldable pub size_in_bytes_exact : Outcome (Option ℕ)
  unfolding size_in_bits
  size_in_bytes_exact = do
    n ← size_in_bits
    ok (elim n [ none ↦ none | some n ↦ if n % 8 == 0 then some (n / 8) else none ])

  abbrev pub offset_in_bytes : ℕ
  offset_in_bytes = p.bit_offset / 8

  abbrev pub offset_in_bytes_exact : Option ℕ
  offset_in_bytes_exact = if p.bit_offset % 8 == 0 then some (p.bit_offset / 8) else none

  -- piece::copy and piece::copy_as_if_whole
  abbrev pub copy : List ExprInstr
  copy = p.ops

  unfoldable pub copy_as_if_whole : Outcome (List ExprInstr)
  copy_as_if_whole =
      if p.implicit_piece
      then ok copy
      else guard (ltb 0 (length p.ops)) assertion >> ok (take (length p.ops - 1) p.ops)

  abbrev pub op_count : ℕ
  op_count = if p.implicit_piece then length p.ops else length p.ops - 1
