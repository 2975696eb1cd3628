-- ===== src/Expr/Partition.antt =====
-- src/expr.cpp and include/dwarfpp/expr.hpp: all_pieces against byte_pieces.
use libdwarfpp.Base.{
  ℕ, suc, ◌+◌, ◌-◌, ◌*◌, ◌/◌, ◌%◌, ◌^◌, ◌≤◌, ◌<◌, ◌≡◌, refl, sym, ap, ◌∙◌, arith, true, false,
}
use libdwarfpp.Base.{
  List, [], ◌∷◌, ◌++◌, append_assoc, append-nil, All, length, length-append, take-length, get_elem?,
}
use libdwarfpp.Base.{ltb, ◌==◌, some, ok}
use libdwarfpp.Expr.{ExprInstr}
use libdwarfpp.Expr.Pieces.{all_pieces, all_pieces_loop, Piece, size_in_bits}
use libdwarfpp.Expr.Pieces.{size_in_bytes_exact, copy_as_if_whole, last_before}
use libdwarfpp.Expr.Split.{IsInner, piece_instr, joined, total, ArePieces}

-- A piece with its operations and size, at an offset in bits.
abbrev pub piece_at : ℕ → List ExprInstr → ℕ → Piece
piece_at n x k = record { ops = x ++ piece_instr k ∷ []; bit_offset = n; implicit_piece = false }

-- The pieces, one behind the other.
unfoldable pub placed : ℕ → List (List ExprInstr × ℕ) → List Piece
placed n [] = []
placed n ((x, k) ∷ ps) = piece_at n x k ∷ placed (n + k * 8) ps

module _ (whole : List ExprInstr) where
  inner_pieces :
      (x rest seg : List ExprInstr) (n : ℕ)
      → All IsInner x
      → all_pieces_loop whole (x ++ rest) seg n ≡ all_pieces_loop whole rest (seg ++ x) n
  unfolding all_pieces_loop
  inner_pieces [] rest seg n h = ap (λ t. all_pieces_loop whole rest t n) (sym (append-nil seg))
  inner_pieces (i ∷ x) rest seg n ((h, h'), hs) =
      rw (h, h', all_pieces_loop)
        (inner_pieces x rest (seg ++ i ∷ []) n hs
          ∙ ap (λ t. all_pieces_loop whole rest t n) (append_assoc seg (i ∷ []) x))

  all_pieces_loop-joined :
      (ps : List (List ExprInstr × ℕ)) (n : ℕ)
      → ArePieces ps
      → 1 ≤ n + total ps * 8
      → n + total ps * 8 < 2 ^ 64
      → all_pieces_loop whole (joined ps) [] n ≡ ok (placed n ps)
  unfolding joined all_pieces_loop placed
  all_pieces_loop-joined [] n h h1 h2 = ground arith
  all_pieces_loop-joined ((x, k) ∷ ps) n (h, hs) h1 h2 =
      let sum : (n + k * 8 % 2 ^ 64) % 2 ^ 64 ≡ n + k * 8 = omega arith in
      inner_pieces x (piece_instr k ∷ joined ps) [] n h
      ∙ rw (sum, all_pieces_loop-joined ps (n + k * 8) hs (omega arith) (omega arith)) refl

-- The pieces that all_pieces makes of an expression, of which some byte is located, stand one
-- behind the other, with the operations and sizes that they have. There are fewer than 2 ^ 61 bytes.
pub all_pieces-joined :
    (ps : List (List ExprInstr × ℕ))
    → ArePieces ps
    → 1 ≤ total ps
    → total ps < 2 ^ 61
    → all_pieces (joined ps) ≡ ok (placed 0 ps)
all_pieces-joined ps h h1 h2 = all_pieces_loop-joined (joined ps) ps 0 h (omega arith) (omega arith)

last_is : (x : List ExprInstr) (i : ExprInstr) → get_elem? (x ++ i ∷ []) (length x) ≡ some i
last_is [] i = refl
last_is (y ∷ x) i = last_is x i

module _ (n : ℕ) (x : List ExprInstr) (k : ℕ) where
  piece_length : length (x ++ piece_instr k ∷ []) ≡ suc (length x)
  piece_length = omega (arith, length-append x (piece_instr k ∷ []))

  last_piece :
      last_before (x ++ piece_instr k ∷ []) (length (x ++ piece_instr k ∷ [])) ≡ ok (piece_instr k)
  last_piece = rw (piece_length, last_before, last_is x (piece_instr k)) refl

  -- What such a piece says of itself: its operations without the piece operation, and its size.
  pub piece_at_lem :
      k < 2 ^ 61
      → (copy_as_if_whole (piece_at n x k) ≡ ok x)
        × (size_in_bytes_exact (piece_at n x k) ≡ ok (some k))
  unfolding copy_as_if_whole size_in_bytes_exact size_in_bits
  piece_at_lem h =
      let nonempty : ltb 0 (suc (length x)) ≡ true = ground arith in
      let rest : suc (length x) - 1 ≡ length x = omega arith in
      let bits : k * 8 % 2 ^ 64 ≡ k * 8 = omega arith in
      let whole_bytes : (k * 8 % 8 == 0) ≡ true = ground arith in
      let bytes : k * 8 / 8 ≡ k = omega arith in
      (
        rw (piece_length, nonempty, rest) (ap (λ t. ok t) (take-length x (piece_instr k ∷ []))),
        rw (last_piece, bits, whole_bytes, bytes) refl,
      )
