-- ===== src/Expr/Split.antt =====
-- src/expr.cpp: byte_pieces and piece_for_byte_offset on an expression that is made of pieces.
use libdwarfpp.Base.{ℕ, ◌+◌, ◌%◌, ◌^◌, ◌≤◌, ◌<◌, ◌≡◌, refl, sym, ap, ◌∙◌, arith, false}
use libdwarfpp.Base.{List, [], ◌∷◌, ◌++◌, append_assoc, append-nil, All}
use libdwarfpp.Base.{ok, err, no_entry}
use libdwarfpp.Expr.{ExprInstr}
use libdwarfpp.Expr.Pieces.{
  is_piece, is_bit_piece, byte_pieces, byte_pieces_loop, find_piece, piece_for_byte_offset,
}

-- An operation inside a piece.
abbrev pub IsInner : ExprInstr → Type 0
IsInner i = (is_piece i ≡ false) × (is_bit_piece i ≡ false)

-- DW_OP_piece of `n` bytes.
abbrev pub piece_instr : ℕ → ExprInstr
piece_instr n = record { lr_atom = 0x93; lr_number = n; lr_number2 = 0; lr_offset = 0 }

-- The expression of some pieces, each with its operations and its size in bytes.
unfoldable pub joined : List (List ExprInstr × ℕ) → List ExprInstr
joined [] = []
joined ((x, n) ∷ ps) = x ++ piece_instr n ∷ joined ps

abbrev pub total : List (List ExprInstr × ℕ) → ℕ
total [] = 0
total ((x, n) ∷ ps) = n + total ps

abbrev pub ArePieces : List (List ExprInstr × ℕ) → Type 0
ArePieces ps = All (λ p. All IsInner p.0) ps

module _ (whole : List ExprInstr) where
  inner_loop :
      (x rest seg : List ExprInstr) (n : ℕ)
      → All IsInner x
      → byte_pieces_loop whole (x ++ rest) seg n ≡ byte_pieces_loop whole rest (seg ++ x) n
  unfolding byte_pieces_loop
  inner_loop [] rest seg n h = ap (λ t. byte_pieces_loop whole rest t n) (sym (append-nil seg))
  inner_loop (i ∷ x) rest seg n ((h, h'), hs) =
      rw (h, h', byte_pieces_loop)
        (inner_loop x rest (seg ++ i ∷ []) n hs
          ∙ ap (λ t. byte_pieces_loop whole rest t n) (append_assoc seg (i ∷ []) x))

  byte_pieces_loop-joined :
      (ps : List (List ExprInstr × ℕ)) (n : ℕ)
      → ArePieces ps
      → 1 ≤ n + total ps
      → n + total ps < 2 ^ 64
      → byte_pieces_loop whole (joined ps) [] n ≡ ok ps
  unfolding joined byte_pieces_loop
  byte_pieces_loop-joined [] n h h1 h2 = ground arith
  byte_pieces_loop-joined ((x, k) ∷ ps) n (h, hs) h1 h2 =
      let sum : (n + k) % 2 ^ 64 ≡ n + k = omega arith in
      inner_loop x (piece_instr k ∷ joined ps) [] n h
      ∙ rw (sum, byte_pieces_loop-joined ps (n + k) hs (omega arith) (omega arith)) refl

-- The pieces of an expression, of which some byte is located, are found again, with their operations
-- and sizes. There are fewer than 2 ^ 64 bytes.
pub byte_pieces-joined :
    (ps : List (List ExprInstr × ℕ))
    → ArePieces ps
    → 1 ≤ total ps
    → total ps < 2 ^ 64
    → byte_pieces (joined ps) ≡ ok ps
byte_pieces-joined ps h h1 h2 =
    byte_pieces_loop-joined (joined ps) ps 0 h (omega arith) (omega arith)

abbrev pub HasSize : List ExprInstr × ℕ → Type 0
HasSize p = 1 ≤ p.1

total-append : (xs ys : List (List ExprInstr × ℕ)) → total (xs ++ ys) ≡ total xs + total ys
total-append [] ys = omega arith
total-append ((x, n) ∷ xs) ys = omega (arith, total-append xs ys)

skip_piece :
    (y : List ExprInstr) (j : ℕ) (ps : List (List ExprInstr × ℕ)) (offset cur : ℕ)
    → 1 ≤ j
    → cur + j ≤ offset
    → cur + j < 2 ^ 64
    → find_piece ((y, j) ∷ ps) offset cur ≡ find_piece ps offset (cur + j)
unfolding find_piece
skip_piece y j ps offset cur h1 h2 h3 =
    let sum : (cur + j) % 2 ^ 64 ≡ cur + j = omega arith in rw sum (ground arith)

find_piece_at :
    (front : List (List ExprInstr × ℕ)) (x : List ExprInstr) (n : ℕ)
    (back : List (List ExprInstr × ℕ)) (k cur : ℕ)
    → All HasSize front
    → k < n
    → cur + total front + n < 2 ^ 64
    → find_piece (front ++ (x, n) ∷ back) (cur + total front + k) cur ≡ ok x
unfolding find_piece
find_piece_at [] x n back k cur h hk hn = ground arith
find_piece_at ((y, j) ∷ front) x n back k cur (h, hs) hk hn =
    let offset : ℕ = cur + (j + total front) + k in
    skip_piece y j (front ++ (x, n) ∷ back) offset cur h (omega arith) (omega arith)
    ∙ ap (λ (t : ℕ). find_piece (front ++ (x, n) ∷ back) t (cur + j)) (omega arith)
    ∙ find_piece_at front x n back k (cur + j) hs hk (omega arith)

find_piece_past :
    (ps : List (List ExprInstr × ℕ)) (offset cur : ℕ)
    → All HasSize ps
    → cur + total ps ≤ offset
    → offset < 2 ^ 64
    → find_piece ps offset cur ≡ err no_entry
unfolding find_piece
find_piece_past [] offset cur h hp ho = refl
find_piece_past ((y, j) ∷ ps) offset cur (h, hs) hp ho =
    skip_piece y j ps offset cur h (omega arith) (omega arith)
    ∙ find_piece_past ps offset (cur + j) hs (omega arith) ho

All-append-left : (xs ys : List (List ExprInstr × ℕ)) → All HasSize (xs ++ ys) → All HasSize xs
All-append-left [] ys h = tt
All-append-left (x ∷ xs) ys (h, hs) = (h, All-append-left xs ys hs)

-- The byte `k` of a piece is found in this piece: its offset is `k` more than the sizes of the pieces
-- in front of it. All pieces have a size, and there are fewer than 2 ^ 64 bytes.
pub piece_for_byte_offset-joined :
    (front : List (List ExprInstr × ℕ)) (x : List ExprInstr) (n : ℕ)
    (back : List (List ExprInstr × ℕ)) (k : ℕ)
    → ArePieces (front ++ (x, n) ∷ back)
    → All HasSize (front ++ (x, n) ∷ back)
    → total (front ++ (x, n) ∷ back) < 2 ^ 64
    → k < n
    → piece_for_byte_offset (joined (front ++ (x, n) ∷ back)) (total front + k) ≡ ok x
unfolding piece_for_byte_offset
piece_for_byte_offset-joined front x n back k h hs ht hk =
    let sum = total-append front ((x, n) ∷ back) in
    rw (byte_pieces-joined (front ++ (x, n) ∷ back) h (omega (arith, sum)) ht) (
      ap (λ (t : ℕ). find_piece (front ++ (x, n) ∷ back) t 0) (omega arith)
      ∙ find_piece_at front x n back k 0 (All-append-left front _ hs) hk (omega (arith, sum)))

-- Past the last piece there is none.
pub piece_for_byte_offset_past :
    (ps : List (List ExprInstr × ℕ)) (offset : ℕ)
    → ArePieces ps
    → All HasSize ps
    → 1 ≤ total ps
    → total ps ≤ offset
    → offset < 2 ^ 64
    → piece_for_byte_offset (joined ps) offset ≡ err no_entry
unfolding piece_for_byte_offset
piece_for_byte_offset_past ps offset h hs h1 ht ho =
    rw (byte_pieces-joined ps h h1 (omega arith)) (find_piece_past ps offset 0 hs (omega arith) ho)
