-- ===== src/Frame/Coverage.antt =====
-- src/frame.cpp: the table of rows that Fde::decode makes, address by address.
use libdwarfpp.Base.{
  ℕ, ◌+◌, ◌%◌, ◌^◌, ◌≤◌, ◌<◌, ◌≡◌, refl, sym, ap, ◌∙◌, arith, inl, inr, Bool-cases,
}
use libdwarfpp.Base.{
  Bool, Option, none, some, List, [], ◌∷◌, ltb, true, false, Outcome, ok, err, ◌>>=◌,
}
use mathlib.Core.Path.{subst}
use libdwarfpp.Expr.{LocExpr}
use libdwarfpp.Frame.{FrameOp}
use libdwarfpp.Frame.Decode.{Params, frame_instrlist}
use libdwarfpp.Frame.Rows.{RowDefs, IntervalMap, visible}
use libdwarfpp.Frame.Interpret.{
  InstrsResults, Working, interpret_op, interpret_loop, start, results, add_unfinished_row,
}
use libdwarfpp.Frame.Interpret.{interpret_instructions, decode}
use libdwarfpp.Frame.InForce.{IsOpen, Grows, Covers, interpret_op-Covers}

module _ (m : IntervalMap) (cfa_column : ℕ) (try_construct : Option (List ℕ) → ℕ → Option LocExpr)
    (initial : Option (InstrsResults m)) where
  -- The rules in force at an address: those that are current when an instruction goes past it,
  -- or those at the end.
  unfoldable pub row_at : List FrameOp → Working m → ℕ → RowDefs
  row_at [] s a = s.current_row_defs
  row_at (op ∷ ops) s a = elim (interpret_op m cfa_column try_construct initial op s) [
    | err x ↦ s.current_row_defs
    | ok s' ↦ elim (ltb a s'.current_row_addr) [
      | true ↦ s.current_row_defs
      | false ↦ row_at ops s' a
    ]
  ]

  -- What a walk from `s` to `s'` has put at the address `a`.
  abbrev pub HasRow : List FrameOp → Working m → Working m → ℕ → Type 0
  HasRow ops s s' a =
      (a < s'.current_row_addr → m.find s'.rows a ≡ visible (row_at ops s a))
      × (s'.current_row_addr ≤ a → row_at ops s a ≡ s'.current_row_defs)

  pub interpret_loop-HasRow :
      (ops : List FrameOp) (s s' : Working m)
      → IsOpen m s
      → interpret_loop m cfa_column try_construct initial ops s ≡ ok s'
      → Grows m s s' × ((a : ℕ) → s.current_row_addr ≤ a → HasRow ops s s' a)
  unfolding interpret_loop row_at
  interpret_loop-HasRow [] s s' o h =
      let e : s ≡ s' = cc in
      subst (λ t. Grows m s t × ((a : ℕ) → s.current_row_addr ≤ a → HasRow [] s t a)) e
        (
          record { up = omega arith; below = λ b k. refl; above = o },
          λ a k. (λ l. absurd (omega arith), λ l. refl),
        )
  interpret_loop-HasRow (op ∷ ops) s s' o h =
      round (interpret_op m cfa_column try_construct initial op s)
        (interpret_op-Covers m cfa_column try_construct s o initial op) h
        (λ t o'. interpret_loop-HasRow ops t s' o')
    where
      at : Outcome (Working m) → ℕ → RowDefs
      at r a = elim r [
        | err x ↦ s.current_row_defs
        | ok t ↦ elim (ltb a t.current_row_addr) [
          | true ↦ s.current_row_defs
          | false ↦ row_at ops t a
        ]
      ]

      pick :
          (t : Working m) (a : ℕ)
          → s.current_row_addr ≤ a
          → Covers m s (ok t)
          → Grows m t s'
          → (t.current_row_addr ≤ a → HasRow ops t s' a)
          → (b : Bool) → ltb a t.current_row_addr ≡ b
          → (a < s'.current_row_addr
              → m.find s'.rows a
                ≡ visible (elim b [ true ↦ s.current_row_defs | false ↦ row_at ops t a ]))
            × (s'.current_row_addr ≤ a
                → elim b [ true ↦ s.current_row_defs | false ↦ row_at ops t a ]
                  ≡ s'.current_row_defs)
      pick t a l (g, c) rest k true e = (
        λ u. rest.below a (ground arith) ∙ c a l (ground arith),
        λ u. absurd (ground (arith, rest.up)),
      )
      pick t a l (g, c) rest k false e = k (ground arith)

      round :
          (r : Outcome (Working m))
          → Covers m s r
          → (r >>= λ t. interpret_loop m cfa_column try_construct initial ops t) ≡ ok s'
          → ((t : Working m)
              → IsOpen m t
              → interpret_loop m cfa_column try_construct initial ops t ≡ ok s'
              → Grows m t s' × ((a : ℕ) → t.current_row_addr ≤ a → HasRow ops t s' a))
          → Grows m s s'
            × ((a : ℕ)
                → s.current_row_addr ≤ a
                → (a < s'.current_row_addr → m.find s'.rows a ≡ visible (at r a))
                  × (s'.current_row_addr ≤ a → at r a ≡ s'.current_row_defs))
      round (err x) c q k = cc
      round (ok t) (g, c) q k =
          let rest = k t g.above q in
          (
            record {
              up = omega (arith, g.up, rest.0.up);
              below = λ b l. rest.0.below b (omega (arith, g.up)) ∙ g.below b l;
              above = rest.0.above;
            },
            λ a l. pick t a l (g, c) rest.0 (rest.1 a) (ltb a t.current_row_addr) refl,
          )

module _ (m : IntervalMap) (cfa_column : ℕ) (try_construct : Option (List ℕ) → ℕ → Option LocExpr)
    (p : Params) (initial : InstrsResults m) (ops : List FrameOp) where
  -- The state in which the instructions of an FDE are begun.
  abbrev pub begun : Working m
  begun = start m cfa_column try_construct initial.unfinished_row_addr (some initial)

  second_walk :
      (instr_bytes : List ℕ)
      → frame_instrlist (record p { use_host_byte_order = true }) instr_bytes ≡ ok ops
      → interpret_instructions m cfa_column try_construct p initial.unfinished_row_addr instr_bytes
          (some initial)
        ≡ (interpret_loop m cfa_column try_construct (some initial) ops begun >>= λ s.
            ok (results m cfa_column try_construct s))
  unfolding interpret_instructions
  second_walk instr_bytes h = rw h

  begun-IsOpen : IsOpen m begun
  unfolding start
  begun-IsOpen b h = m.find-empty b

  begun_addr : begun.current_row_addr ≡ initial.unfinished_row_addr
  unfolding start
  begun_addr = refl

  -- The last row is added with the high pc.
  last_row :
      (high a : ℕ) (w : Outcome (Working m)) {r : InstrsResults m}
      → initial.unfinished_row_addr ≤ a
      → a < high
      → ((s' : Working m)
          → w ≡ ok s'
          → Grows m begun s' × HasRow m cfa_column try_construct (some initial) ops begun s' a)
      → ((w >>= λ s. ok (results m cfa_column try_construct s)) >>= λ f.
          ok (add_unfinished_row m cfa_column try_construct high f))
        ≡ ok r
      → m.find r.rows a ≡ visible (row_at m cfa_column try_construct (some initial) ops begun a)
  last_row high a (err x) l u k h = cc
  last_row high a (ok s') {r} l u k h =
      let table : m.Rows = m.add s'.current_row_addr high s'.current_row_defs s'.rows in
      let grown = k s' refl in
      let same : table ≡ r.rows =
        ap (λ (o : Outcome (InstrsResults m)). elim o [ ok t ↦ t.rows | err x ↦ table ]) h in
      ap (λ (t : m.Rows). m.find t a) (sym same) ∙ elim (Bool-cases (ltb a s'.current_row_addr)) [
        | inl e ↦ m.find-add_outside _ high _ _ a (inl (ground arith)) ∙ grown.1.0 (ground arith)
        | inr e ↦
            m.find-add_inside _ high _ _ a (ground arith) u (grown.0.above a (ground arith))
            ∙ ap visible (sym (grown.1.1 (ground arith)))
      ]

-- The table that Fde::decode returns holds, at each address from the low pc of the FDE (or the
-- address to which the initial instructions have advanced) up to the end of its last row, the rules
-- in force there; an empty set of rules is not held.
pub find-decode :
    (m : IntervalMap) (cfa_column : ℕ) (try_construct : Option (List ℕ) → ℕ → Option LocExpr)
    (p : Params) (low_pc func_length : ℕ) (initial_instructions instr_bytes : List ℕ)
    {initial r : InstrsResults m} {ops : List FrameOp} (a : ℕ)
    → interpret_instructions m cfa_column try_construct p low_pc initial_instructions none
      ≡ ok initial
    → frame_instrlist (record p { use_host_byte_order = true }) instr_bytes ≡ ok ops
    → decode m cfa_column try_construct p low_pc func_length initial_instructions instr_bytes ≡ ok r
    → initial.unfinished_row_addr ≤ a
    → a < (low_pc + func_length + 1) % 2 ^ 64
    → m.find r.rows a
      ≡ visible (
          row_at m cfa_column try_construct
            (some initial)
            ops
            (begun m cfa_column try_construct p initial ops)
            a)
unfolding decode
find-decode m cfa tc p low len init bytes {initial} {r} {ops} a hi ho hd l u =
    let s₀ : Working m = begun m cfa tc p initial ops in
    let walk : Outcome (Working m) = interpret_loop m cfa tc (some initial) ops s₀ in
    last_row m cfa tc p initial ops ((low + len + 1) % 2 ^ 64) a walk l u
      (λ s' q.
        let done =
          interpret_loop-HasRow m cfa tc (some initial) ops s₀ s'
            (begun-IsOpen m cfa tc p initial ops) q in
        (done.0, done.1 a (rw (begun_addr m cfa tc p initial ops) l)))
      (rw (hi, second_walk m cfa tc p initial ops bytes ho) at hd)
