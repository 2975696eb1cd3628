-- ===== src/Frame/Saved.antt =====
-- src/frame.cpp: DW_CFA_offset, from its bytes to the rule of its register.
use libdwarfpp.Base.{ℕ, ◌+◌, ◌/◌, ◌^◌, ◌<◌, ◌≡◌, refl, ap, ◌∙◌, arith, true, Bool}
use libdwarfpp.Base.{Option, none, some, List, [], ◌∷◌, ltb}
use libdwarfpp.Base.{Outcome, ok, err, assertion, ◌>>=◌}
use libdwarfpp.Base.Int.{fits_int64, ℤ, pos, negsuc, to_int32, to_word64, ◌*ℤ◌}
use mathlib.Core.Path.{subst}
use libdwarfpp.Expr.{LocExpr}
use libdwarfpp.Frame.{CfaOp, cfa_op, FrameOp}
use libdwarfpp.Frame.Rows.{RegisterDef, IntervalMap}
use libdwarfpp.Frame.Interpret.{InstrsResults, Working, step, selected, interpret_op}
use libdwarfpp.Frame.Decode.{Params, frame_instrlist}
use libdwarfpp.Frame.Assemble.{Instr, IsValid, unsigned, meaning, assemble_all, product}
use libdwarfpp.Frame.RoundTrip.{meanings, frame_instrlist-assemble_all}
use libdwarfpp.Frame.Rows.{saved_at_offset_from_cfa_r, saved_at_offset_from_cfa_w}
use libdwarfpp.Frame.Interpret.{interpret_loop}
use libdwarfpp.Frame.Rules.{IsSorted, find_def-modify_same}
use libdwarfpp.Frame.Restore.{rule_after}

module _ (m : IntervalMap) (cfa_column : ℕ)
    (try_construct : Option (List ℕ) → ℕ → Option LocExpr) where
  -- The place that an offset rule gives, relative to the CFA.
  abbrev pub saved_offset : ℕ → Outcome (Working m) → Outcome ℤ
  saved_offset n r = rule_after m cfa_column try_construct n r >>= saved_at_offset_from_cfa_r

  pub offset_step :
      (initial : Option (InstrsResults m)) (op : FrameOp) (s : Working m)
      → IsSorted s.current_row_defs
      → saved_offset op.fp_register (step m cfa_column try_construct initial CfaOp.offset op s)
        ≡ ok (to_int32 op.offset_or_block_len)
  unfolding step
  offset_step initial op s h =
      ap
        (λ (o : Option RegisterDef).
          elim o as (λ _. Outcome RegisterDef) [ none ↦ err assertion | some d ↦ ok d ]
          >>= saved_at_offset_from_cfa_r)
        (find_def-modify_same (saved_at_offset_from_cfa_w (to_int32 op.offset_or_block_len))
          op.fp_register s.current_row_defs h)

-- A signed number of 32 bits comes back from the unsigned field of 64 bits.
abbrev pub fits_int32 : ℤ → Bool
fits_int32 (pos n) = ltb n (2 ^ 31)
fits_int32 (negsuc n) = ltb n (2 ^ 31)

to_int32-to_word64 : (z : ℤ) → fits_int32 z ≡ true → to_int32 (to_word64 z) ≡ z
to_int32-to_word64 (pos n) h = ground arith
to_int32-to_word64 (negsuc n) h = ground arith

-- The instruction that the decoder makes of DW_CFA_offset selects the case of DW_CFA_offset.
selected-offset :
    (p : Params) (i : Instr) (rest : List ℕ)
    → i.small < 64
    → selected (meaning p CfaOp.offset i rest) ≡ some CfaOp.offset
unfolding meaning cfa_op
selected-offset p i rest h = let two : (0x80 + i.small) / 64 ≡ 2 = omega arith in rw two refl

meaning-offset :
    (p : Params) (i : Instr) (rest : List ℕ)
    → i.small < 64
    → ((meaning p CfaOp.offset i rest).fp_register ≡ i.small)
      × ((meaning p CfaOp.offset i rest).offset_or_block_len ≡ product p (pos (unsigned i.value)))
unfolding meaning
meaning-offset p i rest h = (omega arith, refl)

one_offset :
    (m : IntervalMap) (cfa_column : ℕ) (try_construct : Option (List ℕ) → ℕ → Option LocExpr)
    (initial : Option (InstrsResults m)) (op : FrameOp) (s : Working m)
    → selected op ≡ some CfaOp.offset
    → interpret_loop m cfa_column try_construct initial (op ∷ []) s
      ≡ step m cfa_column try_construct initial CfaOp.offset op s
unfolding interpret_loop interpret_op step
one_offset m cfa tc initial op s h = rw (h, interpret_op) refl

-- From bytes to a rule: a DW_CFA_offset with a register and a number, decoded and interpreted, saves
-- the register at the product of the number and the data alignment factor from the CFA, a signed
-- number. The product fits 32 bits.
pub saved_offset_lem :
    (m : IntervalMap) (cfa_column : ℕ) (try_construct : Option (List ℕ) → ℕ → Option LocExpr)
    (initial : Option (InstrsResults m)) (p : Params) (i : Instr) (s : Working m)
    → IsValid p (record i { op = CfaOp.offset })
    → fits_int64 p.data_alignment_factor ≡ true
    → fits_int32 (p.data_alignment_factor *ℤ pos (unsigned i.value)) ≡ true
    → IsSorted s.current_row_defs
    → (frame_instrlist p (assemble_all p (record i { op = CfaOp.offset } ∷ [])) >>= λ ops.
        saved_offset m cfa_column try_construct i.small
          (interpret_loop m cfa_column try_construct initial ops s))
      ≡ ok (p.data_alignment_factor *ℤ pos (unsigned i.value))
unfolding assemble_all meanings
saved_offset_lem m cfa tc initial p i s v hd hf hs =
    ap
      (λ (r : Outcome (List FrameOp)).
        r >>= λ ops. saved_offset m cfa tc i.small (interpret_loop m cfa tc initial ops s))
      (frame_instrlist-assemble_all p (j ∷ []) hd (v, tt))
    ∙ ap (λ (r : Outcome (Working m)). saved_offset m cfa tc i.small r)
        (one_offset m cfa tc initial op s (selected-offset p j (assemble_all p []) v.small_lt))
    ∙ read (offset_step m cfa tc initial op s hs)
  where
    j : Instr
    j = record i { op = CfaOp.offset }

    op : FrameOp
    op = meaning p CfaOp.offset j (assemble_all p [])

    z : ℤ
    z = p.data_alignment_factor *ℤ pos (unsigned i.value)

    read :
        saved_offset m cfa tc op.fp_register (step m cfa tc initial CfaOp.offset op s)
          ≡ ok (to_int32 op.offset_or_block_len)
        → saved_offset m cfa tc i.small (step m cfa tc initial CfaOp.offset op s) ≡ ok z
    read h =
        let fields = meaning-offset p j (assemble_all p []) v.small_lt in
        subst (λ n. saved_offset m cfa tc n (step m cfa tc initial CfaOp.offset op s) ≡ ok z)
          fields.0
          (h
            ∙ ap (λ (n : ℕ). ok (to_int32 n)) fields.1
            ∙ ap (λ (t : ℤ). ok t) (to_int32-to_word64 z hf))
