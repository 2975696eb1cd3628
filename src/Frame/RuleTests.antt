-- ===== src/Frame/RuleTests.antt =====
-- src/frame.cpp: single instructions on the row of a small FDE for x86-64.
use libdwarfpp.Base.{ℕ, ◌<◌, ◌≡◌, refl, arith, false}
use libdwarfpp.Base.{none, some, [], ◌∷◌, ◌++◌, ok, ◌>>=◌}
use libdwarfpp.Base.Int.{pos, negsuc, ◌*ℤ◌}
use libdwarfpp.Reader.Leb.{leb_value, leb_signed}
use libdwarfpp.Frame.{CfaOp}
use libdwarfpp.Frame.Decode.{blank, with_offset, frame_instrlist, operands}
use libdwarfpp.Frame.Assemble.{
  Leb, Instr, IsReadable, assemble_all, bytes, unsigned, signed, product,
}
use libdwarfpp.Frame.Decode.{with_register}
use libdwarfpp.Frame.Rows.{same_value_w}
use libdwarfpp.Frame.Rows.{find_def, indeterminate_def, or_indeterminate}
use libdwarfpp.Frame.Interpret.{interpret_loop, step}
use libdwarfpp.Frame.Restore.{KeepsRule, rule_after, step-KeepsRule, restore_rule_lem}
use libdwarfpp.Frame.Saved.{saved_offset, saved_offset_lem}
use libdwarfpp.Frame.Equality.{same_def, same_def_refl}
use libdwarfpp.Frame.Swapped.{val_offset_lem}
use libdwarfpp.Frame.Fixtures.{function_map, no_exprs, x86_64, cie_result, state}

step-KeepsRule_example :
    KeepsRule function_map 1436 no_exprs 16 state
      (step function_map 1436 no_exprs none CfaOp.same_value (with_register 3 (blank 0x08)) state)
step-KeepsRule_example =
    step-KeepsRule function_map 1436 no_exprs 16 state none CfaOp.same_value
      (with_register 3 (blank 0x08)) (λ q. cc) (λ q. omega arith) (λ q. omega arith)

restore_rule_lem_example :
    rule_after function_map 1436 no_exprs 16 (
      step function_map 1436 no_exprs
        (some cie_result)
        CfaOp.restore
        (with_register 16 (blank 0xd0))
        state)
    ≡ ok (or_indeterminate (find_def cie_result.unfinished_row 16))
restore_rule_lem_example =
    restore_rule_lem function_map 1436 no_exprs cie_result (with_register 16 (blank 0xd0)) state
      ((omega arith, tt), (tt, tt)) refl

abbrev byte : ℕ → Leb
byte n = record { first = n; more = [] }

abbrev instr : CfaOp → Instr
instr op = record { op = op; small = 6; fixed = 0; reg = byte 6; value = byte 2; expr = [] }

byte_ok : (n : ℕ) → n < 128 → IsReadable (byte n)
unfolding leb_value
byte_ok n h = record { groups = (h, tt); short = omega arith; fits = omega arith }

saved_offset_lem_example :
    (frame_instrlist x86_64
        (assemble_all x86_64 (record (instr CfaOp.nop) { op = CfaOp.offset } ∷ []))
      >>= λ ops.
          saved_offset function_map 1436 no_exprs 6
            (interpret_loop function_map 1436 no_exprs none ops state))
    ≡ ok (negsuc 7 *ℤ pos (unsigned (byte 2)))
unfolding leb_value ◌*ℤ◌
saved_offset_lem_example =
    saved_offset_lem function_map 1436 no_exprs none x86_64 (instr CfaOp.nop) state
      (record {
        small_lt = omega arith;
        reg_ok = byte_ok 6 (omega arith);
        value_ok = byte_ok 2 (omega arith);
        operand_ok = refl;
      })
      refl refl ((omega arith, tt), (tt, tt))

-- The operand 127 is -1 as a signed number.
val_offset_lem_example :
    (operands x86_64 CfaOp.val_offset 0x14 ((bytes (byte 6) ++ bytes (byte 127)) ++ [])
      ≡ ok (
        with_offset
            (product x86_64 (signed (byte 127)))
            (with_register (unsigned (byte 6)) (blank 0x14)),
        [],
      ))
    × (operands x86_64 CfaOp.val_offset_sf 0x14 ((bytes (byte 6) ++ bytes (byte 127)) ++ [])
        ≡ ok (
          with_offset
              (product x86_64 (pos (unsigned (byte 127))))
              (with_register (unsigned (byte 6)) (blank 0x14)),
          [],
        ))
unfolding leb_value leb_signed ◌*ℤ◌
val_offset_lem_example =
    val_offset_lem x86_64 (record (instr CfaOp.val_offset) { value = byte 127 }) 0x14 []
      (byte_ok 6 (omega arith)) (byte_ok 127 (omega arith)) refl refl

-- "The same value" is not equal to itself.
same_def_refl_example :
    same_def (same_value_w indeterminate_def) (same_value_w indeterminate_def) ≡ false
same_def_refl_example = same_def_refl (same_value_w indeterminate_def)
