-- ===== src/Frame/Tests.antt =====
-- src/frame.cpp: the start of a CIE as gcc writes it for x86-64, decoded.
use libdwarfpp.Base.{◌≡◌, ◌≢◌, refl, ◌∷◌, [], ℕ, true, false, none, arith, ok, err, out_of_fuel}
use libdwarfpp.Base.Int.{negsuc, ◌*ℤ◌}
use libdwarfpp.Reader.Leb.{leb_value}
use libdwarfpp.Reader.{read_uleb128, uleb_loop, shl_int}
use libdwarfpp.Frame.{CfaOp, cfa_op}
use libdwarfpp.Frame.Decode.{
  Params, frame_instrlist, instrlist_loop, decode_instr, operands, uleb128_register_and_offset,
  factored,
}
use libdwarfpp.Frame.Assemble.{Leb, Instr, assemble_all}
use libdwarfpp.Frame.RoundTrip.{meanings, frame_instrlist-assemble_all}
use libdwarfpp.Frame.Total.{frame_instrlist-ne-out_of_fuel}

abbrev x86_64 : Params
x86_64 = record {
  host = record { host_is_little_endian = true; host_is_big_endian = false; one_order = refl };
  data_alignment_factor = negsuc 7;
  addrlen = 8;
  use_host_byte_order = true;
}

abbrev byte : ℕ → Leb
byte n = record { first = n; more = [] }

-- DW_CFA_def_cfa: r7 ofs 8
abbrev def_cfa : Instr
def_cfa = record {
  op = CfaOp.def_cfa;
  small = 0;
  fixed = 0;
  reg = byte 7;
  value = byte 8;
  expr = [];
}

-- DW_CFA_offset: r16 at cfa-8
abbrev offset_ra : Instr
offset_ra = record {
  op = CfaOp.offset;
  small = 16;
  fixed = 0;
  reg = byte 0;
  value = byte 1;
  expr = [];
}

cie_bytes :
    frame_instrlist x86_64 (0x0c ∷ 7 ∷ 8 ∷ 0x90 ∷ 1 ∷ [])
    ≡ ok (
        record {
          base_op = 0;
          extended_op = 0x0c;
          fp_register = 7;
          offset_or_block_len = 8;
          expr_block = none;
          instr_offset = 0;
        }
        ∷ record {
          base_op = 2;
          extended_op = 0;
          fp_register = 16;
          offset_or_block_len = 0xfffffffffffffff8;
          expr_block = none;
          instr_offset = 0;
        }
        ∷ [])
unfolding frame_instrlist instrlist_loop decode_instr cfa_op operands uleb128_register_and_offset
    read_uleb128 uleb_loop shl_int factored
cie_bytes = refl

frame_instrlist-assemble_all_example :
    frame_instrlist x86_64 (assemble_all x86_64 (def_cfa ∷ offset_ra ∷ []))
    ≡ ok (meanings x86_64 (def_cfa ∷ offset_ra ∷ []))
unfolding leb_value ◌*ℤ◌
frame_instrlist-assemble_all_example =
    frame_instrlist-assemble_all x86_64 (def_cfa ∷ offset_ra ∷ []) refl (
      record {
        small_lt = omega arith;
        reg_ok = record { groups = (omega arith, tt); short = omega arith; fits = omega arith };
        value_ok = record { groups = (omega arith, tt); short = omega arith; fits = omega arith };
        operand_ok = tt;
      },
      (
        record {
          small_lt = omega arith;
          reg_ok = record { groups = (omega arith, tt); short = omega arith; fits = omega arith };
          value_ok = record { groups = (omega arith, tt); short = omega arith; fits = omega arith };
          operand_ok = refl;
        },
        tt,
      ),
    )

frame_instrlist-ne-out_of_fuel_example :
    frame_instrlist x86_64 (0x0c ∷ 7 ∷ 0x88 ∷ []) ≢ err out_of_fuel
frame_instrlist-ne-out_of_fuel_example =
    frame_instrlist-ne-out_of_fuel x86_64 (0x0c ∷ 7 ∷ 0x88 ∷ [])
