-- ===== src/Frame/Swapped.antt =====
-- src/frame.cpp: how DW_CFA_val_offset and DW_CFA_val_offset_sf read their second operand.
use libdwarfpp.Base.{ℕ, ◌≡◌, List, ◌++◌, ok, true}
use libdwarfpp.Base.Int.{pos, fits_int64, ◌*ℤ◌}
use libdwarfpp.Frame.{CfaOp}
use libdwarfpp.Frame.Decode.{Params, operands, blank, with_register, with_offset}
use libdwarfpp.Frame.Assemble.{Instr, IsReadable, bytes, unsigned, signed, product}
use libdwarfpp.Frame.Operands.{register_and_factored_offset, register_sleb128_offset}

-- The number of DW_CFA_val_offset is read as a signed one, and that of DW_CFA_val_offset_sf as an
-- unsigned one, for operands of five bytes at most, below 2 ^ 31, and a product that fits 64 bits.
pub val_offset_lem :
    (p : Params) (i : Instr) (byte : ℕ) (rest : List ℕ)
    → IsReadable i.reg
    → IsReadable i.value
    → fits_int64 p.data_alignment_factor ≡ true
    → fits_int64 (p.data_alignment_factor *ℤ signed i.value) ≡ true
    → (operands p CfaOp.val_offset byte ((bytes i.reg ++ bytes i.value) ++ rest)
        ≡ ok (
          with_offset (product p (signed i.value)) (with_register (unsigned i.reg) (blank byte)),
          rest,
        ))
      × (operands p CfaOp.val_offset_sf byte ((bytes i.reg ++ bytes i.value) ++ rest)
          ≡ ok (
            with_offset
                (product p (pos (unsigned i.value)))
                (with_register (unsigned i.reg) (blank byte)),
            rest,
          ))
unfolding operands
val_offset_lem p i byte rest hr hv hd hf = (
  register_sleb128_offset p i rest hr hv (blank byte) hf,
  register_and_factored_offset p i rest hr hv (blank byte) hd,
)
