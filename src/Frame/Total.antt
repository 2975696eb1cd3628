-- ===== src/Frame/Total.antt =====
-- src/frame.cpp: the loop of frame_instrlist ends on every input.
use mathlib.Core.Bool.{xor}
use libdwarfpp.Base.{ℕ, zero, suc, ◌≤◌, ◌≢◌, arith, Bool, true, none, some}
use libdwarfpp.Base.{List, [], ◌∷◌, bit_and, length, length-drop, if◌then◌else◌}
use libdwarfpp.Base.{Outcome, ok, err, assertion, out_of_fuel, ◌>>=◌, ◌>>◌, guard, false, undefined}
use libdwarfpp.Base.Int.{ℤ, pos, ltb_ℤ, leb_ℤ, to_int64, to_word64, fits_int64, ◌*ℤ◌}
use libdwarfpp.Reader.{read_uleb128, read_sleb128, read_addr}
use libdwarfpp.Reader.{read_2byte_le, read_4byte_le, read_2byte_be, read_4byte_be}
use libdwarfpp.Reader.Consume.{Consumes, Ends, Consumes-bind, Ends-bind, Consumes-mono, if-Consumes}
use libdwarfpp.Reader.Consume.{read_uleb128-Consumes, read_sleb128-Consumes, read_addr-Consumes}
use libdwarfpp.Reader.Consume.{read_2byte_le-Consumes, read_2byte_be-Consumes}
use libdwarfpp.Reader.Consume.{read_4byte_le-Consumes, read_4byte_be-Consumes}
use libdwarfpp.Frame.{CfaOp, cfa_op, FrameOp}
use libdwarfpp.Frame.Decode
use libdwarfpp.Frame.Decode.{
  Params, factored_sf, operands, decode_instr, instrlist_loop, frame_instrlist,
}

-- A read in the middle of an instruction.
then_read {ℓ κ} :
    {A : Type ℓ} {B : Type κ} (n : ℕ) (read : List ℕ → Outcome (A × List ℕ)) (cur : List ℕ)
    (f : A × List ℕ → Outcome (B × List ℕ))
    → ((bs : List ℕ) → Consumes (length bs) (read bs))
    → length cur ≤ n
    → ((a : A) (rest : List ℕ) → length rest ≤ n → Consumes n (f (a, rest)))
    → Consumes n (read cur >>= f)
then_read n read cur f c h k =
    Consumes-bind n (read cur) f (Consumes-mono (length cur) n (read cur) h (c cur)) k

factored_sf-Ends : (daf z : ℤ) → Ends (factored_sf daf z)
unfolding factored_sf
factored_sf-Ends daf z = ends (fits_int64 (daf *ℤ z))
  where
    ends : (b : Bool) → Ends (if b then ok (to_word64 (daf *ℤ z)) else err undefined)
    ends true = tt
    ends false = λ e. cc

guarded :
    (n : ℕ) (b : Bool) (d : FrameOp) (rest : List ℕ)
    → length rest ≤ n
    → Consumes n (guard b assertion >> ok (d, rest))
guarded n true d rest k = k
guarded n false d rest k = λ e. cc

module _ (n : ℕ) (d : FrameOp) (cur : List ℕ) (h : length cur ≤ n) where
  register_only-Consumes : Consumes n (Decode.uleb128_register_only d cur)
  unfolding Decode.uleb128_register_only
  register_only-Consumes = then_read n read_uleb128 cur _ read_uleb128-Consumes h (λ a rest k. k)

  offset_only-Consumes : Consumes n (Decode.uleb128_offset_only d cur)
  unfolding Decode.uleb128_offset_only
  offset_only-Consumes = then_read n read_uleb128 cur _ read_uleb128-Consumes h (λ a rest k. k)

  register_and_offset-Consumes : Consumes n (Decode.uleb128_register_and_offset d cur)
  unfolding Decode.uleb128_register_and_offset
  register_and_offset-Consumes =
      then_read n read_uleb128 cur _ read_uleb128-Consumes h
        λ a rest k. then_read n read_uleb128 rest _ read_uleb128-Consumes k (λ b rest' k'. k')

  block-Consumes : Consumes n (Decode.block d cur)
  unfolding Decode.block
  block-Consumes =
      then_read n read_uleb128 cur _ read_uleb128-Consumes h
        λ a rest k. omega (arith, length-drop a rest)

  module _ (daf : ℤ) where
    factored_offset-Consumes : Consumes n (Decode.uleb128_register_and_factored_offset daf d cur)
    unfolding Decode.uleb128_register_and_factored_offset
    factored_offset-Consumes =
        then_read n read_uleb128 cur _ read_uleb128-Consumes h
          λ a rest k. then_read n read_uleb128 rest _ read_uleb128-Consumes k (λ b rest' k'. k')

    register_sleb128-Consumes : Consumes n (Decode.uleb128_register_sleb128_offset daf d cur)
    unfolding Decode.uleb128_register_sleb128_offset
    register_sleb128-Consumes = then_read n read_uleb128 cur _ read_uleb128-Consumes h λ a rest k.
        then_read n read_sleb128 rest _ read_sleb128-Consumes k
          λ z rest' k'. Ends-bind n (factored_sf daf z) _ (factored_sf-Ends daf z) (λ w. k')

    sleb128_offset-Consumes : Consumes n (Decode.sleb128_offset_only daf d cur)
    unfolding Decode.sleb128_offset_only
    sleb128_offset-Consumes =
        then_read n read_sleb128 cur _ read_sleb128-Consumes h
          λ z rest' k'. Ends-bind n (factored_sf daf z) _ (factored_sf-Ends daf z) (λ w. k')

register_and_block-Consumes :
    (d : FrameOp) (cur : List ℕ) → Consumes (length cur) (Decode.register_and_block d cur)
unfolding Decode.register_and_block
register_and_block-Consumes d cur =
    then_read (length cur) read_uleb128 cur _ read_uleb128-Consumes (omega arith)
      λ a rest k. block-Consumes (length cur) (Decode.with_register a d) rest k

operands-Consumes :
    (p : Params) (op : CfaOp) (byte : ℕ) (cur : List ℕ)
    → Consumes (length cur) (operands p op byte cur)
unfolding operands
operands-Consumes p CfaOp.advance_loc byte cur = omega arith
operands-Consumes p CfaOp.restore byte cur = omega arith
operands-Consumes p CfaOp.nop byte cur = omega arith
operands-Consumes p CfaOp.remember_state byte cur = omega arith
operands-Consumes p CfaOp.restore_state byte cur = omega arith
operands-Consumes p CfaOp.offset byte cur =
    then_read (length cur) read_uleb128 cur _ read_uleb128-Consumes (omega arith) λ n rest k.
      let scaled : ℕ = Decode.factored p.data_alignment_factor n in
      guarded (length cur)
        (if ltb_ℤ p.data_alignment_factor (pos 0) then leb_ℤ (to_int64 scaled) (pos 0) else true)
        (Decode.with_offset scaled (Decode.with_register (bit_and byte 0x3f) (Decode.blank byte)))
        rest k
operands-Consumes p CfaOp.set_loc byte cur =
    Consumes-bind (length cur) (read_addr p.host p.addrlen cur p.use_host_byte_order) _
      (read_addr-Consumes p.host p.addrlen cur p.use_host_byte_order) (λ a rest k. k)
operands-Consumes p CfaOp.advance_loc1 byte [] = λ e. cc
operands-Consumes p CfaOp.advance_loc1 byte (b ∷ bs) = omega arith
operands-Consumes p CfaOp.advance_loc2 byte cur =
    Consumes-bind (length cur) _ _
      (if-Consumes (length cur) (xor p.host.host_is_big_endian p.use_host_byte_order)
        (read_2byte_le cur) (read_2byte_be cur) (read_2byte_le-Consumes cur)
        (read_2byte_be-Consumes cur))
      (λ a rest k. k)
operands-Consumes p CfaOp.advance_loc4 byte cur =
    Consumes-bind (length cur) _ _
      (if-Consumes (length cur) (xor p.host.host_is_big_endian p.use_host_byte_order)
        (read_4byte_le cur) (read_4byte_be cur) (read_4byte_le-Consumes cur)
        (read_4byte_be-Consumes cur))
      (λ a rest k. k)
operands-Consumes p CfaOp.restore_extended byte cur = register_only-Consumes _ _ cur (omega arith)
operands-Consumes p CfaOp.undefined byte cur = register_only-Consumes _ _ cur (omega arith)
operands-Consumes p CfaOp.same_value byte cur = register_only-Consumes _ _ cur (omega arith)
operands-Consumes p CfaOp.def_cfa_register byte cur = register_only-Consumes _ _ cur (omega arith)
operands-Consumes p CfaOp.offset_extended byte cur =
    factored_offset-Consumes _ _ cur (omega arith) p.data_alignment_factor
operands-Consumes p CfaOp.val_offset_sf byte cur =
    factored_offset-Consumes _ _ cur (omega arith) p.data_alignment_factor
operands-Consumes p CfaOp.def_cfa byte cur = register_and_offset-Consumes _ _ cur (omega arith)
operands-Consumes p CfaOp.register byte cur = register_and_offset-Consumes _ _ cur (omega arith)
operands-Consumes p CfaOp.offset_extended_sf byte cur =
    register_sleb128-Consumes _ _ cur (omega arith) p.data_alignment_factor
operands-Consumes p CfaOp.def_cfa_sf byte cur =
    register_sleb128-Consumes _ _ cur (omega arith) p.data_alignment_factor
operands-Consumes p CfaOp.val_offset byte cur =
    register_sleb128-Consumes _ _ cur (omega arith) p.data_alignment_factor
operands-Consumes p CfaOp.def_cfa_offset byte cur = offset_only-Consumes _ _ cur (omega arith)
operands-Consumes p CfaOp.gnu_args_size byte cur = offset_only-Consumes _ _ cur (omega arith)
operands-Consumes p CfaOp.def_cfa_offset_sf byte cur =
    sleb128_offset-Consumes _ _ cur (omega arith) p.data_alignment_factor
operands-Consumes p CfaOp.expression byte cur = register_and_block-Consumes _ cur
operands-Consumes p CfaOp.val_expression byte cur = register_and_block-Consumes _ cur
operands-Consumes p CfaOp.def_cfa_expression byte cur = block-Consumes _ _ cur (omega arith)

decode_instr-Consumes :
    (p : Params) (byte : ℕ) (cur : List ℕ) → Consumes (length cur) (decode_instr p byte cur)
unfolding decode_instr
decode_instr-Consumes p byte cur =
    elim (cfa_op (Decode.opcode_from_byte byte))
      as (λ o.
        Consumes (length cur)
          (elim o [ none ↦ err assertion | some op ↦ operands p op byte cur ])) [
            | none ↦ λ e. cc
            | some op ↦ operands-Consumes p op byte cur
          ]

loop-Ends :
    (p : Params) (fuel : ℕ) (bs : List ℕ) → length bs ≤ fuel → Ends (instrlist_loop p fuel bs)
unfolding instrlist_loop
loop-Ends p fuel [] h = tt
loop-Ends p zero (b ∷ bs) h = absurd (omega arith)
loop-Ends p (suc fuel) (b ∷ bs) h =
    round (decode_instr p b bs) (decode_instr-Consumes p b bs)
      (λ rest k. loop-Ends p fuel rest (omega arith))
  where
    push : (op : FrameOp) (r : Outcome (List FrameOp)) → Ends r → Ends (r >>= λ ops. ok (op ∷ ops))
    push op (ok ops) e = tt
    push op (err x) e = e

    round :
        (r : Outcome (FrameOp × List ℕ))
        → Consumes (length bs) r
        → ((rest : List ℕ) → length rest ≤ length bs → Ends (instrlist_loop p fuel rest))
        → Ends (r >>= λ t. instrlist_loop p fuel t.1 >>= λ ops. ok (t.0 ∷ ops))
    round (ok (op, rest)) c k = push op (instrlist_loop p fuel rest) (k rest c)
    round (err x) c k = c

-- On every input the decoder ends: with a list of instructions or a fault of the code, and
-- never because the rounds of the model's loop have run out.
pub frame_instrlist-ne-out_of_fuel :
    (p : Params) (seq : List ℕ) → frame_instrlist p seq ≢ err out_of_fuel
unfolding frame_instrlist
frame_instrlist-ne-out_of_fuel p seq =
    final (instrlist_loop p (length seq) seq) (loop-Ends p (length seq) seq (omega arith))
  where
    final : (r : Outcome (List FrameOp)) → Ends r → r ≢ err out_of_fuel
    final (ok ops) e = λ q. cc
    final (err x) e = λ q. e (cc)
