-- ===== src/Instrs/Tests.antt =====
-- Tests of the instructions and the linker.
use katara.Prelude.{ℕ, ◌≡◌, refl, arith, leb, if◌then◌else◌, [], ◌∷◌, inl}
use katara.Prelude.Int.{ℤ, pos, negsuc, ◌+ℤ◌, ◌-ℤ◌}
use katara.Prelude.Result.{ok, err, failed}
use katara.X86.Ops.{s64, Mem, IsMem, Rm}
use katara.X86.Encode.{RmBytes}
use katara.Instrs.Encoder.{Encoder, new_encoder}
use katara.Instrs.Stack.{InstrCond}
use katara.Instrs.Arithmetic.{UnaryAlInstr}
use katara.Instrs.Single.{SingleInstr, encode_single, instr_bytes, Reads, encode_single_exact}
use katara.Instrs.Linker.{
  Patch, Linker, Code, add_block_ref, add_func_ref, apply_patches, address_at,
}
use katara.Instrs.Patches.{AllLead, OutsideAll, apply_patches_exact}
use katara.Instrs.Control.{encode_jcc, encode_jmp_block, encode_call_func}
use katara.Instrs.Jumps.{holding, jump_view, four_zeros, jumps_exact}

-- [rbp + 4 * r9 - 16].
abbrev indexed : Mem
indexed = record { size = s64; base_reg = 5; index_reg = 9; scale = 2; disp = negsuc 15 }

indexed-IsMem : IsMem indexed
indexed-IsMem = record {
  base = inl (omega arith);
  index = inl (omega arith);
  not_stack_pointer = omega arith;
  factor = omega arith;
  word = ground arith;
}

abbrev zeros : ℕ → ℕ
zeros i = 0

abbrev neg : SingleInstr
neg = SingleInstr.unary UnaryAlInstr.neg_instr

encode_single_exact_example :
    (out : RmBytes) × (e : Encoder) × (encode_single (new_encoder 16 zeros) neg (Rm.mem indexed)
      ≡ ok e)
    × (e.code ≡ instr_bytes s64 0xf7 out)
    × Reads s64 (Rm.mem indexed) 3 out
encode_single_exact_example =
    encode_single_exact 16 zeros neg (Rm.mem indexed) (omega arith) (λ i. omega arith) indexed-IsMem

abbrev call_patch : Patch
call_patch = record { id = pos 7; view = record { base = pos 101; size = pos 4 } }

abbrev jump_patch : Patch
jump_patch = record { id = pos 2; view = record { base = pos 111; size = pos 4 } }

abbrev small_linker : Linker
small_linker = record {
  func_addrs = (pos 7, pos 50) ∷ [];
  block_addrs = (pos 2, pos 200) ∷ [];
  func_patches = call_patch ∷ [];
  block_patches = jump_patch ∷ [];
}

abbrev blank : Code
blank x = 0

apply_patches_exact_example :
    (code : Code) × (apply_patches small_linker blank ≡ ok code)
    × AllLead ((pos 7, pos 50) ∷ []) code (call_patch ∷ [])
    × AllLead ((pos 2, pos 200) ∷ []) code (jump_patch ∷ [])
    × ((x : ℤ) → OutsideAll (call_patch ∷ []) x → OutsideAll (jump_patch ∷ []) x → code x ≡ 0)
unfolding address_at ◌+ℤ◌ ◌-ℤ◌
apply_patches_exact_example =
    apply_patches_exact small_linker blank ((omega arith, pos 50, refl, ground arith), tt)
      ((omega arith, pos 200, refl, ground arith), tt) (tt, tt) (tt, tt)
      ((inl (omega arith), tt), tt)

jumps_exact_example :
    (encode_jcc small_linker (pos 100) (new_encoder 16 zeros) InstrCond.zero (pos 2) ≡ (
      if leb 7 16
      then ok (
        add_block_ref small_linker (pos 2) (jump_view (pos 100) 2),
        holding 16 zeros (0x0f ∷ (0x84 ∷ four_zeros)),
      )
      else err failed))
    × (encode_jmp_block small_linker (pos 100) (new_encoder 16 zeros) (pos 2) ≡ (
        if leb 6 16
        then ok (
          add_block_ref small_linker (pos 2) (jump_view (pos 100) 1),
          holding 16 zeros (0xe9 ∷ four_zeros),
        )
        else err failed))
    × (encode_call_func small_linker (pos 100) (new_encoder 16 zeros) (pos 2) ≡ (
        if leb 6 16
        then ok (
          add_func_ref small_linker (pos 2) (jump_view (pos 100) 1),
          holding 16 zeros (0xe8 ∷ four_zeros),
        )
        else err failed))
jumps_exact_example = jumps_exact small_linker (pos 100) 16 zeros InstrCond.zero (pos 2)
