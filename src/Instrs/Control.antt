-- ===== src/Instrs/Control.antt =====
-- src/x86_64/instrs/control_flow_instrs.cc: jumps, calls and returns. The instructions that the code writes
-- without `InstrEncoder` go byte by byte into the view, which checks the indices; the result is the number
-- of bytes with the bytes.
use Prim.Native.Nat.{bit_or}
use katara.Prelude.{ℕ, not, if◌then◌else◌, List, [], ◌∷◌}
use katara.Prelude.Int.{ℤ, pos}
use katara.Prelude.Result.{Result, ok, err, failed, ◌>>=◌}
use katara.X86.Ops.{s64, Rm, operand_requires_rex}
use katara.Instrs.Linker.{DataView, Linker, add_func_ref, add_block_ref, sub_view}
use katara.Instrs.Encoder.{Encoder, emit, emit_rex, emit_opcode, emit_opcode_ext, emit_rm}
use katara.Instrs.Data.{same_size, rm_size, rm_requires_rex, emit_rex_if}
use katara.Instrs.Stack.{InstrCond, cond_number}

-- `code[0] = …; code[1] = …`.
unfoldable pub emit_all : Encoder → List ℕ → Result Encoder
unfolding emit
emit_all e [] = ok e
emit_all e (b ∷ bs) = do e' ← emit e b; emit_all e' bs

-- The view at `base` on the code that the encoder may write.
abbrev pub view_of : ℤ → Encoder → DataView
view_of base e = record { base = base; size = pos e.capacity }

unfoldable pub encode_jcc : Linker → ℤ → Encoder → InstrCond → ℤ → Result (Linker × Encoder)
unfolding emit_all sub_view add_block_ref
encode_jcc l base e cond dst = do
  e' ← emit_all e (0x0f ∷ bit_or 0x80 (cond_number cond) ∷ 0x00 ∷ 0x00 ∷ 0x00 ∷ 0x00 ∷ [])
  view ← sub_view (view_of base e) (pos 2) (pos 6)
  ok (add_block_ref l dst view, e')

unfoldable pub new_jmp : Rm → Result Rm
new_jmp rm = if not (same_size (rm_size rm) s64) then err failed else ok rm

unfoldable pub encode_jmp : Encoder → Rm → Result Encoder
unfolding operand_requires_rex emit_rex emit_opcode emit_opcode_ext emit_rm
encode_jmp e rm = do
  e1 ← emit_rex_if (rm_requires_rex rm) e
  e2 ← emit_opcode e1 0xff
  e3 ← emit_opcode_ext e2 4
  emit_rm e3 rm

unfoldable pub encode_jmp_block : Linker → ℤ → Encoder → ℤ → Result (Linker × Encoder)
unfolding emit_all sub_view add_block_ref
encode_jmp_block l base e dst = do
  e' ← emit_all e (0xe9 ∷ 0x00 ∷ 0x00 ∷ 0x00 ∷ 0x00 ∷ [])
  view ← sub_view (view_of base e) (pos 1) (pos 5)
  ok (add_block_ref l dst view, e')

unfoldable pub encode_call : Encoder → Rm → Result Encoder
unfolding operand_requires_rex emit_rex emit_opcode emit_opcode_ext emit_rm
encode_call e rm = do
  e1 ← emit_rex_if (rm_requires_rex rm) e
  e2 ← emit_opcode e1 0xff
  e3 ← emit_opcode_ext e2 2
  emit_rm e3 rm

unfoldable pub encode_call_func : Linker → ℤ → Encoder → ℤ → Result (Linker × Encoder)
unfolding emit_all sub_view add_func_ref
encode_call_func l base e callee = do
  e' ← emit_all e (0xe8 ∷ 0x00 ∷ 0x00 ∷ 0x00 ∷ 0x00 ∷ [])
  view ← sub_view (view_of base e) (pos 1) (pos 5)
  ok (add_func_ref l callee view, e')

unfoldable pub encode_syscall : Encoder → Result Encoder
unfolding emit_all
encode_syscall e = emit_all e (0x0f ∷ 0x05 ∷ [])

unfoldable pub encode_ret : Encoder → Result Encoder
unfolding emit_all
encode_ret e = emit_all e (0xc3 ∷ [])
