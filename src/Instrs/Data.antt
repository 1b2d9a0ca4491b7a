-- ===== src/Instrs/Data.antt =====
-- src/x86_64/instrs/data_instrs.cc: moves, and what the instructions share. `Encode`
-- gives the encoder with the bytes that it wrote, whose number the code returns.
use katara.Prelude.{ℕ, Bool, true, false, not, ◌||◌, ◌&&◌, ◌==◌, if◌then◌else◌, some, none}
use katara.Prelude.Int.{ℤ, pos, ◌+ℤ◌}
use katara.Prelude.Result.{Result, ok, err, failed, bad_access, ◌>>=◌}
use katara.X86.Ops.{
  Size, s8, s32, s64, bits_of, Reg, Imm, Rm, Operand, operand_size, operand_requires_rex,
}
use katara.Instrs.Linker.{Linker, DataView, add_func_ref}
use katara.Instrs.Encoder.{
  Encoder, emit_operand_size, emit_rex, emit_opcode, emit_opcode_ext, emit_opcode_reg,
  emit_modrm_reg, emit_rm, emit_imm,
}

abbrev pub same_size : Size → Size → Bool
same_size a b = bits_of a == bits_of b

abbrev pub operand_of : Rm → Operand
operand_of (Rm.reg r) = Operand.reg r
operand_of (Rm.mem m) = Operand.mem m

abbrev pub rm_size : Rm → Size
rm_size (Rm.reg r) = r.size
rm_size (Rm.mem m) = m.size

abbrev pub rm_requires_rex : Rm → Bool
unfolding operand_requires_rex
rm_requires_rex rm = operand_requires_rex (operand_of rm)

abbrev pub emit_rex_if : Bool → Encoder → Result Encoder
emit_rex_if true e = emit_rex e
emit_rex_if false e = ok e

pub data MovType : Type 0 where
  rm_reg reg_rm reg_imm rm_imm reg_func_ref rm_func_ref : MovType

pub record Mov : Type 0 where
  pub mov_type : MovType
  pub dst : Rm
  pub src : Operand

-- An immediate has the size of the destination, or 32 bits for one of 64 bits.
abbrev pub imm_fits : Size → Size → Bool
imm_fits dst src = same_size dst src || (same_size dst s64 && same_size src s32)

unfoldable pub new_mov : Rm → Operand → Result Mov
new_mov (Rm.reg d) (Operand.imm i) =
    if imm_fits d.size i.size
    then ok (record { mov_type = MovType.reg_imm; dst = Rm.reg d; src = Operand.imm i })
    else err failed
new_mov (Rm.reg d) (Operand.func_ref f) =
    if not (same_size d.size s64)
    then err failed
    else ok (record { mov_type = MovType.reg_func_ref; dst = Rm.reg d; src = Operand.func_ref f })
new_mov (Rm.reg d) (Operand.reg r) =
    if not (same_size d.size r.size)
    then err failed
    else ok (record { mov_type = MovType.reg_rm; dst = Rm.reg d; src = Operand.reg r })
new_mov (Rm.reg d) (Operand.mem m) =
    if not (same_size d.size m.size)
    then err failed
    else ok (record { mov_type = MovType.reg_rm; dst = Rm.reg d; src = Operand.mem m })
new_mov (Rm.reg d) (Operand.block_ref b) = err failed
new_mov (Rm.mem d) (Operand.imm i) =
    if same_size i.size s64
    then err failed
    else if imm_fits d.size i.size
    then ok (record { mov_type = MovType.rm_imm; dst = Rm.mem d; src = Operand.imm i })
    else err failed
new_mov (Rm.mem d) (Operand.func_ref f) =
    if not (same_size d.size s64)
    then err failed
    else ok (record { mov_type = MovType.rm_func_ref; dst = Rm.mem d; src = Operand.func_ref f })
new_mov (Rm.mem d) (Operand.reg r) =
    if not (same_size d.size r.size)
    then err failed
    else ok (record { mov_type = MovType.rm_reg; dst = Rm.mem d; src = Operand.reg r })
new_mov (Rm.mem d) _ = err failed

-- `dst_.reg()` and the like fail on an operand of another kind.
abbrev pub as_reg : Rm → Result Reg
as_reg (Rm.reg r) = ok r
as_reg (Rm.mem m) = err failed

abbrev pub operand_as_reg : Operand → Result Reg
operand_as_reg (Operand.reg r) = ok r
operand_as_reg _ = err failed

abbrev pub operand_as_rm : Operand → Result Rm
operand_as_rm (Operand.reg r) = ok (Rm.reg r)
operand_as_rm (Operand.mem m) = ok (Rm.mem m)
operand_as_rm _ = err failed

abbrev pub operand_as_imm : Operand → Result Imm
operand_as_imm (Operand.imm i) = ok i
operand_as_imm _ = err failed

abbrev pub operand_as_func_ref : Operand → Result ℤ
operand_as_func_ref (Operand.func_ref f) = ok f
operand_as_func_ref _ = err failed

-- `imm_view_.value()`: a view of four bytes on the immediate of 32 bits.
abbrev pub imm_view : ℤ → Encoder → Result DataView
imm_view base e = elim e.imm [
  | none ↦ err bad_access
  | some i ↦ ok (record { base = base +ℤ pos i; size = pos 4 })
]

abbrev pub opcode_by_size : Size → ℕ → ℕ → ℕ
opcode_by_size size small large = if same_size size s8 then small else large

abbrev pub zero_imm : Imm
zero_imm = record { size = s32; value = pos 0 }

-- The opcode of a move and what it has in its bytes.
unfoldable pub mov_opcode : MovType → Size → Encoder → Result Encoder
unfolding emit_opcode emit_opcode_ext
mov_opcode MovType.rm_reg size e = emit_opcode e (opcode_by_size size 0x88 0x89)
mov_opcode MovType.reg_rm size e = emit_opcode e (opcode_by_size size 0x8a 0x8b)
mov_opcode MovType.reg_imm size e = emit_opcode e (opcode_by_size size 0xb0 0xb8)
mov_opcode MovType.reg_func_ref size e = emit_opcode e (opcode_by_size size 0xb0 0xb8)
mov_opcode MovType.rm_imm size e =
    emit_opcode e (opcode_by_size size 0xc6 0xc7) >>= λ e'. emit_opcode_ext e' 0
mov_opcode MovType.rm_func_ref size e =
    emit_opcode e (opcode_by_size size 0xc6 0xc7) >>= λ e'. emit_opcode_ext e' 0

unfoldable pub mov_dst : Mov → Encoder → Result Encoder
unfolding emit_rm emit_modrm_reg emit_opcode_reg
mov_dst m e = elim m.mov_type [
  | MovType.rm_reg ↦ emit_rm e m.dst
  | MovType.rm_imm ↦ emit_rm e m.dst
  | MovType.rm_func_ref ↦ emit_rm e m.dst
  | MovType.reg_rm ↦ (as_reg m.dst >>= λ r. emit_modrm_reg e r)
  | MovType.reg_imm ↦ (as_reg m.dst >>= λ r. emit_opcode_reg e r 0 0)
  | MovType.reg_func_ref ↦ (as_reg m.dst >>= λ r. emit_opcode_reg e r 0 0)
]

unfoldable pub mov_func_ref : Linker → ℤ → Operand → Encoder → Result (Linker × Encoder)
unfolding emit_imm add_func_ref
mov_func_ref l base src e = do
  e' ← emit_imm e zero_imm
  f ← operand_as_func_ref src
  view ← imm_view base e'
  ok (add_func_ref l f view, e')

unfoldable pub mov_src : Linker → ℤ → Mov → Encoder → Result (Linker × Encoder)
unfolding emit_rm emit_modrm_reg emit_imm mov_func_ref
mov_src l base m e = elim m.mov_type [
  | MovType.rm_reg ↦ (operand_as_reg m.src >>= λ r. emit_modrm_reg e r >>= λ e'. ok (l, e'))
  | MovType.reg_rm ↦ (operand_as_rm m.src >>= λ rm. emit_rm e rm >>= λ e'. ok (l, e'))
  | MovType.reg_imm ↦ (operand_as_imm m.src >>= λ i. emit_imm e i >>= λ e'. ok (l, e'))
  | MovType.rm_imm ↦ (operand_as_imm m.src >>= λ i. emit_imm e i >>= λ e'. ok (l, e'))
  | MovType.reg_func_ref ↦ mov_func_ref l base m.src e
  | MovType.rm_func_ref ↦ mov_func_ref l base m.src e
]

-- `Mov::Encode` into a view at `base`, of which the encoder starts with nothing written.
unfoldable pub encode_mov : Linker → ℤ → Encoder → Mov → Result (Linker × Encoder)
unfolding operand_size operand_requires_rex emit_operand_size emit_rex mov_opcode mov_dst mov_src
encode_mov l base e m = do
  size ← operand_size m.src
  e1 ← emit_operand_size e size
  e2 ← emit_rex_if (rm_requires_rex m.dst || operand_requires_rex m.src) e1
  e3 ← mov_opcode m.mov_type size e2
  e4 ← mov_dst m e3
  mov_src l base m e4
