-- ===== src/Instrs/Arithmetic.antt =====
-- src/x86_64/instrs/arithmetic_logic_instrs.cc: the instructions with one operand and with two.
use katara.Prelude.{ℕ, Bool, true, false, not, ◌||◌, ◌==◌, if◌then◌else◌}
use katara.Prelude.Result.{Result, ok, err, failed, ◌>>=◌}
use katara.X86.Ops.{Size, s8, s64, Rm, Operand, operand_size, operand_requires_rex}
use katara.Instrs.Encoder.{
  Encoder, emit_operand_size, emit_rex, emit_opcode, emit_opcode_ext, emit_modrm_reg, emit_rm,
  emit_imm,
}
use katara.Instrs.Data.{
  same_size, rm_size, rm_requires_rex, emit_rex_if, imm_fits, as_reg, operand_as_reg, operand_as_rm,
  operand_as_imm, opcode_by_size,
}

-- `Encode` of the instructions with one operand: `Not`, `Neg`, `Mul`, `Div` and `Idiv`.
abbrev one_operand : Encoder → ℕ → ℕ → Rm → Result Encoder
one_operand e opcode ext op = do
  e1 ← emit_operand_size e (rm_size op)
  e2 ← emit_rex_if (rm_requires_rex op) e1
  e3 ← emit_opcode e2 opcode
  e4 ← emit_opcode_ext e3 ext
  emit_rm e4 op

pub data UnaryAlInstr : Type 0 where
  not_instr neg_instr : UnaryAlInstr

unfoldable pub unary_opcode_ext : UnaryAlInstr → ℕ
unary_opcode_ext i = elim i [ UnaryAlInstr.not_instr ↦ 2 | UnaryAlInstr.neg_instr ↦ 3 ]

unfoldable pub unary_opcode : UnaryAlInstr → Size → ℕ
unary_opcode i size = elim i [
  | UnaryAlInstr.not_instr ↦ opcode_by_size size 0xf6 0xf7
  | UnaryAlInstr.neg_instr ↦ opcode_by_size size 0xf6 0xf7
]

unfoldable pub encode_unary : Encoder → UnaryAlInstr → Rm → Result Encoder
unfolding emit_operand_size emit_rex emit_opcode emit_opcode_ext emit_rm unary_opcode
    unary_opcode_ext operand_requires_rex
encode_unary e i op = one_operand e (unary_opcode i (rm_size op)) (unary_opcode_ext i) op

unfoldable pub encode_mul : Encoder → Rm → Result Encoder
unfolding emit_operand_size emit_rex emit_opcode emit_opcode_ext emit_rm operand_requires_rex
encode_mul e factor = one_operand e (opcode_by_size (rm_size factor) 0xf6 0xf7) 4 factor

unfoldable pub encode_div : Encoder → Rm → Result Encoder
unfolding emit_operand_size emit_rex emit_opcode emit_opcode_ext emit_rm operand_requires_rex
encode_div e divisor = one_operand e (opcode_by_size (rm_size divisor) 0xf6 0xf7) 6 divisor

unfoldable pub encode_idiv : Encoder → Rm → Result Encoder
unfolding emit_operand_size emit_rex emit_opcode emit_opcode_ext emit_rm operand_requires_rex
encode_idiv e divisor = one_operand e (opcode_by_size (rm_size divisor) 0xf6 0xf7) 7 divisor

pub data OpEncoding : Type 0 where
  rm_imm rm_imm8 rm_reg reg_rm : OpEncoding

pub record BinaryAlInstr : Type 0 where
  pub op_encoding : OpEncoding
  pub op_a : Rm
  pub op_b : Operand

-- The constructor; a reference has no size that fits, or is no operand.
unfoldable pub new_binary_al : Rm → Operand → Result BinaryAlInstr
unfolding operand_size
new_binary_al a (Operand.imm i) =
    if same_size i.size s64
    then err failed
    else if imm_fits (rm_size a) i.size
    then ok (record { op_encoding = OpEncoding.rm_imm; op_a = a; op_b = Operand.imm i })
    else if same_size i.size s8
    then ok (record { op_encoding = OpEncoding.rm_imm8; op_a = a; op_b = Operand.imm i })
    else err failed
new_binary_al (Rm.reg r) b = do
  size ← operand_size b
  (if not (same_size r.size size)
      then err failed
      else ok (record { op_encoding = OpEncoding.reg_rm; op_a = Rm.reg r; op_b = b }))
new_binary_al (Rm.mem m) (Operand.reg r) =
    if not (same_size m.size r.size)
    then err failed
    else ok (record { op_encoding = OpEncoding.rm_reg; op_a = Rm.mem m; op_b = Operand.reg r })
new_binary_al (Rm.mem m) _ = err failed

unfoldable pub binary_can_use_reg_a : BinaryAlInstr → Bool
binary_can_use_reg_a i = elim i.op_encoding [
  | OpEncoding.rm_imm ↦ elim i.op_a [ Rm.reg r ↦ r.reg == 0 | Rm.mem m ↦ false ]
  | _ ↦ false
]

-- The classes derived from `BinaryALInstr`.
pub data BinaryAlOp : Type 0 where
  and or xor add adc sub sbb cmp : BinaryAlOp

-- Their opcodes: for the accumulator, with an immediate, with one of 8 bits, and for the two directions.
abbrev opcode_table : Bool → OpEncoding → Size → ℕ → ℕ → ℕ → ℕ → ℕ → ℕ → ℕ
opcode_table true e size a8 a rm8 rm reg8 reg = opcode_by_size size a8 a
opcode_table false OpEncoding.rm_imm size a8 a rm8 rm reg8 reg = opcode_by_size size 0x80 0x81
opcode_table false OpEncoding.rm_imm8 size a8 a rm8 rm reg8 reg = 0x83
opcode_table false OpEncoding.rm_reg size a8 a rm8 rm reg8 reg = opcode_by_size size rm8 rm
opcode_table false OpEncoding.reg_rm size a8 a rm8 rm reg8 reg = opcode_by_size size reg8 reg

unfoldable pub binary_opcode : BinaryAlOp → Bool → OpEncoding → Size → ℕ
binary_opcode op short e size = elim op [
  | BinaryAlOp.and ↦ opcode_table short e size 0x24 0x25 0x20 0x21 0x22 0x23
  | BinaryAlOp.or ↦ opcode_table short e size 0x0c 0x0d 0x08 0x09 0x0a 0x0b
  | BinaryAlOp.xor ↦ opcode_table short e size 0x34 0x35 0x30 0x31 0x32 0x33
  | BinaryAlOp.add ↦ opcode_table short e size 0x04 0x05 0x00 0x01 0x02 0x03
  | BinaryAlOp.adc ↦ opcode_table short e size 0x14 0x15 0x10 0x11 0x12 0x13
  | BinaryAlOp.sub ↦ opcode_table short e size 0x2c 0x2d 0x28 0x29 0x2a 0x2b
  | BinaryAlOp.sbb ↦ opcode_table short e size 0x1c 0x1d 0x18 0x19 0x1a 0x1b
  | BinaryAlOp.cmp ↦ opcode_table short e size 0x3c 0x3d 0x38 0x39 0x3a 0x3b
]

unfoldable pub binary_opcode_ext : BinaryAlOp → ℕ
binary_opcode_ext op = elim op [
  | BinaryAlOp.and ↦ 4
  | BinaryAlOp.or ↦ 1
  | BinaryAlOp.xor ↦ 6
  | BinaryAlOp.add ↦ 0
  | BinaryAlOp.adc ↦ 2
  | BinaryAlOp.sub ↦ 5
  | BinaryAlOp.sbb ↦ 3
  | BinaryAlOp.cmp ↦ 7
]

-- The extension, the first operand and the second, as `BinaryALInstr::Encode` writes them.
unfoldable pub binary_operands : BinaryAlOp → BinaryAlInstr → Encoder → Result Encoder
unfolding emit_opcode_ext emit_rm emit_modrm_reg emit_imm binary_opcode_ext
binary_operands op i e = elim i.op_encoding [
  | OpEncoding.rm_reg ↦
      (emit_rm e i.op_a >>= λ e1. operand_as_reg i.op_b >>= λ r. emit_modrm_reg e1 r)
  | OpEncoding.reg_rm ↦
      (as_reg i.op_a >>= λ r.
      emit_modrm_reg e r >>= λ e1. operand_as_rm i.op_b >>= λ rm. emit_rm e1 rm)
  | _ ↦
      (emit_opcode_ext e (binary_opcode_ext op) >>= λ e1.
      emit_rm e1 i.op_a >>= λ e2. operand_as_imm i.op_b >>= λ imm. emit_imm e2 imm)
]

unfoldable pub encode_binary : Encoder → BinaryAlOp → BinaryAlInstr → Result Encoder
unfolding emit_operand_size emit_rex emit_opcode emit_imm binary_opcode binary_operands
    binary_can_use_reg_a operand_requires_rex
encode_binary e op i = do
  e1 ← emit_operand_size e (rm_size i.op_a)
  e2 ← emit_rex_if (rm_requires_rex i.op_a || operand_requires_rex i.op_b) e1
  e3 ← emit_opcode e2 (binary_opcode op (binary_can_use_reg_a i) i.op_encoding (rm_size i.op_a))
  (if binary_can_use_reg_a i
      then (operand_as_imm i.op_b >>= λ imm. emit_imm e3 imm)
      else binary_operands op i e3)
