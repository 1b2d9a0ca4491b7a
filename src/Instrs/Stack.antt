-- ===== src/Instrs/Stack.antt =====
-- src/x86_64/instrs/data_instrs.cc and instr_cond.h: exchanges, the stack, and bytes set by a condition.
use Prim.Native.Nat.{bit_and, bit_or}
use katara.Prelude.{ℕ, ◌+◌, Bool, false, not, ◌||◌, ◌&&◌, ◌==◌, if◌then◌else◌}
use katara.Prelude.Result.{Result, ok, err, failed, ◌>>=◌}
use katara.X86.Ops.{
  Size, s8, s16, s64, Reg, Imm, Rm, Operand, operand_size, operand_requires_rex, reg_requires_rex,
}
use katara.Instrs.Encoder.{
  Encoder, emit_operand_size, emit_rex, emit_opcode, emit_opcode_two, emit_opcode_ext,
  emit_opcode_reg, emit_modrm_reg, emit_rm, emit_imm,
}
use katara.Instrs.Data.{
  same_size, operand_of, rm_size, rm_requires_rex, emit_rex_if, as_reg, opcode_by_size,
}

pub record Xchg : Type 0 where
  pub op_a : Rm
  pub op_b : Reg

unfoldable pub new_xchg : Rm → Reg → Result Xchg
new_xchg rm r =
    if not (same_size (rm_size rm) r.size) then err failed else ok (record { op_a = rm; op_b = r })

unfoldable pub xchg_can_use_reg_a : Xchg → Bool
xchg_can_use_reg_a x = elim x.op_a [
  | Rm.mem m ↦ false
  | Rm.reg r ↦ not (same_size r.size s8) && (x.op_b.reg == 0 || r.reg == 0)
]

unfoldable pub encode_xchg : Encoder → Xchg → Result Encoder
unfolding emit_operand_size emit_rex emit_opcode emit_rm emit_modrm_reg xchg_can_use_reg_a
    reg_requires_rex
encode_xchg e x = do
  e1 ← emit_operand_size e (rm_size x.op_a)
  e2 ← emit_rex_if (rm_requires_rex x.op_a || reg_requires_rex x.op_b) e1
  (if xchg_can_use_reg_a x
      then (as_reg x.op_a >>= λ r. emit_opcode e2 (0x90 + bit_and (r.reg + x.op_b.reg) 0x07))
      else (do
        e3 ← emit_opcode e2 (opcode_by_size (rm_size x.op_a) 0x86 0x87)
        e4 ← emit_rm e3 x.op_a
        emit_modrm_reg e4 x.op_b))

-- `Push` and `Pop` hold an operand that is no reference.
unfoldable pub new_push : Rm → Result Operand
new_push rm =
    if not (same_size (rm_size rm) s16) && not (same_size (rm_size rm) s64)
    then err failed
    else ok (operand_of rm)

unfoldable pub new_push_imm : Imm → Result Operand
new_push_imm i = if same_size i.size s64 then err failed else ok (Operand.imm i)

abbrev emit_size_unless_64 : Size → Encoder → Result Encoder
emit_size_unless_64 size e = if not (same_size size s64) then emit_operand_size e size else ok e

unfoldable pub encode_push : Encoder → Operand → Result Encoder
unfolding operand_size operand_requires_rex emit_operand_size emit_rex emit_opcode emit_opcode_reg
    emit_opcode_ext emit_rm emit_imm
encode_push e op = do
  size ← operand_size op
  e1 ← emit_size_unless_64 size e
  e2 ← emit_rex_if (operand_requires_rex op) e1
  elim op [
    | Operand.reg r ↦ (emit_opcode e2 0x50 >>= λ e3. emit_opcode_reg e3 r 0 0)
    | Operand.mem m ↦
        (emit_opcode e2 0xff >>= λ e3. emit_opcode_ext e3 6 >>= λ e4. emit_rm e4 (Rm.mem m))
    | Operand.imm i ↦ (emit_opcode e2 (opcode_by_size size 0x6a 0x68) >>= λ e3. emit_imm e3 i)
    | _ ↦ ok e2
  ]

unfoldable pub encode_pop : Encoder → Rm → Result Encoder
unfolding operand_requires_rex emit_operand_size emit_rex emit_opcode emit_opcode_reg
    emit_opcode_ext emit_rm
encode_pop e rm = do
  e1 ← emit_size_unless_64 (rm_size rm) e
  e2 ← emit_rex_if (rm_requires_rex rm) e1
  elim rm [
    | Rm.reg r ↦ (emit_opcode e2 0x58 >>= λ e3. emit_opcode_reg e3 r 0 0)
    | Rm.mem m ↦
        (emit_opcode e2 0x8f >>= λ e3. emit_opcode_ext e3 0 >>= λ e4. emit_rm e4 (Rm.mem m))
  ]

-- The enumerators of `InstrCond`, without their second names.
pub data InstrCond : Type 0 where
  overflow no_overflow carry no_carry zero no_zero carry_zero no_carry_zero sign no_sign parity
        no_parity less greater_or_equal less_or_equal greater :
      InstrCond

abbrev pub cond_number : InstrCond → ℕ
cond_number c = elim c [
  | InstrCond.overflow ↦ 0x00
  | InstrCond.no_overflow ↦ 0x01
  | InstrCond.carry ↦ 0x02
  | InstrCond.no_carry ↦ 0x03
  | InstrCond.zero ↦ 0x04
  | InstrCond.no_zero ↦ 0x05
  | InstrCond.carry_zero ↦ 0x06
  | InstrCond.no_carry_zero ↦ 0x07
  | InstrCond.sign ↦ 0x08
  | InstrCond.no_sign ↦ 0x09
  | InstrCond.parity ↦ 0x0a
  | InstrCond.no_parity ↦ 0x0b
  | InstrCond.less ↦ 0x0c
  | InstrCond.greater_or_equal ↦ 0x0d
  | InstrCond.less_or_equal ↦ 0x0e
  | InstrCond.greater ↦ 0x0f
]

unfoldable pub encode_setcc : Encoder → InstrCond → Rm → Result Encoder
unfolding operand_requires_rex emit_rex emit_opcode_two emit_rm
encode_setcc e cond op = do
  e1 ← emit_rex_if (rm_requires_rex op) e
  e2 ← emit_opcode_two e1 0x0f (bit_or 0x90 (cond_number cond))
  emit_rm e2 op
