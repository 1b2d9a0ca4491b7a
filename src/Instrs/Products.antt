-- ===== src/Instrs/Products.antt =====
-- src/x86_64/instrs/arithmetic_logic_instrs.cc: multiplication, sign extension and the test instruction.
use katara.Prelude.{Bool, true, false, not, ◌||◌, ◌&&◌, ◌==◌, if◌then◌else◌}
use katara.Prelude.Int.{ℤ, pos, negsuc}
use katara.Prelude.Result.{Result, ok, err, failed, ◌>>=◌}
use katara.X86.Ops.{
  Size, s8, s16, s32, s64, Reg, Imm, Rm, Operand, operand_requires_rex, reg_requires_rex,
  imm_requires_rex,
}
use katara.Instrs.Encoder.{
  Encoder, emit_operand_size, emit_rex, emit_opcode, emit_opcode_two, emit_opcode_ext,
  emit_modrm_reg, emit_rm, emit_imm,
}
use katara.Instrs.Data.{
  same_size, rm_size, rm_requires_rex, emit_rex_if, imm_fits, operand_as_reg, operand_as_imm,
  opcode_by_size,
}

pub data ImulType : Type 0 where
  reg_ad_rm reg_rm reg_rm_imm reg_rm_imm8 : ImulType

pub record Imul : Type 0 where
  pub imul_type : ImulType
  pub factor_a : Reg
  pub factor_b : Rm
  pub factor_c : Imm

-- `factor_c_(0)` is an `int`.
abbrev no_factor_c : Imm
no_factor_c = record { size = s32; value = pos 0 }

unfoldable pub new_imul_one : Rm → Imul
new_imul_one rm = record {
  imul_type = ImulType.reg_ad_rm;
  factor_a = record { size = s8; reg = 0 };
  factor_b = rm;
  factor_c = no_factor_c;
}

unfoldable pub new_imul_two : Reg → Rm → Result Imul
new_imul_two r rm =
    if not (same_size r.size (rm_size rm)) || same_size r.size s8
    then err failed
    else ok (record {
      imul_type = ImulType.reg_rm;
      factor_a = r;
      factor_b = rm;
      factor_c = no_factor_c;
    })

unfoldable pub new_imul_three : Reg → Rm → Imm → Result Imul
new_imul_three r rm i =
    if not (same_size r.size (rm_size rm)) || same_size r.size s8 || same_size i.size s64
    then err failed
    else if imm_fits r.size i.size
    then ok (record { imul_type = ImulType.reg_rm_imm; factor_a = r; factor_b = rm; factor_c = i })
    else if same_size i.size s8
    then ok (record { imul_type = ImulType.reg_rm_imm8; factor_a = r; factor_b = rm; factor_c = i })
    else err failed

abbrev is_one : ℤ → Bool
is_one (pos n) = n == 1
is_one (negsuc n) = false

unfoldable pub imul_can_skip_imm : Imul → Bool
imul_can_skip_imm i = elim i.imul_type [
  | ImulType.reg_rm_imm ↦ is_one i.factor_c.value
  | ImulType.reg_rm_imm8 ↦ is_one i.factor_c.value
  | _ ↦ true
]

abbrev is_reg_ad_rm : ImulType → Bool
is_reg_ad_rm t = elim t [ ImulType.reg_ad_rm ↦ true | _ ↦ false ]

unfoldable pub encode_imul : Encoder → Imul → Result Encoder
unfolding emit_operand_size emit_rex emit_opcode emit_opcode_two emit_opcode_ext emit_modrm_reg
    emit_rm emit_imm imul_can_skip_imm operand_requires_rex reg_requires_rex imm_requires_rex
encode_imul e i = do
  e1 ← emit_operand_size e (rm_size i.factor_b)
  e2 ←
      emit_rex_if
        ((not (is_reg_ad_rm i.imul_type) && reg_requires_rex i.factor_a)
          || rm_requires_rex i.factor_b
          || (not (imul_can_skip_imm i) && imm_requires_rex i.factor_c))
        e1
  (if is_reg_ad_rm i.imul_type
      then (do
        e3 ← emit_opcode e2 (opcode_by_size (rm_size i.factor_b) 0xf6 0xf7)
        e4 ← emit_opcode_ext e3 5
        emit_rm e4 i.factor_b)
      else (do
        e3 ←
            (if imul_can_skip_imm i then emit_opcode_two e2 0x0f 0xaf else elim i.imul_type [
              | ImulType.reg_rm_imm ↦ emit_opcode e2 0x69
              | _ ↦ emit_opcode e2 0x6b
            ])
        e4 ← emit_modrm_reg e3 i.factor_a
        e5 ← emit_rm e4 i.factor_b
        (if imul_can_skip_imm i then ok e5 else emit_imm e5 i.factor_c)))

-- `SignExtendRegA` and `SignExtendRegAD`.
unfoldable pub new_sign_extend : Size → Result Size
new_sign_extend size = elim size [ s8 ↦ err failed | s16 ↦ ok s16 | s32 ↦ ok s32 | s64 ↦ ok s64 ]

unfoldable pub encode_sign_extend_a : Encoder → Size → Result Encoder
unfolding emit_operand_size emit_opcode
encode_sign_extend_a e size = emit_operand_size e size >>= λ e1. emit_opcode e1 0x98

unfoldable pub encode_sign_extend_ad : Encoder → Size → Result Encoder
unfolding emit_operand_size emit_opcode
encode_sign_extend_ad e size = emit_operand_size e size >>= λ e1. emit_opcode e1 0x99

pub data TestType : Type 0 where
  rm_imm rm_reg : TestType

pub record Test : Type 0 where
  pub test_type : TestType
  pub op_a : Rm
  pub op_b : Operand

unfoldable pub new_test_imm : Rm → Imm → Result Test
new_test_imm rm i =
    if same_size i.size s64
    then err failed
    else if imm_fits (rm_size rm) i.size
    then ok (record { test_type = TestType.rm_imm; op_a = rm; op_b = Operand.imm i })
    else err failed

unfoldable pub new_test_reg : Rm → Reg → Result Test
new_test_reg rm r =
    if not (same_size (rm_size rm) r.size)
    then err failed
    else ok (record { test_type = TestType.rm_reg; op_a = rm; op_b = Operand.reg r })

unfoldable pub test_can_use_reg_a : Test → Bool
test_can_use_reg_a t = elim t.test_type [
  | TestType.rm_imm ↦ elim t.op_a [ Rm.reg r ↦ r.reg == 0 | Rm.mem m ↦ false ]
  | _ ↦ false
]

unfoldable pub encode_test : Encoder → Test → Result Encoder
unfolding emit_operand_size emit_rex emit_opcode emit_opcode_ext emit_modrm_reg emit_rm emit_imm
    test_can_use_reg_a operand_requires_rex
encode_test e t = do
  e1 ← emit_operand_size e (rm_size t.op_a)
  e2 ← emit_rex_if (rm_requires_rex t.op_a || operand_requires_rex t.op_b) e1
  (if test_can_use_reg_a t
      then (do
        e3 ← emit_opcode e2 (opcode_by_size (rm_size t.op_a) 0xa8 0xa9)
        imm ← operand_as_imm t.op_b
        emit_imm e3 imm)
      else elim t.test_type [
        | TestType.rm_imm ↦ (do
          e3 ← emit_opcode e2 (opcode_by_size (rm_size t.op_a) 0xf6 0xf7)
          e4 ← emit_opcode_ext e3 0
          e5 ← emit_rm e4 t.op_a
          imm ← operand_as_imm t.op_b
          emit_imm e5 imm)
        | TestType.rm_reg ↦ (do
          e3 ← emit_opcode e2 (opcode_by_size (rm_size t.op_a) 0x84 0x85)
          e4 ← emit_rm e3 t.op_a
          r ← operand_as_reg t.op_b
          emit_modrm_reg e4 r)
      ])
