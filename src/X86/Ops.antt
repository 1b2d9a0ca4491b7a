-- ===== src/X86/Ops.antt =====
-- src/x86_64/ops.h and ops.cc: sizes, registers, memory operands, immediates and their questions. A
-- register number is a byte, 0xff stands for no register; displacements and immediates are integers.
use katara.Prelude.{
  ℕ, ◌<◌, ◌≡◌, ◌≢◌, ◌⊎◌, Bool, true, false, not, ◌&&◌, ◌||◌, leb, ltb, ◌==◌, if◌then◌else◌, List,
  [], ◌∷◌, get_or, String,
}
use katara.Prelude.Int.{ℤ, pos, negsuc}
use katara.Prelude.Result.{Result, ok, err, failed}
use katara.Atomics.Cpp.{leb_ℤ, InRange}
use katara.Atomics.IntType.{i32}

pub data Size : Type 0 where
  s8 s16 s32 s64 : Size

-- The value of the enumerator.
abbrev pub bits_of : Size → ℕ
bits_of s8 = 8
bits_of s16 = 16
bits_of s32 = 32
bits_of s64 = 64

unfoldable pub max_size : Size → Size → Size
max_size a b = if ltb (bits_of a) (bits_of b) then b else a

pub record Reg : Type 0 where
  pub size : Size
  pub reg : ℕ

abbrev pub no_reg : ℕ
no_reg = 0xff

-- The constructor fails on a number that is no register.
unfoldable pub new_reg : Size → ℕ → Result Reg
new_reg size reg = if ltb 15 reg then err failed else ok (record { size = size; reg = reg })

-- With a REX prefix the numbers 4 to 7 mean other registers of 8 bits than without.
unfoldable pub reg_requires_rex : Reg → Bool
reg_requires_rex r = elim r.size [ s8 ↦ leb 4 r.reg | _ ↦ leb 8 r.reg ]

abbrev names_8 : List String
names_8 =
    "al" ∷ "cl" ∷ "dl" ∷ "bl" ∷ "spl" ∷ "bpl" ∷ "sil" ∷ "dil" ∷ "r8b" ∷ "r9b" ∷ "r10b" ∷ "r11b"
    ∷ "r12b" ∷ "r13b" ∷ "r14b" ∷ "r15b" ∷ []

abbrev names_16 : List String
names_16 =
    "ax" ∷ "cx" ∷ "dx" ∷ "bx" ∷ "sp" ∷ "bp" ∷ "si" ∷ "di" ∷ "r8w" ∷ "r9w" ∷ "r10w" ∷ "r11w" ∷ "r12w"
    ∷ "r13w" ∷ "r14w" ∷ "r15w" ∷ []

abbrev names_32 : List String
names_32 =
    "eax" ∷ "ecx" ∷ "edx" ∷ "ebx" ∷ "esp" ∷ "ebp" ∷ "esi" ∷ "edi" ∷ "r8d" ∷ "r9d" ∷ "r10d" ∷ "r11d"
    ∷ "r12d" ∷ "r13d" ∷ "r14d" ∷ "r15d" ∷ []

abbrev names_64 : List String
names_64 =
    "rax" ∷ "rcx" ∷ "rdx" ∷ "rbx" ∷ "rsp" ∷ "rbp" ∷ "rsi" ∷ "rdi" ∷ "r8" ∷ "r9" ∷ "r10" ∷ "r11"
    ∷ "r12" ∷ "r13" ∷ "r14" ∷ "r15" ∷ []

-- The switch over size and number; a number that is no register has no name.
unfoldable pub reg_string : Reg → Result String
reg_string r =
    let names : List String = elim r.size [
      | s8 ↦ names_8
      | s16 ↦ names_16
      | s32 ↦ names_32
      | s64 ↦ names_64
    ] in
    if ltb 15 r.reg then err failed else ok (get_or names r.reg "")

unfoldable pub resize_reg : Reg → Size → Result Reg
unfolding new_reg
resize_reg r size = new_reg size r.reg

-- `Scale` is a number below 4, the exponent of the factor.
pub record Mem : Type 0 where
  pub size : Size
  pub base_reg : ℕ
  pub index_reg : ℕ
  pub scale : ℕ
  pub disp : ℤ

unfoldable pub new_mem : Size → ℕ → ℕ → ℕ → ℤ → Result Mem
new_mem size base index scale disp =
    if ltb 15 base && not (base == no_reg)
    then err failed
    else if ltb 15 index && not (index == no_reg)
    then err failed
    else if index == 4
    then err failed
    else ok (record { size = size; base_reg = base; index_reg = index; scale = scale; disp = disp })

unfoldable pub base_pointer_disp : Size → ℤ → Result Mem
unfolding new_mem
base_pointer_disp size disp = new_mem size 5 no_reg 0 disp

unfoldable pub resize_mem : Mem → Size → Result Mem
unfolding new_mem
resize_mem m size = new_mem size m.base_reg m.index_reg m.scale m.disp

-- What the constructor lets through.
pub record IsMem (m : Mem) : Type 0 where
  pub base : (m.base_reg < 16) ⊎ (m.base_reg ≡ no_reg)
  pub index : (m.index_reg < 16) ⊎ (m.index_reg ≡ no_reg)
  pub not_stack_pointer : m.index_reg ≢ 4
  pub factor : m.scale < 4
  pub word : InRange i32 m.disp

unfoldable pub mem_requires_rex : Mem → Bool
mem_requires_rex m =
    (not (m.base_reg == no_reg) && leb 8 m.base_reg)
    || (not (m.index_reg == no_reg) && leb 8 m.index_reg)

unfoldable pub mem_requires_sib : Mem → Bool
mem_requires_sib m =
    if m.base_reg == no_reg
    then true
    else if m.index_reg == no_reg
    then m.base_reg == 4 || m.base_reg == 12
    else true

-- `disp_ == 0 && base_reg_ != 5 && base_reg_ != 13`.
abbrev pub needs_no_disp : Mem → Bool
needs_no_disp m =
    (leb_ℤ m.disp (pos 0) && leb_ℤ (pos 0) m.disp)
    && not (m.base_reg == 5)
    && not (m.base_reg == 13)

-- `-128 <= disp_ && disp_ <= +127`.
abbrev pub disp_fits_byte : Mem → Bool
disp_fits_byte m = leb_ℤ (negsuc 127) m.disp && leb_ℤ m.disp (pos 127)

unfoldable pub required_disp_size : Mem → ℕ
required_disp_size m =
    if m.base_reg == no_reg
    then 4
    else if needs_no_disp m
    then 0
    else if disp_fits_byte m
    then 1
    else 4

pub record Imm : Type 0 where
  pub size : Size
  pub value : ℤ

unfoldable pub imm_requires_rex : Imm → Bool
imm_requires_rex i = elim i.size [ s64 ↦ true | _ ↦ false ]

unfoldable pub required_imm_size : Imm → ℕ
required_imm_size i = elim i.size [ s8 ↦ 1 | s16 ↦ 2 | s32 ↦ 4 | s64 ↦ 8 ]

-- `RM` is an operand that is a register or a memory operand.
pub data Rm : Type 0 where
  reg : Reg → Rm
  mem : Mem → Rm

pub data Operand : Type 0 where
  reg : Reg → Operand
  mem : Mem → Operand
  imm : Imm → Operand
  func_ref : ℤ → Operand
  block_ref : ℤ → Operand

unfoldable pub operand_size : Operand → Result Size
operand_size (Operand.reg r) = ok r.size
operand_size (Operand.mem m) = ok m.size
operand_size (Operand.imm i) = ok i.size
operand_size (Operand.func_ref f) = ok s64
operand_size (Operand.block_ref b) = err failed

unfoldable pub operand_rm : Operand → Result Rm
operand_rm (Operand.reg r) = ok (Rm.reg r)
operand_rm (Operand.mem m) = ok (Rm.mem m)
operand_rm _ = err failed

unfoldable pub operand_requires_rex : Operand → Bool
unfolding reg_requires_rex mem_requires_rex imm_requires_rex
operand_requires_rex (Operand.reg r) = reg_requires_rex r
operand_requires_rex (Operand.mem m) = mem_requires_rex m
operand_requires_rex (Operand.imm i) = imm_requires_rex i
operand_requires_rex _ = false

unfoldable pub rm_requires_sib : Rm → Bool
unfolding mem_requires_sib
rm_requires_sib (Rm.reg r) = false
rm_requires_sib (Rm.mem m) = mem_requires_sib m

unfoldable pub rm_required_disp_size : Rm → ℕ
unfolding required_disp_size
rm_required_disp_size (Rm.reg r) = 0
rm_required_disp_size (Rm.mem m) = required_disp_size m

unfoldable pub resize_rm : Rm → Size → Result Rm
unfolding resize_reg resize_mem
resize_rm (Rm.reg r) size = elim (resize_reg r size) [ ok r' ↦ ok (Rm.reg r') | err e ↦ err e ]
resize_rm (Rm.mem m) size = elim (resize_mem m size) [ ok m' ↦ ok (Rm.mem m') | err e ↦ err e ]

-- The operators `==` compare field by field; operands of two kinds differ.
abbrev same_size : Size → Size → Bool
same_size a b = bits_of a == bits_of b

abbrev same_ℤ : ℤ → ℤ → Bool
same_ℤ a b = leb_ℤ a b && leb_ℤ b a

unfoldable pub reg_eq : Reg → Reg → Bool
reg_eq a b = same_size a.size b.size && (a.reg == b.reg)

unfoldable pub mem_eq : Mem → Mem → Bool
mem_eq a b =
    same_size a.size b.size
    && (a.base_reg == b.base_reg)
    && (a.index_reg == b.index_reg)
    && (a.scale == b.scale)
    && same_ℤ a.disp b.disp

unfoldable pub imm_eq : Imm → Imm → Bool
imm_eq a b = same_size a.size b.size && same_ℤ a.value b.value

unfoldable pub operand_eq : Operand → Operand → Bool
unfolding reg_eq mem_eq imm_eq
operand_eq (Operand.reg a) (Operand.reg b) = reg_eq a b
operand_eq (Operand.mem a) (Operand.mem b) = mem_eq a b
operand_eq (Operand.imm a) (Operand.imm b) = imm_eq a b
operand_eq (Operand.func_ref a) (Operand.func_ref b) = same_ℤ a b
operand_eq (Operand.block_ref a) (Operand.block_ref b) = same_ℤ a b
operand_eq _ _ = false
