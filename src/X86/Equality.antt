-- ===== src/X86/Equality.antt =====
-- The operators `==` of src/x86_64/ops.cc.
use katara.Prelude.{◌≡◌, ◌↔◌, arith, true}
use katara.X86.Ops.{Reg, Mem, Imm, Operand, reg_eq, mem_eq, imm_eq, operand_eq}

regs : (a b : Reg) → (reg_eq a b ≡ true) ↔ (a ≡ b)
unfolding reg_eq
regs a b = ground arith

mems : (a b : Mem) → (mem_eq a b ≡ true) ↔ (a ≡ b)
unfolding mem_eq
mems a b = ground arith

imms : (a b : Imm) → (imm_eq a b ≡ true) ↔ (a ≡ b)
unfolding imm_eq
imms a b = ground arith

-- Two operands are equal for `==` exactly when they are the same operand.
operand_eq_iff : (a b : Operand) → (operand_eq a b ≡ true) ↔ (a ≡ b)
unfolding operand_eq
operand_eq_iff (Operand.reg a) (Operand.reg b) = ground (arith, regs a b)
operand_eq_iff (Operand.mem a) (Operand.mem b) = ground (arith, mems a b)
operand_eq_iff (Operand.imm a) (Operand.imm b) = ground (arith, imms a b)
operand_eq_iff (Operand.func_ref a) (Operand.func_ref b) = ground arith
operand_eq_iff _ _ = ground arith
