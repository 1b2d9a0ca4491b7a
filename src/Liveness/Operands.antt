-- ===== src/Liveness/Operands.antt =====
-- src/x86_64/ir_translator/register_allocator.cc: the operands that colours stand for.
use katara.Prelude.{
  ℕ, zero, suc, ◌+◌, ◌-◌, ◌*◌, ◌≤◌, ◌≡◌, refl, ap, subst, arith, false, leb, ◌&&◌, if◌then◌else◌,
  Bool-cases, inl, inr,
}
use katara.Prelude.Int.{ℤ, sub_ℕ, pos, negsuc, ◌+ℤ◌, ◌-ℤ◌, ◌*ℤ◌}
use katara.Prelude.Result.{failed, Result, ok, err, ◌>>=◌}
use katara.Atomics.IntType.{i32}
use katara.Atomics.Cpp.{cast}
use katara.Atomics.Compute.{quotient}
use katara.X86.Ops.{no_reg, Size, Rm, new_reg, new_mem, base_pointer_disp}

unfoldable pub in_reg : Size → ℕ → Result Rm
in_reg size n = do r ← new_reg size n; ok (Rm.reg r)

unfoldable pub in_mem : Size → ℤ → Result Rm
in_mem size disp = do m ← base_pointer_disp size disp; ok (Rm.mem m)

unfoldable pub color_and_size_to_operand : ℤ → Size → Result Rm
unfolding in_reg in_mem
color_and_size_to_operand (negsuc zero) size = err failed
color_and_size_to_operand (negsuc (suc n)) size =
    in_mem size (cast i32 (negsuc 7 *ℤ (negsuc (suc n) -ℤ pos 14)))
color_and_size_to_operand (pos c) size =
    if leb c 3
    then in_reg size c
    else if leb c 13
    then in_reg size (c + 2)
    else in_mem size (cast i32 (negsuc 7 *ℤ (pos c -ℤ pos 14)))

unfoldable pub operand_to_color : Rm → Result ℤ
unfolding quotient
operand_to_color (Rm.reg r) =
    if leb r.reg 3
    then ok (pos r.reg)
    else if leb 6 r.reg && leb r.reg 15
    then ok (pos (r.reg - 2))
    else err failed
operand_to_color (Rm.mem m) = ok (quotient m.disp (negsuc 7) +ℤ pos 14)

displacement :
    (k : ℕ) → k ≤ 268435456 → cast i32 (negsuc 7 *ℤ (pos (k + 14) -ℤ pos 14)) ≡ sub_ℕ 0 (8 * k)
unfolding cast ◌*ℤ◌ ◌-ℤ◌
displacement zero h = ground arith
displacement (suc k) h = ground arith

color-back : (k : ℕ) → quotient (sub_ℕ 0 (8 * k)) (negsuc 7) +ℤ pos 14 ≡ pos (k + 14)
unfolding quotient ◌+ℤ◌
color-back zero = refl
color-back (suc k) = ground arith

mem-operand :
    (k : ℕ) (size : Size)
    → k ≤ 268435456
    → (rm : Rm) × (color_and_size_to_operand (pos (k + 14)) size ≡ ok rm)
      × (operand_to_color rm ≡ ok (pos (k + 14)))
unfolding color_and_size_to_operand in_mem base_pointer_disp new_mem operand_to_color
mem-operand k size h =
    let a : leb (k + 14) 3 ≡ false = ground arith in
    let b : leb (k + 14) 13 ≡ false = ground arith in
    (
      Rm.mem (record {
        size = size;
        base_reg = 5;
        index_reg = no_reg;
        scale = 0;
        disp = sub_ℕ 0 (8 * k);
      }),
      rw (a, b, displacement k h) refl,
      ap ok (color-back k),
    )

-- Every colour from 0 on, as far as the displacement of its place on the stack fits 32 bits, stands for an operand, and
-- the operand for the colour: different colours are different registers or places on the stack, in whatever sizes.
pub operand_to_color-color_and_size_to_operand :
    (c : ℕ) (size : Size)
    → c ≤ 268435470
    → (rm : Rm) × (color_and_size_to_operand (pos c) size ≡ ok rm)
      × (operand_to_color rm ≡ ok (pos c))
unfolding color_and_size_to_operand in_reg operand_to_color new_reg
operand_to_color-color_and_size_to_operand c size h = elim (Bool-cases (leb c 3)) [
  | inl a ↦ (Rm.reg (record { size = size; reg = c }), ground arith, ground arith)
  | inr a ↦ elim (Bool-cases (leb c 13)) [
    | inl b ↦ (Rm.reg (record { size = size; reg = c + 2 }), ground arith, ground arith)
    | inr b ↦
        let above : c - 14 + 14 ≡ c = ground arith in
        subst
          (λ n.
            (rm : Rm) × (color_and_size_to_operand (pos n) size ≡ ok rm)
            × (operand_to_color rm ≡ ok (pos n)))
          above (mem-operand (c - 14) size (omega arith))
  ]
]
