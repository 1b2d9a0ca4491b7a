-- ===== src/X86/Registers.antt =====
-- The encodings of registers and immediates in src/x86_64/ops.cc, and the constructor of a memory operand.
use Prim.Native.Nat.{bit_and, bit_or}
use katara.Prelude.{
  ℕ, ◌||◌, Bool-cases, ◌+◌, ◌*◌, ◌/◌, ◌%◌, ◌^◌, ◌<◌, ◌≡◌, ◌≢◌, refl, arith, Bool, false, ◌&&◌, not,
  leb, ◌==◌, List, [], ◌∷◌, Option, some, length, inl, inr, ◌⊎◌,
}
use katara.Prelude.Int.{ℤ}
use katara.Prelude.Result.{ok, err, failed}
use katara.Atomics.Cpp.{bits, of_bits, InRange}
use katara.Atomics.IntType.{IntType, i8, i16, i32, i64}
use katara.X86.Bits.{and_seven, clear_reg, or_mid, rex_b, rex_r, set_mod}
use katara.X86.Ops.{
  Reg, Size, s8, s16, s32, s64, no_reg, Mem, IsMem, new_mem, Imm, required_imm_size,
}
use katara.X86.Encode.{
  RmBytes, le_bytes, encode_reg, encode_in_modrm_reg, encode_in_opcode, encode_imm,
}
use katara.X86.Addressing.{put_rm_sum}

pub put_reg_sum :
    (m v : ℕ)
    → m < 256
    → v < 256
    → bit_or (bit_and m 0xc7) (bit_and v 0x7 * 8) ≡ m / 64 * 64 + v % 8 * 8 + m % 8
put_reg_sum m v h k =
    rw (clear_reg m h, and_seven v k)
      (or_mid (m / 64) (v % 8) (m % 8) (omega arith) (omega arith) (omega arith))

rm_bytes :
    (s : Size) (k r modrm : ℕ) (sib : Option ℕ)
    → k < 16
    → r < 32
    → modrm < 256
    → encode_reg (record { size = s; reg = k }) (some (r * 8)) modrm sib
      ≡ ok (record {
        rex = some (r * 8 + k / 8);
        modrm = modrm / 8 % 8 * 8 + k % 8 + 192;
        sib = sib;
        disp = [];
      })
unfolding encode_reg
rm_bytes s k r modrm sib hk hr hm = ground (
  arith,
  rex_b (r * 2) (omega arith),
  set_mod modrm hm,
  put_rm_sum (modrm % 64 + 192) k (omega arith) (omega arith),
)

reg_bytes :
    (s : Size) (k r b modrm : ℕ)
    → k < 16
    → r < 32
    → b < 2
    → modrm < 256
    → encode_in_modrm_reg (record { size = s; reg = k }) (some (r * 8 + b)) modrm
      ≡ ok (some (r * 8 + k / 8 * 4 + b), modrm / 64 * 64 + k % 8 * 8 + modrm % 8)
unfolding encode_in_modrm_reg
reg_bytes s k r b modrm hk hr hb hm =
    ground (arith, rex_r r b hr hb, put_reg_sum modrm k hm (omega arith))

-- How the processor reads a register number: three bits of a byte, under one bit of the prefix.
abbrev pub extended : ℕ → ℕ → ℕ
extended bit field = field + 8 * (bit % 2)

-- The prefix and the ModRM byte of an instruction on two registers.
pub record Reads (a b r rex modrm : ℕ) : Type 0 where
  pub is_register : modrm / 64 ≡ 3
  pub rm : extended rex (modrm % 8) ≡ a
  pub reg : extended (rex / 4) (modrm / 8 % 8) ≡ b
  pub rest : rex / 8 ≡ r

-- Two registers with a number below 16, and a prefix whose three low bits are clear: encoding the one
-- as the operand and then the other in the Reg field writes through no null pointer, and the processor reads back
-- both registers.
pub two_registers :
    (a b : Reg) (r modrm : ℕ) (sib : Option ℕ)
    → a.reg < 16
    → b.reg < 16
    → r < 32
    → modrm < 256
    → (out : RmBytes) × (rex' : ℕ) × (rex : ℕ) × (modrm' : ℕ) × (encode_reg a
          (some (r * 8))
          modrm
          sib
        ≡ ok out)
      × (out.rex ≡ some rex')
      × (encode_in_modrm_reg b (some rex') out.modrm ≡ ok (some rex, modrm'))
      × Reads a.reg b.reg r rex modrm'
two_registers a b r modrm sib ha hb hr hm = (
  _,
  _,
  _,
  _,
  rm_bytes a.size a.reg r modrm sib ha hr hm,
  refl,
  reg_bytes b.size b.reg r (a.reg / 8) _ hb hr (omega arith) (omega arith),
  record { is_register = omega arith; rm = omega arith; reg = omega arith; rest = omega arith },
)

-- The low three bits of the number are added to an opcode in which they are clear, and the fourth goes
-- into REX.B.
pub encode_in_opcode_exact :
    (a : Reg) (r o : ℕ)
    → a.reg < 16
    → r < 64
    → o < 32
    → encode_in_opcode a (some (r * 4)) (o * 8) 0 ≡ ok (some (r * 4 + a.reg / 8), o * 8 + a.reg % 8)
unfolding encode_in_opcode
encode_in_opcode_exact a r o ha hr ho = ground (
  arith,
  rex_b r hr,
  and_seven a.reg (omega arith),
  put_rm_sum (o * 8) a.reg (omega arith) (omega arith),
)

abbrev accepted : ℕ → ℕ → Bool
accepted b i = (leb b 15 || (b == no_reg)) && (leb i 15 || (i == no_reg)) && not (i == 4)

rejected :
    (b i : ℕ) → accepted b i ≡ false → (b < 16) ⊎ (b ≡ no_reg) → (i < 16) ⊎ (i ≡ no_reg) → i ≢ 4 → ⊥
rejected b i e hb hi h4 = ground arith

-- The constructor of a memory operand accepts exactly a base below 16 or none and an index below 16
-- that is not 4, or none; then it gives the operand of these parts, else it fails.
pub new_mem_exact :
    (s : Size) (b i c : ℕ) (d : ℤ)
    → c < 4
    → InRange i32 d
    → let m : Mem = record { size = s; base_reg = b; index_reg = i; scale = c; disp = d } in
      ((new_mem s b i c d ≡ ok m) × IsMem m) ⊎ ((new_mem s b i c d ≡ err failed) × (IsMem m → ⊥))
unfolding new_mem
new_mem_exact s b i c d hc hd = elim (Bool-cases (accepted b i)) [
  | inl e ↦ inl (
    ground arith,
    record {
      base = ground arith;
      index = ground arith;
      not_stack_pointer = ground arith;
      factor = hc;
      word = hd;
    },
  )
  | inr e ↦ inr (ground arith, λ v. rejected b i e v.base v.index v.not_stack_pointer)
]

-- What the bytes of an immediate mean: least significant byte first.
unfoldable pub read_le : List ℕ → ℕ
read_le [] = 0
read_le (x ∷ xs) = x + 256 * read_le xs

abbrev pub int_type_of : Size → IntType
int_type_of s8 = i8
int_type_of s16 = i16
int_type_of s32 = i32
int_type_of s64 = i64

read_four : (v : ℕ) → read_le (le_bytes 4 v) ≡ v % 2 ^ 32
unfolding read_le le_bytes
read_four v = omega arith

read_eight : (v : ℕ) → read_le (le_bytes 8 v) ≡ v % 2 ^ 64
unfolding read_le le_bytes
read_eight v = omega arith

imm_bytes :
    (s : Size) (v : ℤ)
    → InRange (int_type_of s) v
    → let i : Imm = record { size = s; value = v } in
      (length (encode_imm i) ≡ required_imm_size i)
      × (of_bits (int_type_of s) (read_le (encode_imm i)) ≡ v)
unfolding encode_imm required_imm_size le_bytes read_le
imm_bytes s8 v h = (refl, ground arith)
imm_bytes s16 v h = (refl, ground arith)
imm_bytes s32 v h = (refl, rw (read_four (bits 64 v)) (ground arith))
imm_bytes s64 v h = (refl, rw (read_eight (bits 64 v)) (ground arith))

-- The bytes of an immediate are as many as `RequiredImmSize` announces, and where the type of its size
-- holds the value, they are read back as the value.
pub encode_imm_exact :
    (i : Imm)
    → InRange (int_type_of i.size) i.value
    → (length (encode_imm i) ≡ required_imm_size i)
      × (of_bits (int_type_of i.size) (read_le (encode_imm i)) ≡ i.value)
encode_imm_exact i h = imm_bytes i.size i.value h
