-- ===== src/X86/Encode.antt =====
-- src/x86_64/ops.cc: the encodings of operands. The code writes through pointers to the REX prefix and
-- the SIB byte, which are null where the instruction has none; here such a cell is an `Option`, and a
-- write through a null pointer is undefined.
use Prim.Native.Nat.{bit_and, bit_or}
use katara.Prelude.{
  ℕ, zero, suc, ◌*◌, ◌/◌, ◌%◌, ◌^◌, Bool, true, false, not, ◌&&◌, ◌||◌, leb, ◌==◌, if◌then◌else◌,
  List, [], ◌∷◌, Option, some, none,
}
use katara.Prelude.Result.{Result, ok, err, undefined, ◌>>=◌}
use katara.Atomics.Cpp.{bits}
use katara.X86.Ops.{s8, s16, s32, s64, Reg, Mem, Imm, Rm, no_reg, needs_no_disp, disp_fits_byte}

-- The bytes that an encoding leaves behind; `disp` are the bytes written for the displacement.
pub record RmBytes : Type 0 where
  pub rex : Option ℕ
  pub modrm : ℕ
  pub sib : Option ℕ
  pub disp : List ℕ

-- `*p |= m` and `*p = v`.
abbrev pub or_through : ℕ → Option ℕ → Result (Option ℕ)
or_through m none = err undefined
or_through m (some x) = ok (some (bit_or x m))

abbrev pub store_through : ℕ → Option ℕ → Result (Option ℕ)
store_through v none = err undefined
store_through v (some x) = ok (some v)

abbrev pub or_through_if : Bool → ℕ → Option ℕ → Result (Option ℕ)
or_through_if true m p = or_through m p
or_through_if false m p = ok p

-- The REX prefix and the opcode byte behind `Reg::EncodeInOpcode`.
unfoldable pub encode_in_opcode : Reg → Option ℕ → ℕ → ℕ → Result (Option ℕ × ℕ)
encode_in_opcode r rex opcode ls = do
  rex' ← or_through_if (leb 8 r.reg) 0x01 rex
  ok (rex', bit_or (bit_and opcode (0xf8 * 2 ^ ls % 256)) (bit_and r.reg 0x7 * 2 ^ ls % 256))

-- `Reg::EncodeInModRMReg`.
unfoldable pub encode_in_modrm_reg : Reg → Option ℕ → ℕ → Result (Option ℕ × ℕ)
encode_in_modrm_reg r rex modrm = do
  rex' ← or_through_if (leb 8 r.reg) 0x04 rex
  ok (rex', bit_or (bit_and modrm 0xc7) (bit_and r.reg 0x7 * 8))

-- `*modrm &= ~0x07; *modrm |= v & 0x7`, and the other way round for the two bits of Mod.
abbrev pub put_rm : ℕ → ℕ → ℕ
put_rm modrm v = bit_or (bit_and modrm 0xf8) (bit_and v 0x7)

-- `Reg::EncodeInModRM_SIB_Disp`.
unfoldable pub encode_reg : Reg → Option ℕ → ℕ → Option ℕ → Result RmBytes
encode_reg r rex modrm sib = do
  rex' ← or_through_if (leb 8 r.reg) 0x01 rex
  ok (record { rex = rex'; modrm = put_rm (bit_or modrm 0xc0) r.reg; sib = sib; disp = [] })

-- `(v >> 0) & 0xff`, `(v >> 8) & 0xff`, …: `n` bytes of a bit pattern.
unfoldable pub le_bytes : ℕ → ℕ → List ℕ
le_bytes zero v = []
le_bytes (suc n) v = (v % 256) ∷ le_bytes n (v / 256)

abbrev pub sib_byte : ℕ → ℕ → ℕ → ℕ
sib_byte s i b =
    bit_or (bit_or (bit_or 0x00 (bit_and s 0x3 * 64)) (bit_and i 0x7 * 8)) (bit_and b 0x7)

-- The branch without a base register.
unfoldable pub encode_no_base : Mem → Option ℕ → ℕ → Option ℕ → Result RmBytes
encode_no_base m rex modrm sib = do
  sib' ←
      store_through
        (if m.index_reg == no_reg
          then bit_or (bit_or 0x00 0x20) 0x05
          else bit_or
              (bit_or (bit_or 0x00 (bit_and m.scale 0x3 * 64)) (bit_and m.index_reg 0x7 * 8)) 0x05)
        sib
  ok (record {
    rex = rex;
    modrm = bit_or (bit_and (bit_and modrm 0x3f) 0xf8) 0x04;
    sib = sib';
    disp = le_bytes 4 (bits 32 m.disp);
  })

-- The SIB byte for a base register, where there is one.
unfoldable pub base_sib : Mem → Option ℕ → Result (Option ℕ)
base_sib m sib =
    if m.index_reg == no_reg
    then (if m.base_reg == 4 || m.base_reg == 12 then store_through 0x24 sib else ok sib)
    else store_through (sib_byte m.scale m.index_reg m.base_reg) sib

unfoldable pub encode_base : Mem → Option ℕ → ℕ → Option ℕ → Result RmBytes
encode_base m rex modrm sib = do
  sib' ← base_sib m sib
  let modrm' =
      if m.index_reg == no_reg then put_rm modrm m.base_reg else bit_or (bit_and modrm 0xf8) 0x04
  ok (
      if needs_no_disp m
      then record { rex = rex; modrm = bit_and modrm' 0x3f; sib = sib'; disp = [] }
      else if disp_fits_byte m
      then record {
        rex = rex;
        modrm = bit_or (bit_and modrm' 0x3f) 0x40;
        sib = sib';
        disp = le_bytes 1 (bits 32 m.disp);
      }
      else record {
        rex = rex;
        modrm = bit_or (bit_and modrm' 0x3f) 0x80;
        sib = sib';
        disp = le_bytes 4 (bits 32 m.disp);
      })

-- `Mem::EncodeInModRM_SIB_Disp`.
unfoldable pub encode_mem : Mem → Option ℕ → ℕ → Option ℕ → Result RmBytes
unfolding encode_no_base encode_base base_sib
encode_mem m rex modrm sib = do
  rex_b ← or_through_if (not (m.base_reg == no_reg) && leb 8 m.base_reg) 0x01 rex
  rex_xb ← or_through_if (not (m.index_reg == no_reg) && leb 8 m.index_reg) 0x02 rex_b
  if m.base_reg == no_reg then encode_no_base m rex_xb modrm sib else encode_base m rex_xb modrm sib

unfoldable pub encode_rm : Rm → Option ℕ → ℕ → Option ℕ → Result RmBytes
unfolding encode_reg encode_mem
encode_rm (Rm.reg r) rex modrm sib = encode_reg r rex modrm sib
encode_rm (Rm.mem m) rex modrm sib = encode_mem m rex modrm sib

-- `Imm::EncodeInImm`: the value is an `int64_t`, of which the size gives the number of bytes.
unfoldable pub encode_imm : Imm → List ℕ
encode_imm i = elim i.size [
  | s8 ↦ le_bytes 1 (bits 64 i.value)
  | s16 ↦ le_bytes 2 (bits 64 i.value)
  | s32 ↦ le_bytes 4 (bits 64 i.value)
  | s64 ↦ le_bytes 8 (bits 64 i.value)
]
