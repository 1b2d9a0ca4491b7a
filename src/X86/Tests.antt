-- ===== src/X86/Tests.antt =====
-- Tests of the model of src/x86_64/ops.cc.
use katara.Prelude.{ℕ, ◌≡◌, refl, inl, [], ◌∷◌, some, none, arith}
use katara.Prelude.Int.{negsuc}
use katara.Prelude.Result.{ok}
use katara.X86.Ops.{s32, s64, Mem, IsMem, reg_string}
use katara.X86.Encode.{RmBytes, encode_mem, encode_reg, encode_in_modrm_reg, le_bytes}
use katara.X86.Addressing.{sib_cell}
use katara.X86.MemOperands.{Encodes, encode_mem_exact}
use katara.X86.Registers.{two_registers, Reads}

-- [rbp + r9 * 4 - 16].
abbrev local : Mem
local = record { size = s64; base_reg = 5; index_reg = 9; scale = 2; disp = negsuc 15 }

local-IsMem : IsMem local
local-IsMem = record {
  base = inl (omega arith);
  index = inl (omega arith);
  not_stack_pointer = omega arith;
  factor = omega arith;
  word = ground arith;
}

local_bytes :
    encode_mem local (some 0x48) 0x10 (some 0)
    ≡ ok (record { rex = some 0x4a; modrm = 0x54; sib = some 0x8d; disp = 0xf0 ∷ [] })
unfolding encode_mem le_bytes
local_bytes = refl

r13_name : reg_string (record { size = s32; reg = 13 }) ≡ ok "r13d"
unfolding reg_string
r13_name = refl

encode_mem_exact_example :
    (out : RmBytes) × (encode_mem local (some 0x48) 0x10 (sib_cell local 0) ≡ ok out)
    × Encodes local 18 0x10 out
encode_mem_exact_example = encode_mem_exact local 18 0x10 0 local-IsMem (omega arith) (omega arith)

two_registers_example :
    (out : RmBytes) × (rex' : ℕ) × (rex : ℕ) × (modrm' : ℕ) × (encode_reg
        (record { size = s64; reg = 12 })
        (some 0x48)
        0
        none
      ≡ ok out)
    × (out.rex ≡ some rex')
    × (encode_in_modrm_reg (record { size = s64; reg = 9 }) (some rex') out.modrm
        ≡ ok (some rex, modrm'))
    × Reads 12 9 9 rex modrm'
two_registers_example =
    two_registers (record { size = s64; reg = 12 }) (record { size = s64; reg = 9 }) 9 0 none
      (omega arith) (omega arith) (omega arith) (omega arith)
