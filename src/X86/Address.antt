-- ===== src/X86/Address.antt =====
-- How the processor reads the operand bytes of an instruction (the rules of the architecture for
-- 64-bit mode): the specification of the encodings in src/x86_64/ops.cc.
use katara.Prelude.{
  ℕ, ◌+◌, ◌*◌, ◌/◌, ◌%◌, ◌≡◌, arith, ◌&&◌, ◌==◌, if◌then◌else◌, List, [], ◌∷◌, Option, some, none,
}
use katara.Prelude.Int.{ℤ, pos, negsuc, ◌≤ℤ◌}
use katara.Atomics.Cpp.{bits, of_bits, InRange}
use katara.Atomics.IntType.{i8, i32}
use katara.X86.Ops.{no_reg}
use katara.X86.Encode.{RmBytes, le_bytes}

-- An address: base + index * 2^scale + disp, where `no_reg` contributes nothing.
pub record Address : Type 0 where
  pub base : ℕ
  pub index : ℕ
  pub scale : ℕ
  pub disp : ℤ

-- The displacements of 8 and 32 bits are read with their signs.
unfoldable pub read_disp8 : List ℕ → Option ℤ
read_disp8 (a ∷ []) = some (of_bits i8 a)
read_disp8 _ = none

unfoldable pub read_disp32 : List ℕ → Option ℤ
read_disp32 (a ∷ (b ∷ (c ∷ (d ∷ [])))) = some (of_bits i32 (a + 256 * (b + 256 * (c + 256 * d))))
read_disp32 _ = none

unfoldable pub no_disp : List ℕ → Option ℤ
no_disp [] = some (pos 0)
no_disp _ = none

abbrev with_disp : ℕ → ℕ → ℕ → Option ℤ → Option Address
with_disp base index scale none = none
with_disp base index scale (some d) =
    some (record { base = base; index = index; scale = scale; disp = d })

-- The displacement that Mod = 0, 1, 2 announces.
abbrev disp_of : ℕ → List ℕ → Option ℤ
disp_of mode bytes =
    if mode == 0 then no_disp bytes else if mode == 1 then read_disp8 bytes else read_disp32 bytes

abbrev sib_address : ℕ → ℕ → ℕ → ℕ → List ℕ → Option Address
sib_address x b mode sib bytes =
    let i = sib / 8 % 8 + 8 * x in
    let index : ℕ = if i == 4 then no_reg else i in
    let scale : ℕ = if i == 4 then 0 else sib / 64 in
    if mode == 0 && (sib % 8 == 5)
    then with_disp no_reg index scale (read_disp32 bytes)
    else with_disp (sib % 8 + 8 * b) index scale (disp_of mode bytes)

-- A register operand, an operand relative to the instruction pointer and a missing SIB byte are no
-- address. `x` and `b` are the bits REX.X and REX.B.
abbrev address_of : ℕ → ℕ → ℕ → Option ℕ → List ℕ → Option Address
address_of x b modrm sib bytes =
    let mode = modrm / 64 in
    let rm = modrm % 8 in
    if mode == 3
    then none
    else if rm == 4
    then elim sib [ none ↦ none | some s ↦ sib_address x b mode s bytes ]
    else if mode == 0 && (rm == 5)
    then none
    else with_disp (rm + 8 * b) no_reg 0 (disp_of mode bytes)

unfoldable pub processor_address : RmBytes → Option Address
processor_address o = elim o.rex [
  | none ↦ address_of 0 0 o.modrm o.sib o.disp
  | some r ↦ address_of (r / 2 % 2) (r % 2) o.modrm o.sib o.disp
]

pub read_disp32-le_bytes : (d : ℤ) → InRange i32 d → read_disp32 (le_bytes 4 (bits 32 d)) ≡ some d
unfolding read_disp32 le_bytes
read_disp32-le_bytes d h = ground arith

pub read_disp8-le_bytes :
    (d : ℤ) → negsuc 127 ≤ℤ d → d ≤ℤ pos 127 → read_disp8 (le_bytes 1 (bits 32 d)) ≡ some d
unfolding read_disp8 le_bytes
read_disp8-le_bytes d h k = ground arith
