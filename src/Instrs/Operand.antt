-- ===== src/Instrs/Operand.antt =====
-- The operand of an instruction in the code, and the processor's reading of it.
use katara.Prelude.{
  ℕ, ◌+◌, ◌*◌, ◌/◌, ◌%◌, ◌<◌, ◌≡◌, ◌∙◌, sym, subst, refl, arith, false, ◌==◌, if◌then◌else◌, List,
  [], Option, some, none, length,
}
use katara.Prelude.Result.{ok}
use katara.X86.Ops.{
  Reg, IsMem, Rm, rm_requires_sib, rm_required_disp_size, reg_requires_rex, operand_requires_rex,
  mem_requires_sib,
}
use katara.X86.Encode.{RmBytes, encode_rm, encode_reg}
use katara.X86.Address.{Address, processor_address}
use katara.X86.Addressing.{sib_cell}
use katara.X86.MemOperands.{meaning, is_some, encode_mem_exact, encode_mem-without_rex}
use katara.X86.Bits.{rex_b, set_mod}
use katara.X86.Addressing.{put_rm_sum}
use katara.Instrs.Data.{rm_requires_rex}

-- Where an operand is: a register by its number, the second byte of one of the first four (ah, ch, dh, bh), or memory.
pub data Place : Type 0 where
  register : ℕ → Place
  high_byte : ℕ → Place
  memory : Address → Place

abbrev rex_bit_b : Option ℕ → ℕ
rex_bit_b none = 0
rex_bit_b (some r) = r % 2

-- The processor reads a register where Mod is 3, and an address elsewhere.
unfoldable pub processor_place : RmBytes → Option Place
processor_place o =
    if o.modrm / 64 == 3
    then some (Place.register (o.modrm % 8 + 8 * rex_bit_b o.rex))
    else elim (processor_address o) [ some a ↦ some (Place.memory a) | none ↦ none ]

abbrev pub place_of : Rm → Place
place_of (Rm.reg r) = Place.register r.reg
place_of (Rm.mem m) = Place.memory (meaning m)

abbrev pub IsRm : Rm → Type 0
IsRm (Rm.reg r) = r.reg < 16
IsRm (Rm.mem m) = IsMem m

abbrev pub rm_sib_cell : Rm → ℕ → Option ℕ
unfolding rm_requires_sib
rm_sib_cell rm old = if rm_requires_sib rm then some old else none

-- A REX prefix whose two low bits are clear, by its other bits; or none.
abbrev pub rex_cell : Option ℕ → Option ℕ
rex_cell none = none
rex_cell (some r) = some (r * 4)

abbrev pub RexKept : Option ℕ → Option ℕ → Type 0
RexKept none out = out ≡ none
RexKept (some r) out = (low : ℕ) × (low < 4) × (out ≡ some (r * 4 + low))

-- What the encoding of an operand is: the processor reads back the place, the Reg field is kept, the
-- displacement and the SIB byte are as announced, and the prefix keeps its other bits.
pub record Placed (rm : Rm) (rex : Option ℕ) (modrm : ℕ) (out : RmBytes) : Type 0 where
  pub place : processor_place out ≡ some (place_of rm)
  pub reg_kept : out.modrm / 8 % 8 ≡ modrm / 8 % 8
  pub disp_size : length out.disp ≡ rm_required_disp_size rm
  pub modrm_byte : out.modrm < 256
  pub rex_kept : RexKept rex out.rex
  pub sib_there : is_some out.sib ≡ rm_requires_sib rm

no_register :
    (o : RmBytes) (a : Address) → processor_address o ≡ some a → (o.modrm / 64 == 3) ≡ false
unfolding processor_address
no_register o a h = ground arith

place-address :
    (o : RmBytes) (a : Address)
    → processor_address o ≡ some a
    → processor_place o ≡ some (Place.memory a)
unfolding processor_place
place-address o a h = rw (no_register o a h) (rw h refl)

-- A prefix without REX.X and REX.B reads like none.
address_without_rex :
    (modrm : ℕ) (sib : Option ℕ) (disp : List ℕ)
    → processor_address (record { rex = some 64; modrm = modrm; sib = sib; disp = disp })
      ≡ processor_address (record { rex = none; modrm = modrm; sib = sib; disp = disp })
unfolding processor_address
address_without_rex modrm sib disp = refl

reg_with :
    (r : Reg) (p modrm : ℕ) (sib : Option ℕ)
    → r.reg < 16
    → p < 64
    → modrm < 256
    → encode_reg r (some (p * 4)) modrm sib
      ≡ ok (record {
        rex = some (p * 4 + r.reg / 8);
        modrm = modrm / 8 % 8 * 8 + r.reg % 8 + 192;
        sib = sib;
        disp = [];
      })
unfolding encode_reg
reg_with r p modrm sib hk hp hm = ground (
  arith,
  rex_b p hp,
  set_mod modrm hm,
  put_rm_sum (modrm % 64 + 192) r.reg (omega arith) (omega arith),
)

reg_without :
    (r : Reg) (modrm : ℕ) (sib : Option ℕ)
    → r.reg < 8
    → modrm < 256
    → encode_reg r none modrm sib
      ≡ ok
          (record { rex = none; modrm = modrm / 8 % 8 * 8 + r.reg % 8 + 192; sib = sib; disp = [] })
unfolding encode_reg
reg_without r modrm sib hk hm =
    ground
      (arith, set_mod modrm hm, put_rm_sum (modrm % 64 + 192) r.reg (omega arith) (omega arith))

low_number : (r : Reg) → reg_requires_rex r ≡ false → r.reg < 8
unfolding reg_requires_rex
low_number r h = ground arith

-- The prefix that an operand is given: any with its low bits clear, or none where it wants none.
abbrev pub Suits : Rm → Option ℕ → Type 0
Suits rm none = rm_requires_rex rm ≡ false
Suits rm (some r) = r < 64

abbrev Operates : Rm → Option ℕ → ℕ → ℕ → Type 0
Operates rm p modrm old =
    (out : RmBytes) × (encode_rm rm (rex_cell p) modrm (rm_sib_cell rm old) ≡ ok out)
    × Placed rm p modrm out

pub encode_rm_exact :
    (rm : Rm) (p : Option ℕ) (modrm old : ℕ)
    → IsRm rm
    → Suits rm p
    → modrm < 256
    → Operates rm p modrm old
unfolding encode_rm rm_requires_sib rm_required_disp_size operand_requires_rex processor_place
    mem_requires_sib
encode_rm_exact (Rm.reg r) (some p) modrm old v hp hm = (
  _,
  reg_with r p modrm none v hp hm,
  record {
    place = ground arith;
    reg_kept = ground arith;
    disp_size = refl;
    modrm_byte = omega arith;
    rex_kept = (r.reg / 8, omega arith, refl);
    sib_there = refl;
  },
)
encode_rm_exact (Rm.reg r) none modrm old v hp hm =
    let low = low_number r hp in
    (
      _,
      reg_without r modrm none low hm,
      record {
        place = ground arith;
        reg_kept = ground arith;
        disp_size = refl;
        modrm_byte = omega arith;
        rex_kept = refl;
        sib_there = refl;
      },
    )
encode_rm_exact (Rm.mem m) (some p) modrm old v hp hm =
    let (out, e, k) = encode_mem_exact m p modrm old v hp hm in
    (
      out,
      e,
      record {
        place = place-address out (meaning m) k.address;
        reg_kept = k.reg_kept;
        disp_size = k.disp_size;
        modrm_byte = k.modrm_byte;
        rex_kept = k.rex_kept;
        sib_there = k.sib_there;
      },
    )
encode_rm_exact (Rm.mem m) none modrm old v hp hm =
    let (out, e, k) = encode_mem_exact m 16 modrm old v (omega arith) hm in
    let (kept, e') = encode_mem-without_rex m 64 modrm (sib_cell m old) out hp e in
    let bare : RmBytes = record { rex = none; modrm = out.modrm; sib = out.sib; disp = out.disp } in
    let same : processor_address out ≡ processor_address bare =
      subst
        (λ (x : Option ℕ).
          processor_address (record { rex = x; modrm = out.modrm; sib = out.sib; disp = out.disp })
          ≡ processor_address bare)
        (sym kept) (address_without_rex out.modrm out.sib out.disp) in
    (
      bare,
      e',
      record {
        place = place-address bare (meaning m) (sym same ∙ k.address);
        reg_kept = k.reg_kept;
        disp_size = k.disp_size;
        modrm_byte = k.modrm_byte;
        rex_kept = refl;
        sib_there = k.sib_there;
      },
    )
