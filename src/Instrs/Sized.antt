-- ===== src/Instrs/Sized.antt =====
-- What the processor reads of the size of an operand: REX.W, and the registers of 8 bits.
use katara.Prelude.{
  ℕ, ◌/◌, ◌%◌, ◌≡◌, ◌∙◌, refl, arith, false, ◌==◌, leb, ◌&&◌, true, Bool, ◌-◌, if◌then◌else◌,
  Option, some, none,
}
use katara.X86.Ops.{Size, s8, s16, s32, s64, Rm, reg_requires_rex, operand_requires_rex}
use katara.X86.Encode.{RmBytes}
use katara.Instrs.Data.{rm_size, rm_requires_rex}
use katara.Instrs.Prefixes.{rex_high}
use katara.Instrs.Operand.{Place, place_of, processor_place, RexKept, Suits}

abbrev pub has_second_bytes : Size → Option ℕ → Bool
has_second_bytes s8 none = true
has_second_bytes _ _ = false

-- An operand of 8 bits is in a second byte for the numbers 4 to 7 where there is no REX prefix, and else where one of
-- more bits is.
unfoldable pub processor_operand : Size → RmBytes → Option Place
unfolding processor_place
processor_operand size o =
    if has_second_bytes size o.rex && (o.modrm / 64 == 3) && leb 4 (o.modrm % 8)
    then some (Place.high_byte (o.modrm % 8 - 4))
    else processor_place o

abbrev pub is_wide : Option ℕ → Bool
is_wide none = false
is_wide (some r) = r / 8 % 2 == 1

abbrev pub has_64_bits : Size → Bool
has_64_bits s64 = true
has_64_bits _ = false

-- The bits 7 to 4 of a REX prefix are 0100.
abbrev pub is_rex : Option ℕ → Bool
is_rex none = true
is_rex (some r) = r / 16 == 4

pub suits : (size : Size) (b : Bool) (op : Rm) → rm_requires_rex op ≡ b → Suits op (rex_high size b)
suits s8 true op h = omega arith
suits s8 false op h = h
suits s16 true op h = omega arith
suits s16 false op h = h
suits s32 true op h = omega arith
suits s32 false op h = h
suits s64 b op h = omega arith

pub wide_kept :
    (size : Size) (b : Bool) (r : Option ℕ)
    → RexKept (rex_high size b) r
    → is_wide r ≡ has_64_bits size
wide_kept s8 true r (low, h, e) = rw e (ground arith)
wide_kept s8 false r h = rw h refl
wide_kept s16 true r (low, h, e) = rw e (ground arith)
wide_kept s16 false r h = rw h refl
wide_kept s32 true r (low, h, e) = rw e (ground arith)
wide_kept s32 false r h = rw h refl
wide_kept s64 b r (low, h, e) = rw e (ground arith)

pub prefix_kept :
    (size : Size) (b : Bool) (r : Option ℕ) → RexKept (rex_high size b) r → is_rex r ≡ true
prefix_kept s8 true r (low, h, e) = rw e (ground arith)
prefix_kept s8 false r h = rw h refl
prefix_kept s16 true r (low, h, e) = rw e (ground arith)
prefix_kept s16 false r h = rw h refl
prefix_kept s32 true r (low, h, e) = rw e (ground arith)
prefix_kept s32 false r h = rw h refl
prefix_kept s64 b r (low, h, e) = rw e (ground arith)

-- Without a prefix an operand of 8 bits has one of the numbers 0 to 3.
first_byte :
    (op : Rm) (out : RmBytes)
    → rm_size op ≡ s8
    → rm_requires_rex op ≡ false
    → processor_place out ≡ some (place_of op)
    → out.rex ≡ none
    → processor_operand s8 out ≡ some (place_of op)
unfolding processor_operand processor_place reg_requires_rex operand_requires_rex
first_byte (Rm.reg r) out z h p e = ground arith
first_byte (Rm.mem m) out z h p e = ground arith

no_second_bytes :
    (size : Size) (o : RmBytes)
    → has_second_bytes size o.rex ≡ false
    → processor_operand size o ≡ processor_place o
unfolding processor_operand
no_second_bytes size o h = rw h refl

pub operand_kept :
    (size : Size) (b : Bool) (op : Rm) (out : RmBytes)
    → rm_size op ≡ size
    → rm_requires_rex op ≡ b
    → RexKept (rex_high size b) out.rex
    → processor_place out ≡ some (place_of op)
    → processor_operand size out ≡ some (place_of op)
unfolding processor_operand
operand_kept s8 true op out z h (low, k, e) p = no_second_bytes s8 out (rw e refl) ∙ p
operand_kept s8 false op out z h e p = first_byte op out z h p e
operand_kept s16 b op out z h k p = p
operand_kept s32 b op out z h k p = p
operand_kept s64 b op out z h k p = p
