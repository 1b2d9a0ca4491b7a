-- ===== src/Instrs/Prefixes.antt =====
-- The bytes before the ModRM byte, as the instructions of src/x86_64/instrs begin.
use katara.Prelude.{
  ℕ, ◌+◌, ◌*◌, ◌/◌, ◌%◌, ◌≤◌, ◌<◌, ◌≡◌, refl, arith, Bool, true, false, List, [], ◌∷◌, ◌++◌, Option,
  some, none, length, lt→ltb,
}
use katara.Prelude.Result.{ok}
use katara.X86.Ops.{Size, s8, s16, s32, s64}
use katara.Instrs.Encoder.{
  Encoder, new_encoder, emit, emit_rex, set_rex_w, emit_operand_size, emit_opcode, emit_opcode_ext,
  need_modrm, reserve,
}
use katara.Instrs.Data.{emit_rex_if}
use katara.Instrs.Writing.{opened}
use katara.Instrs.Lists.{get_at_length, set_at_length, length_snoc}
use katara.X86.Registers.{put_reg_sum}
use Prim.Native.Nat.{bit_and, bit_or}

-- The prefixes: the one for 16 bits, and REX, whose bit W is for 64 bits.
abbrev pub legacy : Size → List ℕ
legacy s16 = 0x66 ∷ []
legacy _ = []

abbrev pub rex_high : Size → Bool → Option ℕ
rex_high s64 b = some 18
rex_high _ true = some 16
rex_high _ false = none

abbrev pub rex_index : Size → Bool → Option ℕ
rex_index s64 b = some 0
rex_index s16 true = some 1
rex_index _ true = some 0
rex_index _ false = none

abbrev pub prefixes : Size → Bool → List ℕ
prefixes s8 false = []
prefixes s8 true = 0x40 ∷ []
prefixes s16 false = 0x66 ∷ []
prefixes s16 true = 0x66 ∷ (0x40 ∷ [])
prefixes s32 false = []
prefixes s32 true = 0x40 ∷ []
prefixes s64 b = 0x48 ∷ []

abbrev pub prefixed : ℕ → (ℕ → ℕ) → Size → Bool → Encoder
prefixed capacity initial size b = record (new_encoder capacity initial) {
  code = prefixes size b;
  rex = rex_index size b;
}

pub size-prefixes :
    (capacity : ℕ) (initial : ℕ → ℕ) (size : Size)
    → 10 ≤ capacity
    → emit_operand_size (new_encoder capacity initial) size
      ≡ ok (prefixed capacity initial size false)
unfolding emit_operand_size emit_rex emit set_rex_w new_encoder
size-prefixes capacity initial s8 h = refl
size-prefixes capacity initial s16 h = rw (lt→ltb 0 capacity (omega arith)) refl
size-prefixes capacity initial s32 h = refl
size-prefixes capacity initial s64 h = rw (lt→ltb 0 capacity (omega arith)) refl

pub rex-prefixes :
    (capacity : ℕ) (initial : ℕ → ℕ) (size : Size) (b : Bool)
    → 10 ≤ capacity
    → emit_rex_if b (prefixed capacity initial size false) ≡ ok (prefixed capacity initial size b)
unfolding emit_rex emit new_encoder
rex-prefixes capacity initial s8 true h = rw (lt→ltb 0 capacity (omega arith)) refl
rex-prefixes capacity initial s16 true h = rw (lt→ltb 1 capacity (omega arith)) refl
rex-prefixes capacity initial s32 true h = rw (lt→ltb 0 capacity (omega arith)) refl
rex-prefixes capacity initial s64 true h = refl
rex-prefixes capacity initial s8 false h = refl
rex-prefixes capacity initial s16 false h = refl
rex-prefixes capacity initial s32 false h = refl
rex-prefixes capacity initial s64 false h = refl

abbrev pub coded : ℕ → (ℕ → ℕ) → Size → Bool → ℕ → Encoder
coded capacity initial size b a = record (prefixed capacity initial size b) {
  code = prefixes size b ++ a ∷ [];
  opcode = some (length (prefixes size b));
}

pub prefixes-length : (size : Size) (b : Bool) → length (prefixes size b) ≤ 2
prefixes-length s8 true = omega arith
prefixes-length s8 false = omega arith
prefixes-length s16 true = omega arith
prefixes-length s16 false = omega arith
prefixes-length s32 true = omega arith
prefixes-length s32 false = omega arith
prefixes-length s64 b = omega arith

pub opcode-prefixes :
    (capacity : ℕ) (initial : ℕ → ℕ) (size : Size) (b : Bool) (a : ℕ)
    → 10 ≤ capacity
    → emit_opcode (prefixed capacity initial size b) a ≡ ok (coded capacity initial size b a)
unfolding emit_opcode emit new_encoder
opcode-prefixes capacity initial size b a h =
    let l = prefixes-length size b in
    rw (lt→ltb (length (prefixes size b)) capacity (omega arith)) refl

-- The ModRM byte with its Reg field set, over what was there.
abbrev pub ext_modrm : ℕ → ℕ → ℕ
ext_modrm old ext = bit_or (bit_and old 0xc7) (bit_and ext 0x7 * 8)

pub ext_modrm-field : (old ext : ℕ) → old < 256 → ext < 8 → ext_modrm old ext / 8 % 8 ≡ ext
ext_modrm-field old ext h k = rw (put_reg_sum old ext h (omega arith)) (omega arith)

pub ext_modrm-byte : (old ext : ℕ) → old < 256 → ext < 8 → ext_modrm old ext < 256
ext_modrm-byte old ext h k = rw (put_reg_sum old ext h (omega arith)) (omega arith)

pub ext-prefixes :
    (capacity : ℕ) (initial : ℕ → ℕ) (size : Size) (b : Bool) (a ext : ℕ)
    → 10 ≤ capacity
    → emit_opcode_ext (coded capacity initial size b a) ext
      ≡ ok (
          opened capacity initial
            (prefixes size b ++ a ∷ [])
            (rex_index size b)
            (length (prefixes size b))
            (ext_modrm (initial (length (prefixes size b ++ a ∷ []))) ext))
unfolding emit_opcode_ext need_modrm reserve emit new_encoder
ext-prefixes capacity initial size b a ext h =
    let l = prefixes-length size b in
    let header = prefixes size b ++ a ∷ [] in
    let l' : length header ≡ 1 + length (prefixes size b) = length_snoc (prefixes size b) a in
    let old = initial (length header) in
    rw
      (
        lt→ltb (length header) capacity (omega arith),
        get_at_length header old [],
        set_at_length header old [] (ext_modrm old ext),
      )
      refl
