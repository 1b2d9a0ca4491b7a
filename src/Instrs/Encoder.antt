-- ===== src/Instrs/Encoder.antt =====
-- src/x86_64/instrs/instr_encoder.cc. The bytes written so far are the list `code`, whose length is
-- `size_`; the pointers to its parts are indices. A byte that is reserved and not written yet is the
-- byte that the view held before, `initial`. An instruction is far shorter than 256 bytes, so that the
-- `uint8_t` that counts them does not wrap around.
use Prim.Native.Nat.{bit_and, bit_or}
use katara.Prelude.{
  ℕ, zero, suc, ◌+◌, ◌*◌, Bool, true, false, not, ◌||◌, leb, ltb, if◌then◌else◌, List, [], ◌∷◌,
  ◌++◌, Option, some, none, length, get_elem?, set,
}
use katara.Prelude.Result.{Result, ok, err, failed, undefined, ◌>>=◌}
use katara.X86.Ops.{
  Size, s16, s64, Reg, Imm, Rm, required_imm_size, rm_requires_sib, rm_required_disp_size,
}
use katara.X86.Encode.{RmBytes, encode_rm, encode_in_modrm_reg, encode_in_opcode, encode_imm}

pub record Encoder : Type 0 where
  pub capacity : ℕ
  pub initial : ℕ → ℕ
  pub code : List ℕ
  pub rex : Option ℕ
  pub opcode : Option ℕ
  pub modrm : Option ℕ
  pub sib : Option ℕ
  pub disp : Option ℕ
  pub imm : Option ℕ

unfoldable pub new_encoder : ℕ → (ℕ → ℕ) → Encoder
new_encoder capacity initial = record {
  capacity = capacity;
  initial = initial;
  code = [];
  rex = none;
  opcode = none;
  modrm = none;
  sib = none;
  disp = none;
  imm = none;
}

abbrev pub is_null : Option ℕ → Bool
is_null none = true
is_null (some i) = false

-- `code_[size_++] = b`; the view checks the index.
unfoldable pub emit : Encoder → ℕ → Result Encoder
emit e b =
    if ltb (length e.code) e.capacity
    then ok (record e { code = e.code ++ (b ∷ []) })
    else err failed

-- `p = &code_[size_++]`.
unfoldable pub reserve : Encoder → Result Encoder
unfolding emit
reserve e = emit e (e.initial (length e.code))

-- The byte behind a pointer.
abbrev pub byte_at : Encoder → Option ℕ → Option ℕ
byte_at e none = none
byte_at e (some i) = get_elem? e.code i

-- What was written through a pointer.
abbrev pub write_back : Option ℕ → Option ℕ → List ℕ → List ℕ
write_back (some i) (some b) code = set code i b
write_back _ _ code = code

unfoldable pub emit_rex : Encoder → Result Encoder
unfolding emit
emit_rex e =
    if not (is_null e.opcode)
    then err failed
    else if not (is_null e.rex)
    then ok e
    else emit (record e { rex = some (length e.code) }) 0x40

-- `*rex_ |= 0x08`.
unfoldable pub set_rex_w : Encoder → Encoder
set_rex_w e = elim (byte_at e e.rex) [
  | none ↦ e
  | some b ↦ record e { code = write_back e.rex (some (bit_or b 0x08)) e.code }
]

unfoldable pub emit_operand_size : Encoder → Size → Result Encoder
unfolding emit emit_rex set_rex_w
emit_operand_size e size =
    if not (is_null e.opcode)
    then err failed
    else elim size [ s16 ↦ emit e 0x66 | s64 ↦ (emit_rex e >>= λ e'. ok (set_rex_w e')) | _ ↦ ok e ]

unfoldable pub emit_opcode : Encoder → ℕ → Result Encoder
unfolding emit
emit_opcode e a =
    if not (is_null e.opcode)
    then err failed
    else emit (record e { opcode = some (length e.code) }) a

unfoldable pub emit_opcode_two : Encoder → ℕ → ℕ → Result Encoder
unfolding emit_opcode emit
emit_opcode_two e a b = emit_opcode e a >>= λ e'. emit e' b

unfoldable pub emit_opcode_three : Encoder → ℕ → ℕ → ℕ → Result Encoder
unfolding emit_opcode_two emit
emit_opcode_three e a b c = emit_opcode_two e a b >>= λ e'. emit e' c

-- `if (modrm_ == nullptr) modrm_ = &code_[size_++]`.
unfoldable pub need_modrm : Encoder → Result Encoder
unfolding reserve
need_modrm e = if is_null e.modrm then reserve (record e { modrm = some (length e.code) }) else ok e

abbrev pub or_zero : Option ℕ → ℕ
or_zero none = 0
or_zero (some b) = b

unfoldable pub emit_opcode_ext : Encoder → ℕ → Result Encoder
unfolding need_modrm
emit_opcode_ext e ext = if is_null e.opcode || not (is_null e.imm) then err failed else (do
  e' ← need_modrm e
  let b = bit_or (bit_and (or_zero (byte_at e' e'.modrm)) 0xc7) (bit_and ext 0x7 * 8)
  ok (record e' { code = write_back e'.modrm (some b) e'.code }))

-- A shift above 5 and an index above 2 are failures; the opcode byte is that at the index.
unfoldable pub emit_opcode_reg : Encoder → Reg → ℕ → ℕ → Result Encoder
emit_opcode_reg e r opcode_index lshift = elim e.opcode [
  | none ↦ err failed
  | some i ↦
      if not (is_null e.imm) || leb 3 opcode_index || ltb 5 lshift
      then err failed
      else elim (get_elem? e.code (i + opcode_index)) [
        | none ↦ err undefined
        | some b ↦ (do
          found ← encode_in_opcode r (byte_at e e.rex) b lshift
          ok (record e { code = set (write_back e.rex found.0 e.code) (i + opcode_index) found.1 }))
      ]
]

unfoldable pub emit_modrm_reg : Encoder → Reg → Result Encoder
unfolding need_modrm
emit_modrm_reg e r = if is_null e.opcode || not (is_null e.imm) then err failed else (do
  e' ← need_modrm e
  found ← encode_in_modrm_reg r (byte_at e' e'.rex) (or_zero (byte_at e' e'.modrm))
  ok (record e' { code = write_back e'.modrm (some found.1) (write_back e'.rex found.0 e'.code) }))

-- The bytes that the view held at the places from `i` on.
unfoldable pub held : (ℕ → ℕ) → ℕ → ℕ → List ℕ
held initial i zero = []
held initial i (suc n) = initial i ∷ held initial (suc i) n

-- Bytes written from an index on.
unfoldable pub overwrite : List ℕ → ℕ → List ℕ → List ℕ
overwrite code i [] = code
overwrite code i (b ∷ bs) = overwrite (set code i b) (suc i) bs

-- `disp_ = &code_[size_]; size_ += n` and the test behind it.
unfoldable pub reserve_disp : Encoder → ℕ → Result Encoder
unfolding held
reserve_disp e n =
    if ltb (length e.code) e.capacity
    then (if ltb e.capacity (length e.code + n)
        then err failed
        else ok (record e {
          disp = some (length e.code);
          code = e.code ++ held e.initial (length e.code) n;
        }))
    else err failed

unfoldable pub need_sib : Encoder → Rm → Result Encoder
unfolding reserve rm_requires_sib
need_sib e rm =
    if rm_requires_sib rm then reserve (record e { sib = some (length e.code) }) else ok e

-- The four writes of `RM::EncodeInModRM_SIB_Disp`.
unfoldable pub write_rm : Encoder → ℕ → RmBytes → Encoder
unfolding overwrite
write_rm e at_disp out = record e {
  code =
      overwrite
        (write_back e.sib out.sib
          (write_back e.modrm (some out.modrm) (write_back e.rex out.rex e.code)))
        at_disp out.disp;
}

unfoldable pub emit_rm : Encoder → Rm → Result Encoder
unfolding need_modrm need_sib reserve_disp write_rm encode_rm rm_required_disp_size
emit_rm e rm =
    if is_null e.opcode || not (is_null e.sib) || not (is_null e.disp) || not (is_null e.imm)
    then err failed
    else (do
      e1 ← need_modrm e
      e2 ← need_sib e1 rm
      e3 ← reserve_disp e2 (rm_required_disp_size rm)
      out ← encode_rm rm (byte_at e3 e3.rex) (or_zero (byte_at e3 e3.modrm)) (byte_at e3 e3.sib)
      ok (write_rm e3 (length e2.code) out))

-- `&code_[size_]` and the view on the immediate check the index as for a displacement.
unfoldable pub emit_imm : Encoder → Imm → Result Encoder
unfolding encode_imm required_imm_size
emit_imm e i =
    if is_null e.opcode || not (is_null e.imm)
    then err failed
    else if ltb (length e.code) e.capacity
    then (if ltb e.capacity (length e.code + required_imm_size i)
        then err failed
        else ok (record e { imm = some (length e.code); code = e.code ++ encode_imm i }))
    else err failed
