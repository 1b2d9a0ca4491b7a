-- ===== src/Instrs/Single.antt =====
-- The instructions with one operand of src/x86_64/instrs/arithmetic_logic_instrs.cc, as the processor
-- reads them.
use katara.Prelude.{
  ℕ, ◌+◌, ◌/◌, ◌%◌, ◌≤◌, ◌<◌, ◌≡◌, ◌∙◌, refl, ap, arith, Bool, true, false, ◌||◌, List, [], ◌∷◌,
  ◌++◌, Option, some, length,
}
use katara.Prelude.Result.{Result, ok, ◌>>=◌}
use katara.X86.Ops.{Size, s8, s16, s32, s64, Rm}
use katara.X86.Encode.{RmBytes}
use katara.Instrs.Data.{rm_size, rm_requires_rex, emit_rex_if, opcode_by_size}
use katara.Instrs.Encoder.{
  Encoder, new_encoder, emit_operand_size, emit_opcode, emit_opcode_ext, emit_rm, write_back,
}
use katara.Instrs.Operand.{IsRm, RexKept, place_of}
use katara.Instrs.Sized.{
  is_wide, has_64_bits, is_rex, suits, wide_kept, prefix_kept, processor_operand, operand_kept,
}
use katara.Instrs.Writing.{RexAt, opened, optional}
use katara.Instrs.Written.{Leaves, start, written, emit_rm_exact}
use katara.Instrs.Lists.{append_assoc, length_snoc}
use katara.Instrs.Arithmetic.{
  UnaryAlInstr, unary_opcode, unary_opcode_ext, encode_unary, encode_mul, encode_div, encode_idiv,
}
use katara.Instrs.Products.{encode_imul, new_imul_one}
use katara.Instrs.Prefixes.{
  legacy, rex_high, rex_index, prefixes, prefixes-length, size-prefixes, rex-prefixes,
  opcode-prefixes, ext-prefixes, ext_modrm, ext_modrm-field, ext_modrm-byte,
}

-- The instructions, and the digits by which the processor knows them.
pub data SingleInstr : Type 0 where
  unary : UnaryAlInstr → SingleInstr
  mul imul div idiv : SingleInstr

abbrev pub digit : SingleInstr → ℕ
digit (SingleInstr.unary UnaryAlInstr.not_instr) = 2
digit (SingleInstr.unary UnaryAlInstr.neg_instr) = 3
digit SingleInstr.mul = 4
digit SingleInstr.imul = 5
digit SingleInstr.div = 6
digit SingleInstr.idiv = 7

abbrev pub encode_single : Encoder → SingleInstr → Rm → Result Encoder
unfolding encode_unary encode_mul encode_div encode_idiv encode_imul new_imul_one
encode_single e (SingleInstr.unary i) op = encode_unary e i op
encode_single e SingleInstr.mul op = encode_mul e op
encode_single e SingleInstr.imul op = encode_imul e (new_imul_one op)
encode_single e SingleInstr.div op = encode_div e op
encode_single e SingleInstr.idiv op = encode_idiv e op

-- What the processor reads of a prefix, an opcode and an operand.
pub record Reads (size : Size) (op : Rm) (ext : ℕ) (out : RmBytes) : Type 0 where
  pub place : processor_operand size out ≡ some (place_of op)
  pub prefix : is_rex out.rex ≡ true
  pub field : out.modrm / 8 % 8 ≡ ext
  pub wide : is_wide out.rex ≡ has_64_bits size

-- The bytes of an instruction in their order.
abbrev pub instr_bytes : Size → ℕ → RmBytes → List ℕ
instr_bytes size opcode out =
    legacy size ++ (optional out.rex ++ opcode ∷ (out.modrm ∷ (optional out.sib ++ out.disp)))

rex_there :
    (size : Size) (b : Bool) (opcode : ℕ)
    → RexAt (prefixes size b ++ opcode ∷ []) (rex_high size b) (rex_index size b)
rex_there s8 true opcode = (0, refl, omega arith, refl)
rex_there s8 false opcode = refl
rex_there s16 true opcode = (1, refl, omega arith, refl)
rex_there s16 false opcode = refl
rex_there s32 true opcode = (0, refl, omega arith, refl)
rex_there s32 false opcode = refl
rex_there s64 b opcode = (0, refl, omega arith, refl)

-- The prefix that the operand gave is written where it was reserved.
header_written :
    (size : Size) (b : Bool) (opcode : ℕ) (r : Option ℕ)
    → RexKept (rex_high size b) r
    → write_back (rex_index size b) r (prefixes size b ++ opcode ∷ [])
      ≡ legacy size ++ (optional r ++ opcode ∷ [])
header_written s8 true opcode r (low, h, e) = rw e refl
header_written s8 false opcode r h = rw h refl
header_written s16 true opcode r (low, h, e) = rw e refl
header_written s16 false opcode r h = rw h refl
header_written s32 true opcode r (low, h, e) = rw e refl
header_written s32 false opcode r h = rw h refl
header_written s64 b opcode r (low, h, e) = rw e refl

bytes_order :
    (size : Size) (b : Bool) (opcode : ℕ) (out : RmBytes)
    → RexKept (rex_high size b) out.rex
    → write_back (rex_index size b) out.rex (prefixes size b ++ opcode ∷ [])
        ++ out.modrm ∷ (optional out.sib ++ out.disp)
      ≡ instr_bytes size opcode out
bytes_order size b opcode out h =
    let rest = out.modrm ∷ (optional out.sib ++ out.disp) in
    ap (λ (t : List ℕ). t ++ rest) (header_written size b opcode out.rex h)
    ∙ append_assoc (legacy size) (optional out.rex ++ opcode ∷ []) rest
    ∙ ap (λ (t : List ℕ). legacy size ++ t) (append_assoc (optional out.rex) (opcode ∷ []) rest)

-- The opcode that the instructions share, for 8 bits and for more.
abbrev pub group_opcode : Size → ℕ
group_opcode s8 = 0xf6
group_opcode _ = 0xf7

opcode-group : (size : Size) → opcode_by_size size 0xf6 0xf7 ≡ group_opcode size
opcode-group s8 = refl
opcode-group s16 = refl
opcode-group s32 = refl
opcode-group s64 = refl

abbrev single_opcode : Size → ℕ
single_opcode size = opcode_by_size size 0xf6 0xf7

-- The steps that the classes share.
steps : ℕ → (ℕ → ℕ) → ℕ → Rm → Result Encoder
unfolding emit_operand_size emit_opcode emit_opcode_ext emit_rm
steps capacity initial ext op = do
  e1 ← emit_operand_size (new_encoder capacity initial) (rm_size op)
  e2 ← emit_rex_if (rm_requires_rex op) e1
  e3 ← emit_opcode e2 (single_opcode (rm_size op))
  e4 ← emit_opcode_ext e3 ext
  emit_rm e4 op

or_false : (x : Bool) → (x || false) ≡ x
or_false true = refl
or_false false = refl

single-steps :
    (capacity : ℕ) (initial : ℕ → ℕ) (w : SingleInstr) (op : Rm)
    → encode_single (new_encoder capacity initial) w op ≡ steps capacity initial (digit w) op
unfolding encode_unary encode_mul encode_div encode_idiv encode_imul new_imul_one steps unary_opcode
    unary_opcode_ext
single-steps capacity initial (SingleInstr.unary UnaryAlInstr.not_instr) op = refl
single-steps capacity initial (SingleInstr.unary UnaryAlInstr.neg_instr) op = refl
single-steps capacity initial SingleInstr.mul op = refl
single-steps capacity initial SingleInstr.imul op = rw (or_false (rm_requires_rex op)) refl
single-steps capacity initial SingleInstr.div op = refl
single-steps capacity initial SingleInstr.idiv op = refl

abbrev Begun : ℕ → (ℕ → ℕ) → Rm → Bool → ℕ → Encoder
Begun capacity initial op b ext =
    let header = prefixes (rm_size op) b ++ single_opcode (rm_size op) ∷ [] in
    opened capacity initial header (rex_index (rm_size op) b) (length (prefixes (rm_size op) b))
      (ext_modrm (initial (length header)) ext)

steps-opened :
    (capacity : ℕ) (initial : ℕ → ℕ) (ext : ℕ) (op : Rm)
    → 10 ≤ capacity
    → steps capacity initial ext op
      ≡ emit_rm (Begun capacity initial op (rm_requires_rex op) ext) op
unfolding steps
steps-opened capacity initial ext op room =
    let size = rm_size op in
    let b = rm_requires_rex op in
    rw
      (
        size-prefixes capacity initial size room,
        rex-prefixes capacity initial size b room,
        opcode-prefixes capacity initial size b (single_opcode size) room,
        ext-prefixes capacity initial size b (single_opcode size) ext room,
      )
      refl

digit-bound : (w : SingleInstr) → digit w < 8
digit-bound (SingleInstr.unary UnaryAlInstr.not_instr) = omega arith
digit-bound (SingleInstr.unary UnaryAlInstr.neg_instr) = omega arith
digit-bound SingleInstr.mul = omega arith
digit-bound SingleInstr.imul = omega arith
digit-bound SingleInstr.div = omega arith
digit-bound SingleInstr.idiv = omega arith

-- In a view of at least ten bytes, each of the instructions with one operand is encoded, to the bytes
-- prefix, REX, opcode, ModRM, SIB and displacement in this order; in them the processor reads the
-- operand in its size, the digit of the instruction and, by REX.W, whether the operand has 64 bits.
-- Where no REX prefix is there, the numbers 4 to 7 of 8 bits would be read as ah, ch, dh and bh.
pub encode_single_exact :
    (capacity : ℕ) (initial : ℕ → ℕ) (w : SingleInstr) (op : Rm)
    → 10 ≤ capacity
    → ((i : ℕ) → initial i < 256)
    → IsRm op
    → (out : RmBytes) × (e : Encoder) × (encode_single (new_encoder capacity initial) w op ≡ ok e)
      × (e.code ≡ instr_bytes (rm_size op) (group_opcode (rm_size op)) out)
      × Reads (rm_size op) op (digit w) out
unfolding Leaves start written
encode_single_exact capacity initial w op room bytes v =
    let size = rm_size op in
    let b = rm_requires_rex op in
    let a = single_opcode size in
    let header = prefixes size b ++ a ∷ [] in
    let l : length header ≡ 1 + length (prefixes size b) = length_snoc (prefixes size b) a in
    let l' = prefixes-length size b in
    let old = bytes (length header) in
    let ext = digit-bound w in
    let (out, e, run, code, k) =
      emit_rm_exact capacity initial header (rex_index size b) (length (prefixes size b))
        (ext_modrm (initial (length header)) (digit w)) op (rex_high size b) (rex_there size b a)
        (omega arith) v (suits size b op refl)
        (ext_modrm-byte (initial (length header)) (digit w) old ext) in
    (
      out,
      e,
      single-steps capacity initial w op ∙ steps-opened capacity initial (digit w) op room ∙ run,
      code
          ∙ bytes_order size b a out k.rex_kept
          ∙ ap (λ (n : ℕ). instr_bytes size n out) (opcode-group size),
      record {
        place = operand_kept size b op out refl refl k.rex_kept k.place;
        prefix = prefix_kept size b out.rex k.rex_kept;
        field = k.reg_kept ∙ ext_modrm-field (initial (length header)) (digit w) old ext;
        wide = wide_kept size b out.rex k.rex_kept;
      },
    )
