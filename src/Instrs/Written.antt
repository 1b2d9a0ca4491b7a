-- ===== src/Instrs/Written.antt =====
-- The steps of `InstrEncoder::EncodeRM` of src/x86_64/instrs/instr_encoder.cc behind a header, and the code they leave.
use katara.Prelude.{
  ℕ, ◌+◌, ◌≤◌, ◌<◌, ◌≡◌, ◌∙◌, sym, subst, refl, ap, arith, true, false, not, ◌||◌, ltb, List, [],
  ◌∷◌, ◌++◌, Option, some, none, length, get_elem?, Bool-cases, inl, inr, lt→ltb,
}
use katara.Prelude.Result.{ok}
use katara.X86.Ops.{Rm, rm_requires_sib, rm_required_disp_size, required_disp_size}
use katara.X86.Encode.{RmBytes, encode_rm}
use katara.X86.MemOperands.{is_some}
use katara.Instrs.Encoder.{
  Encoder, is_null, write_back, byte_at, or_zero, emit_rm, need_modrm, need_sib, reserve, emit,
  reserve_disp, write_rm, held,
}
use katara.Instrs.Lists.{append_assoc, get_elem?-append, get_at_length, length_snoc, length-held}
use katara.Instrs.Operand.{Placed, IsRm, Suits, rex_cell, rm_sib_cell, encode_rm_exact}
use katara.Instrs.Writing.{RexAt, RexAt-Points, optional, opened, after, without_sib, with_sib}

emit_rm_steps :
    (e e1 e2 e3 : Encoder) (rm : Rm) (out : RmBytes)
    → (is_null e.opcode || not (is_null e.sib) || not (is_null e.disp) || not (is_null e.imm))
      ≡ false
    → need_modrm e ≡ ok e1
    → need_sib e1 rm ≡ ok e2
    → reserve_disp e2 (rm_required_disp_size rm) ≡ ok e3
    → encode_rm rm (byte_at e3 e3.rex) (or_zero (byte_at e3 e3.modrm)) (byte_at e3 e3.sib) ≡ ok out
    → emit_rm e rm ≡ ok (write_rm e3 (length e2.code) out)
unfolding emit_rm
emit_rm_steps e e1 e2 e3 rm out h0 h1 h2 h3 h4 = rw (h0, h1, h2, h3, h4) refl

with_disp : Encoder → ℕ → Encoder
with_disp e n = record e {
  disp = some (length e.code);
  code = e.code ++ held e.initial (length e.code) n;
}

ltb-false : (a b : ℕ) → b ≤ a → ltb a b ≡ false
ltb-false a b h = ground arith

disp_size_bound : (rm : Rm) → rm_required_disp_size rm ≤ 4
unfolding rm_required_disp_size required_disp_size
disp_size_bound (Rm.reg r) = omega arith
disp_size_bound (Rm.mem m) = ground arith

reserve_disp_room :
    (e : Encoder) (n : ℕ) → length e.code + n < e.capacity → reserve_disp e n ≡ ok (with_disp e n)
unfolding reserve_disp with_disp
reserve_disp_room e n h =
    rw
      (
        lt→ltb (length e.code) e.capacity (omega arith),
        ltb-false e.capacity (length e.code + n) (omega arith),
      )
      refl

with_sib_byte : Encoder → Encoder
with_sib_byte e = record e {
  sib = some (length e.code);
  code = e.code ++ e.initial (length e.code) ∷ [];
}

need_sib_none : (e : Encoder) (rm : Rm) → rm_requires_sib rm ≡ false → need_sib e rm ≡ ok e
unfolding need_sib
need_sib_none e rm h = rw h refl

need_sib_room :
    (e : Encoder) (rm : Rm)
    → rm_requires_sib rm ≡ true
    → length e.code < e.capacity
    → need_sib e rm ≡ ok (with_sib_byte e)
unfolding need_sib reserve emit with_sib_byte
need_sib_room e rm h k = rw (h, lt→ltb (length e.code) e.capacity k) refl

rex_at : List ℕ → Option ℕ → Option ℕ
rex_at code none = none
rex_at code (some i) = get_elem? code i

read_rex :
    (header rest : List ℕ) (p at_rex : Option ℕ)
    → RexAt header p at_rex
    → rex_at (header ++ rest) at_rex ≡ rex_cell p
unfolding rex_at
read_rex header rest none at_rex h = rw h refl
read_rex header rest (some r) at_rex (i, e, k, g) = rw (e, get_elem?-append header rest i k, g) refl

byte-rex_at : (e : Encoder) (q : Option ℕ) → byte_at e q ≡ rex_at e.code q
unfolding rex_at
byte-rex_at e none = refl
byte-rex_at e (some i) = refl

is_none : (v : Option ℕ) → is_some v ≡ false → v ≡ none
is_none none h = refl
is_none (some s) h = absurd (grind arith)

is_there : (v : Option ℕ) → is_some v ≡ true → (s : ℕ) × (v ≡ some s)
is_there none h = absurd (grind arith)
is_there (some s) h = (s, refl)

module _ (capacity : ℕ) (initial : ℕ → ℕ) (header : List ℕ) (at_rex : Option ℕ)
    (at_opcode modrm : ℕ) where
  unfoldable pub start : Encoder
  start = opened capacity initial header at_rex at_opcode modrm

module _ (capacity : ℕ) (initial : ℕ → ℕ) (header : List ℕ) (at_rex : Option ℕ)
    (at_opcode modrm : ℕ) (rm : Rm) (p : Option ℕ) where
  unfoldable pub written : RmBytes → List ℕ
  written out = write_back at_rex out.rex header ++ out.modrm ∷ (optional out.sib ++ out.disp)

  unfoldable pub Leaves : Type 0
  unfolding start written
  Leaves =
      (out : RmBytes) × (enc : Encoder) × (emit_rm
          (start capacity initial header at_rex at_opcode modrm) rm
        ≡ ok enc)
      × (enc.code ≡ written out)
      × Placed rm p modrm out

module _ (capacity : ℕ) (initial : ℕ → ℕ) (header : List ℕ) (at_rex : Option ℕ)
    (at_opcode modrm : ℕ) (rm : Rm) (p : Option ℕ) (placed : RexAt header p at_rex)
    (room : length header + 7 ≤ capacity) where
  begun : Encoder
  unfolding start
  begun = start capacity initial header at_rex at_opcode modrm

  Left : Type 0
  unfolding Leaves
  Left = Leaves capacity initial header at_rex at_opcode modrm rm p

  start_null :
      (is_null begun.opcode
        || not (is_null begun.sib)
        || not (is_null begun.disp)
        || not (is_null begun.imm))
      ≡ false
  unfolding begun start
  start_null = refl

  start_modrm : need_modrm begun ≡ ok begun
  unfolding need_modrm start begun
  start_modrm = refl

  room_behind : length begun.code + rm_required_disp_size rm < capacity
  unfolding begun start
  room_behind = let d = disp_size_bound rm in let l = length_snoc header modrm in omega arith

  plain :
      (hs : rm_requires_sib rm ≡ false) (out : RmBytes)
      → encode_rm rm (rex_cell p) modrm none ≡ ok out
      → Placed rm p modrm out
      → Left
  unfolding Left Leaves with_disp start begun write_rm written after
  plain hs out e k =
      let absent = is_none out.sib (k.sib_there ∙ hs) in
      let n = rm_required_disp_size rm in
      let garbage = held initial (length begun.code) n in
      let flat = append_assoc header (modrm ∷ []) garbage in
      let e3 = with_disp begun n in
      let read : byte_at e3 at_rex ≡ rex_cell p =
        byte-rex_at e3 at_rex
        ∙ ap (λ (c : List ℕ). rex_at c at_rex) flat
        ∙ read_rex header (modrm ∷ garbage) p at_rex placed in
      let read_modrm : or_zero (get_elem? e3.code (length header)) ≡ modrm =
        ap (λ (c : List ℕ). or_zero (get_elem? c (length header))) flat
        ∙ ap or_zero (get_at_length header modrm garbage) in
      (
        out,
        write_rm e3 (length begun.code) out,
        emit_rm_steps begun begun begun e3 rm out start_null start_modrm (need_sib_none begun rm hs)
            (reserve_disp_room begun n room_behind) (rw (read, read_modrm) e),
        rw absent (
            without_sib header at_rex (RexAt-Points header p at_rex placed) modrm out garbage
              e3.code (length begun.code) flat (length_snoc header modrm)
              (length-held initial (length begun.code) n ∙ sym k.disp_size)),
        k,
      )

  indexed :
      (hs : rm_requires_sib rm ≡ true) (out : RmBytes)
      → encode_rm rm (rex_cell p) modrm (some (initial (length begun.code))) ≡ ok out
      → Placed rm p modrm out
      → Left
  unfolding Left Leaves with_disp with_sib_byte start begun write_rm written after
  indexed hs out e k =
      let (s, there) = is_there out.sib (k.sib_there ∙ hs) in
      let n = rm_required_disp_size rm in
      let old = initial (length begun.code) in
      let e2 = with_sib_byte begun in
      let garbage = held initial (length e2.code) n in
      let l1 = length_snoc header modrm in
      let l2 = length_snoc begun.code old in
      let bound = disp_size_bound rm in
      let flat : (begun.code ++ old ∷ []) ++ garbage ≡ header ++ modrm ∷ (old ∷ garbage) =
        append_assoc begun.code (old ∷ []) garbage
        ∙ append_assoc header (modrm ∷ []) (old ∷ garbage) in
      let e3 = with_disp e2 n in
      let read : byte_at e3 at_rex ≡ rex_cell p =
        byte-rex_at e3 at_rex
        ∙ ap (λ (c : List ℕ). rex_at c at_rex) flat
        ∙ read_rex header (modrm ∷ (old ∷ garbage)) p at_rex placed in
      let read_modrm : or_zero (get_elem? e3.code (length header)) ≡ modrm =
        ap (λ (c : List ℕ). or_zero (get_elem? c (length header))) flat
        ∙ ap or_zero (get_at_length header modrm (old ∷ garbage)) in
      let read_sib : get_elem? e3.code (length begun.code) ≡ some old =
        ap (λ (c : List ℕ). get_elem? c (length begun.code))
          (append_assoc begun.code (old ∷ []) garbage)
        ∙ get_at_length begun.code old garbage in
      (
        out,
        write_rm e3 (length e2.code) out,
        emit_rm_steps begun begun e2 e3 rm out start_null start_modrm
            (need_sib_room begun rm hs (omega arith)) (reserve_disp_room e2 n (omega arith))
            (rw (read, read_modrm, read_sib) e),
        rw there (
            with_sib header at_rex (RexAt-Points header p at_rex placed) modrm out old s garbage
              e3.code (length e2.code) (length begun.code) flat (omega arith) l1
              (length-held initial (length e2.code) n ∙ sym k.disp_size)),
        k,
      )

pub emit_rm_exact :
    (capacity : ℕ) (initial : ℕ → ℕ) (header : List ℕ) (at_rex : Option ℕ) (at_opcode modrm : ℕ)
    (rm : Rm) (p : Option ℕ)
    → RexAt header p at_rex
    → length header + 7 ≤ capacity
    → IsRm rm
    → Suits rm p
    → modrm < 256
    → Leaves capacity initial header at_rex at_opcode modrm rm p
unfolding rm_requires_sib Left begun start
emit_rm_exact capacity initial header at_rex at_opcode modrm rm p placed room v suits hm =
    let old = initial (length (header ++ modrm ∷ [])) in
    let (out, e, k) = encode_rm_exact rm p modrm old v suits hm in
    elim (Bool-cases (rm_requires_sib rm)) [
      | inl hs ↦
          let c : rm_sib_cell rm old ≡ some old = rw hs refl in
          indexed capacity initial header at_rex at_opcode modrm rm p placed room hs out
            (subst (λ (t : Option ℕ). encode_rm rm (rex_cell p) modrm t ≡ ok out) c e) k
      | inr hs ↦
          let c : rm_sib_cell rm old ≡ none = rw hs refl in
          plain capacity initial header at_rex at_opcode modrm rm p placed room hs out
            (subst (λ (t : Option ℕ). encode_rm rm (rex_cell p) modrm t ≡ ok out) c e) k
    ]
