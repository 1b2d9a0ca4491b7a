-- ===== src/Instrs/Writing.antt =====
-- What `InstrEncoder::EncodeRM` of src/x86_64/instrs/instr_encoder.cc leaves behind a header: the writes through its pointers.
use katara.Prelude.{
  ℕ, ◌+◌, ◌*◌, ◌<◌, ◌≡◌, ◌∙◌, sym, subst, refl, ap, List, [], ◌∷◌, ◌++◌, Option, some, none, length,
  length-set, get_elem?, set,
}
use katara.X86.Encode.{RmBytes}
use katara.Instrs.Encoder.{Encoder, write_back, overwrite}
use katara.Instrs.Lists.{
  set-append, set-append_behind, set_at_length, overwrite-append_behind, overwrite-cons,
  overwrite_all,
}

-- The header holds the prefix where the pointer points, or the pointer is null.
abbrev pub RexAt : List ℕ → Option ℕ → Option ℕ → Type 0
RexAt header none at_rex = at_rex ≡ none
RexAt header (some r) at_rex =
    (i : ℕ) × (at_rex ≡ some i) × (i < length header) × (get_elem? header i ≡ some (r * 4))

abbrev pub optional : Option ℕ → List ℕ
optional none = []
optional (some s) = s ∷ []

length-write_back : (p v : Option ℕ) (xs : List ℕ) → length (write_back p v xs) ≡ length xs
length-write_back none v xs = refl
length-write_back (some i) none xs = refl
length-write_back (some i) (some v) xs = length-set xs i v

-- A pointer into the header.
abbrev pub Points : Option ℕ → List ℕ → Type 0
Points none header = Unit {0}
Points (some i) header = i < length header

pub RexAt-Points :
    (header : List ℕ) (r at_rex : Option ℕ) → RexAt header r at_rex → Points at_rex header
RexAt-Points header none at_rex h = subst (λ (p : Option ℕ). Points p header) (sym h) tt
RexAt-Points header (some r) at_rex h = subst (λ (p : Option ℕ). Points p header) (sym h.1) h.2

write_back-append :
    (p v : Option ℕ) (xs ys : List ℕ)
    → Points p xs
    → write_back p v (xs ++ ys) ≡ write_back p v xs ++ ys
write_back-append none v xs ys h = refl
write_back-append (some i) none xs ys h = refl
write_back-append (some i) (some v) xs ys h = set-append xs ys i v h

-- An encoder that has written the header and reserved the ModRM byte behind it.
abbrev pub opened : ℕ → (ℕ → ℕ) → List ℕ → Option ℕ → ℕ → ℕ → Encoder
opened capacity initial header at_rex at_opcode modrm = record {
  capacity = capacity;
  initial = initial;
  code = header ++ (modrm ∷ []);
  rex = at_rex;
  opcode = some at_opcode;
  modrm = some (length header);
  sib = none;
  disp = none;
  imm = none;
}

module _ (header : List ℕ) (at_rex : Option ℕ) (inside : Points at_rex header) (modrm : ℕ)
    (out : RmBytes) where
  unfoldable pub after : List ℕ
  after = write_back at_rex out.rex header

  length-after : length after ≡ length header
  unfolding after
  length-after = length-write_back at_rex out.rex header

  -- The prefix and the ModRM byte are written.
  front :
      (rest : List ℕ)
      → write_back
          (some (length header))
          (some out.modrm)
          (write_back at_rex out.rex (header ++ modrm ∷ rest))
        ≡ after ++ out.modrm ∷ rest
  unfolding after
  front rest = rw (write_back-append at_rex out.rex header (modrm ∷ rest) inside) (
      subst (λ (n : ℕ). set (after ++ modrm ∷ rest) n out.modrm ≡ after ++ out.modrm ∷ rest)
        length-after (set_at_length after modrm rest out.modrm))

  pub without_sib :
      (garbage c : List ℕ) (i : ℕ)
      → c ≡ header ++ modrm ∷ garbage
      → i ≡ 1 + length header
      → length garbage ≡ length out.disp
      → overwrite
          (write_back (some (length header)) (some out.modrm) (write_back at_rex out.rex c))
          i
          out.disp
        ≡ after ++ out.modrm ∷ out.disp
  without_sib garbage c i hc hi h =
      rw (hc, hi, front garbage)
        (subst
          (λ (n : ℕ).
            overwrite (after ++ out.modrm ∷ garbage) (1 + n) out.disp
            ≡ after ++ out.modrm ∷ out.disp)
          length-after
          (overwrite-append_behind after (out.modrm ∷ garbage) 1 out.disp
            ∙ ap (λ (t : List ℕ). after ++ t)
                (overwrite-cons out.modrm garbage 0 out.disp
                  ∙ ap (λ (t : List ℕ). out.modrm ∷ t) (overwrite_all garbage out.disp h))))

  pub with_sib :
      (old s : ℕ) (garbage c : List ℕ) (i j : ℕ)
      → c ≡ header ++ modrm ∷ (old ∷ garbage)
      → i ≡ 2 + length header
      → j ≡ 1 + length header
      → length garbage ≡ length out.disp
      → overwrite
          (write_back
            (some j)
            (some s)
            (write_back (some (length header)) (some out.modrm) (write_back at_rex out.rex c)))
          i
          out.disp
        ≡ after ++ out.modrm ∷ (s ∷ out.disp)
  with_sib old s garbage c i j hc hi hj h =
      rw (hc, hi, hj, front (old ∷ garbage))
        (subst
          (λ (n : ℕ).
            overwrite (set (after ++ out.modrm ∷ (old ∷ garbage)) (1 + n) s) (2 + n) out.disp
            ≡ after ++ out.modrm ∷ (s ∷ out.disp))
          length-after
          (rw (set-append_behind after (out.modrm ∷ (old ∷ garbage)) 1 s) (
            overwrite-append_behind after (out.modrm ∷ (s ∷ garbage)) 2 out.disp
            ∙ ap (λ (t : List ℕ). after ++ t)
                (overwrite-cons out.modrm (s ∷ garbage) 1 out.disp
                  ∙ ap (λ (t : List ℕ). out.modrm ∷ t)
                      (overwrite-cons s garbage 0 out.disp
                        ∙ ap (λ (t : List ℕ). s ∷ t) (overwrite_all garbage out.disp h))))))
