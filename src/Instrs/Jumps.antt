-- ===== src/Instrs/Jumps.antt =====
-- The jumps and calls of src/x86_64/instrs/control_flow_instrs.cc that the linker completes.
use Prim.Native.Nat.{bit_or}
use katara.Prelude.{
  ℕ, ◌+◌, ◌≤◌, ◌<◌, ◌≡◌, ◌∙◌, refl, ap, arith, true, false, leb, List, [], ◌∷◌, ◌++◌, length,
  lt→ltb, sym, inl, inr, ◌⊎◌, if◌then◌else◌,
}
use katara.Prelude.Int.{ℤ, pos, ◌+ℤ◌, ◌-ℤ◌, ◌≤ℤ◌, int_laws}
use katara.Prelude.Result.{Result, ok, err, failed, ◌>>=◌}
use katara.Instrs.Stack.{InstrCond, cond_number}
use katara.Instrs.Encoder.{Encoder, new_encoder, emit}
use katara.Instrs.Linker.{
  DataView, new_data_view, index_view, sub_view, Linker, add_block_ref, add_func_ref,
}
use katara.Instrs.Lists.{append_assoc, append_nil, length_snoc}
use katara.Instrs.Linking.{index_inside}
use katara.Instrs.Control.{emit_all, encode_jcc, encode_jmp_block, encode_call_func, view_of}

lt_or_le : (a b : ℕ) → (a < b) ⊎ (b ≤ a)
lt_or_le a b = omega arith

leb-true : (a b : ℕ) → a ≤ b → leb a b ≡ true
leb-true a b h = ground arith

leb-false : (a b : ℕ) → b < a → leb a b ≡ false
leb-false a b h = ground arith

leb_there : (n : ℕ) → leb (n + 0) (n + 4 + 0) ≡ true
leb_there n = ground arith

emit_room :
    (e : Encoder) (b : ℕ)
    → length e.code < e.capacity
    → emit e b ≡ ok (record e { code = e.code ++ b ∷ [] })
unfolding emit
emit_room e b h = rw (lt→ltb (length e.code) e.capacity h) refl

emit_full : (e : Encoder) (b : ℕ) → e.capacity ≤ length e.code → emit e b ≡ err failed
unfolding emit
emit_full e b h = ground arith

emit_all_room :
    (e : Encoder) (bs : List ℕ)
    → length e.code + length bs ≤ e.capacity
    → emit_all e bs ≡ ok (record e { code = e.code ++ bs })
unfolding emit_all
emit_all_room e [] h = ap (λ (c : List ℕ). ok (record e { code = c })) (sym (append_nil e.code))
emit_all_room e (b ∷ bs) h =
    let l = length_snoc e.code b in
    rw (emit_room e b (omega arith)) (
      emit_all_room (record e { code = e.code ++ b ∷ [] }) bs (omega arith)
      ∙ ap (λ (c : List ℕ). ok (record e { code = c })) (append_assoc e.code (b ∷ []) bs))

emit_all_full :
    (e : Encoder) (bs : List ℕ)
    → e.capacity < length e.code + length bs
    → length e.code ≤ e.capacity
    → emit_all e bs ≡ err failed
unfolding emit_all
emit_all_full e [] h k = absurd (omega arith)
emit_all_full e (b ∷ bs) h k =
    let l = length_snoc e.code b in
    elim (lt_or_le (length e.code) e.capacity) [
      | inl room ↦
          rw (emit_room e b room)
            (emit_all_full (record e { code = e.code ++ b ∷ [] }) bs (omega arith) (omega arith))
      | inr full ↦ rw (emit_full e b full) refl
    ]

-- A view on four bytes; its end must be an index too.
index_outside : (v : DataView) (n : ℕ) → v.size ≤ℤ pos n → index_view v (pos n) ≡ err failed
unfolding index_view
index_outside v n h = ground arith

four_apart : (n : ℕ) → pos (n + 4) -ℤ pos n ≡ pos 4
four_apart n = omega int_laws

view_at : ℤ → ℕ → DataView
view_at base size = record { base = base; size = pos size }

part_inside :
    (base : ℤ) (size n : ℕ)
    → n + 5 ≤ size
    → sub_view (view_at base size) (pos n) (pos (n + 4)) ≡ ok (view_at (base +ℤ pos n) 4)
unfolding sub_view new_data_view view_at
part_inside base size n h =
    rw
      (
        index_inside (view_at base size) n (omega arith),
        index_inside (view_at base size) (n + 4) (omega arith),
        leb_there n,
        four_apart n,
      )
      refl

part_outside :
    (base : ℤ) (size n : ℕ)
    → size ≤ n + 4
    → sub_view (view_at base size) (pos n) (pos (n + 4)) ≡ err failed
unfolding sub_view view_at
part_outside base size n h = elim (lt_or_le n size) [
  | inl room ↦
      rw
        (
          index_inside (view_at base size) n (omega arith),
          index_outside (view_at base size) (n + 4) (omega arith),
        )
        refl
  | inr full ↦ rw (index_outside (view_at base size) n (omega arith)) refl
]

-- Bytes, and a reference to the last four of them.
referring :
    (capacity : ℕ) (initial : ℕ → ℕ) (bs : List ℕ) (n : ℕ) (base : ℤ) (add : DataView → Linker)
    → Result (Linker × Encoder)
unfolding emit_all sub_view
referring capacity initial bs n base add = do
  e' ← emit_all (new_encoder capacity initial) bs
  view ← sub_view (view_of base (new_encoder capacity initial)) (pos n) (pos (n + 4))
  ok (add view, e')

abbrev pub holding : ℕ → (ℕ → ℕ) → List ℕ → Encoder
unfolding new_encoder
holding capacity initial bs = record (new_encoder capacity initial) { code = bs }

referring_exact :
    (capacity : ℕ) (initial : ℕ → ℕ) (bs : List ℕ) (n : ℕ) (base : ℤ) (add : DataView → Linker)
    → length bs ≡ n + 4
    → referring capacity initial bs n base add ≡ (
        if leb (n + 5) capacity
        then ok (add (view_at (base +ℤ pos n) 4), holding capacity initial bs)
        else err failed)
unfolding referring new_encoder view_at
referring_exact capacity initial bs n base add l = elim (lt_or_le (n + 4) capacity) [
  | inl room ↦
      rw
        (
          emit_all_room (new_encoder capacity initial) bs (omega arith),
          part_inside base capacity n (omega arith),
          leb-true (n + 5) capacity (omega arith),
        )
        refl
  | inr full ↦ elim (lt_or_le capacity (length bs)) [
    | inl none_fit ↦
        rw
          (
            emit_all_full (new_encoder capacity initial) bs (omega arith) (omega arith),
            leb-false (n + 5) capacity (omega arith),
          )
          refl
    | inr just_fit ↦
        rw
          (
            emit_all_room (new_encoder capacity initial) bs (omega arith),
            part_outside base capacity n (omega arith),
            leb-false (n + 5) capacity (omega arith),
          )
          refl
  ]
]

abbrev pub four_zeros : List ℕ
four_zeros = 0x00 ∷ (0x00 ∷ (0x00 ∷ (0x00 ∷ [])))

abbrev pub jump_view : ℤ → ℕ → DataView
jump_view base n = record { base = base +ℤ pos n; size = pos 4 }

-- A conditional jump, a jump and a call are encoded, to their opcode and four zeros, exactly where the
-- view has at least one byte more than they take: seven, six and six; what the linker is then told is the
-- destination with the view on the four zeros. In a smaller view they fail.
pub jumps_exact :
    (l : Linker) (base : ℤ) (capacity : ℕ) (initial : ℕ → ℕ) (cond : InstrCond) (dst : ℤ)
    → (encode_jcc l base (new_encoder capacity initial) cond dst ≡ (
        if leb 7 capacity
        then ok (
          add_block_ref l dst (jump_view base 2),
          holding capacity initial (0x0f ∷ (bit_or 0x80 (cond_number cond) ∷ four_zeros)),
        )
        else err failed))
      × (encode_jmp_block l base (new_encoder capacity initial) dst ≡ (
          if leb 6 capacity
          then ok
              (add_block_ref l dst (jump_view base 1), holding capacity initial (0xe9 ∷ four_zeros))
          else err failed))
      × (encode_call_func l base (new_encoder capacity initial) dst ≡ (
          if leb 6 capacity
          then ok
              (add_func_ref l dst (jump_view base 1), holding capacity initial (0xe8 ∷ four_zeros))
          else err failed))
unfolding encode_jcc encode_jmp_block encode_call_func referring view_at
jumps_exact l base capacity initial cond dst = (
  referring_exact capacity initial (0x0f ∷ (bit_or 0x80 (cond_number cond) ∷ four_zeros)) 2 base
      (add_block_ref l dst) refl,
  referring_exact capacity initial (0xe9 ∷ four_zeros) 1 base (add_block_ref l dst) refl,
  referring_exact capacity initial (0xe8 ∷ four_zeros) 1 base (add_func_ref l dst) refl,
)
