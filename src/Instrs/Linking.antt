-- ===== src/Instrs/Linking.antt =====
-- What the patches of src/x86_64/machine_code/linker.cc leave in the code, as the processor reads it.
use katara.Prelude.{
  ℕ, ◌+◌, ◌/◌, ◌%◌, ◌≡◌, ◌∙◌, refl, ap, arith, true, false, List, [], ◌∷◌, Option, some, none, ◌⊎◌,
  inl, inr,
}
use katara.Prelude.Int.{ℤ, pos, ◌+ℤ◌, ◌-ℤ◌, ◌≤ℤ◌, int_laws}
use katara.Prelude.Result.{ok}
use katara.Atomics.Cpp.{bits, InRange}
use katara.Atomics.IntType.{i32}
use katara.X86.Address.{read_disp32}
use katara.Instrs.Linker.{
  DataView, index_view, Patch, address_at, Code, same_id, write_byte, store_at, apply_patch,
}

-- The address that a jump or call goes to whose displacement is at `base`.
abbrev pub behind : ℤ → Option ℤ → Option ℤ
behind next none = none
behind next (some d) = some (next +ℤ d)

unfoldable pub target : Code → ℤ → Option ℤ
target code base = behind (base +ℤ pos 4) (
    read_disp32
      (code base ∷ (code (base +ℤ pos 1) ∷ (code (base +ℤ pos 2) ∷ (code (base +ℤ pos 3) ∷ [])))))

same_id_refl : (a : ℤ) → same_id a a ≡ true
same_id_refl a = ground arith

same_id-apart : (a b : ℤ) → a +ℤ pos 1 ≤ℤ b → same_id a b ≡ false
unfolding ◌+ℤ◌
same_id-apart a b h = ground arith

same_id-behind : (a b : ℤ) → b +ℤ pos 1 ≤ℤ a → same_id a b ≡ false
unfolding ◌+ℤ◌
same_id-behind a b h = ground arith

low_bytes :
    (d : ℤ)
    → InRange i32 d
    → read_disp32 (
        bits 64 d % 256
        ∷ bits 64 d / 256 % 256
        ∷ bits 64 d / 65536 % 256
        ∷ bits 64 d / 16777216 % 256
        ∷ [])
      ≡ some d
unfolding read_disp32
low_bytes d h = ground arith

plus_zero : (a : ℤ) → a +ℤ pos 0 ≡ a
plus_zero a = omega int_laws

pub index_inside :
    (v : DataView) (n : ℕ) → pos (n + 1) ≤ℤ v.size → index_view v (pos n) ≡ ok (v.base +ℤ pos n)
unfolding index_view
index_inside v n h = ground arith

store_inside :
    (code : Code) (v : DataView) (n b : ℕ)
    → pos (n + 1) ≤ℤ v.size
    → store_at code v (pos n) b ≡ ok (write_byte code (v.base +ℤ pos n) b)
unfolding store_at
store_inside code v n b h = rw (index_inside v n h) refl

-- Four bytes of a number, written from an address on.
patched : Code → ℤ → ℕ → Code
patched code a v =
    write_byte
      (write_byte (write_byte (write_byte code (a +ℤ pos 0) (v % 256)) (a +ℤ pos 1) (v / 256 % 256))
        (a +ℤ pos 2) (v / 65536 % 256))
      (a +ℤ pos 3) (v / 16777216 % 256)

written_there : (code : Code) (a : ℤ) (b : ℕ) → write_byte code a b a ≡ b
unfolding write_byte
written_there code a b = rw (same_id_refl a) refl

written_above : (code : Code) (a x : ℤ) (b : ℕ) → x +ℤ pos 1 ≤ℤ a → write_byte code a b x ≡ code x
unfolding write_byte
written_above code a x b h = rw (same_id-apart x a h) refl

written_below : (code : Code) (a x : ℤ) (b : ℕ) → a +ℤ pos 1 ≤ℤ x → write_byte code a b x ≡ code x
unfolding write_byte
written_below code a x b h = rw (same_id-behind x a h) refl

-- No byte of the four at `a`.
abbrev pub Outside : ℤ → ℤ → Type 0
Outside a x = (x +ℤ pos 1 ≤ℤ a) ⊎ (a +ℤ pos 4 ≤ℤ x)

patched-Outside : (code : Code) (a x : ℤ) (v : ℕ) → Outside a x → patched code a v x ≡ code x
unfolding patched
patched-Outside code a x v (inl h) =
    written_above _ (a +ℤ pos 3) x _ (omega int_laws)
    ∙ written_above _ (a +ℤ pos 2) x _ (omega int_laws)
    ∙ written_above _ (a +ℤ pos 1) x _ (omega int_laws)
    ∙ written_above _ (a +ℤ pos 0) x _ (omega int_laws)
patched-Outside code a x v (inr h) =
    written_below _ (a +ℤ pos 3) x _ (omega int_laws)
    ∙ written_below _ (a +ℤ pos 2) x _ (omega int_laws)
    ∙ written_below _ (a +ℤ pos 1) x _ (omega int_laws)
    ∙ written_below _ (a +ℤ pos 0) x _ (omega int_laws)

patched_first : (code : Code) (a : ℤ) (v : ℕ) → patched code a v a ≡ v % 256
unfolding patched
patched_first code a v =
    written_above _ (a +ℤ pos 3) a _ (omega int_laws)
    ∙ written_above _ (a +ℤ pos 2) a _ (omega int_laws)
    ∙ written_above _ (a +ℤ pos 1) a _ (omega int_laws)
    ∙ rw (plus_zero a) (written_there code a (v % 256))

patched_second : (code : Code) (a : ℤ) (v : ℕ) → patched code a v (a +ℤ pos 1) ≡ v / 256 % 256
unfolding patched
patched_second code a v =
    written_above _ (a +ℤ pos 3) _ _ (omega int_laws)
    ∙ written_above _ (a +ℤ pos 2) _ _ (omega int_laws)
    ∙ written_there _ (a +ℤ pos 1) _

patched_third : (code : Code) (a : ℤ) (v : ℕ) → patched code a v (a +ℤ pos 2) ≡ v / 65536 % 256
unfolding patched
patched_third code a v =
    written_above _ (a +ℤ pos 3) _ _ (omega int_laws) ∙ written_there _ (a +ℤ pos 2) _

patched_fourth : (code : Code) (a : ℤ) (v : ℕ) → patched code a v (a +ℤ pos 3) ≡ v / 16777216 % 256
unfolding patched
patched_fourth code a v = written_there _ (a +ℤ pos 3) _

-- A displacement counts from behind its four bytes.
patched-target :
    (code : Code) (a dest : ℤ)
    → InRange i32 (dest -ℤ (a +ℤ pos 4))
    → target (patched code a (bits 64 (dest -ℤ (a +ℤ pos 4)))) a ≡ some dest
unfolding target
patched-target code a dest h =
    let d = dest -ℤ (a +ℤ pos 4) in
    let v = bits 64 d in
    let back : a +ℤ pos 4 +ℤ d ≡ dest = omega int_laws in
    rw
      (
        patched_first code a v,
        patched_second code a v,
        patched_third code a v,
        patched_fourth code a v,
        low_bytes d h,
      )
      (ap some back)

-- A patch whose view holds four bytes and whose destination is known and within reach.
abbrev pub Ready : List (ℤ × ℤ) → Patch → Type 0
Ready addrs p =
    (pos 4 ≤ℤ p.view.size)
    × (dest : ℤ) × (address_at p.id addrs ≡ ok dest)
    × InRange i32 (dest -ℤ (p.view.base +ℤ pos 4))

-- The code at the patch leads to its destination.
abbrev pub Leads : List (ℤ × ℤ) → Code → Patch → Type 0
Leads addrs code p =
    (dest : ℤ) × (address_at p.id addrs ≡ ok dest) × (target code p.view.base ≡ some dest)

abbrev pub Agree : Code → Code → ℤ → Type 0
Agree code code' a = (x : ℤ) → Outside a x → code' x ≡ code x

pub apply_patch-Ready :
    (addrs : List (ℤ × ℤ)) (code : Code) (p : Patch)
    → Ready addrs p
    → (code' : Code) × (apply_patch addrs code p ≡ ok code')
      × Leads addrs code' p
      × Agree code code' p.view.base
unfolding apply_patch patched
apply_patch-Ready addrs code p (size, dest, known, near) =
    let a = p.view.base in
    let v = bits 64 (dest -ℤ (a +ℤ pos 4)) in
    (
      patched code a v,
      rw
          (
            known,
            store_inside code p.view 0 (v % 256) (omega arith),
            store_inside _ p.view 1 (v / 256 % 256) (omega arith),
            store_inside _ p.view 2 (v / 65536 % 256) (omega arith),
            store_inside _ p.view 3 (v / 16777216 % 256) (omega arith),
          )
          refl,
      (dest, known, patched-target code a dest near),
      λ x out. patched-Outside code a x v out,
    )

-- Four bytes of which none is another's.
abbrev pub Apart : Patch → Patch → Type 0
Apart p q = (p.view.base +ℤ pos 4 ≤ℤ q.view.base) ⊎ (q.view.base +ℤ pos 4 ≤ℤ p.view.base)

pub target-same :
    (code code' : Code) (a : ℤ)
    → ((x : ℤ) → a ≤ℤ x → x +ℤ pos 1 ≤ℤ a +ℤ pos 4 → code' x ≡ code x)
    → target code' a ≡ target code a
unfolding target
target-same code code' a same =
    rw
      (
        same a (omega int_laws) (omega int_laws),
        same (a +ℤ pos 1) (omega int_laws) (omega int_laws),
        same (a +ℤ pos 2) (omega int_laws) (omega int_laws),
        same (a +ℤ pos 3) (omega int_laws) (omega int_laws),
      )
      refl
