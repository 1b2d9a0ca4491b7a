-- ===== src/X86/Addressing.antt =====
-- The bytes that `Mem::EncodeInModRM_SIB_Disp` of src/x86_64/ops.cc writes, as numbers, in each of the
-- four shapes of a memory operand.
use Prim.Native.Nat.{bit_and, bit_or}
use katara.Prelude.{
  ℕ, ◌+◌, ◌*◌, ◌/◌, ◌%◌, ◌<◌, ◌≡◌, refl, ap, ◌∙◌, arith, Bool, ◌==◌, if◌then◌else◌, List, [],
  Option, some, none, length,
}
use katara.Prelude.Int.{ℤ}
use katara.Prelude.Result.{ok}
use katara.Atomics.Cpp.{bits}
use katara.X86.Bits.{
  and_seven, and_three, zero_or, clear_rm, clear_mod, or_low, or_high, or_mid, rex_b, rex_x, rex_xb,
}
use katara.X86.Ops.{
  no_reg, Mem, Size, needs_no_disp, disp_fits_byte, required_disp_size, mem_requires_sib,
}
use katara.X86.Encode.{
  le_bytes, put_rm, sib_byte, encode_mem, encode_base, encode_no_base, base_sib,
}

-- The parts of an encoding as sums.
pub put_rm_sum : (m v : ℕ) → m < 256 → v < 256 → put_rm m v ≡ m / 8 * 8 + v % 8
put_rm_sum m v h k =
    rw (clear_rm m h, and_seven v k) (or_low (m / 8) (v % 8) (omega arith) (omega arith))

mode_one : (y : ℕ) → y < 256 → bit_or (bit_and y 0x3f) 0x40 ≡ y % 64 + 64
mode_one y h = rw (clear_mod y h) (or_high (y % 64) 1 (omega arith) (omega arith))

mode_two : (y : ℕ) → y < 256 → bit_or (bit_and y 0x3f) 0x80 ≡ y % 64 + 128
mode_two y h = rw (clear_mod y h) (or_high (y % 64) 2 (omega arith) (omega arith))

put_four : (m : ℕ) → m < 256 → bit_or (bit_and m 0xf8) 0x04 ≡ m / 8 * 8 + 4
put_four m h = rw (clear_rm m h) (or_low (m / 8) 4 (omega arith) (omega arith))

high_fields : (s i : ℕ) → s < 4 → i < 8 → bit_or (s * 64) (i * 8) ≡ (s * 8 + i) * 8
high_fields s i hs hi =
    let e : s * 64 + 0 ≡ s * 64 = omega arith in
    rw e at (or_mid s i 0 hs hi (omega arith)) ∙ omega arith

sib_byte_sum : (s i b : ℕ) → s < 4 → i < 256 → b < 256 → sib_byte s i b ≡ s * 64 + i % 8 * 8 + b % 8
sib_byte_sum s i b hs hi hb =
    rw (and_three s hs, and_seven i hi, and_seven b hb)
      (rw (zero_or (s * 64) (omega arith)) (
        ap (λ (t : ℕ). bit_or t (b % 8)) (high_fields s (i % 8) hs (omega arith))
        ∙ or_low (s * 8 + i % 8) (b % 8) (omega arith) (omega arith)
        ∙ omega arith))

-- The cell for the SIB byte, which the instruction has exactly where the operand wants one.
abbrev pub sib_cell : Mem → ℕ → Option ℕ
sib_cell m old = if mem_requires_sib m then some old else none

-- The bytes for the operand as numbers: the prefix, the ModRM byte under each mode, the SIB byte.
abbrev pub mode_of : Mem → ℕ
mode_of m =
    if m.base_reg == no_reg
    then 0
    else if needs_no_disp m
    then 0
    else if disp_fits_byte m
    then 1
    else 2

abbrev pub disp_bytes : Mem → List ℕ
disp_bytes m =
    if m.base_reg == no_reg
    then le_bytes 4 (bits 32 m.disp)
    else if needs_no_disp m
    then []
    else if disp_fits_byte m
    then le_bytes 1 (bits 32 m.disp)
    else le_bytes 4 (bits 32 m.disp)

choose_length :
    (x y z : Bool) (a b c : List ℕ) (k l n : ℕ)
    → length a ≡ k
    → length b ≡ l
    → length c ≡ n
    → length (if x then a else if y then [] else if z then b else c)
      ≡ (if x then k else if y then 0 else if z then l else n)
choose_length x y z a b c k l n ha hb hc = ground arith

pub disp_bytes-length : (m : Mem) → length (disp_bytes m) ≡ required_disp_size m
unfolding required_disp_size le_bytes
disp_bytes-length m =
    let v = bits 32 m.disp in
    choose_length (m.base_reg == no_reg) (needs_no_disp m) (disp_fits_byte m) (le_bytes 4 v)
      (le_bytes 1 v) (le_bytes 4 v) 4 1 4 refl refl refl

pub based_plain :
    (s : Size) (b c : ℕ) (d : ℤ) (r modrm old : ℕ)
    → b < 16
    → r < 64
    → modrm < 256
    → let m : Mem = record { size = s; base_reg = b; index_reg = no_reg; scale = c; disp = d } in
      encode_mem m (some (r * 4)) modrm (sib_cell m old)
      ≡ ok (record {
        rex = some (r * 4 + b / 8);
        modrm = modrm / 8 % 8 * 8 + b % 8 + mode_of m * 64;
        sib = if b % 8 == 4 then some 0x24 else none;
        disp = disp_bytes m;
      })
unfolding encode_mem encode_base base_sib mem_requires_sib
based_plain s b c d r modrm old hb hr hm = ground (
  arith,
  rex_b r hr,
  put_rm_sum modrm b hm (omega arith),
  mode_one (modrm / 8 * 8 + b % 8) (omega arith),
  mode_two (modrm / 8 * 8 + b % 8) (omega arith),
  clear_mod (modrm / 8 * 8 + b % 8) (omega arith),
)

pub based_indexed :
    (s : Size) (b i c : ℕ) (d : ℤ) (r modrm old : ℕ)
    → b < 16
    → i < 16
    → c < 4
    → r < 64
    → modrm < 256
    → let m : Mem = record { size = s; base_reg = b; index_reg = i; scale = c; disp = d } in
      encode_mem m (some (r * 4)) modrm (sib_cell m old)
      ≡ ok (record {
        rex = some (r * 4 + i / 8 * 2 + b / 8);
        modrm = modrm / 8 % 8 * 8 + 4 + mode_of m * 64;
        sib = some (c * 64 + i % 8 * 8 + b % 8);
        disp = disp_bytes m;
      })
unfolding encode_mem encode_base base_sib mem_requires_sib
based_indexed s b i c d r modrm old hb hi hc hr hm = ground (
  arith,
  rex_b r hr,
  rex_x r hr,
  rex_xb r hr,
  sib_byte_sum c i b hc (omega arith) (omega arith),
  put_four modrm hm,
  mode_one (modrm / 8 * 8 + 4) (omega arith),
  mode_two (modrm / 8 * 8 + 4) (omega arith),
  clear_mod (modrm / 8 * 8 + 4) (omega arith),
)

pub unbased_plain :
    (s : Size) (c : ℕ) (d : ℤ) (r modrm old : ℕ)
    → modrm < 256
    → let m : Mem = record {
      size = s;
      base_reg = no_reg;
      index_reg = no_reg;
      scale = c;
      disp = d;
    } in
      encode_mem m (some (r * 4)) modrm (sib_cell m old)
      ≡ ok (record {
        rex = some (r * 4);
        modrm = modrm / 8 % 8 * 8 + 4;
        sib = some 0x25;
        disp = disp_bytes m;
      })
unfolding encode_mem encode_no_base mem_requires_sib
unbased_plain s c d r modrm old hm =
    ground (arith, clear_mod modrm hm, put_four (modrm % 64) (omega arith))

pub unbased_indexed :
    (s : Size) (i c : ℕ) (d : ℤ) (r modrm old : ℕ)
    → i < 16
    → c < 4
    → r < 64
    → modrm < 256
    → let m : Mem = record { size = s; base_reg = no_reg; index_reg = i; scale = c; disp = d } in
      encode_mem m (some (r * 4)) modrm (sib_cell m old)
      ≡ ok (record {
        rex = some (r * 4 + i / 8 * 2);
        modrm = modrm / 8 % 8 * 8 + 4;
        sib = some (c * 64 + i % 8 * 8 + 5);
        disp = disp_bytes m;
      })
unfolding encode_mem encode_no_base mem_requires_sib
unbased_indexed s i c d r modrm old hi hc hr hm = ground (
  arith,
  rex_x r hr,
  sib_byte_sum c i 5 hc (omega arith) (omega arith),
  clear_mod modrm hm,
  put_four (modrm % 64) (omega arith),
)
