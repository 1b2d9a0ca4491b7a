-- ===== src/X86/MemOperands.antt =====
-- The encodings of memory operands in src/x86_64/ops.cc against the processor's reading of them.
use katara.Prelude.{
  ℕ, ◌+◌, ◌*◌, ◌/◌, ◌%◌, ◌<◌, ◌≡◌, ◌≢◌, refl, ap, arith, Bool, true, false, ◌==◌, if◌then◌else◌,
  Option, some, none, length, inl, inr, ◌⊎◌,
}
use katara.Prelude.Int.{ℤ}
use katara.Prelude.Result.{ok}
use katara.Atomics.Cpp.{InRange}
use katara.Atomics.IntType.{i32}
use katara.X86.Ops.{
  no_reg, Mem, IsMem, Size, required_disp_size, mem_requires_rex, mem_requires_sib,
}
use katara.X86.Encode.{RmBytes, encode_mem, encode_base, encode_no_base, base_sib}
use katara.X86.Address.{
  Address, processor_address, no_disp, read_disp32-le_bytes, read_disp8-le_bytes,
}
use katara.X86.Addressing.{
  sib_cell, mode_of, disp_bytes, based_plain, based_indexed, unbased_plain, unbased_indexed,
  disp_bytes-length,
}

-- The address that the operand means; without an index its factor means nothing.
abbrev pub meaning : Mem → Address
meaning m = record {
  base = m.base_reg;
  index = m.index_reg;
  scale = if m.index_reg == no_reg then 0 else m.scale;
  disp = m.disp;
}

abbrev pub is_some : Option ℕ → Bool
is_some none = false
is_some (some s) = true

-- The prefix keeps its other bits, and the SIB byte is there where the operand wants one.
pub record Encodes (m : Mem) (r modrm : ℕ) (out : RmBytes) : Type 0 where
  pub address : processor_address out ≡ some (meaning m)
  pub reg_kept : out.modrm / 8 % 8 ≡ modrm / 8 % 8
  pub disp_size : length out.disp ≡ required_disp_size m
  pub modrm_byte : out.modrm < 256
  pub rex_kept : (low : ℕ) × (low < 4) × (out.rex ≡ some (r * 4 + low))
  pub sib_there : is_some out.sib ≡ mem_requires_sib m

read_plain :
    (s : Size) (b c : ℕ) (d : ℤ) (r modrm : ℕ)
    → b < 16
    → InRange i32 d
    → let m : Mem = record { size = s; base_reg = b; index_reg = no_reg; scale = c; disp = d } in
      Encodes m r modrm (record {
        rex = some (r * 4 + b / 8);
        modrm = modrm / 8 % 8 * 8 + b % 8 + mode_of m * 64;
        sib = if b % 8 == 4 then some 0x24 else none;
        disp = disp_bytes m;
      })
unfolding processor_address no_disp mem_requires_sib
read_plain s b c d r modrm hb hd = record {
  address = ground (arith, read_disp32-le_bytes d hd, read_disp8-le_bytes d);
  reg_kept = ground arith;
  disp_size = disp_bytes-length _;
  modrm_byte = ground arith;
  rex_kept = (b / 8, omega arith, refl);
  sib_there = ground arith;
}

read_indexed :
    (s : Size) (b i c : ℕ) (d : ℤ) (r modrm : ℕ)
    → b < 16
    → i < 16
    → i ≢ 4
    → c < 4
    → InRange i32 d
    → let m : Mem = record { size = s; base_reg = b; index_reg = i; scale = c; disp = d } in
      Encodes m r modrm (record {
        rex = some (r * 4 + i / 8 * 2 + b / 8);
        modrm = modrm / 8 % 8 * 8 + 4 + mode_of m * 64;
        sib = some (c * 64 + i % 8 * 8 + b % 8);
        disp = disp_bytes m;
      })
unfolding processor_address no_disp mem_requires_sib
read_indexed s b i c d r modrm hb hi h4 hc hd = record {
  address = ground (arith, read_disp32-le_bytes d hd, read_disp8-le_bytes d);
  reg_kept = ground arith;
  disp_size = disp_bytes-length _;
  modrm_byte = ground arith;
  rex_kept = (i / 8 * 2 + b / 8, omega arith, ap (λ (t : ℕ). some t) (omega arith));
  sib_there = ground arith;
}

read_unbased_plain :
    (s : Size) (c : ℕ) (d : ℤ) (r modrm : ℕ)
    → InRange i32 d
    → let m : Mem = record {
      size = s;
      base_reg = no_reg;
      index_reg = no_reg;
      scale = c;
      disp = d;
    } in
      Encodes m r modrm (record {
        rex = some (r * 4);
        modrm = modrm / 8 % 8 * 8 + 4;
        sib = some 0x25;
        disp = disp_bytes m;
      })
unfolding processor_address no_disp mem_requires_sib
read_unbased_plain s c d r modrm hd = record {
  address = ground (arith, read_disp32-le_bytes d hd);
  reg_kept = ground arith;
  disp_size = disp_bytes-length _;
  modrm_byte = ground arith;
  rex_kept = (0, omega arith, ap (λ (t : ℕ). some t) (omega arith));
  sib_there = ground arith;
}

read_unbased_indexed :
    (s : Size) (i c : ℕ) (d : ℤ) (r modrm : ℕ)
    → i < 16
    → i ≢ 4
    → c < 4
    → InRange i32 d
    → let m : Mem = record { size = s; base_reg = no_reg; index_reg = i; scale = c; disp = d } in
      Encodes m r modrm (record {
        rex = some (r * 4 + i / 8 * 2);
        modrm = modrm / 8 % 8 * 8 + 4;
        sib = some (c * 64 + i % 8 * 8 + 5);
        disp = disp_bytes m;
      })
unfolding processor_address no_disp mem_requires_sib
read_unbased_indexed s i c d r modrm hi h4 hc hd = record {
  address = ground (arith, read_disp32-le_bytes d hd);
  reg_kept = ground arith;
  disp_size = disp_bytes-length _;
  modrm_byte = ground arith;
  rex_kept = (i / 8 * 2, omega arith, refl);
  sib_there = ground arith;
}

abbrev Writes : Mem → ℕ → ℕ → ℕ → Type 0
Writes m r modrm old =
    (out : RmBytes) × (encode_mem m (some (r * 4)) modrm (sib_cell m old) ≡ ok out)
    × Encodes m r modrm out

writes :
    (s : Size) (b i c : ℕ) (d : ℤ) (r modrm old : ℕ)
    → (b < 16) ⊎ (b ≡ no_reg)
    → (i < 16) ⊎ (i ≡ no_reg)
    → i ≢ 4
    → c < 4
    → InRange i32 d
    → r < 64
    → modrm < 256
    → Writes (record { size = s; base_reg = b; index_reg = i; scale = c; disp = d }) r modrm old
writes s b i c d r modrm old (inl hb) (inl hi) h4 hc hd hr hm = (
  _,
  based_indexed s b i c d r modrm old hb hi hc hr hm,
  read_indexed s b i c d r modrm hb hi h4 hc hd,
)
writes s b i c d r modrm old (inl hb) (inr ei) h4 hc hd hr hm =
    rw ei (_, based_plain s b c d r modrm old hb hr hm, read_plain s b c d r modrm hb hd)
writes s b i c d r modrm old (inr eb) (inl hi) h4 hc hd hr hm = rw eb (
  _,
  unbased_indexed s i c d r modrm old hi hc hr hm,
  read_unbased_indexed s i c d r modrm hi h4 hc hd,
)
writes s b i c d r modrm old (inr eb) (inr ei) h4 hc hd hr hm =
    rw (eb, ei) (_, unbased_plain s c d r modrm old hm, read_unbased_plain s c d r modrm hd)

-- A memory operand that its constructor lets through, a REX prefix whose two low bits are clear, and
-- a SIB byte exactly where `RequiresSIB` asks for one: the encoding writes through no null pointer,
-- the processor reads back the address of the operand, the Reg field of the ModRM byte and the
-- other bits of the prefix are kept, as many bytes of displacement are written as `RequiredDispSize`
-- announces, and the SIB byte is there where `RequiresSIB` asks for it.
pub encode_mem_exact :
    (m : Mem) (r modrm old : ℕ)
    → IsMem m
    → r < 64
    → modrm < 256
    → (out : RmBytes) × (encode_mem m (some (r * 4)) modrm (sib_cell m old) ≡ ok out)
      × Encodes m r modrm out
encode_mem_exact m r modrm old v hr hm =
    writes m.size m.base_reg m.index_reg m.scale m.disp r modrm old v.base v.index
      v.not_stack_pointer v.factor v.word hr hm

-- Where `RequiresREX` asks for no prefix, the encoding without one differs from that with one only in
-- the prefix, which stays as it was.
pub encode_mem-without_rex :
    (m : Mem) (r modrm : ℕ) (sib : Option ℕ) (out : RmBytes)
    → mem_requires_rex m ≡ false
    → encode_mem m (some r) modrm sib ≡ ok out
    → (out.rex ≡ some r)
      × (encode_mem m none modrm sib
          ≡ ok (record { rex = none; modrm = out.modrm; sib = out.sib; disp = out.disp }))
unfolding encode_mem encode_no_base encode_base base_sib mem_requires_rex
encode_mem-without_rex m r modrm sib out h e = ground arith
