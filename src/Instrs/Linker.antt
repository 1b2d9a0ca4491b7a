-- ===== src/Instrs/Linker.antt =====
-- src/x86_64/machine_code/linker.h and linker.cc: the addresses of functions and blocks, and the places in
-- the code that refer to them. A view is the address of its first byte and its size, as in
-- src/common/data/data_view.h; the code is a function from addresses to bytes.
use katara.Prelude.{ℕ, ◌/◌, ◌%◌, Bool, not, ◌||◌, ◌&&◌, if◌then◌else◌, List, [], ◌∷◌, ◌++◌}
use katara.Prelude.Int.{ℤ, pos, ◌+ℤ◌, ◌-ℤ◌}
use katara.Prelude.Result.{Result, ok, err, failed, bad_access, ◌>>=◌}
use katara.Atomics.Cpp.{bits, leb_ℤ}

abbrev pub same_id : ℤ → ℤ → Bool
same_id a b = leb_ℤ a b && leb_ℤ b a

pub record DataView : Type 0 where
  pub base : ℤ
  pub size : ℤ

-- The constructor, and `CheckIndex` with the address that it lets through.
unfoldable pub new_data_view : ℤ → ℤ → Result DataView
new_data_view base size =
    if leb_ℤ (pos 0) size then ok (record { base = base; size = size }) else err failed

unfoldable pub index_view : DataView → ℤ → Result ℤ
index_view v i = if not (leb_ℤ (pos 0) i) || leb_ℤ v.size i then err failed else ok (v.base +ℤ i)

unfoldable pub sub_view_from : DataView → ℤ → Result DataView
unfolding index_view new_data_view
sub_view_from v start = do a ← index_view v start; new_data_view a (v.size -ℤ start)

unfoldable pub sub_view : DataView → ℤ → ℤ → Result DataView
unfolding index_view new_data_view
sub_view v start end_index = do
  a ← index_view v start
  b ← index_view v end_index
  if leb_ℤ start end_index then new_data_view a (end_index -ℤ start) else err failed

pub record Patch : Type 0 where
  pub id : ℤ
  pub view : DataView

pub record Linker : Type 0 where
  pub func_addrs : List (ℤ × ℤ)
  pub block_addrs : List (ℤ × ℤ)
  pub func_patches : List Patch
  pub block_patches : List Patch

-- `map[id] = address`.
unfoldable pub put_address : ℤ → ℤ → List (ℤ × ℤ) → List (ℤ × ℤ)
put_address id a [] = (id, a) ∷ []
put_address id a ((k, b) ∷ rest) =
    if same_id k id then (k, a) ∷ rest else (k, b) ∷ put_address id a rest

-- `map.at(id)`.
unfoldable pub address_at : ℤ → List (ℤ × ℤ) → Result ℤ
address_at id [] = err bad_access
address_at id ((k, a) ∷ rest) = if same_id k id then ok a else address_at id rest

unfoldable pub add_func_addr : Linker → ℤ → ℤ → Linker
unfolding put_address
add_func_addr l id a = record l { func_addrs = put_address id a l.func_addrs }

unfoldable pub add_block_addr : Linker → ℤ → ℤ → Linker
unfolding put_address
add_block_addr l id a = record l { block_addrs = put_address id a l.block_addrs }

unfoldable pub add_func_ref : Linker → ℤ → DataView → Linker
add_func_ref l id view = record l {
  func_patches = l.func_patches ++ (record { id = id; view = view } ∷ []);
}

unfoldable pub add_block_ref : Linker → ℤ → DataView → Linker
add_block_ref l id view = record l {
  block_patches = l.block_patches ++ (record { id = id; view = view } ∷ []);
}

-- The bytes of the code.
abbrev pub Code : Type 0
Code = ℤ → ℕ

unfoldable pub write_byte : Code → ℤ → ℕ → Code
write_byte code a b x = if same_id x a then b else code x

unfoldable pub store_at : Code → DataView → ℤ → ℕ → Result Code
unfolding index_view write_byte
store_at code v i b = do a ← index_view v i; ok (write_byte code a b)

-- One round of a loop over patches; `offset` is an `int64_t`, of which four bytes are written.
unfoldable pub apply_patch : List (ℤ × ℤ) → Code → Patch → Result Code
unfolding address_at store_at
apply_patch addrs code p = do
  dest ← address_at p.id addrs
  let offset = bits 64 (dest -ℤ (p.view.base +ℤ pos 4))
  c0 ← store_at code p.view (pos 0) (offset % 256)
  c1 ← store_at c0 p.view (pos 1) (offset / 256 % 256)
  c2 ← store_at c1 p.view (pos 2) (offset / 65536 % 256)
  store_at c2 p.view (pos 3) (offset / 16777216 % 256)

unfoldable pub apply_patch_list : List (ℤ × ℤ) → Code → List Patch → Result Code
unfolding apply_patch
apply_patch_list addrs code [] = ok code
apply_patch_list addrs code (p ∷ ps) = do
  next ← apply_patch addrs code p
  apply_patch_list addrs next ps

unfoldable pub apply_patches : Linker → Code → Result Code
unfolding apply_patch_list
apply_patches l code = do
  next ← apply_patch_list l.func_addrs code l.func_patches
  apply_patch_list l.block_addrs next l.block_patches
