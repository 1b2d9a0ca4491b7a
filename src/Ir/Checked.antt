-- ===== src/Ir/Checked.antt =====
-- Programs in which src/ir/check/checker.cc finds nothing, in src/ir/interpreter/interpreter.cc.
use katara.Prelude.{ℕ, ◌≡◌, List, [], ◌∷◌, if◌then◌else◌, Option-cases, inl, inr}
use katara.Prelude.Int.{ℤ}
use katara.Ir.Types.{IrType, Computed, Value}
use katara.Ir.Instrs.{Instr, Block, Func, is_phi, defined_values, used_values}
use katara.Ir.Checks.{check_inherited}
use katara.Ir.Calls.{check_kind, check_instr}
use katara.Ir.Execution.{State}
use katara.Ir.Machine.{Running, state_of, execute_phi, execute_in_frame}
use katara.Ir.Evaluation.{Sound, Typed}
use katara.Ir.Soundness.{
  Keeps, Defines, AllDeclared, mov-Keeps, phi-Keeps, conversion-Keeps, binary-Keeps, compare-Keeps,
  shift-Keeps, offset-Keeps, nil_test-Keeps,
}
use katara.Ir.HeapSoundness.{malloc-Keeps, load-Keeps, store-Keeps, free-Keeps}
use katara.Ir.Reports.{
  append-none, mov-none, binary-none, shift-none, compare-none, offset-none, nil_test-none,
  malloc-none, load-none, store-none, free-none, phi-none, DeclaresAll,
}

abbrev pub DefinesAll : (ℕ → IrType) → List Computed → Type 0
DefinesAll types [] = Unit {0}
DefinesAll types (r ∷ rs) = Defines types r × DefinesAll types rs

-- The values that an instruction defines and uses are declared with the types of their numbers.
unfoldable pub DeclaresInstr : (ℕ → IrType) → Instr → Type 0
unfolding defined_values used_values
DeclaresInstr types i = DefinesAll types (defined_values i) × DeclaresAll types (used_values i)

phi-Sound :
    (types : ℕ → IrType) (m : Running) (r : Computed) (args : List (Value × ℕ))
    → Typed types m.current.computed_values
    → Defines types r
    → AllDeclared types r.type args
    → Keeps types (execute_phi m r args)
unfolding execute_phi Sound
phi-Sound types m r args t d h = elim (Option-cases m.current.exec_point.previous_block) [
  | inl e ↦ rw (execute_phi, Sound, e) tt
  | inr (b, e) ↦ rw (execute_phi, e) (phi-Keeps types (state_of m) t b.number r args d h)
]

kind-Keeps :
    (c_malloc : State → ℤ → ℤ) (funcs : List Func) (func : Func) (b : Block) (m : Running)
    (i : Instr) (types : ℕ → IrType)
    → check_kind funcs func b i ≡ []
    → DeclaresInstr types i
    → Typed types m.current.computed_values
    → Keeps types (execute_in_frame c_malloc m i)
unfolding check_kind DeclaresInstr defined_values used_values execute_in_frame Sound
kind-Keeps cm fs f b m (Instr.mov r a) types h ((d, _), (u, _)) t =
    mov-Keeps types (state_of m) t r a d u (mov-none r a h)
kind-Keeps cm fs f b m (Instr.phi r args) types h ((d, _), us) t =
    phi-Sound types m r args t d (phi-none types r b.parents args [] us h)
kind-Keeps cm fs f b m (Instr.conversion r a) types h ((d, _), (u, _)) t =
    conversion-Keeps types (state_of m) t r a d u
kind-Keeps cm fs f b m (Instr.int_binary r op x y) types h ((d, _), (u, (v, _))) t =
    let (ix, iy, e) = binary-none r x y h in
    binary-Keeps types (state_of m) t r op x y d u v ix iy e
kind-Keeps cm fs f b m (Instr.int_compare r op x y) types h ((d, _), (u, (v, _))) t =
    let (ix, iy, e) = compare-none r x y h in
    compare-Keeps types (state_of m) t r op x y d u v ix iy e
kind-Keeps cm fs f b m (Instr.int_shift r op x y) types h ((d, _), (u, (v, _))) t =
    let (ix, iy, e) = shift-none r x y h in shift-Keeps types (state_of m) t r op x y d u v ix iy e
kind-Keeps cm fs f b m (Instr.pointer_offset r x y) types h ((d, _), (u, (v, _))) t =
    let (ix, iy, e) = offset-none r x y h in offset-Keeps types (state_of m) t r x y d u v ix iy e
kind-Keeps cm fs f b m (Instr.nil_test r a) types h ((d, _), (u, _)) t =
    nil_test-Keeps types (state_of m) t r a d u (nil_test-none r a h)
kind-Keeps cm fs f b m (Instr.malloc r a) types h ((d, _), (u, _)) t =
    let (ia, e) = malloc-none r a h in malloc-Keeps types (state_of m) t cm r a d u ia e
kind-Keeps cm fs f b m (Instr.load r a) types h ((d, _), (u, _)) t =
    load-Keeps types (state_of m) t r a d u (load-none a h)
kind-Keeps cm fs f b m (Instr.store a v) types h (_, (u, (w, _))) t =
    store-Keeps types (state_of m) t a v u w (store-none a h)
kind-Keeps cm fs f b m (Instr.free a) types h (_, (u, _)) t =
    free-Keeps types (state_of m) t a u (free-none a h)
kind-Keeps cm fs f b m i types h d t = tt

-- Where the values of the frame have the types of their numbers, the values of the instruction are
-- declared with them, and the checker reports nothing of the instruction, no instruction that stays in its
-- block takes a constant for one of another class, and the values of the frame have their types after it.
pub checked_instr-Keeps :
    (c_malloc : State → ℤ → ℤ) (funcs : List Func) (func : Func) (b : Block) (m : Running)
    (i : Instr) (types : ℕ → IrType)
    → check_instr funcs func b i ≡ []
    → DeclaresInstr types i
    → Typed types m.current.computed_values
    → Sound (λ s. Typed types s.values) (execute_in_frame c_malloc m i)
unfolding check_instr
checked_instr-Keeps c_malloc funcs func b m i types h d t =
    kind-Keeps c_malloc funcs func b m i types
      (append-none (if is_phi i then [] else check_inherited (used_values i))
        (check_kind funcs func b i) h).1
      d t
