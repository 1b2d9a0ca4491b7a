-- ===== src/Ir/Reports.antt =====
-- What it means that src/ir/check/checker.cc has nothing to report of an instruction.
use katara.Prelude.{
  ℕ, ◌≡◌, refl, sym, arith, Bool, true, false, not, ◌&&◌, ◌||◌, List, [], ◌∷◌, ◌++◌, Bool-cases,
  inl, inr,
}
use katara.Interference.Sets.{mem}
use katara.Atomics.IntType.{i64}
use katara.Ir.Types.{IrType, Computed, Value, type_of, is_int, is_equal, is_equal-equal}
use katara.Ir.Instrs.{inherited_values}
use katara.Ir.Issues.{IssueKind, report, report-none}
use katara.Ir.Checks.{
  check_mov_instr, check_phi_args, check_int_compare_instr, check_int_binary_instr,
  check_int_shift_instr, check_pointer_offset_instr, check_nil_test_instr, check_malloc_instr,
  check_load_instr, check_store_instr, check_free_instr,
}
use katara.Ir.Evaluation.{Declares}
use katara.Ir.Soundness.{AllDeclared}

pub append-none : (xs ys : List IssueKind) → xs ++ ys ≡ [] → (xs ≡ []) × (ys ≡ [])
append-none [] ys h = (refl, h)
append-none (x ∷ xs) ys h = (ground arith, ground arith)

not-false : (b : Bool) → not b ≡ false → b ≡ true
not-false true h = refl
not-false false h = ground arith

-- A test that is reported unless it holds.
pub wanted :
    (b : Bool) (kind : IssueKind) (others : List IssueKind)
    → report (not b) kind others ≡ []
    → (b ≡ true) × (others ≡ [])
wanted b kind others h = let (x, y) = report-none (not b) kind others h in (not-false b x, y)

pub same :
    (a b : IrType) (kind : IssueKind) (others : List IssueKind)
    → report (not (is_equal a b)) kind others ≡ []
    → (a ≡ b) × (others ≡ [])
same a b kind others h =
    let (x, y) = wanted (is_equal a b) kind others h in (is_equal-equal a b x, y)

pub mov-none : (r : Computed) (a : Value) → check_mov_instr r a ≡ [] → type_of a ≡ r.type
unfolding check_mov_instr
mov-none r a h = (same (type_of a) r.type _ _ h).0

pub binary-none :
    (r : Computed) (a b : Value)
    → check_int_binary_instr r a b ≡ []
    → (is_int (type_of a) ≡ true) × (is_int (type_of b) ≡ true) × (type_of a ≡ r.type)
unfolding check_int_binary_instr
binary-none r a b h =
    let (ia, h1) = wanted (is_int (type_of a)) _ _ h in
    let (ib, h2) = wanted (is_int (type_of b)) _ _ h1 in
    let (ir, h3) = wanted (is_int r.type) _ _ h2 in
    let (x, h4) =
      report-none (not (is_equal r.type (type_of a)) || not (is_equal r.type (type_of b)))
        IssueKind.int_binary_different_types [] h3 in
    (ia, ib, sym (is_equal-equal r.type (type_of a) (ground arith)))

pub shift-none :
    (r : Computed) (a b : Value)
    → check_int_shift_instr r a b ≡ []
    → (is_int (type_of a) ≡ true) × (is_int (type_of b) ≡ true) × (type_of a ≡ r.type)
unfolding check_int_shift_instr
shift-none r a b h =
    let (ia, h1) = wanted (is_int (type_of a)) _ _ h in
    let (ib, h2) = wanted (is_int (type_of b)) _ _ h1 in
    let (ir, h3) = wanted (is_int r.type) _ _ h2 in (ia, ib, sym (same r.type (type_of a) _ _ h3).0)

pub compare-none :
    (r : Computed) (a b : Value)
    → check_int_compare_instr r a b ≡ []
    → (is_int (type_of a) ≡ true) × (is_int (type_of b) ≡ true) × (r.type ≡ IrType.bool)
unfolding check_int_compare_instr
compare-none r a b h =
    let (ia, h1) = wanted (is_int (type_of a)) _ _ h in
    let (ib, h2) = wanted (is_int (type_of b)) _ _ h1 in
    let (e, h3) = same (type_of a) (type_of b) _ _ h2 in
    (ia, ib, (same r.type IrType.bool _ _ h3).0)

pub offset-none :
    (r : Computed) (a b : Value)
    → check_pointer_offset_instr r a b ≡ []
    → (type_of a ≡ IrType.pointer) × (is_int (type_of b) ≡ true) × (r.type ≡ IrType.pointer)
unfolding check_pointer_offset_instr
offset-none r a b h =
    let (ea, h1) = same (type_of a) IrType.pointer _ _ h in
    let (eb, h2) = same (type_of b) (IrType.int i64) _ _ h1 in
    (ea, rw eb refl, (same r.type IrType.pointer _ _ h2).0)

pub nil_test-none :
    (r : Computed) (a : Value) → check_nil_test_instr r a ≡ [] → r.type ≡ IrType.bool
unfolding check_nil_test_instr
nil_test-none r a h =
    let (x, h1) =
      report-none
        (not (is_equal (type_of a) IrType.pointer) && not (is_equal (type_of a) IrType.func))
        IssueKind.nil_test_tested_not_pointer_or_func
        (report (not (is_equal r.type IrType.bool)) IssueKind.nil_test_result_not_bool []) h in
    (same r.type IrType.bool _ _ h1).0

pub malloc-none :
    (r : Computed) (a : Value)
    → check_malloc_instr r a ≡ []
    → (is_int (type_of a) ≡ true) × (r.type ≡ IrType.pointer)
unfolding check_malloc_instr
malloc-none r a h =
    let (ea, h1) = same (type_of a) (IrType.int i64) _ _ h in
    (rw ea refl, (same r.type IrType.pointer _ _ h1).0)

pub load-none : (a : Value) → check_load_instr a ≡ [] → type_of a ≡ IrType.pointer
unfolding check_load_instr
load-none a h = (same (type_of a) IrType.pointer _ _ h).0

pub store-none : (a : Value) → check_store_instr a ≡ [] → type_of a ≡ IrType.pointer
unfolding check_store_instr
store-none a h = (same (type_of a) IrType.pointer _ _ h).0

pub free-none : (a : Value) → check_free_instr a ≡ [] → type_of a ≡ IrType.pointer
unfolding check_free_instr
free-none a h = (same (type_of a) IrType.pointer _ _ h).0

-- Every value of a list is declared.
abbrev pub DeclaresAll : (ℕ → IrType) → List Value → Type 0
DeclaresAll types [] = Unit {0}
DeclaresAll types (v ∷ vs) = Declares types v × DeclaresAll types vs

pub phi-none :
    (types : ℕ → IrType) (r : Computed) (parents : List ℕ) (args : List (Value × ℕ)) (seen : List ℕ)
    → DeclaresAll types (inherited_values args)
    → check_phi_args r parents args seen ≡ []
    → AllDeclared types r.type args
unfolding check_phi_args inherited_values Declares AllDeclared
phi-none types r parents [] seen d h = tt
phi-none types r parents ((v, origin) ∷ args) seen (d, ds) h =
    elim (Bool-cases (mem origin parents)) [
      | inr n ↦ ground arith
      | inl y ↦ elim (Bool-cases (mem origin seen)) [
        | inl m ↦ ground arith
        | inr m ↦
            let (e, hs) = same (type_of v) r.type _ _ (rw (y, m) at h) in
            ((d, e), phi-none types r parents args (origin ∷ seen) ds hs)
      ]
    ]
