-- ===== src/Ir/Tests.antt =====
-- Tests of the intermediate representation.
use katara.Prelude.{
  some, none, Option, arith, ℕ, ◌≡◌, refl, Bool, true, false, ◌&&◌, ◌==◌, ltb, List, [], ◌∷◌, none,
}
use katara.Prelude.Int.{ℤ, pos, negsuc, ◌+ℤ◌, ◌-ℤ◌}
use katara.Atomics.IntType.{i8, i64}
use katara.Atomics.Ops.{BinaryOp}
use katara.Atomics.Cpp.{cast}
use katara.Atomics.Int.{as_int64}
use katara.Interpreter.Heap.{
  Heap, store, check_exists, check_allocated, is_contained, mark_as_initialized, set_flags, replace,
  write_bytes,
}
use katara.Ir.Types.{IrType, Constant, Computed, Value, type_of, is_equal}
use katara.Ir.Instrs.{get_block, Instr, Block, Func, get_func, defined_values, used_values}
use katara.Ir.Issues.{report}
use katara.Ir.Checks.{check_inherited, check_int_binary_instr, check_phi_args, check_missing_args}
use katara.Ir.Calls.{
  check_kind, check_instr, check_call_instr, check_static, check_callee, check_signature,
  check_types, value_types, computed_types, check_return_instr,
}
use katara.Ir.Blocks.{check_parents, check_instrs, check_block, is_empty}
use katara.Ir.Execution.{
  execute_int_binary_instr, with_ints, put_int, insert_or_assign, evaluate_func, Outcome, State,
  value_at, evaluate, evaluate_pointer, evaluate_int, put,
}
use katara.Ir.Memory.{
  value_bytes, stored_int, int_bytes, bytes_of, execute_load_instr, execute_store_instr,
}
use katara.Atomics.Compute.{compute, binary}
use katara.Ir.Steps.{
  new_interpreter, run, execute_step, execute_instr, evaluate_all, push_frame, pass, assign,
  execute_return_instr, return_to,
}
use katara.Ir.Machine.{execute_regular, ExecPoint, Frame, Running, Machine, execute_in_frame}
use katara.Ir.Steps.{execute_call_instr, execute_func_exit}
use katara.Ir.Evaluation.{Sound, Typed, Declares}
use katara.Ir.Checked.{checked_instr-Keeps, DeclaresInstr}
use katara.Ir.CallSoundness.{RunsWith, checked_call-RunsWith, checked_exit-RunsWith, constant_types}
use katara.Ir.Phis.{count, checked_phi-count}
use katara.Ir.Shape.{checked_block-shape, phis_first, has_phi, control_flow_last}
use katara.Ir.Loading.{Fits, load_instr-store_instr}

abbrev number : ℕ → Computed
number n = record { type = IrType.int i64; number = n }

abbrev int64 : ℤ → Constant
int64 z = Constant.int_constant (record { type = i64; value = z })

-- A function of one argument that adds it to itself and returns the sum, and the entry function that calls it with 21.
abbrev double_block : Block
double_block = record {
  number = 0;
  instrs =
      Instr.int_binary (number 1) BinaryOp.add (Value.computed (number 0))
        (Value.computed (number 0))
      ∷ (Instr.return_instr (Value.computed (number 1) ∷ []) ∷ []);
  parents = [];
  children = [];
}

abbrev double : Func
double = record {
  number = pos 1;
  args = number 0 ∷ [];
  result_types = IrType.int i64 ∷ [];
  blocks = double_block ∷ [];
  entry_block = 0;
}

abbrev call_double : Instr
call_double =
    Instr.call (number 0 ∷ []) (Value.constant (Constant.func_constant (pos 1)))
      (Value.constant (int64 (pos 21)) ∷ [])

abbrev main_block : Block
main_block = record {
  number = 0;
  instrs = call_double ∷ (Instr.return_instr (Value.computed (number 0) ∷ []) ∷ []);
  parents = [];
  children = [];
}

abbrev main : Func
main = record {
  number = pos 0;
  args = [];
  result_types = IrType.int i64 ∷ [];
  blocks = main_block ∷ [];
  entry_block = 0;
}

abbrev funcs : List Func
funcs = main ∷ (double ∷ [])

abbrev point : Block → ℕ → List Constant → ExecPoint
point b i results = record {
  previous_block = none;
  current_block = b;
  next_instr_index = i;
  results = results;
}

abbrev heap : Heap
heap = record { sanitize = true; allocated = []; freed = [] }

abbrev memory : ℤ → ℕ
memory a = 0

abbrev in_main : Frame
in_main = record { func = main; exec_point = point main_block 0 []; computed_values = [] }

abbrev in_double : ℕ → List Constant → Frame
in_double i results = record {
  func = double;
  exec_point = point double_block i results;
  computed_values = (0, int64 (pos 21)) ∷ [];
}

abbrev at_call : Running
at_call = record { current = in_main; below = []; heap = heap; memory = memory }

abbrev at_sum : Running
at_sum = record { current = in_double 0 []; below = in_main ∷ []; heap = heap; memory = memory }

abbrev at_exit : Running
at_exit = record {
  current = in_double 2 (int64 (pos 42) ∷ []);
  below = in_main ∷ [];
  heap = heap;
  memory = memory;
}

abbrev all_int64 : ℕ → IrType
all_int64 n = IrType.int i64

abbrev no_malloc : State → ℤ → ℤ
no_malloc s n = pos 4096

abbrev sum : Instr
sum =
    Instr.int_binary (number 1) BinaryOp.add (Value.computed (number 0)) (Value.computed (number 0))

checked_instr-Keeps_example :
    Sound (λ s. Typed all_int64 s.values) (execute_in_frame no_malloc at_sum sum)
unfolding check_instr check_inherited check_kind check_int_binary_instr report is_equal type_of
    used_values defined_values DeclaresInstr Declares Typed
checked_instr-Keeps_example =
    checked_instr-Keeps no_malloc funcs double double_block at_sum sum all_int64 refl
      ((refl, tt), (refl, (refl, tt))) (refl, tt)

call_double_checked : check_instr funcs main main_block call_double ≡ []
unfolding check_instr check_inherited check_kind check_call_instr check_static check_callee
    check_signature check_types value_types computed_types get_func report is_equal type_of
    used_values
call_double_checked = refl

call_double_declared : DeclaresInstr all_int64 call_double
unfolding DeclaresInstr Declares used_values defined_values
call_double_declared = ((refl, tt), (tt, (tt, tt)))

checked_call-RunsWith_example : Sound (RunsWith all_int64) (
    execute_call_instr funcs at_call
      (Value.constant (Constant.func_constant (pos 1)))
      (Value.constant (int64 (pos 21)) ∷ []))
unfolding get_func Typed
checked_call-RunsWith_example =
    checked_call-RunsWith funcs main main_block at_call (number 0 ∷ []) (pos 1)
      (Value.constant (int64 (pos 21)) ∷ []) double all_int64 all_int64 call_double_checked
      call_double_declared tt refl (refl, tt)

checked_exit-RunsWith_example :
    (next : Running) × (execute_func_exit at_exit ≡ Outcome.returns (Machine.running next))
    × Typed all_int64 next.current.computed_values
    × (next.current.exec_point.next_instr_index ≡ 1)
    × (next.below ≡ [])
unfolding get_func constant_types Typed
checked_exit-RunsWith_example =
    checked_exit-RunsWith funcs main main_block at_exit in_main [] (number 0 ∷ []) (pos 1)
      (Value.constant (int64 (pos 21)) ∷ []) double all_int64 refl refl call_double_checked refl
      refl call_double_declared tt

checked_phi-count_example :
    count 4 ((Value.constant (int64 (pos 1)), 3) ∷ ((Value.computed (number 7), 4) ∷ [])) ≡ 1
unfolding check_phi_args check_missing_args report is_equal type_of
checked_phi-count_example =
    checked_phi-count (number 8) (3 ∷ (4 ∷ []))
      ((Value.constant (int64 (pos 1)), 3) ∷ ((Value.computed (number 7), 4) ∷ [])) 4 refl

checked_block-shape_example :
    (phis_first double_block.instrs ≡ true)
    × ((has_phi double_block.instrs && ltb 0 2) ≡ false)
    × (control_flow_last double_block.instrs ≡ true)
    × (is_empty double_block.parents ≡ (0 == 0))
unfolding check_block check_parents check_instrs check_instr check_inherited check_kind
    check_int_binary_instr check_return_instr check_signature check_types value_types report
    is_equal type_of used_values
checked_block-shape_example = checked_block-shape funcs double double_block refl

doubled : Outcome Machine → Option (Outcome ℤ)
doubled (Outcome.returns m) = run 7 no_malloc funcs m
doubled o = none

-- The program ends with twice 21.
ends_with_42 : doubled (new_interpreter heap memory funcs (pos 0)) ≡ some (Outcome.returns (pos 42))
unfolding doubled new_interpreter get_func get_block run execute_step execute_instr
    execute_call_instr evaluate_func evaluate value_at evaluate_all push_frame pass assign
    insert_or_assign execute_regular execute_in_frame execute_int_binary_instr with_ints
    evaluate_int put_int put compute binary cast ◌+ℤ◌ execute_return_instr execute_func_exit
    return_to as_int64
ends_with_42 = refl

abbrev flags_heap : List Bool → Heap
flags_heap flags = record {
  sanitize = true;
  allocated =
      record { range = record { address = pos 1000; size = pos 2 }; initialization = flags } ∷ [];
  freed = [];
}

abbrev address : Value
address = Value.constant (Constant.pointer_constant (pos 1001))

abbrev minus_two : Constant
minus_two = Constant.int_constant (record { type = i8; value = negsuc 1 })

abbrev before : State
before = record {
  values = (0, minus_two) ∷ [];
  heap = flags_heap (false ∷ (false ∷ []));
  memory = memory;
}

abbrev after : State
unfolding write_bytes
after = record {
  values = (0, minus_two) ∷ [];
  heap = flags_heap (false ∷ (true ∷ []));
  memory = write_bytes memory (pos 1001) (254 ∷ []);
}

abbrev byte_0 : Computed
byte_0 = record { type = IrType.int i8; number = 0 }

abbrev byte_1 : Computed
byte_1 = record { type = IrType.int i8; number = 1 }

stores_minus_two :
    execute_store_instr before address (Value.computed byte_0) ≡ Outcome.returns after
unfolding execute_store_instr evaluate evaluate_pointer evaluate_int value_at type_of value_bytes
    stored_int int_bytes bytes_of as_int64 cast store check_exists check_allocated is_contained
    mark_as_initialized set_flags replace ◌+ℤ◌ ◌-ℤ◌ after
stores_minus_two = refl

load_instr-store_instr_example :
    execute_load_instr after byte_1 address ≡ Outcome.returns (put after byte_1 minus_two)
unfolding evaluate value_at Fits type_of
load_instr-store_instr_example =
    load_instr-store_instr before address (Value.computed byte_0) byte_1 minus_two after refl refl
      (omega arith, omega arith) refl refl stores_minus_two
