-- ===== src/Ir/Machine.antt =====
-- src/ir/interpreter/execution_point.cc, stack.cc and interpreter.cc: frames, the instructions of a frame, and jumps.
use katara.Prelude.{
  ℕ, ◌+◌, Bool, ◌==◌, Option, some, none, List, [], length, get_elem?, if◌then◌else◌,
}
use katara.Prelude.Int.{ℤ}
use katara.Prelude.Result.{failed, undefined}
use katara.Interpreter.Heap.{Heap}
use katara.Ir.Types.{Constant, Computed, Value}
use katara.Ir.Instrs.{Instr, Block, Func, get_block}
use katara.Ir.Execution.{
  Outcome, then_do, State, Values, evaluate_bool, execute_mov_instr, execute_phi_instr,
  execute_conversion, execute_int_binary_instr, execute_int_compare_instr, execute_int_shift_instr,
  execute_pointer_offset_instr, execute_nil_test_instr,
}
use katara.Ir.Memory.{
  execute_malloc_instr, execute_load_instr, execute_store_instr, execute_free_instr,
}

-- `ExecutionPoint`.
pub record ExecPoint : Type 0 where
  pub previous_block : Option Block
  pub current_block : Block
  pub next_instr_index : ℕ
  pub results : List Constant

abbrev pub is_at_func_exit : ExecPoint → Bool
is_at_func_exit p = p.next_instr_index == length p.current_block.instrs

abbrev pub next_instr : ExecPoint → Option Instr
next_instr p = get_elem? p.current_block.instrs p.next_instr_index

abbrev pub advance_to_next_instr : ExecPoint → ExecPoint
advance_to_next_instr p = record p { next_instr_index = p.next_instr_index + 1 }

abbrev pub advance_to_next_block : ExecPoint → Block → ExecPoint
advance_to_next_block p b = record p {
  previous_block = some p.current_block;
  current_block = b;
  next_instr_index = 0;
}

abbrev pub advance_to_func_exit : ExecPoint → List Constant → ExecPoint
advance_to_func_exit p results = record p {
  next_instr_index = length p.current_block.instrs;
  results = results;
}

pub record Frame : Type 0 where
  pub func : Func
  pub exec_point : ExecPoint
  pub computed_values : Values

-- The interpreter between two steps, the current frame apart from those below it, until the program has completed.
pub record Running : Type 0 where
  pub current : Frame
  pub below : List Frame
  pub heap : Heap
  pub memory : ℤ → ℕ

pub data Machine : Type 0 where
  running : Running → Machine
  completed : ℤ → Machine

-- `AtFuncEntry`, with the entry block that the function has.
abbrev pub at_func_entry : Block → ExecPoint
at_func_entry b = record {
  previous_block = none;
  current_block = b;
  next_instr_index = 0;
  results = [];
}

abbrev pub state_of : Running → State
state_of m = record { values = m.current.computed_values; heap = m.heap; memory = m.memory }

abbrev pub with_state : Running → State → Running
with_state m s = record m {
  current = record (m.current) { computed_values = s.values };
  heap = s.heap;
  memory = s.memory;
}

abbrev pub with_point : Running → ExecPoint → Running
with_point m p = record m { current = record (m.current) { exec_point = p } }

-- A phi instruction at the entry of a function reads the number of no block.
unfoldable pub execute_phi : Running → Computed → List (Value × ℕ) → Outcome State
unfolding execute_phi_instr
execute_phi m r args = elim m.current.exec_point.previous_block [
  | some b ↦ execute_phi_instr (state_of m) b.number r args
  | none ↦ Outcome.stops undefined
]

-- The instructions after which the frame goes to the next one; the others are not supported.
unfoldable pub execute_in_frame : (State → ℤ → ℤ) → Running → Instr → Outcome State
unfolding execute_mov_instr execute_phi execute_conversion execute_int_binary_instr
    execute_int_compare_instr execute_int_shift_instr execute_pointer_offset_instr
    execute_nil_test_instr execute_malloc_instr execute_load_instr execute_store_instr
    execute_free_instr
execute_in_frame c_malloc m (Instr.mov r a) = execute_mov_instr (state_of m) r a
execute_in_frame c_malloc m (Instr.phi r args) = execute_phi m r args
execute_in_frame c_malloc m (Instr.conversion r a) = execute_conversion (state_of m) r a
execute_in_frame c_malloc m (Instr.int_binary r op a b) =
    execute_int_binary_instr (state_of m) r op a b
execute_in_frame c_malloc m (Instr.int_compare r op a b) =
    execute_int_compare_instr (state_of m) r op a b
execute_in_frame c_malloc m (Instr.int_shift r op a b) =
    execute_int_shift_instr (state_of m) r op a b
execute_in_frame c_malloc m (Instr.pointer_offset r a b) =
    execute_pointer_offset_instr (state_of m) r a b
execute_in_frame c_malloc m (Instr.nil_test r a) = execute_nil_test_instr (state_of m) r a
execute_in_frame c_malloc m (Instr.malloc r a) = execute_malloc_instr c_malloc (state_of m) r a
execute_in_frame c_malloc m (Instr.load r a) = execute_load_instr (state_of m) r a
execute_in_frame c_malloc m (Instr.store a v) = execute_store_instr (state_of m) a v
execute_in_frame c_malloc m (Instr.free a) = execute_free_instr (state_of m) a
execute_in_frame c_malloc m i = Outcome.stops failed

unfoldable pub execute_regular : (State → ℤ → ℤ) → Running → Instr → Outcome Machine
unfolding execute_in_frame
execute_regular c_malloc m i = then_do (execute_in_frame c_malloc m i) (λ s.
    Outcome.returns
      (Machine.running (with_point (with_state m s) (advance_to_next_instr m.current.exec_point))))

-- `GetBlock` gives a null pointer for a block that is not there, which the next step reads.
unfoldable pub execute_jump : Running → ℕ → Outcome Machine
unfolding get_block
execute_jump m d = elim (get_block m.current.func.blocks d) [
  | none ↦ Outcome.stops undefined
  | some b ↦
      Outcome.returns
        (Machine.running (with_point m (advance_to_next_block m.current.exec_point b)))
]

unfoldable pub execute_jump_cond_instr : Running → Value → ℕ → ℕ → Outcome Machine
unfolding evaluate_bool execute_jump
execute_jump_cond_instr m c t f =
    then_do (evaluate_bool m.current.computed_values c) (λ b. execute_jump m (if b then t else f))
