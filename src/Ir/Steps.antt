-- ===== src/Ir/Steps.antt =====
-- src/ir/interpreter/interpreter.cc: calls, returns and steps.
use katara.Prelude.{
  ℕ, zero, suc, Bool, true, false, ◌&&◌, ◌==◌, length, Option, some, none, List, [], ◌∷◌,
  if◌then◌else◌,
}
use katara.Prelude.Int.{ℤ, negsuc}
use katara.Interpreter.Heap.{Heap, eqb_ℤ}
use katara.Prelude.Result.{failed, bad_access, undefined}
use katara.Atomics.Int.{as_int64}
use katara.Ir.Types.{Constant, Computed, Value}
use katara.Ir.Instrs.{Instr, Func, get_func, get_block}
use katara.Ir.Execution.{
  Outcome, then_do, as_int, State, Values, insert_or_assign, value_at, evaluate, evaluate_func,
}
use katara.Ir.Machine.{
  is_at_func_exit, next_instr, advance_to_next_instr, at_func_entry, advance_to_func_exit, Frame,
  Running, Machine, at_func_entry, with_point, execute_regular, execute_jump,
  execute_jump_cond_instr,
}

unfoldable pub evaluate_all : Values → List Value → Outcome (List Constant)
unfolding evaluate
evaluate_all vs [] = Outcome.returns []
evaluate_all vs (a ∷ args) =
    then_do (evaluate vs a) (λ c. then_do (evaluate_all vs args) (λ cs. Outcome.returns (c ∷ cs)))

-- `insert_or_assign`, or `insert`, which keeps a value that is there.
unfoldable pub assign : Bool → ℕ → Constant → Values → Values
unfolding insert_or_assign value_at
assign true n c values = insert_or_assign n c values
assign false n c values = elim (value_at values n) [
  | some d ↦ values
  | none ↦ insert_or_assign n c values
]

-- Constants for the values, one by one; a constant too many is out of range.
unfoldable pub pass : Bool → List Computed → List Constant → Values → Outcome Values
unfolding assign
pass overwrite vs [] values = Outcome.returns values
pass overwrite [] (c ∷ cs) values = Outcome.stops bad_access
pass overwrite (v ∷ vs) (c ∷ cs) values = pass overwrite vs cs (assign overwrite v.number c values)

unfoldable pub push_frame : Running → Func → List Constant → Outcome Machine
unfolding get_block pass
push_frame m f args = elim (get_block f.blocks f.entry_block) [
  | none ↦ Outcome.stops undefined
  | some b ↦ then_do (pass false f.args args []) (λ values. Outcome.returns (
      Machine.running (record m {
        current = record { func = f; exec_point = at_func_entry b; computed_values = values };
        below = m.current ∷ m.below;
      })))
]

unfoldable pub execute_call_instr : List Func → Running → Value → List Value → Outcome Machine
unfolding evaluate_func get_func evaluate_all push_frame
execute_call_instr funcs m f args = then_do (evaluate_func m.current.computed_values f) (λ n.
    elim (get_func funcs n) [
      | none ↦ Outcome.stops undefined
      | some callee ↦ then_do (evaluate_all m.current.computed_values args) (push_frame m callee)
    ])

unfoldable pub execute_return_instr : Running → List Value → Outcome Machine
unfolding evaluate_all
execute_return_instr m args = then_do (evaluate_all m.current.computed_values args) (λ results.
    Outcome.returns
      (Machine.running (with_point m (advance_to_func_exit m.current.exec_point results))))

-- `ExecuteFuncExit`: the results go to the frame below, whose next instruction is the call.
unfoldable pub return_to : Running → Frame → List Frame → List Computed → Outcome Machine
unfolding pass
return_to m caller below rs =
    then_do (pass true rs m.current.exec_point.results caller.computed_values) (λ values.
      Outcome.returns (
        Machine.running (record m {
          current = record caller {
            computed_values = values;
            exec_point = advance_to_next_instr caller.exec_point;
          };
          below = below;
        })))

abbrev pub call_results : Option Instr → Outcome (List Computed)
call_results (some (Instr.call rs f args)) = Outcome.returns rs
call_results i = Outcome.wrong_class

abbrev pub first_result : List Constant → Outcome Constant
first_result [] = Outcome.stops undefined
first_result (c ∷ cs) = Outcome.returns c

unfoldable pub execute_func_exit : Running → Outcome Machine
unfolding return_to as_int64
execute_func_exit m = elim m.below [
  | [] ↦
      then_do (then_do (first_result m.current.exec_point.results) as_int)
        (λ a. Outcome.returns (Machine.completed (as_int64 a)))
  | caller ∷ below ↦
      then_do (call_results (next_instr caller.exec_point)) (return_to m caller below)
]

unfoldable pub execute_instr : (State → ℤ → ℤ) → List Func → Running → Instr → Outcome Machine
unfolding execute_regular execute_jump execute_jump_cond_instr execute_call_instr
    execute_return_instr
execute_instr c_malloc funcs m (Instr.jump d) = execute_jump m d
execute_instr c_malloc funcs m (Instr.jump_cond c t f) = execute_jump_cond_instr m c t f
execute_instr c_malloc funcs m (Instr.call rs f args) = execute_call_instr funcs m f args
execute_instr c_malloc funcs m (Instr.return_instr args) = execute_return_instr m args
execute_instr c_malloc funcs m i = execute_regular c_malloc m i

-- `ExecuteStep`; an index behind the exit of the function, where no instruction is, is read.
unfoldable pub execute_step : (State → ℤ → ℤ) → List Func → Running → Outcome Machine
unfolding execute_func_exit execute_instr
execute_step c_malloc funcs m =
    if is_at_func_exit m.current.exec_point
    then execute_func_exit m
    else elim (next_instr m.current.exec_point) [
      | none ↦ Outcome.stops undefined
      | some i ↦ execute_instr c_malloc funcs m i
    ]

-- The constructor, for the number of the entry function (-1 for none), which has no arguments and one result.
unfoldable pub new_interpreter : Heap → (ℤ → ℕ) → List Func → ℤ → Outcome Machine
unfolding get_func get_block
new_interpreter heap memory funcs entry =
    if eqb_ℤ entry (negsuc 0) then Outcome.stops failed else elim (get_func funcs entry) [
      | none ↦ Outcome.stops undefined
      | some f ↦
          if length f.args == 0 && length f.result_types == 1
          then elim (get_block f.blocks f.entry_block) [
            | none ↦ Outcome.stops undefined
            | some b ↦ Outcome.returns (
                Machine.running (record {
                  current = record { func = f; exec_point = at_func_entry b; computed_values = [] };
                  below = [];
                  heap = heap;
                  memory = memory;
                }))
          ]
          else Outcome.stops failed
    ]

-- `Run`, for so many steps, and `exit_code` where the program has completed by then.
unfoldable pub run : ℕ → (State → ℤ → ℤ) → List Func → Machine → Option (Outcome ℤ)
unfolding execute_step
run steps c_malloc funcs (Machine.completed exit_code) = some (Outcome.returns exit_code)
run zero c_malloc funcs (Machine.running m) = none
run (suc steps) c_malloc funcs (Machine.running m) = elim (execute_step c_malloc funcs m) [
  | Outcome.wrong_class ↦ some Outcome.wrong_class
  | Outcome.stops why ↦ some (Outcome.stops why)
  | Outcome.returns next ↦ run steps c_malloc funcs next
]
