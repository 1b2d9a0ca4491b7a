-- ===== src/Liveness/Tests.antt =====
-- Tests of the live ranges and of the registers that they keep apart.
use katara.Prelude.{
  ℕ, ◌≤◌, ◌≡◌, refl, arith, Bool, true, false, not, ◌&&◌, ◌||◌, ◌==◌, List, [], ◌∷◌, Option, some,
  none, length, ◌-◌,
}
use katara.Prelude.Int.{pos}
use katara.Prelude.Result.{Result, ok, err}
use katara.Interference.Sets.{add, add_all, erase, mem}
use katara.Interference.Graph.{
  InterferenceGraph, add_edges_in, add_edges_between, connect_to, connect, connect_each, has_entry,
  insert_neighbors, neighbors_of, add_value,
}
use katara.Interference.Refines.{adjacent}
use katara.Interference.Colors.{Colors, color_interference_graph}
use katara.Liveness.Code.{
  Value, Instr, Block, get_block, phi_args, non_phi_reverse, until_phi, defined_values, used_values,
  value_inherited_from, arg_values,
}
use katara.Liveness.Ranges.{
  FuncLiveRanges, BlockLiveRanges, ValueRange, find_range, put_range, add_value_definition,
  add_value_use, has_value, propagate_backwards_from_exit_set, get_entry_set, get_exit_set,
  entry_values, exit_values, instrs_are_ordered, new_func_live_ranges, get_block_live_ranges,
  put_block_live_ranges,
}
use katara.Liveness.Analyzer.{
  find_live_ranges_for_func, backtrace_blocks, backtrace_block, backtrace_instrs, add_definitions,
  add_uses, include_children, include_phis, drain, begin, visit_parents, propagate_all,
}
use katara.Liveness.Builder.{
  build_interference_graph_for_func, populate_for_blocks, populate_for_block, walk_instrs,
  define_values, use_values,
}
use katara.Liveness.Growth.{lacking}
use katara.Liveness.Flow.{total, exit_at}
use katara.Liveness.Live.{live_before}
use katara.X86.Ops.{Rm, Size}
use katara.Liveness.Operands.{
  color_and_size_to_operand, operand_to_color, operand_to_color-color_and_size_to_operand,
}
use katara.Liveness.Uses.{in_order, no_phis, none_defined}
use katara.Liveness.Phis.{child_inherits, inherits, children_inherit, all_inherit}
use katara.Liveness.Start.{is_number, all_ready}
use katara.Liveness.Lookup.{well_formed, parents_known, all_entries}
use katara.Liveness.Complete.{LiveAtEnd, steps_for, steps_after}
use katara.Liveness.Allocation.{
  find_live_ranges_for_func_ends, live_at_end_found, live_values_in_different_registers,
}
use katara.Liveness.Registers.{AllRanged, AllKeptApart, differ, registers_kept_apart}
use katara.Liveness.Updates.{Makes, enters, leaves}
use katara.Liveness.Operations.{range_operations_exact}
use katara.Liveness.Edges.{distinct, has_range}

-- %0 is defined in the first block and used in the second, with %1, which that block defines.
abbrev first : Block
first = record {
  number = 0;
  instrs = Instr.other (0 ∷ []) [] ∷ (Instr.other [] [] ∷ []);
  parents = [];
  children = 1 ∷ [];
}

abbrev second : Block
second = record {
  number = 1;
  instrs =
      Instr.other (1 ∷ []) (Value.constant ∷ [])
      ∷ (Instr.other [] (Value.computed 0 ∷ (Value.computed 1 ∷ [])) ∷ []);
  parents = 0 ∷ [];
  children = [];
}

abbrev blocks : List Block
blocks = first ∷ (second ∷ [])

abbrev range : Option ℕ → Option ℕ → ValueRange
range s e = record { start_instr = s; end_instr = e }

abbrev ranges : FuncLiveRanges
ranges =
    (0, record { block_size = 2; value_ranges = (0, range (some 0) none) ∷ [] })
    ∷ ((
      1,
      record {
        block_size = 2;
        value_ranges = (1, range (some 0) (some 1)) ∷ ((0, range none (some 1)) ∷ []);
      },
    )
        ∷ [])

-- The queue is taken from its front, and from its end.
abbrev in_turn : ℕ → List ℕ → ℕ
in_turn left queue = 0

abbrev last : ℕ → List ℕ → ℕ
last left queue = length queue - 1

blocks_analyzed : find_live_ranges_for_func in_turn 5 blocks ≡ some (ok ranges)
unfolding find_live_ranges_for_func backtrace_blocks backtrace_block backtrace_instrs
    add_definitions add_uses include_children include_phis drain begin visit_parents propagate_all
    get_block phi_args non_phi_reverse until_phi defined_values used_values value_inherited_from
    arg_values find_range put_range add_value_definition add_value_use
    propagate_backwards_from_exit_set get_entry_set get_exit_set entry_values exit_values
    instrs_are_ordered new_func_live_ranges get_block_live_ranges put_block_live_ranges add erase
blocks_analyzed = refl

registers_kept_apart_example :
    (g : InterferenceGraph) × (cs : Colors) × (build_interference_graph_for_func blocks ranges
      ≡ ok g)
    × (color_interference_graph g ((1, pos 4) ∷ []) ≡ ok cs)
    × AllKeptApart (differ cs) ranges blocks
unfolding get_block_live_ranges
registers_kept_apart_example =
    registers_kept_apart ranges blocks ((1, pos 4) ∷ []) ((_, refl), ((_, refl), tt))

abbrev used_later : BlockLiveRanges
used_later = record {
  block_size = 3;
  value_ranges = (5, range none (some 2)) ∷ ((6, range (some 0) none) ∷ []);
}

range_operations_exact_example :
    Makes
      (add_value_definition used_later 5 1)
      (λ a. enters used_later a && not (5 == a))
      (λ a. leaves used_later a)
    × Makes
        (add_value_use used_later 5 1)
        (λ a. enters used_later a || (5 == a && not (has_value used_later 5)))
        (λ a. leaves used_later a)
    × Makes
        (propagate_backwards_from_exit_set used_later 5)
        (λ a. enters used_later a || (5 == a && not (has_value used_later 5)))
        (λ a. leaves used_later a || 5 == a)
unfolding distinct has_range
range_operations_exact_example = range_operations_exact used_later 5 1 refl

-- A call with two results of which only the first is used later: nothing keeps the two apart.
abbrev call_block : Block
call_block = record {
  number = 0;
  instrs = Instr.other (0 ∷ (1 ∷ [])) [] ∷ (Instr.other [] (Value.computed 0 ∷ []) ∷ []);
  parents = [];
  children = [];
}

abbrev no_edge : Result InterferenceGraph → Bool
no_edge (ok g) = not (adjacent g 0 1)
no_edge (err e) = false

results_may_share :
    no_edge (
      build_interference_graph_for_func
        (call_block ∷ [])
        ((0, record { block_size = 2; value_ranges = [] }) ∷ []))
    ≡ true
unfolding build_interference_graph_for_func populate_for_blocks populate_for_block walk_instrs
    define_values use_values get_block_live_ranges get_exit_set exit_values add_edges_in
    add_edges_between connect_to connect connect_each has_entry insert_neighbors neighbors_of add
    add_all erase defined_values used_values add_value
results_may_share = refl

-- A loop over its second block, through which the values %0 and %1 of the first pass to the third.
abbrev loop_blocks : List Block
loop_blocks =
    record {
      number = 0;
      instrs = Instr.other (0 ∷ []) [] ∷ (Instr.other (1 ∷ []) (Value.computed 0 ∷ []) ∷ []);
      parents = [];
      children = 1 ∷ [];
    }
    ∷ (record {
      number = 1;
      instrs =
          Instr.phi 2 ((0, Value.computed 1) ∷ ((1, Value.computed 3) ∷ []))
          ∷ (Instr.other (3 ∷ []) (Value.computed 2 ∷ []) ∷ []);
      parents = 0 ∷ (1 ∷ []);
      children = 1 ∷ (2 ∷ []);
    }
        ∷ (record {
          number = 2;
          instrs = Instr.other [] (Value.computed 0 ∷ (Value.computed 1 ∷ [])) ∷ [];
          parents = 1 ∷ [];
          children = [];
        }
            ∷ []))

loop_blocks-well_formed : well_formed loop_blocks ≡ true
unfolding well_formed all_ready parents_known is_number in_order no_phis none_defined defined_values
    children_inherit get_block phi_args all_inherit value_inherited_from
loop_blocks-well_formed = refl

loop_blocks_steps : steps_for loop_blocks ≤ 12
unfolding steps_for steps_after total lacking all_entries backtrace_blocks backtrace_block
    backtrace_instrs add_definitions add_uses include_children include_phis get_block phi_args
    non_phi_reverse until_phi defined_values used_values value_inherited_from arg_values find_range
    put_range add_value_definition add_value_use propagate_backwards_from_exit_set get_entry_set
    get_exit_set entry_values exit_values instrs_are_ordered new_func_live_ranges
    get_block_live_ranges put_block_live_ranges add erase
loop_blocks_steps = omega arith

live_at_first_end_0 : LiveAtEnd loop_blocks 0 0
unfolding get_block live_before used_values defined_values
live_at_first_end_0 =
    LiveAtEnd.passed 0 1 0 _ refl refl refl (LiveAtEnd.used 1 2 0 _ refl refl refl)

live_at_first_end_1 : LiveAtEnd loop_blocks 0 1
unfolding get_block child_inherits inherits phi_args value_inherited_from
live_at_first_end_1 = LiveAtEnd.by_phi 0 1 _ refl refl

find_live_ranges_for_func_ends_example :
    (r : FuncLiveRanges) × (find_live_ranges_for_func last 12 loop_blocks ≡ some (ok r))
    × AllRanged r loop_blocks
find_live_ranges_for_func_ends_example =
    find_live_ranges_for_func_ends last 12 loop_blocks loop_blocks-well_formed loop_blocks_steps

live_at_end_found_example :
    (r : FuncLiveRanges) × (find_live_ranges_for_func last 12 loop_blocks ≡ some (ok r))
    × (mem 0 (exit_at r 0) ≡ true)
live_at_end_found_example =
    live_at_end_found last 12 loop_blocks 0 0 loop_blocks-well_formed loop_blocks_steps
      live_at_first_end_0

live_values_in_different_registers_example :
    (r : FuncLiveRanges) × (g : InterferenceGraph) × (cs : Colors) × (find_live_ranges_for_func last
        12 loop_blocks
      ≡ some (ok r))
    × (build_interference_graph_for_func loop_blocks r ≡ ok g)
    × (color_interference_graph g ((1, pos 4) ∷ []) ≡ ok cs)
    × (differ cs 0 1 ≡ true)
unfolding is_number
live_values_in_different_registers_example =
    live_values_in_different_registers last 12 loop_blocks ((1, pos 4) ∷ []) 0 0 1
      loop_blocks-well_formed loop_blocks_steps refl live_at_first_end_0 live_at_first_end_1 refl

operand_to_color-color_and_size_to_operand_example :
    (rm : Rm) × (color_and_size_to_operand (pos 16) Size.s32 ≡ ok rm)
    × (operand_to_color rm ≡ ok (pos 16))
operand_to_color-color_and_size_to_operand_example =
    operand_to_color-color_and_size_to_operand 16 Size.s32 (omega arith)
