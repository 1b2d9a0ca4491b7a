-- ===== src/Ir/Issues.antt =====
-- The issues that src/ir/check/checker.cc reports for blocks and instructions: `ir_issues::IssueKind`, without the
-- positions and the text of the message.
use katara.Prelude.{◌≡◌, refl, arith, Bool, true, false, List, [], ◌∷◌, if◌then◌else◌}

pub data IssueKind : Type 0 where
  entry_block_has_parents non_entry_block_has_no_parents block_contains_no_instrs : IssueKind
  control_flow_instr_missing_at_end_of_block phi_in_block_without_multiple_parents : IssueKind
  phi_after_regular_instr_in_block control_flow_instr_before_end_of_block : IssueKind
  non_phi_instr_uses_inherited_value mov_instr_mismatched_types : IssueKind
  phi_instr_has_argument_for_non_parent_block phi_instr_has_multiple_arguments_for_parent_block :
      IssueKind
  phi_instr_mismatched_types phi_instr_has_no_argument_for_parent_block : IssueKind
  bool_not_operand_not_bool bool_not_result_not_bool bool_binary_operand_not_bool
        bool_binary_result_not_bool :
      IssueKind
  int_unary_operand_not_int int_unary_result_not_int int_unary_different_types : IssueKind
  int_compare_operand_not_int int_compare_different_types int_compare_result_not_bool : IssueKind
  int_binary_operand_not_int int_binary_result_not_int int_binary_different_types : IssueKind
  int_shift_operand_not_int int_shift_result_not_int int_shift_different_types : IssueKind
  pointer_offset_pointer_not_pointer pointer_offset_offset_not_i64
        pointer_offset_result_not_pointer :
      IssueKind
  nil_test_tested_not_pointer_or_func nil_test_result_not_bool : IssueKind
  malloc_size_not_i64 malloc_result_not_pointer : IssueKind
  load_address_not_pointer store_address_not_pointer free_address_not_pointer : IssueKind
  control_flow_instr_mismatched_with_block_graph jump_destination_not_child : IssueKind
  jump_cond_condition_not_bool jump_cond_has_duplicate_destinations
        jump_cond_destination_not_child :
      IssueKind
  syscall_result_not_i64 syscall_number_not_i64 syscall_arg_not_i64 : IssueKind
  call_callee_not_func call_static_callee_does_not_exist call_does_not_match_static_callee :
      IssueKind
  return_does_not_match_func : IssueKind

-- A test whose issue is added before the others.
unfoldable pub report : Bool → IssueKind → List IssueKind → List IssueKind
report found kind others = if found then kind ∷ others else others

pub report-none :
    (found : Bool) (kind : IssueKind) (others : List IssueKind)
    → report found kind others ≡ []
    → (found ≡ false) × (others ≡ [])
unfolding report
report-none true kind others h = (ground arith, ground arith)
report-none false kind others h = (refl, h)
