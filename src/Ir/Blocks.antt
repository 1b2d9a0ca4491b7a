-- ===== src/Ir/Blocks.antt =====
-- src/ir/check/checker.cc: the checks of blocks.
use katara.Prelude.{
  ℕ, Bool, true, false, not, ◌&&◌, ◌||◌, ◌==◌, ltb, List, [], ◌∷◌, ◌++◌, length, if◌then◌else◌,
}
use katara.Ir.Instrs.{Instr, Block, Func, is_phi, is_control_flow}
use katara.Ir.Issues.{IssueKind, report}
use katara.Ir.Calls.{check_instr}

abbrev pub is_empty : List ℕ → Bool
is_empty [] = true
is_empty (x ∷ xs) = false

unfoldable pub check_parents : Func → Block → List IssueKind → List IssueKind
unfolding report
check_parents func b others =
    report (func.entry_block == b.number && not (is_empty b.parents))
      IssueKind.entry_block_has_parents
      (report (not (func.entry_block == b.number) && is_empty b.parents)
        IssueKind.non_entry_block_has_no_parents others)

abbrev pub ends_control_flow : List Instr → Bool
ends_control_flow [] = false
ends_control_flow (i ∷ []) = is_control_flow i
ends_control_flow (i ∷ (j ∷ rest)) = ends_control_flow (j ∷ rest)

abbrev pub is_last : List Instr → Bool
is_last [] = true
is_last (i ∷ rest) = false

-- The loop over the instructions; `regular` is whether one that is no phi instruction came before.
unfoldable pub check_instrs : List Func → Func → Block → Bool → List Instr → List IssueKind
unfolding report check_instr
check_instrs funcs func b regular [] = []
check_instrs funcs func b regular (i ∷ rest) =
    report (is_phi i && ltb (length b.parents) 2) IssueKind.phi_in_block_without_multiple_parents (
      report (is_phi i && regular) IssueKind.phi_after_regular_instr_in_block (
        report (is_control_flow i && not (is_last rest))
          IssueKind.control_flow_instr_before_end_of_block
          (check_instr funcs func b i
            ++ check_instrs funcs func b (regular || not (is_phi i)) rest)))

unfoldable pub check_block : List Func → Func → Block → List IssueKind
unfolding check_parents report check_instrs
check_block funcs func b = check_parents func b (
    if is_last b.instrs
    then IssueKind.block_contains_no_instrs ∷ []
    else report (not (ends_control_flow b.instrs))
        IssueKind.control_flow_instr_missing_at_end_of_block
        (check_instrs funcs func b false b.instrs))
