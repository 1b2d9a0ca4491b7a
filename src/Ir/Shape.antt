-- ===== src/Ir/Shape.antt =====
-- The blocks in which src/ir/check/checker.cc finds nothing.
use katara.Prelude.{
  ◌≡◌, refl, arith, Bool, true, false, not, ◌&&◌, ◌||◌, ◌==◌, List, [], ◌∷◌, length, ltb,
  if◌then◌else◌,
}
use katara.Ir.Instrs.{Instr, Block, Func, is_phi, is_control_flow}
use katara.Ir.Issues.{IssueKind, report-none}
use katara.Ir.Calls.{check_instr}
use katara.Ir.Blocks.{
  check_parents, check_instrs, check_block, ends_control_flow, is_last, is_empty,
}
use katara.Ir.Reports.{append-none}

-- The phi instructions first: none follows an instruction that is no phi instruction.
abbrev pub no_phi_in : List Instr → Bool
no_phi_in [] = true
no_phi_in (i ∷ rest) = not (is_phi i) && no_phi_in rest

abbrev pub phis_first : List Instr → Bool
phis_first [] = true
phis_first (i ∷ rest) = (if is_phi i then phis_first rest else no_phi_in rest)

-- The control flow instruction stands at the end, and only there.
abbrev pub control_flow_last : List Instr → Bool
control_flow_last [] = false
control_flow_last (i ∷ []) = is_control_flow i
control_flow_last (i ∷ (j ∷ rest)) = not (is_control_flow i) && control_flow_last (j ∷ rest)

abbrev pub has_phi : List Instr → Bool
has_phi [] = false
has_phi (i ∷ rest) = is_phi i || has_phi rest

record Order (b : Block) (regular : Bool) (instrs : List Instr) : Type 0 where
  pub phis : (if regular then no_phi_in instrs else phis_first instrs) ≡ true
  pub merges : (has_phi instrs && ltb (length b.parents) 2) ≡ false
  pub control : (ends_control_flow instrs && not (control_flow_last instrs)) ≡ false

control-step :
    (i : Instr) (rest : List Instr)
    → (is_control_flow i && not (is_last rest)) ≡ false
    → (ends_control_flow rest && not (control_flow_last rest)) ≡ false
    → (ends_control_flow (i ∷ rest) && not (control_flow_last (i ∷ rest))) ≡ false
control-step i [] h k = ground arith
control-step i (j ∷ rest) h k = ground arith

instrs-Order :
    (funcs : List Func) (func : Func) (b : Block) (regular : Bool) (instrs : List Instr)
    → check_instrs funcs func b regular instrs ≡ []
    → Order b regular instrs
unfolding check_instrs
instrs-Order funcs func b regular [] h = record {
  phis = ground arith;
  merges = refl;
  control = refl;
}
instrs-Order funcs func b regular (i ∷ rest) h =
    let (x1, h1) =
      report-none (is_phi i && ltb (length b.parents) 2)
        IssueKind.phi_in_block_without_multiple_parents _ h in
    let (x2, h2) =
      report-none (is_phi i && regular) IssueKind.phi_after_regular_instr_in_block _ h1 in
    let (x3, h3) =
      report-none (is_control_flow i && not (is_last rest))
        IssueKind.control_flow_instr_before_end_of_block _ h2 in
    let (x4, h4) = append-none (check_instr funcs func b i) _ h3 in
    let o = instrs-Order funcs func b (regular || not (is_phi i)) rest h4 in
    record {
      phis = ground (arith, o.phis);
      merges = ground (arith, o.merges);
      control = control-step i rest x3 o.control;
    }

filled :
    (instrs : List Instr) (others : List IssueKind)
    → (if is_last instrs then IssueKind.block_contains_no_instrs ∷ [] else others) ≡ []
    → others ≡ []
filled [] others h = ground arith
filled (i ∷ rest) others h = h

-- The code of a block of which the checker reports nothing: phi instructions come first, and only in a block with two
-- parents or more; the last instruction, and no other, is one of control flow; and the entry block of the function, and no
-- other, has no parents.
pub checked_block-shape :
    (funcs : List Func) (func : Func) (b : Block)
    → check_block funcs func b ≡ []
    → (phis_first b.instrs ≡ true)
      × ((has_phi b.instrs && ltb (length b.parents) 2) ≡ false)
      × (control_flow_last b.instrs ≡ true)
      × (is_empty b.parents ≡ (func.entry_block == b.number))
unfolding check_block check_parents
checked_block-shape funcs func b h =
    let (x1, h1) =
      report-none (func.entry_block == b.number && not (is_empty b.parents))
        IssueKind.entry_block_has_parents _ h in
    let (x2, h2) =
      report-none (not (func.entry_block == b.number) && is_empty b.parents)
        IssueKind.non_entry_block_has_no_parents _ h1 in
    let (x3, h3) =
      report-none (not (ends_control_flow b.instrs))
        IssueKind.control_flow_instr_missing_at_end_of_block
        (check_instrs funcs func b false b.instrs) (filled b.instrs _ h2) in
    let o = instrs-Order funcs func b false b.instrs h3 in
    (o.phis, o.merges, ground (arith, o.control), ground arith)
