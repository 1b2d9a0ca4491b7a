-- ===== src/Ir/Instrs.antt =====
-- src/ir/representation/instrs.h: the instructions, and which values they define and use.
use katara.Prelude.{ℕ, Bool, true, false, ◌==◌, if◌then◌else◌, Option, some, none, List, [], ◌∷◌}
use katara.Prelude.Int.{ℤ}
use katara.Interpreter.Heap.{eqb_ℤ}
use katara.Atomics.Ops.{BoolOp, UnaryOp, CompareOp, BinaryOp, ShiftOp}
use katara.Ir.Types.{IrType, Computed, Value}

-- Results stand first; `phi` has its inherited values, `int_shift` the shifted value and the offset,
-- `store` the address and the value, `jump_cond` the destinations for true and false, and `syscall` the number
-- of the call before its arguments.
pub data Instr : Type 0 where
  mov : Computed → Value → Instr
  phi : Computed → List (Value × ℕ) → Instr
  conversion : Computed → Value → Instr
  bool_not : Computed → Value → Instr
  bool_binary : Computed → BoolOp → Value → Value → Instr
  int_unary : Computed → UnaryOp → Value → Instr
  int_compare : Computed → CompareOp → Value → Value → Instr
  int_binary : Computed → BinaryOp → Value → Value → Instr
  int_shift : Computed → ShiftOp → Value → Value → Instr
  pointer_offset : Computed → Value → Value → Instr
  nil_test : Computed → Value → Instr
  malloc : Computed → Value → Instr
  load : Computed → Value → Instr
  store : Value → Value → Instr
  free : Value → Instr
  jump : ℕ → Instr
  jump_cond : Value → ℕ → ℕ → Instr
  syscall : Computed → Value → List Value → Instr
  call : List Computed → Value → List Value → Instr
  return_instr : List Value → Instr

unfoldable pub defined_values : Instr → List Computed
defined_values (Instr.mov r a) = r ∷ []
defined_values (Instr.phi r args) = r ∷ []
defined_values (Instr.conversion r a) = r ∷ []
defined_values (Instr.bool_not r a) = r ∷ []
defined_values (Instr.bool_binary r op a b) = r ∷ []
defined_values (Instr.int_unary r op a) = r ∷ []
defined_values (Instr.int_compare r op a b) = r ∷ []
defined_values (Instr.int_binary r op a b) = r ∷ []
defined_values (Instr.int_shift r op a b) = r ∷ []
defined_values (Instr.pointer_offset r a b) = r ∷ []
defined_values (Instr.nil_test r a) = r ∷ []
defined_values (Instr.malloc r a) = r ∷ []
defined_values (Instr.load r a) = r ∷ []
defined_values (Instr.syscall r n args) = r ∷ []
defined_values (Instr.call rs f args) = rs
defined_values i = []

unfoldable pub inherited_values : List (Value × ℕ) → List Value
inherited_values [] = []
inherited_values ((v, origin) ∷ args) = Value.inherited v origin ∷ inherited_values args

unfoldable pub used_values : Instr → List Value
unfolding inherited_values
used_values (Instr.mov r a) = a ∷ []
used_values (Instr.phi r args) = inherited_values args
used_values (Instr.conversion r a) = a ∷ []
used_values (Instr.bool_not r a) = a ∷ []
used_values (Instr.bool_binary r op a b) = a ∷ (b ∷ [])
used_values (Instr.int_unary r op a) = a ∷ []
used_values (Instr.int_compare r op a b) = a ∷ (b ∷ [])
used_values (Instr.int_binary r op a b) = a ∷ (b ∷ [])
used_values (Instr.int_shift r op a b) = a ∷ (b ∷ [])
used_values (Instr.pointer_offset r a b) = a ∷ (b ∷ [])
used_values (Instr.nil_test r a) = a ∷ []
used_values (Instr.malloc r a) = a ∷ []
used_values (Instr.load r a) = a ∷ []
used_values (Instr.store a v) = a ∷ (v ∷ [])
used_values (Instr.free a) = a ∷ []
used_values (Instr.jump d) = []
used_values (Instr.jump_cond c t f) = c ∷ []
used_values (Instr.syscall r n args) = n ∷ args
used_values (Instr.call rs f args) = f ∷ args
used_values (Instr.return_instr args) = args

-- `IsControlFlowInstr`.
abbrev pub is_control_flow : Instr → Bool
is_control_flow (Instr.jump d) = true
is_control_flow (Instr.jump_cond c t f) = true
is_control_flow (Instr.return_instr args) = true
is_control_flow i = false

abbrev pub is_phi : Instr → Bool
is_phi (Instr.phi r args) = true
is_phi i = false

pub record Block : Type 0 where
  pub number : ℕ
  pub instrs : List Instr
  pub parents : List ℕ
  pub children : List ℕ

pub record Func : Type 0 where
  pub number : ℤ
  pub args : List Computed
  pub result_types : List IrType
  pub blocks : List Block
  pub entry_block : ℕ

-- `HasFunc` and `GetFunc`, over the functions of a program, and `GetBlock`.
unfoldable pub get_func : List Func → ℤ → Option Func
get_func [] n = none
get_func (f ∷ funcs) n = if eqb_ℤ f.number n then some f else get_func funcs n

unfoldable pub get_block : List Block → ℕ → Option Block
get_block [] n = none
get_block (b ∷ blocks) n = if b.number == n then some b else get_block blocks n
