-- ===== src/Liveness/Code.antt =====
-- Functions, blocks and instructions of src/ir/representation, as far as the analyses of liveness read them:
-- which values an instruction defines and uses, and whether it is a phi instruction.
use katara.Prelude.{
  ℕ, ◌+◌, Bool, true, false, ◌==◌, if◌then◌else◌, List, [], ◌∷◌, ◌++◌, Option, some, none,
}
use katara.Prelude.Result.{Result, ok, err, failed}

-- `Value::Kind`; inherited values stand in phi instructions only, each with the number of its block.
pub data Value : Type 0 where
  constant : Value
  computed : ℕ → Value

pub data Instr : Type 0 where
  phi : ℕ → List (ℕ × Value) → Instr
  other : List ℕ → List Value → Instr

abbrev pub is_phi : Instr → Bool
is_phi (Instr.phi result args) = true
is_phi (Instr.other defined used) = false

unfoldable pub defined_values : Instr → List ℕ
defined_values (Instr.phi result args) = result ∷ []
defined_values (Instr.other defined used) = defined

unfoldable pub arg_values : List (ℕ × Value) → List Value
arg_values [] = []
arg_values ((origin, value) ∷ args) = value ∷ arg_values args

unfoldable pub used_values : Instr → List Value
unfolding arg_values
used_values (Instr.phi result args) = arg_values args
used_values (Instr.other defined used) = used

-- `PhiInstr::ValueInheritedFromBlock`.
unfoldable pub value_inherited_from : List (ℕ × Value) → ℕ → Result Value
value_inherited_from [] bnum = err failed
value_inherited_from ((origin, value) ∷ args) bnum =
    if origin == bnum then ok value else value_inherited_from args bnum

pub record Block : Type 0 where
  pub number : ℕ
  pub instrs : List Instr
  pub parents : List ℕ
  pub children : List ℕ

unfoldable pub get_block : List Block → ℕ → Option Block
get_block [] bnum = none
get_block (b ∷ blocks) bnum = if b.number == bnum then some b else get_block blocks bnum

-- `ForEachPhiInstr` stops at the first other instruction. What it goes through: the arguments of each.
unfoldable pub phi_args : List Instr → List (List (ℕ × Value))
phi_args [] = []
phi_args (Instr.phi result args ∷ instrs) = args ∷ phi_args instrs
phi_args (Instr.other defined used ∷ instrs) = []

-- The instructions from the index `i` on, each with its index.
abbrev pub numbered : ℕ → List Instr → List (ℕ × Instr)
numbered i [] = []
numbered i (x ∷ xs) = (i, x) ∷ numbered (i + 1) xs

-- `ForEachNonPhiInstrReverse` goes backwards and stops at the first phi instruction that it meets.
unfoldable pub until_phi : List (ℕ × Instr) → List (ℕ × Instr)
until_phi [] = []
until_phi ((i, Instr.phi result args) ∷ rest) = []
until_phi ((i, Instr.other defined used) ∷ rest) = (i, Instr.other defined used) ∷ until_phi rest

abbrev pub backwards : List (ℕ × Instr) → List (ℕ × Instr)
backwards [] = []
backwards (x ∷ xs) = backwards xs ++ x ∷ []

unfoldable pub non_phi_reverse : Block → List (ℕ × Instr)
unfolding until_phi
non_phi_reverse b = until_phi (backwards (numbered 0 b.instrs))
