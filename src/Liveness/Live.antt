-- ===== src/Liveness/Live.antt =====
-- Which values are live where in the code of a block, and what it means to keep them apart.
use katara.Prelude.{ℕ, ◌≡◌, arith, Bool, false, not, ◌&&◌, ◌||◌, ◌==◌, List, [], ◌∷◌}
use katara.Interference.Sets.{mem}
use katara.Liveness.Code.{Value, Instr, is_phi, defined_values, used_values}

abbrev pub uses_value : List Value → ℕ → Bool
uses_value [] v = false
uses_value (Value.constant ∷ vs) v = uses_value vs v
uses_value (Value.computed u ∷ vs) v = u == v || uses_value vs v

-- The values that are live before the instructions, where those of `exit_set` are live behind them: what
-- a phi instruction uses is live at the end of the block that it comes from, not before it.
unfoldable pub live_before : List ℕ → List Instr → ℕ → Bool
unfolding defined_values used_values
live_before exit_set [] v = mem v exit_set
live_before exit_set (i ∷ rest) v =
    (not (is_phi i) && uses_value (used_values i) v)
    || (live_before exit_set rest v && not (mem v (defined_values i)))

-- No two values that are live together are related otherwise.
abbrev pub Together : (ℕ → ℕ → Bool) → (ℕ → Bool) → Type 0
Together apart live = (a b : ℕ) → (live a && live b && not (a == b) && not (apart a b)) ≡ false

-- No value that is live behind an instruction, and that it does not define, is where it writes.
abbrev pub Spared : (ℕ → ℕ → Bool) → List ℕ → (ℕ → Bool) → Type 0
Spared apart defined live =
    (d a : ℕ)
    → (mem d defined && live a && not (mem a defined) && not (d == a) && not (apart d a)) ≡ false

unfoldable pub KeptApart : (ℕ → ℕ → Bool) → List ℕ → List Instr → Type 0
unfolding live_before defined_values
KeptApart apart exit_set [] = Together apart (live_before exit_set [])
KeptApart apart exit_set (i ∷ rest) =
    Together apart (live_before exit_set (i ∷ rest))
    × Spared apart (defined_values i) (live_before exit_set rest)
    × KeptApart apart exit_set rest

abbrev pub Finer : (ℕ → ℕ → Bool) → (ℕ → ℕ → Bool) → Type 0
Finer apart apart' = (a b : ℕ) → (apart a b && not (a == b) && not (apart' a b)) ≡ false

pub KeptApart-Finer :
    (apart apart' : ℕ → ℕ → Bool) (exit_set : List ℕ) (instrs : List Instr)
    → Finer apart apart'
    → KeptApart apart exit_set instrs
    → KeptApart apart' exit_set instrs
unfolding KeptApart
KeptApart-Finer apart apart' exit_set [] f k = λ a b. ground (arith, f a b, k a b)
KeptApart-Finer apart apart' exit_set (i ∷ rest) f (k, s, ks) = (
  λ a b. ground (arith, f a b, k a b),
  λ d a. ground (arith, f d a, s d a),
  KeptApart-Finer apart apart' exit_set rest f ks,
)
