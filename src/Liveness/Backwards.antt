-- ===== src/Liveness/Backwards.antt =====
-- The instructions of a block, backwards up to its phi instructions, in src/ir/analyzers/live_range_analyzer.cc.
use katara.Prelude.{ℕ, ◌+◌, ◌≡◌, refl, ap, arith, Bool, true, false, List, [], ◌∷◌, ◌++◌}
use katara.Liveness.Code.{
  Value, Instr, Block, defined_values, used_values, numbered, backwards, until_phi, non_phi_reverse,
}
use katara.Liveness.Ranges.{BlockLiveRanges}
use katara.Liveness.Analyzer.{add_definitions, add_uses, backtrace_instrs}
use katara.Liveness.Edges.{distinct, has_range}
use katara.Liveness.Live.{live_before}
use katara.Liveness.Known.{known}
use katara.Liveness.Uses.{no_phis, in_order, Covers, Covers-phi, Covers-other}

backtrace_instrs-append :
    (l : BlockLiveRanges) (xs ys : List (ℕ × Instr))
    → backtrace_instrs l (xs ++ ys) ≡ backtrace_instrs (backtrace_instrs l xs) ys
unfolding backtrace_instrs
backtrace_instrs-append l [] ys = refl
backtrace_instrs-append l ((i, x) ∷ xs) ys =
    backtrace_instrs-append (add_uses (add_definitions l i (defined_values x)) i (used_values x)) xs
      ys

until_phi-phi :
    (k result : ℕ) (args : List (ℕ × Value)) (xs : List (ℕ × Instr))
    → until_phi (xs ++ (k, Instr.phi result args) ∷ []) ≡ until_phi xs
unfolding until_phi
until_phi-phi k result args [] = refl
until_phi-phi k result args ((i, Instr.phi r args2) ∷ xs) = refl
until_phi-phi k result args ((i, Instr.other ds vs) ∷ xs) =
    ap (λ r. (i, Instr.other ds vs) ∷ r) (until_phi-phi k result args xs)

-- Whether none of the numbered instructions is a phi instruction.
abbrev plain : List (ℕ × Instr) → Bool
plain [] = true
plain ((i, Instr.phi result args) ∷ xs) = false
plain ((i, Instr.other ds vs) ∷ xs) = plain xs

plain-append :
    (k : ℕ) (ds : List ℕ) (vs : List Value) (xs : List (ℕ × Instr))
    → plain xs ≡ true
    → plain (xs ++ (k, Instr.other ds vs) ∷ []) ≡ true
plain-append k ds vs [] h = refl
plain-append k ds vs ((i, Instr.phi r args2) ∷ xs) h = ground arith
plain-append k ds vs ((i, Instr.other es us) ∷ xs) h = plain-append k ds vs xs h

until_phi-plain : (xs : List (ℕ × Instr)) → plain xs ≡ true → until_phi xs ≡ xs
unfolding until_phi
until_phi-plain [] h = refl
until_phi-plain ((i, Instr.phi r args2) ∷ xs) h = ground arith
until_phi-plain ((i, Instr.other es us) ∷ xs) h =
    ap (λ r. (i, Instr.other es us) ∷ r) (until_phi-plain xs h)

backwards-plain :
    (k : ℕ) (instrs : List Instr)
    → no_phis instrs ≡ true
    → plain (backwards (numbered k instrs)) ≡ true
unfolding no_phis
backwards-plain k [] h = refl
backwards-plain k (Instr.phi result args ∷ rest) h = ground arith
backwards-plain k (Instr.other ds vs ∷ rest) h =
    plain-append k ds vs (backwards (numbered (k + 1) rest)) (backwards-plain (k + 1) rest h)

until_phi-backwards :
    (k : ℕ) (ds : List ℕ) (vs : List Value) (rest : List Instr)
    → no_phis rest ≡ true
    → until_phi (backwards (numbered k (Instr.other ds vs ∷ rest)))
      ≡ until_phi (backwards (numbered (k + 1) rest)) ++ (k, Instr.other ds vs) ∷ []
until_phi-backwards k ds vs rest h =
    let p = backwards-plain (k + 1) rest h in
    rw
      (
        until_phi-plain (backwards (numbered (k + 1) rest)) p,
        until_phi-plain (backwards (numbered (k + 1) rest) ++ (k, Instr.other ds vs) ∷ [])
            (plain-append k ds vs (backwards (numbered (k + 1) rest)) p),
      )
      refl

backtrace_instrs-Covers :
    (size k : ℕ) (instrs : List Instr)
    → in_order instrs ≡ true
    → Covers instrs (
        backtrace_instrs
          (record { block_size = size; value_ranges = [] })
          (until_phi (backwards (numbered k instrs))))
unfolding in_order backtrace_instrs until_phi distinct known has_range live_before
backtrace_instrs-Covers size k [] h = record {
  is_distinct = refl;
  comes_in = λ a. refl;
  knows = λ a. refl;
}
backtrace_instrs-Covers size k (Instr.phi result args ∷ rest) h =
    rw (until_phi-phi k result args (backwards (numbered (k + 1) rest)))
      (Covers-phi result args rest _ (backtrace_instrs-Covers size (k + 1) rest h))
backtrace_instrs-Covers size k (Instr.other ds vs ∷ rest) h =
    rw
      (
        until_phi-backwards k ds vs rest (ground arith),
        backtrace_instrs-append (record { block_size = size; value_ranges = [] })
            (until_phi (backwards (numbered (k + 1) rest))) ((k, Instr.other ds vs) ∷ []),
      )
      (Covers-other k ds vs rest _ (ground arith)
        (backtrace_instrs-Covers size (k + 1) rest (ground arith)))

pub block-Covers :
    (size : ℕ) (b : Block)
    → in_order b.instrs ≡ true
    → Covers b.instrs
        (backtrace_instrs (record { block_size = size; value_ranges = [] }) (non_phi_reverse b))
unfolding non_phi_reverse
block-Covers size b h = backtrace_instrs-Covers size 0 b.instrs h
