-- ===== src/Ir/Phis.antt =====
-- The phi instructions in which src/ir/check/checker.cc finds nothing.
use katara.Prelude.{
  ℕ, ◌+◌, ◌≡◌, refl, arith, Bool, true, false, not, ◌&&◌, ◌==◌, List, [], ◌∷◌, if◌then◌else◌,
  Bool-cases, inl, inr,
}
use katara.Interference.Sets.{mem}
use katara.Ir.Types.{Computed, Value, type_of}
use katara.Ir.Checks.{check_phi_args, check_missing_args}
use katara.Ir.Execution.{State, execute_phi_instr, execute_mov_instr}
use katara.Ir.Reports.{same, wanted}

unfoldable pub count : ℕ → List (Value × ℕ) → ℕ
count p [] = 0
count p ((v, origin) ∷ args) = let rest = count p args in if origin == p then rest + 1 else rest

abbrev pub one_if : Bool → ℕ
one_if true = 1
one_if false = 0

missing-none :
    (p : ℕ) (parents seen : List ℕ)
    → check_missing_args parents seen ≡ []
    → (mem p parents && not (mem p seen)) ≡ false
unfolding check_missing_args
missing-none p [] seen h = refl
missing-none p (q ∷ parents) seen h =
    let (x, hs) = wanted (mem q seen) _ _ h in
    elim (Bool-cases (q == p)) [
      | inl e ↦
          let here : q ≡ p = ground arith in
          let there : mem p seen ≡ true = rw (← here) x in ground arith
      | inr e ↦ ground (arith, missing-none p parents seen hs)
    ]

count-seen :
    (r : Computed) (parents : List ℕ) (args : List (Value × ℕ)) (seen : List ℕ) (p : ℕ)
    → (mem p seen && not (mem p parents)) ≡ false
    → check_phi_args r parents args seen ≡ []
    → count p args + one_if (mem p seen) ≡ one_if (mem p parents)
unfolding check_phi_args count
count-seen r parents [] seen p s h = ground (arith, missing-none p parents seen h)
count-seen r parents ((v, origin) ∷ args) seen p s h = elim (Bool-cases (mem origin parents)) [
  | inr n ↦ ground arith
  | inl y ↦ elim (Bool-cases (mem origin seen)) [
    | inl m ↦ ground arith
    | inr m ↦
        let (e, hs) = same (type_of v) r.type _ _ (rw (y, m) at h) in
        elim (Bool-cases (origin == p)) [
          | inl q ↦
              let here : origin ≡ p = ground arith in
              let yes : mem p parents ≡ true = rw (← here) y in
              let no : mem p seen ≡ false = rw (← here) m in
              let rest = count-seen r parents args (origin ∷ seen) p (ground arith) hs in
              ground arith
          | inr q ↦
              let rest = count-seen r parents args (origin ∷ seen) p (ground arith) hs in
              ground arith
        ]
  ]
]

-- A phi instruction of which the checker reports nothing has exactly one argument for every parent of its block, and
-- none for any other block.
pub checked_phi-count :
    (r : Computed) (parents : List ℕ) (args : List (Value × ℕ)) (p : ℕ)
    → check_phi_args r parents args [] ≡ []
    → count p args ≡ (if mem p parents then 1 else 0)
checked_phi-count r parents args p h = ground (arith, count-seen r parents args [] p refl h)

found-one :
    (s : State) (r : Computed) (args : List (Value × ℕ)) (previous : ℕ)
    → count previous args ≡ 1
    → (v : Value) × (execute_phi_instr s previous r args ≡ execute_mov_instr s r v)
unfolding count execute_phi_instr
found-one s r [] previous k = ground arith
found-one s r ((v, origin) ∷ rest) previous k = elim (Bool-cases (origin == previous)) [
  | inl e ↦ (v, rw e refl)
  | inr e ↦ let (w, x) = found-one s r rest previous (ground arith) in (w, rw e x)
]

-- So the interpreter, when it comes from a parent of the block, finds a value for the phi instruction and moves it to
-- the result.
pub checked_phi_runs :
    (s : State) (r : Computed) (parents : List ℕ) (args : List (Value × ℕ)) (previous : ℕ)
    → check_phi_args r parents args [] ≡ []
    → mem previous parents ≡ true
    → (v : Value) × (execute_phi_instr s previous r args ≡ execute_mov_instr s r v)
checked_phi_runs s r parents args previous h m =
    found-one s r args previous (ground (arith, checked_phi-count r parents args previous h))
