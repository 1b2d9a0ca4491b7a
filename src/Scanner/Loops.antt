-- ===== src/Scanner/Loops.antt =====
-- src/lang/processors/scanner/scanner.h and scanner.cc: the state of the scanner and its loops.
use katara.Prelude.{
  ℕ, zero, suc, ◌+◌, ◌-◌, ◌≤◌, ◌<◌, Bool, true, false, not, ◌&&◌, leb, ◌==◌, if◌then◌else◌, ◌≡◌,
  refl, arith, Bool-cases, inl, inr, dec_lt,
}
use katara.Positions.File.{File, Range, end_of, at}
use katara.Scanner.Token.{Token}

pub record Scanner : Type 0 where
  pub file : File
  pub pos : ℕ
  pub tok : Token
  pub tok_range : Range

-- `for (; pos_ <= file_->end() && test(pos_); pos_++);` on fuel.
unfoldable pub advance : File → (ℕ → Bool) → ℕ → ℕ → ℕ
advance f test zero p = p
advance f test (suc n) p = elim (leb p (end_of f) && test p) [
  | true ↦ advance f test n (p + 1)
  | false ↦ p
]

-- The loop with a round for each position up to the end.
unfoldable pub scan_while : File → (ℕ → Bool) → ℕ → ℕ
scan_while f test p = advance f test (end_of f + 1 - p) p

-- The loop over the inside of a character or string literal.
unfoldable pub advance_quoted : File → ℕ → ℕ → ℕ → Bool → ℕ
advance_quoted f quote zero p escaped = p
advance_quoted f quote (suc n) p escaped =
    elim (leb p (end_of f) && not escaped && not (at f p == quote)) [
      | true ↦
          advance_quoted f quote n (p + 1)
            (if escaped then false else if at f p == b'\\' then true else escaped)
      | false ↦ p
    ]

unfoldable pub scan_quoted : File → ℕ → ℕ → ℕ
unfolding advance_quoted
scan_quoted f quote p = advance_quoted f quote (end_of f + 1 - p) p false

-- Where the loop stops, and that it stops by its own test.
pub record Stops (f : File) (test : ℕ → Bool) (p q : ℕ) : Type 0 where
  pub forward : p ≤ q
  pub inside : (p ≤ end_of f → q ≤ end_of f + 1) × (end_of f < p → q ≡ p)
  pub passed : (i : ℕ) → p ≤ i → i < q → test i ≡ true
  pub stopped : (leb q (end_of f) && test q) ≡ false

Stops-step :
    (f : File) (test : ℕ → Bool) (p q : ℕ)
    → (leb p (end_of f) && test p) ≡ true
    → Stops f test (p + 1) q
    → Stops f test p q
Stops-step f test p q e r = record {
  forward = omega (arith, r.forward);
  inside = (λ h. ground (arith, r.inside), λ h. absurd (ground arith));
  passed = λ i a b. elim (dec_lt p i) [
    | yes lt ↦ r.passed i (omega arith) b
    | no ge ↦ let same : i ≡ p = omega arith in rw same (ground arith)
  ];
  stopped = r.stopped;
}

Stops-here :
    (f : File) (test : ℕ → Bool) (p : ℕ) → (leb p (end_of f) && test p) ≡ false → Stops f test p p
Stops-here f test p e = record {
  forward = omega arith;
  inside = (λ h. omega arith, λ h. refl);
  passed = λ i a b. absurd (omega arith);
  stopped = e;
}

advance-Stops :
    (f : File) (test : ℕ → Bool) (n p : ℕ)
    → end_of f + 1 ≤ n + p
    → Stops f test p (advance f test n p)
unfolding advance
advance-Stops f test zero p h = record {
  forward = omega arith;
  inside = (λ h. omega arith, λ h. refl);
  passed = λ i a b. absurd (omega arith);
  stopped = ground arith;
}
advance-Stops f test (suc n) p h = elim (Bool-cases (leb p (end_of f) && test p)) [
  | inl e ↦ rw (e, advance) (Stops-step f test p _ e (advance-Stops f test n (p + 1) (omega arith)))
  | inr e ↦ rw (e, advance) (Stops-here f test p e)
]

pub scan_while-Stops : (f : File) (test : ℕ → Bool) (p : ℕ) → Stops f test p (scan_while f test p)
unfolding scan_while
scan_while-Stops f test p = advance-Stops f test (end_of f + 1 - p) p (omega arith)

-- The loop over a literal moves forward, and by at most one position beyond the end.
advance_quoted_range :
    (f : File) (quote n p : ℕ) (escaped : Bool)
    → (p ≤ advance_quoted f quote n p escaped)
      × (p ≤ end_of f + 1 → advance_quoted f quote n p escaped ≤ end_of f + 1)
unfolding advance_quoted
advance_quoted_range f quote zero p escaped = (omega arith, λ h. h)
advance_quoted_range f quote (suc n) p escaped = ground (
  arith,
  advance_quoted_range f quote n (p + 1)
      (if escaped then false else if at f p == b'\\' then true else escaped),
)

pub scan_quoted_range :
    (f : File) (quote p : ℕ)
    → (p ≤ scan_quoted f quote p) × (p ≤ end_of f + 1 → scan_quoted f quote p ≤ end_of f + 1)
unfolding scan_quoted
scan_quoted_range f quote p = advance_quoted_range f quote (end_of f + 1 - p) p false

pub scan_while_range :
    (f : File) (test : ℕ → Bool) (p : ℕ)
    → p ≤ end_of f + 1
    → (p ≤ scan_while f test p) × (scan_while f test p ≤ end_of f + 1)
scan_while_range f test p h =
    let st = scan_while-Stops f test p in (st.forward, ground (arith, st.inside))
