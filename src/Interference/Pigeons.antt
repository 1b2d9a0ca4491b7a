-- ===== src/Interference/Pigeons.antt =====
-- Fewer colours than numbers: the search of the colorer in src/ir/analyzers/interference_graph_colorer.cc
-- finds one.
use katara.Prelude.{
  ℕ, zero, suc, ◌+◌, ◌≤◌, ◌<◌, ◌≡◌, inl, inr, refl, arith, Bool, true, false, not, ◌&&◌, ◌==◌,
  if◌then◌else◌, List, [], ◌∷◌, length, Bool-cases,
}
use katara.Prelude.Int.{ℤ, pos}
use katara.Interference.Colors.{Colors, same_color, set_color, has, choose}

without : ℤ → List ℤ → List ℤ
without c [] = []
without c (x ∷ xs) = let rest = without c xs in if same_color x c then rest else x ∷ rest

length-without : (c : ℤ) (xs : List ℤ) → length (without c xs) ≤ length xs
unfolding without
length-without c [] = omega arith
length-without c (x ∷ xs) = ground (arith, length-without c xs)

length-without_has : (c : ℤ) (xs : List ℤ) → has xs c ≡ true → length (without c xs) + 1 ≤ length xs
unfolding without
length-without_has c [] h = ground arith
length-without_has c (x ∷ xs) h = ground (arith, length-without c xs, length-without_has c xs)

different : ℕ → ℕ → Bool
different c d = not (c == d)

has-without :
    (c d : ℕ) (xs : List ℤ)
    → c < d
    → has xs (pos d) ≡ true
    → has (without (pos c) xs) (pos d) ≡ true
unfolding without
has-without c d [] lt h = ground arith
has-without c d (x ∷ xs) lt h = ground (arith, has-without c d xs)

-- Whether the colours from `c` on, `n` of them, are all in the set.
all_taken : ℕ → ℕ → List ℤ → Bool
all_taken zero c xs = true
all_taken (suc n) c xs = has xs (pos c) && all_taken n (suc c) xs

all_taken-without :
    (n c d : ℕ) (xs : List ℤ)
    → c < d
    → all_taken n d xs ≡ true
    → all_taken n d (without (pos c) xs) ≡ true
unfolding all_taken
all_taken-without zero c d xs lt h = refl
all_taken-without (suc n) c d xs lt h =
    ground (arith, has-without c d xs lt, all_taken-without n c (suc d) xs)

taken-length : (n c : ℕ) (xs : List ℤ) → all_taken n c xs ≡ true → n ≤ length xs
unfolding all_taken
taken-length zero c xs h = omega arith
taken-length (suc n) c xs h =
    let first : has xs (pos c) ≡ true = ground arith in
    let others : all_taken n (suc c) xs ≡ true = ground arith in
    omega (
      arith,
      length-without_has (pos c) xs first,
      taken-length n (suc c) (without (pos c) xs)
          (all_taken-without n c (suc c) xs (omega arith) others),
    )

-- Where not all are taken, a free one is set.
choose-free :
    (n c : ℕ) (xs : List ℤ) (cs : Colors) (v : ℕ)
    → all_taken n c xs ≡ false
    → (d : ℕ) × (has xs (pos d) ≡ false) × (choose n c xs cs v ≡ set_color cs v (pos d))
unfolding all_taken choose
choose-free zero c xs cs v h = cc
choose-free (suc n) c xs cs v h = elim (Bool-cases (has xs (pos c))) [
  | inl t ↦ let (d, free, e) = choose-free n (suc c) xs cs v (ground arith) in (d, free, rw t e)
  | inr f ↦ (c, f, rw f refl)
]

-- One round more than there are colours in the set is enough.
pub choose-found :
    (xs : List ℤ) (cs : Colors) (v : ℕ)
    → (d : ℕ) × (has xs (pos d) ≡ false)
      × (choose (length xs + 1) 0 xs cs v ≡ set_color cs v (pos d))
choose-found xs cs v = elim (Bool-cases (all_taken (length xs + 1) 0 xs)) [
  | inl t ↦ absurd (omega (arith, taken-length (length xs + 1) 0 xs t))
  | inr f ↦ choose-free (length xs + 1) 0 xs cs v f
]
