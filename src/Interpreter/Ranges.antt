-- ===== src/Interpreter/Ranges.antt =====
-- Ranges of memory, and when two of them overlap.
use katara.Prelude.{
  ℕ, Bool-cases, inl, inr, ◌⊎◌, suc, ◌≡◌, refl, arith, Bool, true, false, ◌&&◌, ◌||◌, List, [], ◌∷◌,
}
use katara.Prelude.Int.{ℤ, pos, ◌+ℤ◌}
use katara.Atomics.Cpp.{leb_ℤ}
use katara.Interpreter.Heap.{MemoryRange, Memory, ltb_ℤ, eqb_ℤ, end_of_range, overlap, is_contained}

-- A range that overlaps none of the memories; memories of which no two overlap, each with a byte at least.
abbrev pub Clear : MemoryRange → List Memory → Type 0
Clear r [] = Unit {0}
Clear r (m ∷ ms) = (overlap r m.range ≡ false) × Clear r ms

abbrev pub Apart : List Memory → Type 0
Apart [] = Unit {0}
Apart (m ∷ ms) = (leb_ℤ m.range.size (pos 0) ≡ false) × Clear m.range ms × Apart ms

pub other_address :
    (a : ℤ) (n : ℕ) (r : MemoryRange)
    → overlap (record { address = a; size = pos (suc n) }) r ≡ false
    → eqb_ℤ r.address a ≡ false
unfolding overlap ◌+ℤ◌
other_address a n r c = ground arith

pub overlap_comm : (x y : MemoryRange) → overlap x y ≡ overlap y x
unfolding overlap ◌+ℤ◌
overlap_comm x y = ground arith

positive_size : (a k : ℤ) → leb_ℤ k (pos 0) ≡ false → leb_ℤ (a +ℤ k) a ≡ false
unfolding ◌+ℤ◌
positive_size a k h = ground arith

first_case :
    (a b c e f : ℤ)
    → (leb_ℤ a c && ltb_ℤ c b) ≡ true
    → (leb_ℤ e a && leb_ℤ b f) ≡ true
    → (leb_ℤ e c && ltb_ℤ c f) ≡ true
first_case a b c e f o k = ground arith

second_case :
    (a b c d e f : ℤ)
    → leb_ℤ b a ≡ false
    → (leb_ℤ c a && ltb_ℤ a d) ≡ true
    → (leb_ℤ e a && leb_ℤ b f) ≡ true
    → ((leb_ℤ c e && ltb_ℤ e d) ≡ true) ⊎ ((leb_ℤ e c && ltb_ℤ c f) ≡ true)
second_case a b c d e f n o k = elim (Bool-cases (leb_ℤ c e)) [
  | inl t ↦ inl (ground arith)
  | inr t ↦ inr (ground arith)
]

by_cases :
    (o1 o2 k1 k2 inside : Bool)
    → (o1 || o2) ≡ true
    → (k1 || k2) ≡ false
    → (o1 ≡ true → inside ≡ true → k2 ≡ true)
    → (o2 ≡ true → inside ≡ true → (k1 ≡ true) ⊎ (k2 ≡ true))
    → inside ≡ false
by_cases o1 o2 k1 k2 false o k f g = refl
by_cases true o2 k1 k2 true o k f g = let h = f refl refl in ground arith
by_cases false true k1 k2 true o k f g = let h = g refl refl in ground arith
by_cases false false k1 k2 true o k f g = ground arith

-- The ranges from a to b, c to d and e to f.
three_ranges :
    (a b c d e f : ℤ)
    → leb_ℤ b a ≡ false
    → ((leb_ℤ a c && ltb_ℤ c b) || (leb_ℤ c a && ltb_ℤ a d)) ≡ true
    → ((leb_ℤ c e && ltb_ℤ e d) || (leb_ℤ e c && ltb_ℤ c f)) ≡ false
    → (leb_ℤ e a && leb_ℤ b f) ≡ false
three_ranges a b c d e f n o k =
    by_cases (leb_ℤ a c && ltb_ℤ c b) (leb_ℤ c a && ltb_ℤ a d) (leb_ℤ c e && ltb_ℤ e d)
      (leb_ℤ e c && ltb_ℤ c f) (leb_ℤ e a && leb_ℤ b f) o k (λ p q. first_case a b c e f p q)
      (λ p q. second_case a b c d e f n p q)

pub not_contained :
    (x r y : MemoryRange)
    → leb_ℤ x.size (pos 0) ≡ false
    → overlap x r ≡ true
    → overlap r y ≡ false
    → is_contained x y ≡ false
unfolding overlap is_contained
not_contained x r y n o c =
    three_ranges x.address (end_of_range x) r.address (end_of_range r) y.address (end_of_range y)
      (positive_size x.address x.size n) o c
