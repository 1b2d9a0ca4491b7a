-- ===== src/Interference/Sets.antt =====
-- The sets of value numbers and of colours in src/ir/info: `std::unordered_set` as a list of its elements.
use katara.Prelude.{
  ℕ, ◌+◌, ◌≤◌, ◌≡◌, refl, arith, Bool, true, false, not, ◌||◌, ◌&&◌, ◌==◌, if◌then◌else◌, List, [],
  ◌∷◌, length,
}

abbrev pub mem : ℕ → List ℕ → Bool
mem x [] = false
mem x (y ∷ ys) = y == x || mem x ys

unfoldable pub add : ℕ → List ℕ → List ℕ
add x ys = if mem x ys then ys else x ∷ ys

unfoldable pub add_all : List ℕ → List ℕ → List ℕ
unfolding add
add_all [] ys = ys
add_all (x ∷ xs) ys = add x (add_all xs ys)

pub mem-add : (a x : ℕ) (ys : List ℕ) → mem a (add x ys) ≡ (x == a || mem a ys)
unfolding add
mem-add a x ys = ground arith

pub mem-add_all : (a : ℕ) (xs ys : List ℕ) → mem a (add_all xs ys) ≡ (mem a xs || mem a ys)
unfolding add_all
mem-add_all a [] ys = refl
mem-add_all a (x ∷ xs) ys = ground (arith, mem-add a x (add_all xs ys), mem-add_all a xs ys)

-- `erase`.
unfoldable pub erase : ℕ → List ℕ → List ℕ
erase x [] = []
erase x (y ∷ ys) = let rest = erase x ys in if y == x then rest else y ∷ rest

pub mem-erase : (a x : ℕ) (ys : List ℕ) → mem a (erase x ys) ≡ (not (x == a) && mem a ys)
unfolding erase
mem-erase a x [] = ground arith
mem-erase a x (y ∷ ys) = ground (arith, mem-erase a x ys)

pub length-erase : (x : ℕ) (ys : List ℕ) → length (erase x ys) ≤ length ys
unfolding erase
length-erase x [] = omega arith
length-erase x (y ∷ ys) = ground (arith, length-erase x ys)

pub length-erase-mem : (x : ℕ) (ys : List ℕ) → mem x ys ≡ true → length (erase x ys) + 1 ≤ length ys
unfolding erase
length-erase-mem x [] h = ground arith
length-erase-mem x (y ∷ ys) h = ground (arith, length-erase x ys, length-erase-mem x ys)
