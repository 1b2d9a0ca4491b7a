-- ===== src/Liveness/Lookup.antt =====
-- Blocks by their numbers, in the code and in the live ranges of src/ir/info/func_live_ranges.cc.
use katara.Prelude.{
  ℕ, ◌≡◌, refl, arith, Bool, true, false, not, ◌&&◌, ◌||◌, ◌==◌, List, [], ◌∷◌, ◌++◌, some, inl,
  inr, Bool-cases,
}
use katara.Prelude.Result.{ok}
use katara.Interference.Sets.{mem}
use katara.Liveness.Code.{Block, get_block}
use katara.Liveness.Ranges.{
  BlockLiveRanges, FuncLiveRanges, get_entry_set, get_block_live_ranges, new_func_live_ranges,
}
use katara.Liveness.Edges.{distinct}
use katara.Liveness.Flow.{entry_at}
use katara.Liveness.Start.{is_number, all_ready, Knows, AllKnow}

-- The parents of the blocks are blocks.
abbrev pub all_numbers : List Block → List ℕ → Bool
all_numbers blocks [] = true
all_numbers blocks (q ∷ qs) = is_number blocks q && all_numbers blocks qs

unfoldable pub parents_known : List Block → List Block → Bool
unfolding is_number
parents_known blocks [] = true
parents_known blocks (b ∷ todo) = all_numbers blocks b.parents && parents_known blocks todo

unfoldable pub well_formed : List Block → Bool
unfolding all_ready parents_known
well_formed blocks = all_ready blocks blocks && parents_known blocks blocks

pub number-block :
    (blocks : List Block) (n : ℕ)
    → is_number blocks n ≡ true
    → (b : Block) × (get_block blocks n ≡ some b)
unfolding is_number get_block
number-block [] n h = ground arith
number-block (b ∷ blocks) n h = elim (Bool-cases (b.number == n)) [
  | inl s ↦ (b, ground arith)
  | inr s ↦ let (c, e) = number-block blocks n (ground arith) in (c, ground arith)
]

pub block-number :
    (blocks : List Block) (n : ℕ) (b : Block)
    → get_block blocks n ≡ some b
    → is_number blocks n ≡ true
unfolding is_number get_block
block-number [] n b e = ground arith
block-number (c ∷ blocks) n b e = ground (arith, block-number blocks n b)

pub know-block :
    (blocks : List Block) (ranges : FuncLiveRanges) (todo : List Block) (n : ℕ) (b : Block)
    → get_block todo n ≡ some b
    → AllKnow blocks ranges todo
    → (l : BlockLiveRanges) × (get_block_live_ranges ranges n ≡ ok l) × Knows blocks b l
unfolding get_block
know-block blocks ranges [] n b e k = ground arith
know-block blocks ranges (c ∷ todo) n b e ((l, g, k), ks) = elim (Bool-cases (c.number == n)) [
  | inl s ↦
      let same : c ≡ b = ground arith in
      let here : c.number ≡ n = ground arith in (l, rw (← here) g, rw (← same) k)
  | inr s ↦ know-block blocks ranges todo n b (ground arith) ks
]

pub parents-numbers :
    (blocks : List Block) (q : ℕ) (qs : List ℕ)
    → all_numbers blocks qs ≡ true
    → mem q qs ≡ true
    → is_number blocks q ≡ true
parents-numbers blocks q [] h m = ground arith
parents-numbers blocks q (p ∷ qs) h m = elim (Bool-cases (p == q)) [
  | inl s ↦ let same : p ≡ q = ground arith in rw (← same) (ground arith)
  | inr s ↦ parents-numbers blocks q qs (ground arith) (ground arith)
]

pub parents-known :
    (blocks todo : List Block) (n : ℕ) (b : Block)
    → parents_known blocks todo ≡ true
    → get_block todo n ≡ some b
    → all_numbers blocks b.parents ≡ true
unfolding parents_known get_block
parents-known blocks [] n b h e = ground arith
parents-known blocks (c ∷ todo) n b h e = ground (arith, parents-known blocks todo n b)

unfoldable pub all_entries : FuncLiveRanges → List ℕ
all_entries [] = []
all_entries ((k, l) ∷ rest) = get_entry_set l ++ all_entries rest

mem-append : (a : ℕ) (xs ys : List ℕ) → mem a (xs ++ ys) ≡ (mem a xs || mem a ys)
mem-append a [] ys = refl
mem-append a (x ∷ xs) ys = ground (arith, mem-append a xs ys)

pub entry-all_entries :
    (ranges : FuncLiveRanges) (n a : ℕ)
    → (mem a (entry_at ranges n) && not (mem a (all_entries ranges))) ≡ false
unfolding all_entries entry_at get_block_live_ranges
entry-all_entries [] n a = refl
entry-all_entries ((k, l) ∷ rest) n a = elim (Bool-cases (k == n)) [
  | inl s ↦ rw s (ground (arith, mem-append a (get_entry_set l) (all_entries rest)))
  | inr s ↦ rw s (
      ground (arith, mem-append a (get_entry_set l) (all_entries rest), entry-all_entries rest n a))
]

pub block-named :
    (blocks : List Block) (n : ℕ) (b : Block) → get_block blocks n ≡ some b → b.number ≡ n
unfolding get_block
block-named [] n b e = ground arith
block-named (c ∷ blocks) n b e = ground (arith, block-named blocks n b)

pub new-ranges-empty :
    (blocks : List Block) (n : ℕ) (l : BlockLiveRanges)
    → get_block_live_ranges (new_func_live_ranges blocks) n ≡ ok l
    → distinct l.value_ranges ≡ true
unfolding new_func_live_ranges get_block_live_ranges distinct
new-ranges-empty [] n l e = ground arith
new-ranges-empty (b ∷ blocks) n l e = ground (arith, new-ranges-empty blocks n l)
