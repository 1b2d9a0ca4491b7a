-- ===== src/Liveness/Start.antt =====
-- The first loop of src/ir/analyzers/live_range_analyzer.cc, over all blocks of a function.
use katara.Prelude.{
  ℕ, ◌≡◌, ◌∙◌, refl, arith, Bool, true, false, not, ◌&&◌, ◌||◌, ◌==◌, List, [], ◌∷◌, ltb, length,
  inl, inr, Bool-cases, if◌then◌else◌,
}
use katara.Prelude.Result.{ok}
use katara.Interference.Sets.{mem, add, mem-add}
use katara.Liveness.Code.{Block, non_phi_reverse}
use katara.Liveness.Ranges.{
  BlockLiveRanges, FuncLiveRanges, get_entry_set, get_exit_set, get_block_live_ranges,
  put_block_live_ranges, new_func_live_ranges,
}
use katara.Liveness.Analyzer.{backtrace_instrs, backtrace_block, backtrace_blocks}
use katara.Liveness.Edges.{distinct}
use katara.Liveness.Flow.{get-put, entry_at, entry_at-ok}
use katara.Liveness.Uses.{Covers, in_order}
use katara.Liveness.Backwards.{block-Covers}
use katara.Liveness.Phis.{child_inherits, children_inherit, include_children-Included}

unfoldable pub is_number : List Block → ℕ → Bool
is_number [] n = false
is_number (b ∷ blocks) n = b.number == n || is_number blocks n

-- The blocks have different numbers, their code is in order, and their children are blocks whose phi instructions
-- each have a value from them.
unfoldable pub all_ready : List Block → List Block → Bool
unfolding in_order is_number children_inherit
all_ready blocks [] = true
all_ready blocks (b ∷ todo) =
    not (is_number todo b.number)
    && in_order b.instrs
    && children_inherit blocks b.number b.children
    && all_ready blocks todo

abbrev AllFresh : FuncLiveRanges → List Block → Type 0
AllFresh ranges [] = Unit {0}
AllFresh ranges (b ∷ todo) =
    ((size : ℕ) × (get_block_live_ranges ranges b.number
        ≡ ok (record { block_size = size; value_ranges = [] })))
    × AllFresh ranges todo

AllFresh-put :
    (ranges : FuncLiveRanges) (p : ℕ) (old new : BlockLiveRanges) (todo : List Block)
    → get_block_live_ranges ranges p ≡ ok old
    → is_number todo p ≡ false
    → AllFresh ranges todo
    → AllFresh (put_block_live_ranges ranges p new) todo
unfolding is_number
AllFresh-put ranges p old new [] h k f = tt
AllFresh-put ranges p old new (b ∷ todo) h k ((size, e), f) = (
  (size, ground (arith, get-put ranges p old new b.number h)),
  AllFresh-put ranges p old new todo h (ground arith) f,
)

AllFresh-cons :
    (ranges : FuncLiveRanges) (p : ℕ) (l : BlockLiveRanges) (todo : List Block)
    → is_number todo p ≡ false
    → AllFresh ranges todo
    → AllFresh ((p, l) ∷ ranges) todo
unfolding is_number get_block_live_ranges
AllFresh-cons ranges p l [] k f = tt
AllFresh-cons ranges p l (b ∷ todo) k ((size, e), f) =
    ((size, ground arith), AllFresh-cons ranges p l todo (ground arith) f)

pub new-AllFresh :
    (blocks todo : List Block)
    → all_ready blocks todo ≡ true
    → AllFresh (new_func_live_ranges todo) todo
unfolding all_ready new_func_live_ranges get_block_live_ranges
new-AllFresh blocks [] h = tt
new-AllFresh blocks (b ∷ todo) h = (
  (length b.instrs, ground arith),
  AllFresh-cons (new_func_live_ranges todo) b.number _ todo (ground arith)
      (new-AllFresh blocks todo (ground arith)),
)

-- The ranges of a block know its code, and what the phi instructions of its children have from it is live at its exit.
pub record Knows (blocks : List Block) (b : Block) (l : BlockLiveRanges) : Type 0 where
  pub covers : Covers b.instrs l
  pub phis :
      (a : ℕ)
      → (child_inherits blocks b.number b.children a && not (mem a (get_exit_set l))) ≡ false

abbrev pub AllKnow : List Block → FuncLiveRanges → List Block → Type 0
AllKnow blocks ranges [] = Unit {0}
AllKnow blocks ranges (b ∷ todo) =
    ((l : BlockLiveRanges) × (get_block_live_ranges ranges b.number ≡ ok l) × Knows blocks b l)
    × AllKnow blocks ranges todo

abbrev pub Distinct : FuncLiveRanges → Type 0
Distinct ranges =
    (n : ℕ) (l : BlockLiveRanges)
    → get_block_live_ranges ranges n ≡ ok l
    → distinct l.value_ranges ≡ true

Distinct-put :
    (ranges : FuncLiveRanges) (p : ℕ) (old new : BlockLiveRanges)
    → get_block_live_ranges ranges p ≡ ok old
    → distinct new.value_ranges ≡ true
    → Distinct ranges
    → Distinct (put_block_live_ranges ranges p new)
Distinct-put ranges p old new h k d n l e = elim (Bool-cases (p == n)) [
  | inl s ↦ ground (arith, get-put ranges p old new n h)
  | inr s ↦ d n l (ground (arith, get-put ranges p old new n h))
]

pub record Started (blocks todo : List Block) (ranges : FuncLiveRanges) (queue : List ℕ)
    : Type 0 where
  pub then_ranges : FuncLiveRanges
  pub then_queue : List ℕ
  pub runs : backtrace_blocks blocks todo ranges queue ≡ ok (then_ranges, then_queue)
  pub know : AllKnow blocks then_ranges todo
  pub is_distinct : Distinct then_ranges
  pub others :
      (n : ℕ)
      → is_number todo n ≡ false
      → get_block_live_ranges then_ranges n ≡ get_block_live_ranges ranges n
  pub queue_keeps : (a : ℕ) → (mem a queue && not (mem a then_queue)) ≡ false
  pub queue_from : (a : ℕ) → (mem a then_queue && not (mem a queue || is_number todo a)) ≡ false
  pub entry :
      (n a : ℕ)
      → (is_number todo n && mem a (entry_at then_ranges n) && not (mem n then_queue)) ≡ false

mem-positive : (a : ℕ) (xs : List ℕ) → mem a xs ≡ true → ltb 0 (length xs) ≡ true
mem-positive a [] h = ground arith
mem-positive a (x ∷ xs) h = ground arith

Started-step :
    (blocks : List Block) (b : Block) (todo : List Block) (ranges : FuncLiveRanges) (queue : List ℕ)
    (old new : BlockLiveRanges)
    → get_block_live_ranges ranges b.number ≡ ok old
    → backtrace_block blocks b old ≡ ok new
    → Knows blocks b new
    → is_number todo b.number ≡ false
    → Started blocks todo
        (put_block_live_ranges ranges b.number new)
        (if ltb 0 (length (get_entry_set new)) then add b.number queue else queue)
    → Started blocks (b ∷ todo) ranges queue
unfolding is_number backtrace_blocks
Started-step blocks b todo ranges queue old new e made k fresh rest =
    let here : get_block_live_ranges rest.then_ranges b.number ≡ ok new =
      rest.others b.number fresh ∙ ground (arith, get-put ranges b.number old new b.number e) in
    record {
      then_ranges = rest.then_ranges;
      then_queue = rest.then_queue;
      runs = rw (backtrace_blocks, e, made) rest.runs;
      know = ((new, here, k), rest.know);
      is_distinct = rest.is_distinct;
      others =
          λ n h. rest.others n (ground arith) ∙ ground (arith, get-put ranges b.number old new n e);
      queue_keeps = λ a. ground (arith, rest.queue_keeps a, mem-add a b.number queue);
      queue_from = λ a. ground (arith, rest.queue_from a, mem-add a b.number queue);
      entry = λ n a. elim (Bool-cases (b.number == n)) [
        | inl s ↦ rw (entry_at-ok rest.then_ranges b.number n new here s) (
            ground (
              arith,
              mem-positive a (get_entry_set new),
              rest.queue_keeps n,
              mem-add n b.number queue,
            ))
        | inr s ↦ ground (arith, rest.entry n a)
      ];
    }

pub backtrace_blocks-Started :
    (blocks todo : List Block) (ranges : FuncLiveRanges) (queue : List ℕ)
    → all_ready blocks todo ≡ true
    → AllFresh ranges todo
    → Distinct ranges
    → Started blocks todo ranges queue
unfolding backtrace_blocks backtrace_block all_ready is_number
backtrace_blocks-Started blocks [] ranges queue h f d = record {
  then_ranges = ranges;
  then_queue = queue;
  runs = refl;
  know = tt;
  is_distinct = d;
  others = λ n k. refl;
  queue_keeps = λ a. ground arith;
  queue_from = λ a. ground arith;
  entry = λ n a. refl;
}
backtrace_blocks-Started blocks (b ∷ todo) ranges queue h ((size, e), f) d =
    let start =
      backtrace_instrs (record { block_size = size; value_ranges = [] }) (non_phi_reverse b) in
    let i =
      include_children-Included blocks b.number b.children b.instrs start (ground arith)
        (block-Covers size b (ground arith)) in
    let new = i.then_ranges in
    let next = if ltb 0 (length (get_entry_set new)) then add b.number queue else queue in
    Started-step blocks b todo ranges queue _ new e i.runs
      (record { covers = i.covers; phis = i.comes_in }) (ground arith)
      (backtrace_blocks-Started blocks todo (put_block_live_ranges ranges b.number new) next
        (ground arith) (AllFresh-put ranges b.number _ new todo e (ground arith) f)
        (Distinct-put ranges b.number _ new e i.covers.is_distinct d))
