-- ===== src/Liveness/Analyzer.antt =====
-- src/ir/analyzers/live_range_analyzer.cc.
use katara.Prelude.{ℕ, zero, suc, ltb, if◌then◌else◌, List, [], ◌∷◌, Option, some, none, length}
use katara.Prelude.Result.{Result, ok, err, undefined, ◌>>=◌}
use katara.Interference.Sets.{add, erase}
use katara.Liveness.Code.{
  Value, Instr, Block, defined_values, used_values, value_inherited_from, get_block, phi_args,
  non_phi_reverse,
}
use katara.Liveness.Ranges.{
  BlockLiveRanges, FuncLiveRanges, add_value_definition, add_value_use,
  propagate_backwards_from_exit_set, get_entry_set, new_func_live_ranges, get_block_live_ranges,
  put_block_live_ranges,
}

unfoldable pub add_definitions : BlockLiveRanges → ℕ → List ℕ → BlockLiveRanges
unfolding add_value_definition
add_definitions l i [] = l
add_definitions l i (v ∷ vs) = add_definitions (add_value_definition l v i) i vs

unfoldable pub add_uses : BlockLiveRanges → ℕ → List Value → BlockLiveRanges
unfolding add_value_use
add_uses l i [] = l
add_uses l i (Value.constant ∷ vs) = add_uses l i vs
add_uses l i (Value.computed v ∷ vs) = add_uses (add_value_use l v i) i vs

unfoldable pub backtrace_instrs : BlockLiveRanges → List (ℕ × Instr) → BlockLiveRanges
unfolding add_definitions add_uses defined_values used_values
backtrace_instrs l [] = l
backtrace_instrs l ((i, x) ∷ rest) =
    backtrace_instrs (add_uses (add_definitions l i (defined_values x)) i (used_values x)) rest

-- The values that the phi instructions of a child inherit from the block.
unfoldable pub include_phis : ℕ → List (List (ℕ × Value)) → BlockLiveRanges → Result BlockLiveRanges
unfolding value_inherited_from propagate_backwards_from_exit_set
include_phis bnum [] l = ok l
include_phis bnum (args ∷ phis) l = value_inherited_from args bnum >>= λ value. elim value [
  | Value.constant ↦ include_phis bnum phis l
  | Value.computed v ↦ include_phis bnum phis (propagate_backwards_from_exit_set l v)
]

unfoldable pub include_children : List Block → ℕ → List ℕ → BlockLiveRanges → Result BlockLiveRanges
unfolding get_block phi_args include_phis
include_children blocks bnum [] l = ok l
include_children blocks bnum (child ∷ children) l = elim (get_block blocks child) [
  | none ↦ err undefined
  | some b ↦
      (include_phis bnum (phi_args b.instrs) l >>= λ l'. include_children blocks bnum children l')
]

unfoldable pub backtrace_block : List Block → Block → BlockLiveRanges → Result BlockLiveRanges
unfolding backtrace_instrs non_phi_reverse include_children
backtrace_block blocks b l =
    include_children blocks b.number b.children (backtrace_instrs l (non_phi_reverse b))

-- The first loop, with the blocks whose entry sets have values; `todo` are the blocks that are left of all.
unfoldable pub backtrace_blocks :
    List Block → List Block → FuncLiveRanges → List ℕ → Result (FuncLiveRanges × List ℕ)
unfolding backtrace_block get_block_live_ranges put_block_live_ranges get_entry_set add
backtrace_blocks blocks [] ranges queue = ok (ranges, queue)
backtrace_blocks blocks (b ∷ todo) ranges queue = do
  old ← get_block_live_ranges ranges b.number
  l ← backtrace_block blocks b old
  let next = if ltb 0 (length (get_entry_set l)) then add b.number queue else queue
  backtrace_blocks blocks todo (put_block_live_ranges ranges b.number l) next

unfoldable pub propagate_all : List ℕ → BlockLiveRanges → BlockLiveRanges
unfolding propagate_backwards_from_exit_set
propagate_all [] l = l
propagate_all (v ∷ vs) l = propagate_all vs (propagate_backwards_from_exit_set l v)

-- The entry set is read anew for every parent, which may be the block itself.
unfoldable pub visit_parents :
    ℕ → List ℕ → FuncLiveRanges → List ℕ → Result (FuncLiveRanges × List ℕ)
unfolding get_block_live_ranges put_block_live_ranges get_entry_set propagate_all add
visit_parents bnum [] ranges queue = ok (ranges, queue)
visit_parents bnum (parent ∷ parents) ranges queue = do
  child ← get_block_live_ranges ranges bnum
  old ← get_block_live_ranges ranges parent
  let new = propagate_all (get_entry_set child) old
  let grown = ltb (length (get_entry_set old)) (length (get_entry_set new))
  visit_parents bnum parents (put_block_live_ranges ranges parent new)
      (if grown then add parent queue else queue)

-- The loop over the queue, of which any element may be the first.
-- What `begin` of the queue gives. The hash table leaves the order of its elements open, so this is the element at any
-- index, and the last where there is none at that index.
unfoldable pub begin : ℕ → ℕ → List ℕ → ℕ
begin zero x rest = x
begin (suc k) x [] = x
begin (suc k) x (y ∷ rest) = begin k y rest

-- `pick` gives the index from the number of steps left and the queue.
unfoldable pub drain :
    (ℕ → List ℕ → ℕ) → ℕ → List Block → FuncLiveRanges → List ℕ → Option (Result FuncLiveRanges)
unfolding get_block visit_parents erase begin
drain pick fuel blocks ranges [] = some (ok ranges)
drain pick zero blocks ranges (x ∷ queue) = none
drain pick (suc fuel) blocks ranges (x ∷ queue) =
    let bnum = begin (pick fuel (x ∷ queue)) x queue in
    elim (get_block blocks bnum) [
      | none ↦ some (err undefined)
      | some b ↦ elim (visit_parents bnum b.parents ranges (erase bnum (x ∷ queue))) [
        | err e ↦ some (err e)
        | ok next ↦ drain pick fuel blocks next.0 next.1
      ]
    ]

unfoldable pub find_live_ranges_for_func :
    (ℕ → List ℕ → ℕ) → ℕ → List Block → Option (Result FuncLiveRanges)
unfolding new_func_live_ranges backtrace_blocks drain
find_live_ranges_for_func pick fuel blocks =
    elim (backtrace_blocks blocks blocks (new_func_live_ranges blocks) []) [
      | err e ↦ some (err e)
      | ok next ↦ drain pick fuel blocks next.0 next.1
    ]
