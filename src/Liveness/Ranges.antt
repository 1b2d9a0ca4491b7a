-- ===== src/Liveness/Ranges.antt =====
-- src/ir/info/block_live_ranges.cc and func_live_ranges.cc. An instruction is named by its index in the
-- block; the block is there through its number of instructions.
use katara.Prelude.{
  ℕ, Bool, true, false, not, ◌&&◌, leb, ltb, ◌==◌, if◌then◌else◌, List, [], ◌∷◌, Option, some, none,
  length,
}
use katara.Prelude.Result.{Result, ok, err, bad_access}
use katara.Liveness.Code.{Block}

pub record ValueRange : Type 0 where
  pub start_instr : Option ℕ
  pub end_instr : Option ℕ

abbrev pub Ranges : Type 0
Ranges = List (ℕ × ValueRange)

pub record BlockLiveRanges : Type 0 where
  pub block_size : ℕ
  pub value_ranges : Ranges

abbrev pub is_null : Option ℕ → Bool
is_null none = true
is_null (some i) = false

-- `value_ranges_.find`.
unfoldable pub find_range : Ranges → ℕ → Option ValueRange
find_range [] v = none
find_range ((k, r) ∷ rest) v = if k == v then some r else find_range rest v

-- Assignment to a part of the range of a value that is there.
unfoldable pub put_range : Ranges → ℕ → ValueRange → Ranges
put_range [] v r = []
put_range ((k, old) ∷ rest) v r = if k == v then (k, r) ∷ rest else (k, old) ∷ put_range rest v r

unfoldable pub has_value : BlockLiveRanges → ℕ → Bool
unfolding find_range
has_value l v = elim (find_range l.value_ranges v) [ none ↦ false | some r ↦ true ]

unfoldable pub has_value_definition : BlockLiveRanges → ℕ → Bool
unfolding find_range
has_value_definition l v = elim (find_range l.value_ranges v) [
  | none ↦ false
  | some r ↦ not (is_null r.start_instr)
]

unfoldable pub add_value_definition : BlockLiveRanges → ℕ → ℕ → BlockLiveRanges
unfolding find_range put_range
add_value_definition l v i = elim (find_range l.value_ranges v) [
  | some r ↦ record l {
    value_ranges = put_range l.value_ranges v (record r { start_instr = some i });
  }
  | none ↦ record l {
    value_ranges = (v, record { start_instr = some i; end_instr = some i }) ∷ l.value_ranges;
  }
]

-- `InstrsAreOrdered`: the index of an instruction that is not in the block is 0.
abbrev pub index_in : ℕ → ℕ → ℕ
index_in size i = if ltb i size then i else 0

unfoldable pub instrs_are_ordered : ℕ → ℕ → ℕ → Bool
instrs_are_ordered size a b = leb (index_in size a) (index_in size b)

unfoldable pub add_value_use : BlockLiveRanges → ℕ → ℕ → BlockLiveRanges
unfolding find_range put_range instrs_are_ordered
add_value_use l v i = elim (find_range l.value_ranges v) [
  | some r ↦ elim r.end_instr [
    | some e ↦
        if instrs_are_ordered l.block_size e i
        then record l {
          value_ranges = put_range l.value_ranges v (record r { end_instr = some i });
        }
        else l
    | none ↦ l
  ]
  | none ↦ record l {
    value_ranges = (v, record { start_instr = none; end_instr = some i }) ∷ l.value_ranges;
  }
]

unfoldable pub propagate_backwards_from_exit_set : BlockLiveRanges → ℕ → BlockLiveRanges
unfolding find_range put_range
propagate_backwards_from_exit_set l v = elim (find_range l.value_ranges v) [
  | some r ↦ record l { value_ranges = put_range l.value_ranges v (record r { end_instr = none }) }
  | none ↦ record l {
    value_ranges = (v, record { start_instr = none; end_instr = none }) ∷ l.value_ranges;
  }
]

unfoldable pub value_definition_of : BlockLiveRanges → ℕ → Option ℕ
unfolding find_range
value_definition_of l v = elim (find_range l.value_ranges v) [
  | none ↦ none
  | some r ↦ r.start_instr
]

unfoldable pub last_value_use_of : BlockLiveRanges → ℕ → Option ℕ
unfolding find_range
last_value_use_of l v = elim (find_range l.value_ranges v) [ none ↦ none | some r ↦ r.end_instr ]

unfoldable pub entry_values : Ranges → List ℕ
entry_values [] = []
entry_values ((v, r) ∷ rest) =
    let others = entry_values rest in if is_null r.start_instr then v ∷ others else others

unfoldable pub get_entry_set : BlockLiveRanges → List ℕ
unfolding entry_values
get_entry_set l = entry_values l.value_ranges

unfoldable pub exit_values : Ranges → List ℕ
exit_values [] = []
exit_values ((v, r) ∷ rest) =
    let others = exit_values rest in if is_null r.end_instr then v ∷ others else others

unfoldable pub get_exit_set : BlockLiveRanges → List ℕ
unfolding exit_values
get_exit_set l = exit_values l.value_ranges

-- `InstrIsInRange`: a null start is the first instruction, a null end is behind the last.
abbrev pub index_or : ℕ → ℕ → Option ℕ → ℕ
index_or size default none = default
index_or size default (some i) = if ltb i size then i else default

unfoldable pub instr_is_in_range : ℕ → ℕ → ValueRange → Bool
instr_is_in_range size i r =
    leb (index_or size 0 r.start_instr) (index_in size i)
    && leb (index_in size i) (index_or size size r.end_instr)

unfoldable pub live_values : ℕ → ℕ → Ranges → List ℕ
unfolding instr_is_in_range
live_values size i [] = []
live_values size i ((v, r) ∷ rest) =
    let others = live_values size i rest in
    if instr_is_in_range size i r then v ∷ others else others

unfoldable pub get_live_set : BlockLiveRanges → ℕ → List ℕ
unfolding live_values
get_live_set l i = live_values l.block_size i l.value_ranges

abbrev pub FuncLiveRanges : Type 0
FuncLiveRanges = List (ℕ × BlockLiveRanges)

unfoldable pub new_func_live_ranges : List Block → FuncLiveRanges
new_func_live_ranges [] = []
new_func_live_ranges (b ∷ blocks) =
    (b.number, record { block_size = length b.instrs; value_ranges = [] })
    ∷ new_func_live_ranges blocks

unfoldable pub get_block_live_ranges : FuncLiveRanges → ℕ → Result BlockLiveRanges
get_block_live_ranges [] bnum = err bad_access
get_block_live_ranges ((k, l) ∷ rest) bnum =
    if k == bnum then ok l else get_block_live_ranges rest bnum

-- The reference that `GetBlockLiveRanges` returns is written through.
unfoldable pub put_block_live_ranges : FuncLiveRanges → ℕ → BlockLiveRanges → FuncLiveRanges
put_block_live_ranges [] bnum l = []
put_block_live_ranges ((k, old) ∷ rest) bnum l =
    if k == bnum then (k, l) ∷ rest else (k, old) ∷ put_block_live_ranges rest bnum l
