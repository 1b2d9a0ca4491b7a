-- ===== src/Positions/File.antt =====
-- src/common/positions/positions.h and .cc: `File`. The contents are a list of bytes, positions and
-- line numbers are numbers (`uint64_t` in the code; they stay below the sizes of the files that are
-- held in memory). Indices that the code has checked before it calls `at` are read with a default.
use katara.Prelude.{
  ℕ, zero, suc, ◌+◌, ◌-◌, Bool, ◌&&◌, ◌||◌, ltb, leb, ◌==◌, if◌then◌else◌, List, [], ◌∷◌, length,
  get_or, take, drop, String,
}

abbrev pub Bytes : Type 0
Bytes = List ℕ

pub record Range : Type 0 where
  pub start : ℕ
  pub end : ℕ

abbrev pub range : ℕ → ℕ → Range
range s e = record { start = s; end = e }

abbrev pub no_pos : ℕ
no_pos = 0

abbrev pub no_range : Range
no_range = range no_pos no_pos

abbrev pub no_line_number : ℕ
no_line_number = 0

-- The loop of the constructor, at the position of the byte that it reads.
unfoldable pub line_starts_after : ℕ → Bytes → List ℕ
line_starts_after i [] = []
line_starts_after i (c ∷ cs) =
    if c == b'\n' then (i + 1) ∷ line_starts_after (i + 1) cs else line_starts_after (i + 1) cs

-- `line_starts_` is never empty: `start` is its first entry and `later_line_starts` the others.
pub record File : Type 0 where
  pub name : String
  pub contents : Bytes
  pub start : ℕ
  pub later_line_starts : List ℕ

unfoldable pub new_file : String → ℕ → Bytes → File
unfolding line_starts_after
new_file name start contents = record {
  name = name;
  contents = contents;
  start = start;
  later_line_starts = line_starts_after start contents;
}

abbrev pub line_starts : File → List ℕ
line_starts f = f.start ∷ f.later_line_starts

-- For an empty file this is the position before its start.
abbrev pub end_of : File → ℕ
end_of f = f.start + length f.contents - 1

abbrev pub range_of : File → Range
range_of f = range f.start (end_of f)

unfoldable pub contents_of : File → Range → Bytes
contents_of f r =
    if ltb r.start f.start || ltb (end_of f) r.end || ltb r.end r.start
    then []
    else take (r.end - r.start + 1) (drop (r.start - f.start) f.contents)

unfoldable pub at : File → ℕ → ℕ
at f p = if ltb p f.start || ltb (end_of f) p then 0 else get_or f.contents (p - f.start) 0

-- The search loop, from the line with index `i`; `size` is what the code returns after the loop.
unfoldable pub find_line : ℕ → ℕ → ℕ → List ℕ → ℕ → ℕ
find_line size i line [] p = size
find_line size i line (next ∷ rest) p =
    if leb line p && ltb p next then i + 1 else find_line size (i + 1) next rest p

unfoldable pub line_number_of_position : File → ℕ → ℕ
unfolding find_line
line_number_of_position f p =
    if p == end_of f + 1
    then length (line_starts f)
    else if ltb p f.start || ltb (end_of f) p
    then no_line_number
    else find_line (length (line_starts f)) 0 f.start f.later_line_starts p

pub record LineRange : Type 0 where
  pub first : ℕ
  pub last : ℕ

unfoldable pub line_numbers_of_range : File → Range → LineRange
unfolding line_number_of_position
line_numbers_of_range f r =
    let s = line_number_of_position f r.start in
    let e = line_number_of_position f r.end in
    if s == no_line_number || e == no_line_number || ltb e s
    then record { first = no_line_number; last = no_line_number }
    else record { first = s; last = e }

unfoldable pub range_of_line_with_number : File → ℕ → Range
range_of_line_with_number f n =
    if ltb n 1 || ltb (length (line_starts f)) n
    then no_range
    else range (get_or (line_starts f) (n - 1) 0)
        (if ltb n (length (line_starts f)) then get_or (line_starts f) n 0 - 2 else end_of f)

unfoldable pub line_with_number : File → ℕ → Bytes
unfolding contents_of range_of_line_with_number
line_with_number f n = contents_of f (range_of_line_with_number f n)

-- `for (l = first; l <= last; l++)`, with `count` rounds left.
lines_from : File → ℕ → ℕ → List Bytes
lines_from f zero l = []
lines_from f (suc count) l = line_with_number f l ∷ lines_from f count (l + 1)

unfoldable pub lines_with_numbers : File → LineRange → List Bytes
unfolding lines_from line_with_number
lines_with_numbers f r = lines_from f (r.last + 1 - r.first) r.first

pub record Position : Type 0 where
  pub filename : String
  pub line : ℕ
  pub column : ℕ

abbrev pub no_position : Position
no_position = record { filename = ""; line = no_line_number; column = 0 }

abbrev pub is_valid : Position → Bool
is_valid p = ltb 0 p.line

unfoldable pub position_for : File → ℕ → Position
position_for f p =
    let line = line_number_of_position f p in
    if line == no_line_number
    then no_position
    else record { filename = f.name; line = line; column = p - get_or (line_starts f) (line - 1) 0 }
