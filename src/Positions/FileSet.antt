-- ===== src/Positions/FileSet.antt =====
-- src/common/positions: `FileSet`, the files in the order in which they were added, and the layout
-- of their positions.
use katara.Prelude.{
  ℕ, ◌+◌, ◌≤◌, ◌&&◌, leb, if◌then◌else◌, List, [], ◌∷◌, ◌++◌, length, String, ◌≡◌, refl, arith,
  Option, some, none,
}
use katara.Positions.File.{
  Bytes, File, new_file, end_of, no_pos, Position, no_position, position_for,
}

abbrev pub FileSet : Type 0
FileSet = List File

unfoldable pub file_at : FileSet → ℕ → Option File
file_at [] p = none
file_at (f ∷ fs) p = if leb f.start p && leb p (end_of f + 1) then some f else file_at fs p

unfoldable pub position_in : FileSet → ℕ → Position
position_in fs p = elim (file_at fs p) [ some f ↦ position_for f p | none ↦ no_position ]

-- `files_.back()->end() + 3`.
unfoldable pub next_file_start : FileSet → ℕ
next_file_start [] = no_pos + 1
next_file_start (f ∷ []) = end_of f + 3
next_file_start (f ∷ (g ∷ fs)) = next_file_start (g ∷ fs)

unfoldable pub add_file : FileSet → String → Bytes → FileSet
add_file fs name contents = fs ++ (new_file name (next_file_start fs) contents ∷ [])

-- The files follow one another with two positions between the end of one, counted as the position
-- behind its last byte, and the start of the next.
abbrev pub LaidOut : ℕ → FileSet → Type 0
LaidOut n [] = Unit {0}
LaidOut n (f ∷ fs) = (f.start ≡ n) × LaidOut (f.start + length f.contents + 2) fs

-- The start of the next file, where `n` is that of the first.
next_after : ℕ → FileSet → ℕ
next_after n [] = n
next_after n (f ∷ fs) = next_after (f.start + length f.contents + 2) fs

next_after-next_file_start :
    (f : File) (fs : FileSet) (n : ℕ)
    → 1 ≤ n
    → LaidOut n (f ∷ fs)
    → next_file_start (f ∷ fs) ≡ next_after n (f ∷ fs)
unfolding next_file_start next_after
next_after-next_file_start f [] n h l = omega arith
next_after-next_file_start f (g ∷ fs) n h l =
    next_after-next_file_start g fs (f.start + length f.contents + 2) (omega arith) l.1

next_after-first : (fs : FileSet) → LaidOut 1 fs → next_file_start fs ≡ next_after 1 fs
unfolding next_file_start next_after
next_after-first [] l = refl
next_after-first (f ∷ fs) l = next_after-next_file_start f fs 1 (omega arith) l

LaidOut-append :
    (fs : FileSet) (n : ℕ) (f : File)
    → LaidOut n fs
    → f.start ≡ next_after n fs
    → LaidOut n (fs ++ f ∷ [])
unfolding next_after
LaidOut-append [] n f l e = (e, tt)
LaidOut-append (g ∷ fs) n f l e = (l.0, LaidOut-append fs _ f l.1 e)

-- Adding a file to a well laid out set gives a well laid out set.
pub add_file-LaidOut :
    (fs : FileSet) (name : String) (contents : Bytes)
    → LaidOut 1 fs
    → LaidOut 1 (add_file fs name contents)
unfolding add_file new_file
add_file-LaidOut fs name contents l = LaidOut-append fs 1 _ l (next_after-first fs l)

file_at-append :
    (fs : FileSet) (n p : ℕ) (f : File)
    → 1 ≤ n
    → LaidOut n fs
    → f.start ≡ next_after n fs
    → (n ≤ f.start)
      × (file_at (fs ++ f ∷ []) p
          ≡ (if leb f.start p && leb p (f.start + length f.contents) then some f else file_at fs p))
unfolding next_after file_at
file_at-append [] n p f h l e = (omega arith, ground arith)
file_at-append (g ∷ fs) n p f h l e =
    let (above, found) =
      file_at-append fs (g.start + length g.contents + 2) p f (omega arith) l.1 e in
    (omega arith, ground arith)

-- After a file was added to a well laid out set, `FileAt` finds it at every position from its start
-- to the one behind its last byte, and at every other position what it found before.
pub file_at-add_file :
    (fs : FileSet) (name : String) (contents : Bytes) (p : ℕ)
    → LaidOut 1 fs
    → file_at (add_file fs name contents) p ≡ (
        if leb (next_file_start fs) p && leb p (next_file_start fs + length contents)
        then some (new_file name (next_file_start fs) contents)
        else file_at fs p)
unfolding add_file new_file
file_at-add_file fs name contents p l =
    (file_at-append fs 1 p (new_file name (next_file_start fs) contents) (omega arith) l
      (next_after-first fs l)).1
