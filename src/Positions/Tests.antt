-- ===== src/Positions/Tests.antt =====
-- The theorems about src/common/positions at concrete files.
use katara.Prelude.{◌≡◌, refl, arith, some, codes, [], ◌∷◌}
use katara.Positions.File.{
  Bytes, new_file, line_number_of_position, position_for, lines_with_numbers,
}
use katara.Positions.Lines.{line_number-newlines, position_for_exact}
use katara.Positions.FileSet.{LaidOut, add_file, file_at, file_at-add_file, next_file_start}

abbrev text : Bytes
text = codes "ab\n\ncd"

line_number-newlines_example : line_number_of_position (new_file "a.kat" 4 text) 8 ≡ 3
line_number-newlines_example = line_number-newlines "a.kat" 4 8 text (omega arith)

position_for_exact_example :
    position_for (new_file "a.kat" 4 text) 9 ≡ record { filename = "a.kat"; line = 3; column = 1 }
position_for_exact_example = position_for_exact "a.kat" 4 9 text (omega arith)

all_lines :
    lines_with_numbers (new_file "a.kat" 4 text) (record { first = 1; last = 3 })
    ≡ codes "ab" ∷ [] ∷ codes "cd" ∷ []
unfolding lines_with_numbers new_file
all_lines = refl

one_file-LaidOut : LaidOut 1 (new_file "a.kat" 1 text ∷ [])
unfolding new_file
one_file-LaidOut = (refl, tt)

file_at-add_file_example :
    file_at (add_file (new_file "a.kat" 1 text ∷ []) "b.kat" text) 9
    ≡ some (new_file "b.kat" 9 text)
unfolding new_file next_file_start
file_at-add_file_example =
    file_at-add_file (new_file "a.kat" 1 text ∷ []) "b.kat" text 9 one_file-LaidOut
