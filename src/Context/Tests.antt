-- ===== src/Context/Tests.antt =====
-- Reading a buffer of three lines.
use pair_admin.Base.{
  ◌≡◌, ◌++◌, refl, Option, none, some, List, [], ◌∷◌, Text, codes, pos, negsuc, trim_end, join,
  is_space, map,
}
use pair_admin.Context.{read_terminal_lines}
use pair_admin.Context.Cap.{read-cap}

abbrev prompt : List (Option Text)
prompt = some (codes "$ ls") ∷ []

abbrev output : List (Option Text)
output = some (codes "a.txt") ∷ none ∷ some (codes "  ") ∷ []

read-cap_example :
    (read_terminal_lines (some (prompt ++ output)) (some (pos 3))
      ≡ read_terminal_lines (some output) none)
    × (read_terminal_lines (some output) (some (pos 5)) ≡ read_terminal_lines (some output) none)
    × (read_terminal_lines (some (map some (codes "a" ∷ codes "b c" ∷ []))) none
        ≡ join (codes "\n") (codes "a" ∷ codes "b c" ∷ []))
    × (trim_end (read_terminal_lines (some output) none) ≡ read_terminal_lines (some output) none)
unfolding is_space
read-cap_example = read-cap prompt output 3 2 (codes "a" ∷ []) (codes "b ") b'c' refl refl

test_read : read_terminal_lines (some (prompt ++ output)) none ≡ codes "$ ls\na.txt"
unfolding read_terminal_lines join trim_end is_space
test_read = refl

test_negative : read_terminal_lines (some (prompt ++ output)) (some (negsuc 4)) ≡ []
unfolding read_terminal_lines join trim_end is_space
test_negative = refl
