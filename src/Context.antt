-- ===== src/Context.antt =====
-- frontend/src/utils/terminalContext.ts: the text of a terminal's buffer. What an xterm object holds is an
-- argument: the lines of the active buffer, each `none` where `getLine` returns nothing.
pub mod Cap
pub mod Tests
use pair_admin.Base.{
  ℕ, ◌+◌, ◌-◌, Option, none, some, List, [], ◌∷◌, Text, codes, length, drop, join, trim_end, ℤ, pos,
  negsuc,
}

-- `Math.max(0, length - maxLines)`
abbrev start_line : ℕ → Option ℤ → ℕ
start_line len none = 0
start_line len (some (pos n)) = len - n
start_line len (some (negsuc n)) = len + (n + 1)

-- The lines that `getLine` returns.
abbrev pub present : List (Option Text) → List Text
present [] = []
present (none ∷ ls) = present ls
present (some l ∷ ls) = l ∷ present ls

-- On the lines of the active buffer, if there is a terminal and it has a buffer.
unfoldable pub read_terminal_lines : Option (List (Option Text)) → Option ℤ → Text
read_terminal_lines none max_lines = []
read_terminal_lines (some buf) max_lines =
    trim_end (join (codes "\n") (present (drop (start_line (length buf) max_lines) buf)))
