-- ===== src/Chat/Messages.antt =====
-- A message of a tab, and its text without the cursor.
use pair_admin.Base.{ℕ, ◌≡◌, refl, ap, Option, [], ◌∷◌, ◌++◌, Text, find}
use pair_admin.Chat.{ChatMessage, ChatState, messages_of, has_id, cursor, strip_cons, strip_cursor}

-- The message that `find` returns for an id.
abbrev pub find_message : Text → Text → ChatState → Option ChatMessage
find_message tab id s = find (has_id id) (messages_of s tab)

pub strip_cursor-append : (t : Text) → strip_cursor (t ++ cursor ∷ []) ≡ t
unfolding strip_cursor
strip_cursor-append [] = refl
strip_cursor-append (c ∷ t) = strip_cons-append c t
  where
    strip_cons-append : (c : ℕ) (t : Text) → strip_cons c (t ++ cursor ∷ []) ≡ c ∷ t
    strip_cons-append c [] = refl
    strip_cons-append c (d ∷ t) = ap (c ∷◌) (strip_cons-append d t)
