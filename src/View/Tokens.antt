-- ===== src/View/Tokens.antt =====
-- The token count in the status bar.
use pair_admin.Base.{
  ℕ, ◌≡◌, refl, Bool, true, false, Option, some, List, [], ◌∷◌, ◌++◌, Text, arith, any, or_else,
  modify_first, eq_refl,
}
use pair_admin.Chat.{
  ChatMessage, ChatState, has_id, finalized, finalize_message, strip_cursor, estimate_tokens,
}
use pair_admin.View.{last_count, last_token_count}

last_count-append :
    (ms : List ChatMessage) (m : ChatMessage) (n : ℕ)
    → m.token_count ≡ some n
    → last_count (ms ++ m ∷ []) ≡ some n
unfolding last_count
last_count-append [] m n h = h
last_count-append (l ∷ ms) m n h = rw (last_count-append ms m n h) refl

modify_first-last :
    (p : ChatMessage → Bool) (f : ChatMessage → ChatMessage) (ms : List ChatMessage)
    (m : ChatMessage)
    → any p ms ≡ false
    → p m ≡ true
    → modify_first p f (ms ++ m ∷ []) ≡ ms ++ f m ∷ []
modify_first-last p f [] m h k = ground arith
modify_first-last p f (l ∷ ms) m h k = ground (arith, modify_first-last p f ms m)

-- When the last message of a tab is finished, with an id that no earlier one has, the status bar of that
-- tab shows its token count: the one given, or the estimate of its text without the cursor.
pub last_token_count-finalize_message :
    (tab id : Text) (count : Option ℕ) (ms : List ChatMessage) (m : ChatMessage) (s : ChatState)
    → s.messages_by_tab tab ≡ some (ms ++ m ∷ [])
    → any (has_id id) ms ≡ false
    → m.id ≡ id
    → last_token_count tab (finalize_message tab id count s)
      ≡ some (or_else count (estimate_tokens (strip_cursor m.content)))
unfolding finalize_message last_token_count
last_token_count-finalize_message tab id count ms m s h fresh same =
    let is_it : has_id id m ≡ true = rw same (eq_refl id) in
    rw
      (
        h,
        finalize_message,
        eq_refl tab,
        modify_first-last (has_id id) (finalized count) ms m fresh is_it,
      )
      (last_count-append ms (finalized count m) _ refl)
