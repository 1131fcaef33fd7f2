-- ===== src/Stream/Messages.antt =====
-- The messages of every tab while a response is delivered.
use pair_admin.Base.{
  ℕ, zero, suc, ◌≡◌, refl, true, false, Bool, Option, none, some, List, [], ◌∷◌, ◌++◌, Text, arith,
  eq_refl, eq_iff, find, modify_first, if◌then◌else◌, ◌==◌, Option-cases, Bool-cases, inl, inr,
  append-nil, ◌∙◌, subst,
}
use pair_admin.Chat.{
  Role, ChatMessage, ChatState, messages_of, message, has_id, cursor, append_text, finalized,
  estimate_tokens, strip_cursor, start_streaming_message, append_chunk, finalize_message,
}
use pair_admin.Chat.Messages.{find_message, strip_cursor-append}
use pair_admin.Stream.Order.{delivered}

-- The first p chunks, joined.
abbrev pub transcript : (ℕ → Text) → ℕ → Text
transcript script zero = []
transcript script (suc p) = transcript script p ++ script p

modify_first-append {ℓ} :
    {A : Type ℓ} (p : A → Bool) (f : A → A) (xs ys : List A)
    → find p xs ≡ none
    → modify_first p f (xs ++ ys) ≡ xs ++ modify_first p f ys
modify_first-append p f [] ys h = refl
modify_first-append p f (x ∷ xs) ys h = ground (arith, modify_first-append p f xs ys)

module _ (tab id : Text) (s : ChatState) where
  messages_of-start :
      messages_of (start_streaming_message id tab s) tab
      ≡ messages_of s tab ++ message id Role.assistant [] true ∷ []
  unfolding start_streaming_message
  messages_of-start = rw (eq_refl tab) refl

  messages_of-append_chunk :
      (text : Text)
      → messages_of (append_chunk tab id text s) tab
        ≡ modify_first (has_id id) (append_text text) (messages_of s tab)
  unfolding append_chunk
  messages_of-append_chunk text = elim (Option-cases (s.messages_by_tab tab)) [
    | inl e ↦ rw (e, append_chunk, e) refl
    | inr (ms, e) ↦ rw (e, append_chunk, eq_refl tab) refl
  ]

  messages_of-finalize_message :
      (count : Option ℕ)
      → messages_of (finalize_message tab id count s) tab
        ≡ modify_first (has_id id) (finalized count) (messages_of s tab)
  unfolding finalize_message
  messages_of-finalize_message count = elim (Option-cases (s.messages_by_tab tab)) [
    | inl e ↦ rw (e, finalize_message, e) refl
    | inr (ms, e) ↦ rw (e, finalize_message, eq_refl tab) refl
  ]

  -- The other tabs are left as they are.
  start-other :
      (other : Text)
      → (tab == other) ≡ false
      → messages_of (start_streaming_message id tab s) other ≡ messages_of s other
  unfolding start_streaming_message
  start-other other h = rw h refl

  append_chunk-other :
      (text other : Text)
      → (tab == other) ≡ false
      → messages_of (append_chunk tab id text s) other ≡ messages_of s other
  unfolding append_chunk
  append_chunk-other text other h = elim (Option-cases (s.messages_by_tab tab)) [
    | inl e ↦ rw (e, append_chunk) refl
    | inr (ms, e) ↦ rw (e, append_chunk, h) refl
  ]

  finalize_message-other :
      (count : Option ℕ) (other : Text)
      → (tab == other) ≡ false
      → messages_of (finalize_message tab id count s) other ≡ messages_of s other
  unfolding finalize_message
  finalize_message-other count other h = elim (Option-cases (s.messages_by_tab tab)) [
    | inl e ↦ rw (e, finalize_message) refl
    | inr (ms, e) ↦ rw (e, finalize_message, h) refl
  ]

module _ (script : ℕ → Text) (id tab : Text) (s : ChatState) where
  delivered-messages :
      (p : ℕ)
      → find_message tab id s ≡ none
      → messages_of (delivered script id tab s (suc p)) tab
        ≡ messages_of s tab
          ++ message id Role.assistant (transcript script (suc p) ++ cursor ∷ []) true ∷ []
  unfolding delivered strip_cursor
  delivered-messages zero h =
      rw
        (
          messages_of-append_chunk tab id (start_streaming_message id tab s) (script 0),
          messages_of-start tab id s,
          modify_first-append (has_id id) (append_text (script 0)) (messages_of s tab)
              (message id Role.assistant [] true ∷ []) h,
          eq_refl id,
        )
        refl
  delivered-messages (suc p) h =
      let m = message id Role.assistant (transcript script (suc p) ++ cursor ∷ []) true in
      rw
        (
          messages_of-append_chunk tab id (delivered script id tab s (suc p)) (script (suc p)),
          delivered-messages p h,
          modify_first-append (has_id id) (append_text (script (suc p))) (messages_of s tab)
              (m ∷ []) h,
          eq_refl id,
        )
        (rw (strip_cursor-append (transcript script (suc p))))

  delivered-other :
      (p : ℕ) (other : Text)
      → (tab == other) ≡ false
      → messages_of (delivered script id tab s (suc p)) other ≡ messages_of s other
  unfolding delivered
  delivered-other zero other h =
      append_chunk-other tab id (start_streaming_message id tab s) (script 0) other h
      ∙ start-other tab id s other h
  delivered-other (suc p) other h =
      append_chunk-other tab id (delivered script id tab s (suc p)) (script (suc p)) other h
      ∙ delivered-other p other h

  -- The message as it stands at the end.
  abbrev pub complete : ℕ → ChatMessage
  complete p =
      let content = transcript script (suc p) in
      record (message id Role.assistant content false) {
        token_count = some (estimate_tokens content);
      }

  -- One message more in its tab, behind the others, and none in any other tab.
  pub finalized-messages :
      (p : ℕ) (other : Text)
      → find_message tab id s ≡ none
      → messages_of (finalize_message tab id none (delivered script id tab s (suc p))) other
        ≡ messages_of s other ++ (if tab == other then complete p ∷ [] else [])
  finalized-messages p other h = elim (Bool-cases (tab == other)) [
    | inl same ↦ rw same (
        subst
          (λ o.
            messages_of (finalize_message tab id none (delivered script id tab s (suc p))) o
            ≡ messages_of s o ++ complete p ∷ [])
          ((eq_iff tab other).0 same) own)
    | inr apart ↦
        rw (apart, append-nil)
          (finalize_message-other tab id (delivered script id tab s (suc p)) none other apart
            ∙ delivered-other p other apart)
  ]
    where
      own :
          messages_of (finalize_message tab id none (delivered script id tab s (suc p))) tab
          ≡ messages_of s tab ++ complete p ∷ []
      own =
          let m = message id Role.assistant (transcript script (suc p) ++ cursor ∷ []) true in
          rw
            (
              messages_of-finalize_message tab id (delivered script id tab s (suc p)) none,
              delivered-messages p h,
              modify_first-append (has_id id) (finalized none) (messages_of s tab) (m ∷ []) h,
              eq_refl id,
              strip_cursor-append (transcript script (suc p)),
            )
            refl
