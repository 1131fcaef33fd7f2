-- ===== src/Pane/Commands.antt =====
-- How single commands are read.
use pair_admin.Base.{
  ◌≡◌, refl, ap, sym, subst, All, ◌∙◌, true, false, Option, none, some, List, [], ◌∷◌, ◌++◌, Text,
  codes, ◌==◌, eq_iff, arith, nat_eq_iff, is_truthy, length, length-append, drop, starts_with,
  is_space, trim_start, trim_end, trim, trim_end_idem, trim_end-length, trim_end-append, Bool-cases,
  inl, inr,
}
use pair_admin.Chat.{add_user_message}
use pair_admin.Hotkey.{has}
use pair_admin.Terminal.{rename_tab}
use pair_admin.Pane.{
  PaneState, Draw, send_message, reply, rename_command, terminal_context, dispatch, handle_send,
}

starts_with-drop : (s p : Text) → starts_with s p ≡ true → s ≡ p ++ drop (length p) s
unfolding starts_with
starts_with-drop s [] h = refl
starts_with-drop [] (c ∷ p) h = ground arith
starts_with-drop (d ∷ s) (c ∷ p) h = ground (arith, nat_eq_iff d c, starts_with-drop s p)

trim_end_of_trim_start : (s : Text) → trim_end (trim_start s) ≡ [] → trim_end s ≡ []
unfolding trim_start trim_end
trim_end_of_trim_start [] h = refl
trim_end_of_trim_start (c ∷ s) h = ground (arith, trim_end_of_trim_start s)

trim-fixed : (s : Text) → trim_end (trim s) ≡ trim s
unfolding trim
trim-fixed s = trim_end_idem (trim_start s)

trim_end-space : (rest : Text) → trim_end rest ≡ [] → trim_end (32 ∷ rest) ≡ []
unfolding trim_end is_space
trim_end-space rest h = ground arith

empty_of_not_truthy : (t : Text) → is_truthy t ≡ false → t ≡ []
empty_of_not_truthy [] h = refl
empty_of_not_truthy (c ∷ t) h = absurd (ground arith)

-- Behind a word and a space there is an argument: a trimmed text does not end in the space.
argument_there :
    (word text rest : Text) → trim text ≡ word ++ 32 ∷ rest → is_truthy (trim rest) ≡ true
unfolding trim
argument_there word text rest h = elim (Bool-cases (is_truthy (trim rest))) [
  | inl there ↦ there
  | inr missing ↦
      let blank : trim_end rest ≡ [] =
        trim_end_of_trim_start rest (empty_of_not_truthy (trim rest) missing) in
      let same : word ++ 32 ∷ rest ≡ trim_end word =
        sym h
        ∙ sym (trim-fixed text)
        ∙ ap trim_end h
        ∙ trim_end-append word (32 ∷ rest) (trim_end-space rest blank) in
      absurd (omega (arith, length-append word (32 ∷ rest), trim_end-length word, ap length same))
]

-- The commands that the help lists with an argument.
abbrev words_with_argument : List Text
words_with_argument = codes "/rename" ∷ codes "/model" ∷ codes "/theme" ∷ codes "/context" ∷ []

All-has {ℓ} :
    (P : Text → Type ℓ) (word : Text) (words : List Text)
    → All P words
    → has word words ≡ true
    → P word
All-has P word [] a h = absurd (ground arith)
All-has P word (w ∷ words) a h = elim (Bool-cases (w == word)) [
  | inl e ↦ subst P ((eq_iff w word).0 e) a.0
  | inr e ↦ All-has P word words a.1 (ground arith)
]

module _ {Term : Type 0} (lines_of : Term → Option (List (Option Text))) where
  dispatch-rename :
      (d : Draw) (tab text rest : Text) (s : PaneState Term)
      → dispatch lines_of d tab text (codes "/rename " ++ rest) s
        ≡ (rename_command d tab (trim rest) s, none)
  unfolding dispatch starts_with ◌==◌
  dispatch-rename d tab text rest s = refl

  -- A text that reads "/rename " and more once it is trimmed always renames the active tab, to an
  -- argument that is not empty, and says so: the handler never answers it with its usage.
  pub rename_named :
      (d : Draw) (tab text : Text) (s : PaneState Term)
      → starts_with (trim text) (codes "/rename ") ≡ true
      → let label = trim (drop 8 (trim text)) in
        (handle_send lines_of d tab text s ≡ (
          reply d tab (codes "Tab renamed to " ++ label) (record s {
            chat = add_user_message d.user_id tab text s.chat;
            terminals = rename_tab tab label s.terminals;
          }),
          none,
        ))
        × (is_truthy label ≡ true)
  unfolding handle_send
  rename_named d tab text s h =
      let e : trim text ≡ codes "/rename " ++ drop 8 (trim text) =
        starts_with-drop (trim text) (codes "/rename ") h in
      let there : is_truthy (trim (drop 8 (trim text))) ≡ true =
        argument_there (codes "/rename") text (drop 8 (trim text)) e in
      let s0 : PaneState Term = record s { chat = add_user_message d.user_id tab text s.chat } in
      (
        ap (λ t. dispatch lines_of d tab text t s0) e
            ∙ dispatch-rename d tab text (drop 8 (trim text)) s0
            ∙ rw there refl,
        there,
      )

  IsSent : Draw → Text → Text → PaneState Term → Text → Type 0
  IsSent d tab text s word =
      (dispatch lines_of d tab text word s).1
      ≡ some (send_message tab text (terminal_context lines_of tab s))

  words-IsSent :
      (d : Draw) (tab text : Text) (s : PaneState Term)
      → All (IsSent d tab text s) words_with_argument
  unfolding IsSent dispatch starts_with ◌==◌
  words-IsSent d tab text s = (refl, (refl, (refl, (refl, tt))))

  -- "/rename", "/model", "/theme" or "/context" without an argument, with any white space around
  -- it, is no command to the handler: it goes to the model as a question, with the terminal's
  -- text.
  pub bare_word_sent :
      (d : Draw) (tab text : Text) (s : PaneState Term)
      → has (trim text) words_with_argument ≡ true
      → (handle_send lines_of d tab text s).1
        ≡ some (send_message tab text (terminal_context lines_of tab s))
  unfolding handle_send IsSent
  bare_word_sent d tab text s h =
      All-has (IsSent d tab text s0) (trim text) words_with_argument (words-IsSent d tab text s0) h
    where
      s0 : PaneState Term
      s0 = record s { chat = add_user_message d.user_id tab text s.chat }
